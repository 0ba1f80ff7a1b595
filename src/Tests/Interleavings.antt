-- ===== src/Tests/Interleavings.antt =====
-- Several processes on one Redis, and several workers on one queue, at concrete inputs.
use lychee_facial_recognitio.Prelude.{ℕ, ◌+◌, ◌≤◌, ◌≡◌, refl, true, [], ◌∷◌, length, total, arith}
use lychee_facial_recognitio.Async.{returned, raised}
use lychee_facial_recognitio.JobQueue
use lychee_facial_recognitio.JobQueue.{Job, Queue}
use lychee_facial_recognitio.JobQueue.Protocol.{Request, Reply, serve}
use lychee_facial_recognitio.Worker.Team
use lychee_facial_recognitio.Worker.Team.{Team, Stage, handling, finished}
use lychee_facial_recognitio.Worker.Shares.{handles}
use lychee_facial_recognitio.Worker.Exclusive.{IsQuiet, workers-AreExclusive}
use lychee_facial_recognitio.RedisQueue.{Redis, call, enqueue_if_idle}
use lychee_facial_recognitio.RedisQueue.Refinement.{IsValid}
use lychee_facial_recognitio.RedisQueue.Commands.{answered, to_track, to_number, to_push, advance}
use lychee_facial_recognitio.RedisQueue.Interleaved.{System, Reach, here, later, turn, boot, idle}
use lychee_facial_recognitio.JobQueue.Occurrences.{occurrences}
use lychee_facial_recognitio.RedisQueue.Interleaved.Safe.{interleaved-IsSafe}

abbrev empty : Redis
empty = record { jobs = []; inflight = []; counter = 0 }

empty-IsValid : IsValid empty
empty-IsValid = record { below = 0; keyed = tt; rises = omega arith }

abbrev job_of : ℕ → Job
job_of id = record { id = id; job_type = "detect"; photo_id = "p"; payload = "" }

abbrev detection : Request
detection = Request.enqueue "detect" "p" ""

-- Two processes find room for one job, and each pushes one.
abbrev full : System
full = record {
  redis = record { jobs = job_of 1 ∷ job_of 2 ∷ []; inflight = []; counter = 2 };
  processes = answered (Reply.accepted true) ∷ answered (Reply.accepted true) ∷ [];
  handed = [];
}

both_push : Reach 1 (boot 2 empty) full
unfolding advance
both_push =
    later
      (later
        (later
          (later
            (later (later here (turn detection [] (idle ∷ []) idle refl))
              (turn detection (to_number "detect" "p" "" ∷ []) [] idle refl))
            (turn detection [] (to_number "detect" "p" "" ∷ []) (to_number "detect" "p" "") refl))
          (turn detection (to_push (job_of 1) ∷ []) [] (to_number "detect" "p" "") refl))
        (turn detection [] (to_push (job_of 2) ∷ []) (to_push (job_of 1)) refl))
      (turn detection (answered (Reply.accepted true) ∷ []) [] (to_push (job_of 2)) refl)

interleaved-IsSafe_example : (length full.redis.jobs ≤ 1 + 1) × (occurrences 1 full.handed ≤ 1)
interleaved-IsSafe_example =
    interleaved-IsSafe 1 1 1 empty (omega arith) empty-IsValid (omega arith) both_push

abbrev one_job : Redis
one_job = record { jobs = job_of 1 ∷ []; inflight = []; counter = 1 }

abbrev popped : Redis
popped = record { jobs = []; inflight = []; counter = 1 }

-- Between LPOP and HSET the job is in neither key, and the queue passes for idle.
taken : advance 1 Request.dequeue idle one_job ≡ (to_track (job_of 1), popped)
unfolding advance
taken = refl

overlooked :
    (advance 1 (Request.enqueue_if_idle "detect" "p" "") idle popped).0
    ≡ answered (Reply.accepted true)
unfolding advance call enqueue_if_idle
overlooked = refl

-- Two workers take a job each, and the first one's handler raises while a request purges the queue.
abbrev two_jobs : Queue
two_jobs = record { inflight = []; pending = job_of 1 ∷ job_of 2 ∷ job_of 3 ∷ []; next_id = 4 }

abbrev at_work : Team
at_work = record {
  queue = record { inflight = job_of 2 ∷ []; pending = []; next_id = 4 };
  stages = Stage.waiting ∷ handling (job_of 2) ∷ [];
}

both_work : Team.Reach 5 true (record { queue = two_jobs; stages = Team.waiting_workers 2 }) at_work
unfolding Team.advance JobQueue.dequeue JobQueue.complete serve JobQueue.purge
both_work =
    Team.later
      (Team.later
        (Team.later
          (Team.later Team.here
            (Team.work (returned tt) finished [] (Stage.waiting ∷ []) Stage.waiting refl))
          (Team.work (returned tt) finished (handling (job_of 1) ∷ []) [] Stage.waiting refl))
        (Team.ask Request.purge tt))
      (Team.work raised finished [] (handling (job_of 2) ∷ []) (handling (job_of 1)) refl)

workers-AreExclusive_example :
    (total (handles 2) at_work.stages ≤ 1)
    × (total (handles 2) at_work.stages ≤ occurrences 2 at_work.queue.inflight)
    × IsQuiet (JobQueue.enqueue_if_idle "cluster" "" "{}" at_work.queue).0 at_work.stages
workers-AreExclusive_example =
    workers-AreExclusive 5 true 2 1 2 two_jobs "cluster" "" "{}"
      (omega arith, (omega arith, (omega arith, omega arith))) both_work
