-- ===== src/Worker/Shares.antt =====
-- What the `await` of one worker, or a request, keeps of the jobs that the workers share.
use lychee_facial_recognitio.Prelude.{
  ℕ, ◌+◌, ◌≤◌, String, Bool, true, false, List, [], ◌∷◌, length, length-append, arith,
}
use lychee_facial_recognitio.Async.{Signal, returned, raised, cancelled}
use lychee_facial_recognitio.JobQueue
use lychee_facial_recognitio.JobQueue.{Job, Queue, other_than, new_job}
use lychee_facial_recognitio.JobQueue.Protocol.{Request, serve}
use lychee_facial_recognitio.JobQueue.Occurrences.{
  same, occurrences, occurrences-append, occurrences-filter, length-other_than, given,
}
use lychee_facial_recognitio.Worker.Team.{
  Stage, waiting, stopped, handling, following, Fate, finished, failed, interrupted, effect, onward,
  picked, handled, dispatch, advance, IsFromClient,
}

-- Whether a worker handles a job, and the job with an id.
abbrev pub busy : Stage → ℕ
busy (handling job) = 1
busy _ = 0

abbrev pub handles : ℕ → Stage → ℕ
handles k (handling job) = same k job
handles k _ = 0

-- An id is in the queue once at most.
abbrev pub IsOnce : ℕ → Queue → Type 0
IsOnce k q = occurrences k q.inflight + occurrences k q.pending ≤ given k q.next_id

-- What the stage of one worker and the queue keep for an id, where the others handle `others` jobs with
-- the id, and `team` jobs in all.
abbrev pub Shares : ℕ → ℕ → ℕ → Stage × Queue → Type 0
Shares k others team (stage, q) =
    IsOnce k q
    × (handles k stage + others ≤ occurrences k q.inflight)
    × (busy stage + team ≤ length q.inflight)

push-IsOnce :
    (k : ℕ) (q : Queue) (job_type photo_id payload : String)
    → IsOnce k q
    → IsOnce k (JobQueue.push q job_type photo_id payload)
unfolding JobQueue.push
push-IsOnce k q job_type photo_id payload h =
    let job = new_job q job_type photo_id payload in
    ground (arith, occurrences-append k q.pending (job ∷ []))

complete-IsOnce : (k job_id : ℕ) (q : Queue) → IsOnce k q → IsOnce k (JobQueue.complete job_id q)
unfolding JobQueue.complete
complete-IsOnce k job_id q h =
    ground (arith, occurrences-filter k job_id q.inflight, occurrences-filter k job_id q.pending)

-- The jobs of the others are still in flight when a job is completed.
complete-Shares :
    (k others team : ℕ) (job : Job) (q : Queue)
    → IsOnce job.id q
    → Shares k others team (handling job, q)
    → Shares k others team (waiting, JobQueue.complete job.id q)
unfolding JobQueue.complete
complete-Shares k others team job q once (h, mine, all) = (
  complete-IsOnce k job.id q h,
  ground (arith, occurrences-filter k job.id q.inflight),
  ground (arith, length-other_than job.id q.inflight),
)

dispatch-Shares :
    (k others team : ℕ) (auto : Bool) (job : Job) (q : Queue)
    → Shares k others team (waiting, q)
    → Shares k others team (waiting, dispatch auto job q)
unfolding JobQueue.enqueue_if_idle JobQueue.push
dispatch-Shares k others team auto job q h = ground (arith, push-IsOnce k q "cluster" "" "{}" h.0)

-- A job that is handed out is in flight, for the worker that has got it or for nobody.
dequeue-Shares :
    (k others team : ℕ) (inflight pending : List Job) (next_id : ℕ)
    → let q : Queue = record { inflight = inflight; pending = pending; next_id = next_id } in
      let (job, q') = JobQueue.dequeue q in
      Shares k others team (waiting, q)
      → Shares k others team (picked job, q') × Shares k others team (waiting, q')
unfolding JobQueue.dequeue
dequeue-Shares k others team inflight [] next_id h = (h, h)
dequeue-Shares k others team inflight (job ∷ pending) next_id h =
    let count = occurrences-append k inflight (job ∷ []) in
    let size = length-append inflight (job ∷ []) in
    ((omega arith, omega arith, omega arith), (omega arith, omega arith, omega arith))

effect-Shares :
    (k others team : ℕ) (fate : Fate) (stage : Stage) (q' q : Queue)
    → Shares k others team (stage, q')
    → Shares k others team (waiting, q')
    → Shares k others team (waiting, q)
    → Shares k others team (onward fate stage, effect fate q' q)
effect-Shares k others team finished stage q' q h h' old = h
effect-Shares k others team (failed true) stage q' q h h' old = h'
effect-Shares k others team (failed false) stage q' q h h' old = old
effect-Shares k others team (interrupted true) stage q' q h h' old = h'
effect-Shares k others team (interrupted false) stage q' q h h' old = old

handled-Shares :
    (k others team : ℕ) (end : Signal (Unit {0})) (job : Job) (q : Queue)
    → Shares k others team (waiting, q)
    → Shares k others team (handled end job, q)
handled-Shares k others team (returned _) job q h = h
handled-Shares k others team raised job q h = h
handled-Shares k others team cancelled job q h = h

-- A worker that awaits takes nothing from the others.
pub advance-Shares :
    (k others team : ℕ) (auto : Bool) (end : Signal (Unit {0})) (fate : Fate) (stage : Stage)
    (q : Queue)
    → ((id : ℕ) → IsOnce id q)
    → Shares k others team (stage, q)
    → Shares k others team (advance auto end fate stage q)
unfolding advance
advance-Shares k others team auto end fate waiting q once h =
    let (job, q') = JobQueue.dequeue q in
    let taken = dequeue-Shares k others team q.inflight q.pending q.next_id h in
    effect-Shares k others team fate (picked job) q' q taken.0 taken.1 h
advance-Shares k others team auto end fate stopped q once h = h
advance-Shares k others team auto end fate (handling job) q once h =
    let q' = JobQueue.complete job.id q in
    let done = complete-Shares k others team job q (once job.id) h in
    effect-Shares k others team fate (handled end job) q' q
      (handled-Shares k others team end job q' done) done (h.0, omega arith, omega arith)
advance-Shares k others team auto end fate (following job) q once h =
    let q' = dispatch auto job q in
    let done = dispatch-Shares k others team auto job q h in
    effect-Shares k others team fate waiting q' q done done h

-- Requests put jobs into the queue or purge those that wait.
pub serve-Shares :
    (k others team max_size : ℕ) (request : Request) (q : Queue)
    → IsFromClient request
    → Shares k others team (waiting, q)
    → Shares k others team (waiting, (serve max_size request q).1)
unfolding serve JobQueue.enqueue JobQueue.enqueue_if_idle JobQueue.push JobQueue.purge
serve-Shares k others team max_size (Request.enqueue job_type photo_id payload) q c h =
    ground (arith, push-IsOnce k q job_type photo_id payload h.0)
serve-Shares k others team max_size (Request.enqueue_if_idle job_type photo_id payload) q c h =
    ground (arith, push-IsOnce k q job_type photo_id payload h.0)
serve-Shares k others team max_size Request.dequeue q c h = absurd c
serve-Shares k others team max_size (Request.complete job_id) q c h = absurd c
serve-Shares k others team max_size Request.size q c h = h
serve-Shares k others team max_size Request.purge q c h = (omega (arith, h.0), h.1, h.2)
serve-Shares k others team max_size (Request.position photo_id) q c h = h
