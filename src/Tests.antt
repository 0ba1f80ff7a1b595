-- ===== src/Tests.antt =====
-- The theorems at concrete inputs.
mod Cropping
mod Lives
mod Interleavings
mod Stores
mod Endpoints
mod Groups
mod Service
mod Searches
mod Jobs
mod Faces
mod Detection
use lychee_facial_recognitio.Prelude.{
  ℕ, zero, suc, ◌+◌, ◌<◌, ◌≤◌, ◌≡◌, ◌≢◌, refl, String, Bool, true, false, Option, none, some, List,
  [], ◌∷◌, ◌++◌, length, filter, All, arith, not,
}
use lychee_facial_recognitio.Sql.{
  Outcome, fine, fault, lost, Session, err, ok, in_failed_transaction,
}
use lychee_facial_recognitio.Sql.Postgres.{IsHealthy}
use lychee_facial_recognitio.JobQueue
use lychee_facial_recognitio.JobQueue.{Job, Queue}
use lychee_facial_recognitio.JobQueue.Protocol.{Request, Reply, serve}
use lychee_facial_recognitio.JobQueue.Fifo.{
  follow, Rises, follow_fifo, follow_once, follow_bounded, ArePeaceful,
}
use lychee_facial_recognitio.DbQueue.{Row, Table, pending, processing, view, reset_processing}
use lychee_facial_recognitio.DbQueue.Layout.{IsValid}
use lychee_facial_recognitio.DbQueue.History.{Explains, perform}
use lychee_facial_recognitio.DbQueue
use lychee_facial_recognitio.DbQueue.Sqlite.{init_table}
use lychee_facial_recognitio.DbQueue.Steps.{dequeue_step}
use lychee_facial_recognitio.DbQueue.Sqlite.Refinement.{sqlite-perform-Explains}
use lychee_facial_recognitio.DbQueue.Sqlite.Recovery.{init_table_recovers}
use lychee_facial_recognitio.DbQueue.Postgres.Refinement as PgRefinement
use lychee_facial_recognitio.Sql.History as Calls
use lychee_facial_recognitio.DbQueue.Postgres.Aborted.{aborted_blocks}
use lychee_facial_recognitio.RedisQueue
use lychee_facial_recognitio.RedisQueue.{Redis}
use lychee_facial_recognitio.RedisQueue.Refinement
use lychee_facial_recognitio.RedisQueue.Refinement.{redis-perform-serve_all, serve_all, AreOwned}
use lychee_facial_recognitio.RedisQueue.Stale.{has_key, stale_blocks_idle}

abbrev detect_job : ℕ → String → Job
detect_job id photo_id = record {
  id = id;
  job_type = "detect";
  photo_id = photo_id;
  payload = "{}";
}

abbrev requests : List Request
requests =
    Request.enqueue "detect" "a" "{}"
    ∷ Request.enqueue "detect" "b" "{}"
    ∷ Request.dequeue
    ∷ Request.complete 1
    ∷ Request.position "b"
    ∷ []

abbrev empty_queue : Queue
empty_queue = record { inflight = []; pending = []; next_id = 1 }

abbrev empty_table : Table
empty_table = record { rows = []; next_id = 1 }

empty_table-IsValid : IsValid empty_table
empty_table-IsValid = record { rises = omega arith; split = tt }

-- The third statement raises.
abbrev one_fault : ℕ → Outcome
one_fault (suc (suc zero)) = fault
one_fault _ = fine

abbrev all_fine : ℕ → Outcome
all_fine _ = fine

abbrev session : {T : Type 0} → T → Session T
session t = record {
  committed = t;
  working = t;
  connected = true;
  aborted = false;
  clock = 0;
  faults = 0;
}

sqlite-perform-Explains_example :
    let (replies, s') =
      perform 5 (DbQueue.Sqlite.call one_fault 5) requests (session empty_table) in
    Explains 5 requests replies (view empty_table) (view s'.committed)
sqlite-perform-Explains_example =
    sqlite-perform-Explains one_fault 5 requests (session empty_table) empty_table-IsValid

abbrev one_skipped : ℕ → ℕ
one_skipped _ = 1

abbrev empty_redis : Redis
empty_redis = record { jobs = []; inflight = []; counter = 0 }

empty_redis-IsValid : RedisQueue.Refinement.IsValid empty_redis
empty_redis-IsValid = record { below = 0; keyed = tt; rises = omega arith }

redis-requests-AreOwned : AreOwned 5 requests (RedisQueue.Refinement.view empty_redis)
unfolding serve JobQueue.dequeue JobQueue.enqueue RedisQueue.Refinement.view
redis-requests-AreOwned = (tt, (tt, (tt, ((omega arith, tt), (tt, tt)))))

redis-perform-serve_all_example :
    ((RedisQueue.Refinement.perform 5 requests empty_redis).0
      ≡ (serve_all 5 requests (RedisQueue.Refinement.view empty_redis)).0)
    × (RedisQueue.Refinement.view (RedisQueue.Refinement.perform 5 requests empty_redis).1
        ≡ (serve_all 5 requests (RedisQueue.Refinement.view empty_redis)).1)
redis-perform-serve_all_example =
    redis-perform-serve_all 5 requests empty_redis empty_redis-IsValid redis-requests-AreOwned

requests-ArePeaceful : ArePeaceful 5 requests empty_queue
unfolding serve JobQueue.dequeue JobQueue.enqueue
requests-ArePeaceful = (tt, (tt, (tt, ((omega arith, tt), (tt, tt)))))

follow_fifo_example :
    let log = follow 5 requests empty_queue in log.out ++ log.final.pending ≡ [] ++ log.entered
follow_fifo_example = follow_fifo 5 requests empty_queue requests-ArePeaceful

follow_once_example :
    let log = follow 5 requests empty_queue in
    Rises 0 (log.out ++ log.final.pending) log.final.next_id
follow_once_example = follow_once 5 requests empty_queue (omega arith) requests-ArePeaceful

follow_bounded_example : length (follow 5 requests empty_queue).final.pending ≤ 5
follow_bounded_example = follow_bounded 5 requests empty_queue (omega arith) (omega arith)

abbrev crashed_table : Table
crashed_table = record {
  rows =
      record { job = detect_job 3 "a"; status = processing }
      ∷ record { job = detect_job 4 "b"; status = pending }
      ∷ [];
  next_id = 5;
}

crashed_table-IsValid : IsValid crashed_table
crashed_table-IsValid = record { rises = (omega arith, (omega arith, omega arith)); split = tt }

crashed-inflight : (view crashed_table).inflight ≡ detect_job 3 "a" ∷ []
unfolding view
crashed-inflight = refl

started : (init_table all_fine (session crashed_table)).0 ≡ ok tt
unfolding init_table
started = refl

init_table_recovers_example :
    let t = (init_table all_fine (session crashed_table)).1.committed in
    (view t ≡ JobQueue.requeue_inflight (view crashed_table))
    × IsValid t
    × ((dequeue_step t).0 ≡ some (detect_job 3 "a"))
init_table_recovers_example =
    init_table_recovers all_fine (session crashed_table) (detect_job 3 "a") [] crashed_table-IsValid
      crashed-inflight started

abbrev stuck_session : {T : Type 0} → T → Session T
stuck_session t = record (session t) { aborted = true }

aborted_blocks_example :
    let (reply, s') =
      DbQueue.Postgres.call all_fine one_skipped 5
        (Request.complete 3)
        (stuck_session crashed_table) in
    (reply ≡ err in_failed_transaction)
    × (s'.committed ≡ crashed_table)
    × (s'.connected ≡ true)
    × (s'.aborted ≡ true)
aborted_blocks_example =
    aborted_blocks all_fine one_skipped 5 (Request.complete 3) (stuck_session crashed_table) refl
      refl

abbrev stale_redis : Redis
stale_redis = record { jobs = []; inflight = (7, detect_job 7 "a") ∷ []; counter = 7 }

stale_blocks_idle_example :
    let r' =
      (RedisQueue.Refinement.perform 5 (Request.dequeue ∷ Request.complete 8 ∷ []) stale_redis).1 in
    RedisQueue.call 5 (Request.enqueue_if_idle "cluster" "" "{}") r' ≡ (Reply.accepted false, r')
stale_blocks_idle_example =
    stale_blocks_idle 5 7 (Request.dequeue ∷ Request.complete 8 ∷ []) stale_redis "cluster" "" "{}"
      (tt, (omega arith, tt)) refl
