-- ===== src/JobQueue/Protocol.antt =====
-- The calls of the `JobQueue` protocol as data: what a client asks, and what it is told.
use lychee_facial_recognitio.Prelude.{ℕ, String, Bool, Option}
use lychee_facial_recognitio.JobQueue
use lychee_facial_recognitio.JobQueue.{Job, Queue}

pub data Request : Type 0 where
  enqueue enqueue_if_idle : String → String → String → Request
  dequeue : Request
  complete : ℕ → Request
  size purge : Request
  position : String → Request

pub data Reply : Type 0 where
  accepted : Bool → Reply
  job : Option Job → Reply
  count : ℕ → Reply
  place : Option ℕ → Reply
  done : Reply

abbrev pub with_reply : {A S : Type 0} → (A → Reply) → A × S → Reply × S
with_reply f (a, s) = (f a, s)

-- The protocol: what the abstract queue answers, and how it changes.
unfoldable pub serve : ℕ → Request → Queue → Reply × Queue
serve max_size (enqueue job_type photo_id payload) q =
    with_reply accepted (JobQueue.enqueue max_size job_type photo_id payload q)
serve max_size (enqueue_if_idle job_type photo_id payload) q =
    with_reply accepted (JobQueue.enqueue_if_idle job_type photo_id payload q)
serve max_size dequeue q = with_reply job (JobQueue.dequeue q)
serve max_size (complete job_id) q = (done, JobQueue.complete job_id q)
serve max_size size q = (count (JobQueue.size q), q)
serve max_size purge q = (done, JobQueue.purge q)
serve max_size (position photo_id) q = (place (JobQueue.position photo_id q), q)
