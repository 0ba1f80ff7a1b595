-- ===== src/JobQueue.antt =====
-- app/queue/base.py: the `Job` record and the `JobQueue` protocol. The protocol's methods are
-- written as operations on an abstract queue: the jobs in flight, oldest first, the pending jobs in
-- the order in which they are served, and the next job id. The backends are proved to implement
-- them (DbQueue, RedisQueue).
pub mod Protocol
pub mod Fifo
pub mod Occurrences
use lychee_facial_recognitio.Prelude.{
  ℕ, ◌+◌, ◌==◌, if◌then◌else◌, ltb, leb, String, str_eq, Bool, true, false, not, ◌&&◌, Option, none,
  some, List, [], ◌∷◌, ◌++◌, length, filter,
}

pub record Job : Type 0 where
  pub id : ℕ
  pub job_type : String
  pub photo_id : String
  pub payload : String

pub record Queue : Type 0 where
  pub inflight : List Job
  pub pending : List Job
  pub next_id : ℕ

abbrev pub new_job : Queue → String → String → String → Job
new_job q job_type photo_id payload = record {
  id = q.next_id;
  job_type = job_type;
  photo_id = photo_id;
  payload = payload;
}

-- Add a job at the end.
unfoldable pub push : Queue → String → String → String → Queue
push q job_type photo_id payload = record q {
  pending = q.pending ++ new_job q job_type photo_id payload ∷ [];
  next_id = q.next_id + 1;
}

-- `max_size` 0 means that the queue has no bound.
abbrev pub is_full : ℕ → ℕ → Bool
is_full max_size pending = leb max_size pending && ltb 0 max_size

unfoldable pub enqueue : ℕ → String → String → String → Queue → Bool × Queue
unfolding push
enqueue max_size job_type photo_id payload q =
    if is_full max_size (length q.pending)
    then (false, q)
    else (true, push q job_type photo_id payload)

unfoldable pub enqueue_if_idle : String → String → String → Queue → Bool × Queue
unfolding push
enqueue_if_idle job_type photo_id payload q =
    if ltb 0 (length q.pending + length q.inflight)
    then (false, q)
    else (true, push q job_type photo_id payload)

dequeue_from : List Job → Queue → Option Job × Queue
dequeue_from [] q = (none, q)
dequeue_from (j ∷ rest) q = (some j, record q { inflight = q.inflight ++ j ∷ []; pending = rest })

unfoldable pub dequeue : Queue → Option Job × Queue
unfolding dequeue_from
dequeue q = dequeue_from q.pending q

abbrev pub other_than : ℕ → Job → Bool
other_than job_id j = not (j.id == job_id)

unfoldable pub complete : ℕ → Queue → Queue
complete job_id q = record q {
  inflight = filter (other_than job_id) q.inflight;
  pending = filter (other_than job_id) q.pending;
}

unfoldable pub size : Queue → ℕ
size q = length q.pending

unfoldable pub purge : Queue → Queue
purge q = record q { pending = [] }

abbrev pub has_photo : String → List Job → Bool
has_photo photo_id [] = false
has_photo photo_id (j ∷ js) = if str_eq j.photo_id photo_id then true else has_photo photo_id js

-- The 1-based rank of the first job of a photo, `before` jobs standing in front of the list.
abbrev pub rank_from : ℕ → String → List Job → Option ℕ
rank_from before photo_id [] = none
rank_from before photo_id (j ∷ js) =
    if str_eq j.photo_id photo_id then some (before + 1) else rank_from (before + 1) photo_id js

unfoldable pub position : String → Queue → Option ℕ
position photo_id q =
    if has_photo photo_id q.inflight then some 0 else rank_from 0 photo_id q.pending

-- A restart puts the jobs that were in flight back in front of the pending ones.
unfoldable pub requeue_inflight : Queue → Queue
requeue_inflight q = record q { inflight = []; pending = q.inflight ++ q.pending }
