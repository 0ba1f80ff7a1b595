-- ===== src/RedisQueue/Stale.antt =====
-- A job that was in flight when its worker died stays in the hash `queue:inflight`.
use lychee_facial_recognitio.Prelude.{
  ℕ, ◌≡◌, ◌≢◌, Bool, true, false, String, List, [], ◌∷◌, ◌==◌, if◌then◌else◌, length, arith, All,
  ◌<◌,
}
use lychee_facial_recognitio.JobQueue.{Job}
use lychee_facial_recognitio.JobQueue.Protocol.{Request, Reply}
use lychee_facial_recognitio.RedisQueue
use lychee_facial_recognitio.RedisQueue.{Redis, hset, hdel, pop, call}
use lychee_facial_recognitio.RedisQueue.Refinement.{perform}

-- The hash has a field for this job.
abbrev pub has_key : ℕ → List (ℕ × Job) → Bool
has_key key [] = false
has_key key ((k, v) ∷ hash) = if k == key then true else has_key key hash

-- The request does not complete the job.
abbrev pub Spares : ℕ → Request → Type 0
Spares job_id (Request.complete other) = other ≢ job_id
Spares job_id _ = Unit

has_key-hset :
    (job_id key : ℕ) (j : Job) (hash : List (ℕ × Job))
    → has_key job_id hash ≡ true
    → has_key job_id (hset key j hash) ≡ true
has_key-hset job_id key j [] h = cc
has_key-hset job_id key j (e ∷ hash) h = ground (arith, has_key-hset job_id key j hash)

has_key-hdel :
    (job_id key : ℕ) (hash : List (ℕ × Job))
    → key ≢ job_id
    → has_key job_id hash ≡ true
    → has_key job_id (hdel key hash) ≡ true
has_key-hdel job_id key [] ne h = cc
has_key-hdel job_id key (e ∷ hash) ne h = ground (arith, has_key-hdel job_id key hash ne)

module _ (max_size job_id : ℕ) where
  has_key-pop :
      (jobs : List Job) (r : Redis)
      → has_key job_id r.inflight ≡ true
      → has_key job_id (pop jobs r).1.inflight ≡ true
  has_key-pop [] r h = h
  has_key-pop (j ∷ rest) r h = has_key-hset job_id j.id j r.inflight h

  has_key-call :
      (request : Request) (r : Redis)
      → Spares job_id request
      → has_key job_id r.inflight ≡ true
      → has_key job_id (call max_size request r).1.inflight ≡ true
  unfolding call RedisQueue.enqueue RedisQueue.enqueue_if_idle RedisQueue.dequeue
      RedisQueue.complete RedisQueue.purge
  has_key-call Request.dequeue r n h = has_key-pop r.jobs r h
  has_key-call (Request.complete other) r n h = has_key-hdel job_id other r.inflight n h
  has_key-call _ r n h = ground arith

  has_key-perform :
      (requests : List Request) (r : Redis)
      → All (Spares job_id) requests
      → has_key job_id r.inflight ≡ true
      → has_key job_id (perform max_size requests r).1.inflight ≡ true
  has_key-perform [] r n h = h
  has_key-perform (request ∷ requests) r n h =
      has_key-perform requests (call max_size request r).1 n.1 (has_key-call request r n.0 h)

  some_inflight : (hash : List (ℕ × Job)) → has_key job_id hash ≡ true → 0 < length hash
  some_inflight [] h = absurd (cc)
  some_inflight (e ∷ hash) h = omega arith

  -- A job that is in flight in Redis and that nobody completes (its worker has died) keeps the queue from
  -- ever being idle: whatever is called later, `enqueue_if_idle` is refused, so no clustering is
  -- dispatched automatically any more.
  pub stale_blocks_idle :
      (requests : List Request) (r : Redis) (job_type photo_id payload : String)
      → All (Spares job_id) requests
      → has_key job_id r.inflight ≡ true
      → let r' = (perform max_size requests r).1 in
        call max_size (Request.enqueue_if_idle job_type photo_id payload) r'
        ≡ (Reply.accepted false, r')
  unfolding call RedisQueue.enqueue_if_idle
  stale_blocks_idle requests r job_type photo_id payload n h =
      let r' = (perform max_size requests r).1 in
      ground (arith, some_inflight r'.inflight (has_key-perform requests r n h))
