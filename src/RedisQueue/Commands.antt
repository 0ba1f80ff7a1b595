-- ===== src/RedisQueue/Commands.antt =====
-- The methods of `RedisJobQueue` command by command. A method sends its commands without an `await` between
-- them, so in one process they stand together; another process may send its own in between.
use lychee_facial_recognitio.Prelude.{
  ℕ, ◌+◌, ◌≡◌, refl, if◌then◌else◌, String, true, false, none, some, List, [], ◌∷◌, ◌++◌, length,
  arith,
}
use lychee_facial_recognitio.JobQueue.{Job, is_full}
use lychee_facial_recognitio.JobQueue.Protocol.{Request, Reply}
use lychee_facial_recognitio.RedisQueue
use lychee_facial_recognitio.RedisQueue.{
  Redis, push, hset, hvals, pop, scan, any_of_photo, enqueue_if_idle, complete, size, purge, call,
}

-- How far the method that a process runs has come: it has answered, or it will send INCR, RPUSH, HSET, or
-- LRANGE next.
pub data Progress : Type 0 where
  answered : Reply → Progress
  to_number : String → String → String → Progress
  to_push to_track : Job → Progress
  to_scan : String → Progress

-- LPOP
abbrev pub lpop : List Job → Redis → Progress × Redis
lpop [] r = (answered (Reply.job none), r)
lpop (j ∷ rest) r = (to_track j, record r { jobs = rest })

abbrev pub answer : Reply × Redis → Progress × Redis
answer (reply, r) = (answered reply, r)

-- The first command of a method.
abbrev pub begin : ℕ → Request → Redis → Progress × Redis
begin max_size (Request.enqueue job_type photo_id payload) r =
    if is_full max_size (length r.jobs)
    then (answered (Reply.accepted false), r)
    else (to_number job_type photo_id payload, r)
begin max_size (Request.enqueue_if_idle job_type photo_id payload) r =
    answer (call max_size (Request.enqueue_if_idle job_type photo_id payload) r)
begin max_size Request.dequeue r = lpop r.jobs r
begin max_size (Request.complete job_id) r = answer (call max_size (Request.complete job_id) r)
begin max_size Request.size r = answer (call max_size Request.size r)
begin max_size Request.purge r = answer (call max_size Request.purge r)
begin max_size (Request.position photo_id) r =
    if any_of_photo photo_id (hvals r.inflight)
    then (answered (Reply.place (some 0)), r)
    else (to_scan photo_id, r)

-- The next command of a method that has begun.
abbrev pub resume : Progress → Redis → Progress × Redis
resume (answered reply) r = (answered reply, r)
resume (to_number job_type photo_id payload) r =
    let job_id = r.counter + 1 in
    (
      to_push record { id = job_id; job_type = job_type; photo_id = photo_id; payload = payload },
      record r { counter = job_id },
    )
resume (to_push j) r = (answered (Reply.accepted true), record r { jobs = r.jobs ++ j ∷ [] })
resume (to_track j) r =
    (answered (Reply.job (some j)), record r { inflight = hset j.id j r.inflight })
resume (to_scan photo_id) r = (answered (Reply.place (scan 0 photo_id r.jobs)), r)

-- What a process sends next: a method that has answered is followed by the next request.
unfoldable pub advance : ℕ → Request → Progress → Redis → Progress × Redis
advance max_size request (answered reply) r = begin max_size request r
advance max_size request progress r = resume progress r

abbrev pub again : Progress × Redis → Progress × Redis
again (progress, r) = resume progress r

lpop-pop :
    (jobs : List Job) (r : Redis)
    → again (again (lpop jobs r)) ≡ (answered (Reply.job (pop jobs r).0), (pop jobs r).1)
lpop-pop [] r = refl
lpop-pop (j ∷ rest) r = refl

-- Undisturbed, a method ends after three commands at most, as the method in one step.
pub begin-call :
    (max_size : ℕ) (request : Request) (r : Redis)
    → again (again (begin max_size request r)) ≡ answer (call max_size request r)
unfolding call push RedisQueue.enqueue RedisQueue.dequeue RedisQueue.position
begin-call max_size (Request.enqueue job_type photo_id payload) r = ground arith
begin-call max_size (Request.enqueue_if_idle job_type photo_id payload) r = refl
begin-call max_size Request.dequeue r = lpop-pop r.jobs r
begin-call max_size (Request.complete job_id) r = refl
begin-call max_size Request.size r = refl
begin-call max_size Request.purge r = refl
begin-call max_size (Request.position photo_id) r = ground arith
