-- ===== src/RedisQueue.antt =====
-- app/queue/redis_queue.py: `RedisJobQueue`. The state is the three Redis keys: the list
-- `queue:jobs`, the hash `queue:inflight` and the counter `queue:counter` (a counter that is not there
-- is 0, a list or hash that is not there is empty). An item is the record that its JSON text encodes,
-- and the hash is keyed by the job id that its field name spells. Commands are Redis' own, each
-- atomic; the script of `enqueue_if_idle` is one command.
pub mod Refinement
pub mod Stale
pub mod Commands
pub mod Interleaved
use lychee_facial_recognitio.Prelude.{
  ℕ, zero, ◌+◌, ◌==◌, if◌then◌else◌, ltb, leb, String, str_eq, Bool, true, false, not, ◌&&◌, Option,
  none, some, List, [], ◌∷◌, ◌++◌, length, filter, map,
}
use lychee_facial_recognitio.JobQueue.{Job, is_full, has_photo, rank_from}
use lychee_facial_recognitio.JobQueue.Protocol.{Request, Reply, with_reply}

pub record Redis : Type 0 where
  pub jobs : List Job
  pub inflight : List (ℕ × Job)
  pub counter : ℕ

-- INCR returns the new value, which is the id of the new item; RPUSH appends.
unfoldable pub push : String → String → String → Redis → Redis
push job_type photo_id payload r =
    let job_id = r.counter + 1 in
    record r {
      jobs =
          r.jobs
          ++ record { id = job_id; job_type = job_type; photo_id = photo_id; payload = payload }
            ∷ [];
      counter = job_id;
    }

-- HSET: the value of a field that is there is replaced.
abbrev pub hset : ℕ → Job → List (ℕ × Job) → List (ℕ × Job)
hset key value [] = (key, value) ∷ []
hset key value ((k, v) ∷ hash) =
    if k == key then (key, value) ∷ hash else (k, v) ∷ hset key value hash

abbrev pub hdel : ℕ → List (ℕ × Job) → List (ℕ × Job)
hdel key = filter (λ e. not (e.0 == key))

abbrev pub hvals : List (ℕ × Job) → List Job
hvals = map (λ (e : ℕ × Job). e.1)

unfoldable pub enqueue : ℕ → String → String → String → Redis → Bool × Redis
unfolding push
enqueue max_size job_type photo_id payload r =
    if is_full max_size (length r.jobs)
    then (false, r)
    else (true, push job_type photo_id payload r)

-- `_ENQUEUE_IF_IDLE_SCRIPT`
unfoldable pub enqueue_if_idle : String → String → String → Redis → Bool × Redis
unfolding push
enqueue_if_idle job_type photo_id payload r =
    if ltb 0 (length r.jobs + length r.inflight)
    then (false, r)
    else (true, push job_type photo_id payload r)

-- LPOP, then HSET of what was popped
abbrev pub pop : List Job → Redis → Option Job × Redis
pop [] r = (none, r)
pop (j ∷ rest) r = (some j, record r { jobs = rest; inflight = hset j.id j r.inflight })

unfoldable pub dequeue : Redis → Option Job × Redis
dequeue r = pop r.jobs r

unfoldable pub complete : ℕ → Redis → Redis
complete job_id r = record r { inflight = hdel job_id r.inflight }

unfoldable pub size : Redis → ℕ
size r = length r.jobs

unfoldable pub purge : Redis → Redis
purge r = record r { jobs = [] }

-- `for idx, raw in enumerate(items)`
abbrev pub scan : ℕ → String → List Job → Option ℕ
scan idx photo_id [] = none
scan idx photo_id (j ∷ items) =
    let rest = scan (idx + 1) photo_id items in
    if str_eq j.photo_id photo_id then some (idx + 1) else rest

-- `for raw in r.hvals(…): if …: return 0`
abbrev pub any_of_photo : String → List Job → Bool
any_of_photo photo_id [] = false
any_of_photo photo_id (j ∷ js) =
    let rest = any_of_photo photo_id js in if str_eq j.photo_id photo_id then true else rest

unfoldable pub position : String → Redis → Option ℕ
position photo_id r =
    if any_of_photo photo_id (hvals r.inflight) then some 0 else scan 0 photo_id r.jobs

unfoldable pub call : ℕ → Request → Redis → Reply × Redis
call max_size (Request.enqueue job_type photo_id payload) r =
    with_reply Reply.accepted (enqueue max_size job_type photo_id payload r)
call max_size (Request.enqueue_if_idle job_type photo_id payload) r =
    with_reply Reply.accepted (enqueue_if_idle job_type photo_id payload r)
call max_size Request.dequeue r = with_reply Reply.job (dequeue r)
call max_size (Request.complete job_id) r = (Reply.done, complete job_id r)
call max_size Request.size r = (Reply.count (size r), r)
call max_size Request.purge r = (Reply.done, purge r)
call max_size (Request.position photo_id) r = (Reply.place (position photo_id r), r)
