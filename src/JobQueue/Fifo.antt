-- ===== src/JobQueue/Fifo.antt =====
-- The queue protocol serves jobs first in, first out, each at most once, and keeps its bound.
use lychee_facial_recognitio.Prelude.{
  ℕ, suc, ◌+◌, ◌≤◌, ◌<◌, ◌≡◌, ◌≢◌, refl, true, some, List, [], ◌∷◌, ◌++◌, length, filter, arith,
  All, sym, ◌∙◌, append_assoc, append-nil, length-append, length-filter-le,
}
use lychee_facial_recognitio.JobQueue
use lychee_facial_recognitio.JobQueue.{Job, Queue, new_job, other_than}
use lychee_facial_recognitio.JobQueue.Protocol.{Request, Reply, serve}

-- What a request takes out of the queue, and what it puts in.
abbrev pub handed_out : Reply → List Job
handed_out (Reply.job (some j)) = j ∷ []
handed_out _ = []

abbrev pub let_in : Request → Reply → Queue → List Job
let_in (Request.enqueue job_type photo_id payload) (Reply.accepted true) q =
    new_job q job_type photo_id payload ∷ []
let_in (Request.enqueue_if_idle job_type photo_id payload) (Reply.accepted true) q =
    new_job q job_type photo_id payload ∷ []
let_in _ _ _ = []

-- No purge, and no job is completed that has not been handed out.
abbrev pub IsPeaceful : Request → Queue → Type 0
IsPeaceful Request.purge q = ⊥
IsPeaceful (Request.complete job_id) q = All (λ (j : Job). j.id ≢ job_id) q.pending
IsPeaceful _ q = Unit

pub record Log : Type 0 where
  pub out : List Job
  pub entered : List Job
  pub final : Queue

module _ (max_size : ℕ) where
  unfoldable pub follow : List Request → Queue → Log
  follow [] q = record { out = []; entered = []; final = q }
  follow (request ∷ requests) q =
      let (reply, q') = serve max_size request q in
      let log = follow requests q' in
      record log {
        out = handed_out reply ++ log.out;
        entered = let_in request reply q ++ log.entered;
      }

  abbrev pub ArePeaceful : List Request → Queue → Type 0
  ArePeaceful [] q = Unit
  ArePeaceful (request ∷ requests) q =
      IsPeaceful request q × ArePeaceful requests (serve max_size request q).1

pub filter-other_than :
    (job_id : ℕ) (js : List Job)
    → All (λ (j : Job). j.id ≢ job_id) js
    → filter (other_than job_id) js ≡ js
filter-other_than job_id [] h = refl
filter-other_than job_id (j ∷ js) h = ground (arith, filter-other_than job_id js h.1)

serve_fifo :
    (max_size : ℕ) (request : Request) (q : Queue)
    → IsPeaceful request q
    → let (reply, q') = serve max_size request q in
      handed_out reply ++ q'.pending ≡ q.pending ++ let_in request reply q
unfolding serve JobQueue.enqueue JobQueue.enqueue_if_idle JobQueue.dequeue JobQueue.complete
serve_fifo max_size (Request.enqueue job_type photo_id payload) q h =
    ground (arith, append-nil q.pending)
serve_fifo max_size (Request.enqueue_if_idle job_type photo_id payload) q h =
    ground (arith, append-nil q.pending)
serve_fifo max_size Request.dequeue q h = ground (arith, append-nil q.pending)
serve_fifo max_size (Request.complete job_id) q h =
    filter-other_than job_id q.pending h ∙ sym (append-nil q.pending)
serve_fifo max_size Request.size q h = sym (append-nil q.pending)
serve_fifo max_size Request.purge q h = absurd h
serve_fifo max_size (Request.position photo_id) q h = sym (append-nil q.pending)

-- First in, first out: while nothing is purged and no job is completed that is still waiting, the jobs
-- handed out, in order, and then those still pending are the jobs that were pending, in order, and
-- then those let in.
pub follow_fifo :
    (max_size : ℕ) (requests : List Request) (q : Queue)
    → ArePeaceful max_size requests q
    → let log = follow max_size requests q in
      log.out ++ log.final.pending ≡ q.pending ++ log.entered
unfolding follow
follow_fifo max_size [] q h = sym (append-nil q.pending)
follow_fifo max_size (request ∷ requests) q h =
    let (reply, q') = serve max_size request q in
    let log = follow max_size requests q' in
    cc (
      append_assoc (handed_out reply) log.out log.final.pending,
      follow_fifo max_size requests q' h.1,
      append_assoc (handed_out reply) q'.pending log.entered,
      serve_fifo max_size request q h.0,
      append_assoc q.pending (let_in request reply q) log.entered,
    )

-- Ids from `lo` on, rising, below `hi`.
abbrev pub Rises : ℕ → List Job → ℕ → Type 0
Rises lo [] hi = lo ≤ hi
Rises lo (j ∷ js) hi = (lo ≤ j.id) × Rises (suc j.id) js hi

pub Rises-snoc :
    (lo hi : ℕ) (js : List Job) (j : Job)
    → j.id ≡ hi
    → Rises lo js hi
    → Rises lo (js ++ j ∷ []) (hi + 1)
Rises-snoc lo hi [] j e h = omega arith
Rises-snoc lo hi (x ∷ js) j e h = (h.0, Rises-snoc (suc x.id) hi js j e h.1)

serve-Rises :
    (max_size : ℕ) (request : Request) (q : Queue) (lo : ℕ) (js : List Job)
    → Rises lo js q.next_id
    → let (reply, q') = serve max_size request q in
      Rises lo (js ++ let_in request reply q) q'.next_id
unfolding serve JobQueue.enqueue JobQueue.enqueue_if_idle JobQueue.dequeue JobQueue.complete
    JobQueue.purge
serve-Rises max_size (Request.enqueue job_type photo_id payload) q lo js h =
    let j = new_job q job_type photo_id payload in
    ground (arith, append-nil js, Rises-snoc lo q.next_id js j refl h)
serve-Rises max_size (Request.enqueue_if_idle job_type photo_id payload) q lo js h =
    let j = new_job q job_type photo_id payload in
    ground (arith, append-nil js, Rises-snoc lo q.next_id js j refl h)
serve-Rises max_size Request.dequeue q lo js h = ground (arith, append-nil js)
serve-Rises max_size _ q lo js h = rw append-nil h

follow-Rises :
    (max_size : ℕ) (requests : List Request) (q : Queue) (lo : ℕ) (js : List Job)
    → Rises lo js q.next_id
    → let log = follow max_size requests q in Rises lo (js ++ log.entered) log.final.next_id
unfolding follow
follow-Rises max_size [] q lo js h = rw append-nil h
follow-Rises max_size (request ∷ requests) q lo js h =
    let (reply, q') = serve max_size request q in
    rw (← append_assoc) (
      follow-Rises max_size requests q' lo (js ++ let_in request reply q)
        (serve-Rises max_size request q lo js h))

-- If the ids of the pending jobs rise up to the next id, then, while nothing is purged and no job is
-- completed that is still waiting, the ids of the jobs handed out rise strictly, and those of the jobs
-- still pending go on from there: no job is handed out twice, nor out of order.
pub follow_once :
    (max_size : ℕ) (requests : List Request) (q : Queue)
    → Rises 0 q.pending q.next_id
    → ArePeaceful max_size requests q
    → let log = follow max_size requests q in
      Rises 0 (log.out ++ log.final.pending) log.final.next_id
follow_once max_size requests q rising peaceful =
    rw (follow_fifo max_size requests q peaceful)
      (follow-Rises max_size requests q 0 q.pending rising)

serve-bounded :
    (max_size : ℕ) (request : Request) (q : Queue)
    → 0 < max_size
    → length q.pending ≤ max_size
    → length (serve max_size request q).1.pending ≤ max_size
unfolding serve JobQueue.enqueue JobQueue.enqueue_if_idle JobQueue.dequeue JobQueue.complete
    JobQueue.purge
serve-bounded max_size (Request.enqueue job_type photo_id payload) q some_bound h =
    ground (arith, length-append q.pending (new_job q job_type photo_id payload ∷ []))
serve-bounded max_size (Request.enqueue_if_idle job_type photo_id payload) q some_bound h =
    ground (arith, length-append q.pending (new_job q job_type photo_id payload ∷ []))
serve-bounded max_size Request.dequeue q some_bound h = ground arith
serve-bounded max_size (Request.complete job_id) q some_bound h =
    ground (arith, length-filter-le (other_than job_id) q.pending)
serve-bounded max_size _ q some_bound h = omega arith

-- With a bound above 0, no requests make the pending part longer than the bound, if it is not longer at
-- the start.
pub follow_bounded :
    (max_size : ℕ) (requests : List Request) (q : Queue)
    → 0 < max_size
    → length q.pending ≤ max_size
    → length (follow max_size requests q).final.pending ≤ max_size
unfolding follow
follow_bounded max_size [] q some_bound h = h
follow_bounded max_size (request ∷ requests) q some_bound h =
    follow_bounded max_size requests (serve max_size request q).1 some_bound
      (serve-bounded max_size request q some_bound h)
