-- ===== src/RedisQueue/Refinement.antt =====
-- `RedisJobQueue` implements the protocol when its methods run one after the other.
use lychee_facial_recognitio.Prelude.{
  ℕ, suc, ◌+◌, ◌≤◌, ◌<◌, ◌≡◌, ◌≢◌, refl, String, List, [], ◌∷◌, ◌++◌, length, filter, All, arith,
  ap, sym, subst, ◌∙◌,
}
use lychee_facial_recognitio.JobQueue
use lychee_facial_recognitio.JobQueue.{Job, Queue, other_than, has_photo, rank_from}
use lychee_facial_recognitio.JobQueue.Fifo.{Rises, Rises-snoc, filter-other_than}
use lychee_facial_recognitio.JobQueue.Occurrences.{Rises-le}
use lychee_facial_recognitio.JobQueue.Protocol.{Request, Reply, serve}
use lychee_facial_recognitio.RedisQueue
use lychee_facial_recognitio.RedisQueue.{Redis, hset, hdel, hvals, pop, scan, any_of_photo, call}

unfoldable pub view : Redis → Queue
view r = record { inflight = hvals r.inflight; pending = r.jobs; next_id = r.counter + 1 }

abbrev pub IsKeyed : ℕ → ℕ × Job → Type 0
IsKeyed below e = (e.0 ≡ e.1.id) × (e.0 < below)

-- The ids in the list rise up to the counter, and every job in flight has a smaller one.
pub record IsValid (r : Redis) : Type 0 where
  pub below : ℕ
  pub keyed : All (IsKeyed below) r.inflight
  pub rises : Rises below r.jobs (r.counter + 1)

IsKeyed-weaken :
    (below higher : ℕ) (hash : List (ℕ × Job))
    → below ≤ higher
    → All (IsKeyed below) hash
    → All (IsKeyed higher) hash
IsKeyed-weaken below higher [] h k = tt
IsKeyed-weaken below higher (e ∷ hash) h k =
    ((k.0.0, omega arith), IsKeyed-weaken below higher hash h k.1)

length-hvals : (hash : List (ℕ × Job)) → length (hvals hash) ≡ length hash
length-hvals [] = refl
length-hvals (e ∷ hash) = ap suc (length-hvals hash)

-- A key above all others is appended.
hset_new :
    (j : Job) (below : ℕ) (hash : List (ℕ × Job))
    → below ≤ j.id
    → All (IsKeyed below) hash
    → (hvals (hset j.id j hash) ≡ hvals hash ++ j ∷ [])
      × All (IsKeyed (suc j.id)) (hset j.id j hash)
hset_new j below [] h k = (refl, ((refl, omega arith), tt))
hset_new j below (e ∷ hash) h k = ground (arith, hset_new j below hash h k.1)

hvals-hdel :
    (job_id below : ℕ) (hash : List (ℕ × Job))
    → All (IsKeyed below) hash
    → (hvals (hdel job_id hash) ≡ filter (other_than job_id) (hvals hash))
      × All (IsKeyed below) (hdel job_id hash)
hvals-hdel job_id below [] k = (refl, tt)
hvals-hdel job_id below (e ∷ hash) k = ground (arith, hvals-hdel job_id below hash k.1)

scan-eq-rank_from :
    (before : ℕ) (photo_id : String) (js : List Job)
    → scan before photo_id js ≡ rank_from before photo_id js
scan-eq-rank_from before photo_id [] = refl
scan-eq-rank_from before photo_id (j ∷ js) =
    ground (arith, scan-eq-rank_from (before + 1) photo_id js)

any_of_photo-eq-has_photo :
    (photo_id : String) (js : List Job) → any_of_photo photo_id js ≡ has_photo photo_id js
any_of_photo-eq-has_photo photo_id [] = refl
any_of_photo-eq-has_photo photo_id (j ∷ js) = ground (arith, any_of_photo-eq-has_photo photo_id js)

-- A client completes only jobs that are not waiting, as every worker does that completes what it has
-- taken from the queue.
abbrev pub IsOwned : Request → Queue → Type 0
IsOwned (Request.complete job_id) q = All (λ (j : Job). j.id ≢ job_id) q.pending
IsOwned _ q = Unit

abbrev pub Simulates : (Queue → Reply × Queue) → Redis → Reply × Redis → Type 0
Simulates spec r (reply, after) =
    (reply ≡ (spec (view r)).0) × (view after ≡ (spec (view r)).1) × IsValid after

push-Simulates :
    (job_type photo_id payload : String) (r : Redis)
    → IsValid r
    → (view (RedisQueue.push job_type photo_id payload r)
        ≡ JobQueue.push (view r) job_type photo_id payload)
      × IsValid (RedisQueue.push job_type photo_id payload r)
unfolding view RedisQueue.push JobQueue.push
push-Simulates job_type photo_id payload r v = (
  refl,
  record {
    below = v.below;
    keyed = v.keyed;
    rises = Rises-snoc v.below (r.counter + 1) r.jobs _ refl v.rises;
  },
)

module _ (max_size : ℕ) where
  pop-Simulates :
      (jobs : List Job) (inflight : List (ℕ × Job)) (counter : ℕ)
      → let r : Redis = record { jobs = jobs; inflight = inflight; counter = counter } in
        IsValid r → Simulates (serve max_size Request.dequeue) r (call max_size Request.dequeue r)
  unfolding view RedisQueue.dequeue JobQueue.dequeue serve call
  pop-Simulates [] inflight counter v = (refl, refl, v)
  pop-Simulates (j ∷ rest) inflight counter v =
      let (values, keyed) = hset_new j v.below inflight v.rises.0 v.keyed in
      (refl, (rw values), record { below = suc j.id; keyed = keyed; rises = v.rises.1 })

  pub call-Simulates :
      (request : Request) (r : Redis)
      → IsValid r
      → IsOwned request (view r)
      → Simulates (serve max_size request) r (call max_size request r)
  unfolding view serve call RedisQueue.enqueue RedisQueue.enqueue_if_idle RedisQueue.complete
      RedisQueue.size RedisQueue.purge RedisQueue.position JobQueue.enqueue JobQueue.enqueue_if_idle
      JobQueue.complete JobQueue.size JobQueue.purge JobQueue.position
  call-Simulates (Request.enqueue job_type photo_id payload) r v h =
      ground (arith, push-Simulates job_type photo_id payload r v)
  call-Simulates (Request.enqueue_if_idle job_type photo_id payload) r v h =
      ground (arith, push-Simulates job_type photo_id payload r v, length-hvals r.inflight)
  call-Simulates Request.dequeue r v h = pop-Simulates r.jobs r.inflight r.counter v
  call-Simulates (Request.complete job_id) r v h =
      let (values, keyed) = hvals-hdel job_id v.below r.inflight v.keyed in
      (
        refl,
        (rw (values, filter-other_than job_id r.jobs h)),
        record { below = v.below; keyed = keyed; rises = v.rises },
      )
  call-Simulates Request.size r v h = (refl, refl, v)
  call-Simulates Request.purge r v h = (
    refl,
    refl,
    record {
      below = v.below;
      keyed = v.keyed;
      rises = Rises-le v.below (r.counter + 1) r.jobs v.rises;
    },
  )
  call-Simulates (Request.position photo_id) r v h = (
    ground (
      arith,
      any_of_photo-eq-has_photo photo_id (hvals r.inflight),
      scan-eq-rank_from 0 photo_id r.jobs,
    ),
    refl,
    v,
  )

  -- One request after the other.
  abbrev pub perform : List Request → Redis → List Reply × Redis
  perform [] r = ([], r)
  perform (request ∷ requests) r =
      let (reply, r') = call max_size request r in
      let (replies, r'') = perform requests r' in (reply ∷ replies, r'')

  abbrev pub serve_all : List Request → Queue → List Reply × Queue
  serve_all [] q = ([], q)
  serve_all (request ∷ requests) q =
      let (reply, q') = serve max_size request q in
      let (replies, q'') = serve_all requests q' in (reply ∷ replies, q'')

  abbrev pub AreOwned : List Request → Queue → Type 0
  AreOwned [] q = Unit
  AreOwned (request ∷ requests) q =
      IsOwned request q × AreOwned requests (serve max_size request q).1

  -- From valid keys, one after the other, the requests to the Redis queue are answered as the protocol
  -- answers them on the abstract queue, and the Redis keys stand for the queue that the protocol leads to,
  -- if no job is completed while it is still waiting.
  pub redis-perform-serve_all :
      (requests : List Request) (r : Redis)
      → IsValid r
      → AreOwned requests (view r)
      → ((perform requests r).0 ≡ (serve_all requests (view r)).0)
        × (view (perform requests r).1 ≡ (serve_all requests (view r)).1)
  redis-perform-serve_all [] r v owned = (refl, refl)
  redis-perform-serve_all (request ∷ requests) r v owned =
      let (reply, queue, valid) = call-Simulates request r v owned.0 in
      let r' = (call max_size request r).1 in
      let rest =
        redis-perform-serve_all requests r' valid (subst (AreOwned requests) (sym queue) owned.1) in
      let same = ap (serve_all requests) queue in
      (
        cc (reply, rest.0, ap (λ (e : List Reply × Queue). e.0) same),
        rest.1 ∙ ap (λ (e : List Reply × Queue). e.1) same,
      )
