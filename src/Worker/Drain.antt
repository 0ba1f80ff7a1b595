-- ===== src/Worker/Drain.antt =====
-- The worker on the queue of the protocol: it handles the waiting jobs in order, whatever the handlers
-- do, and leaves none in flight.
use lychee_facial_recognitio.Prelude.{
  ℕ, suc, ◌+◌, ◌<◌, ◌≡◌, ◌≢◌, refl, String, Bool, true, false, Option, none, some, List, [], ◌∷◌,
  ◌++◌, length, filter, arith, All, ltb, ◌&&◌, if◌then◌else◌, str_eq, not, filter-append,
  append-nil, sym, subst,
}
use lychee_facial_recognitio.JobQueue
use lychee_facial_recognitio.JobQueue.{Job, Queue, other_than}
use lychee_facial_recognitio.JobQueue.Fifo.{Rises, filter-other_than}
use lychee_facial_recognitio.Async.{Signal, returned, raised, cancelled, Step, pure}
use lychee_facial_recognitio.Worker.{Services, handle, maybe_dispatch_clustering, pass, run_worker}

run_worker-next :
    {W : Type 0} (services : Services W) (passes : ℕ) (auto : Bool) (w w' : W)
    → pass services auto w ≡ (true, w')
    → run_worker services (suc passes) auto w ≡ run_worker services passes auto w'
unfolding run_worker
run_worker-next services passes auto w w' e = ground arith

abbrev waiting : List Job → ℕ → Queue
waiting jobs next_id = record { inflight = []; pending = jobs; next_id = next_id }

-- Nothing in flight, and nothing waiting but clustering.
abbrev pub IsIdle : Queue → Type 0
IsIdle q = (q.inflight ≡ []) × All (λ (j : Job). j.job_type ≡ "cluster") q.pending

module _ {E : Type 0} where
  -- A handler changes its own part of the world only.
  abbrev beside : {A : Type 0} → Step E A → Step (Queue × E) A
  beside m (q, e) = let (r, e') = m e in (r, (q, e'))

  abbrev on_queue : {A : Type 0} → (Queue → A × Queue) → Step (Queue × E) A
  on_queue f (q, e) = let (a, q') = f q in (returned a, (q', e))

  -- A worker alone with the queue of the protocol.
  abbrev pub services_of :
      (String → String → Step E (Unit {0}))
      → Step E (Unit {0})
      → (String → Option String)
      → Services (Queue × E)
  services_of detection clustering path_of = record {
    dequeue = on_queue JobQueue.dequeue;
    complete = λ job_id. on_queue (λ q. (tt, JobQueue.complete job_id q));
    enqueue_if_idle =
        λ job_type photo_id payload. on_queue (JobQueue.enqueue_if_idle job_type photo_id payload);
    run_detection_job = λ photo_id photo_path. beside (detection photo_id photo_path);
    run_clustering_job = beside clustering;
    sleep = pure tt;
    photo_path_of = path_of;
  }

module _ {E : Type 0} (detection : String → String → Step E (Unit {0}))
    (clustering : Step E (Unit {0})) (path_of : String → Option String) where
  -- What the handler of a job does to its part of the world.
  abbrev pub run_job : Job → Step E (Unit {0})
  run_job job e =
      if str_eq job.job_type "detect"
      then (elim (path_of job.payload) [
        | none ↦ (raised, e)
        | some photo_path ↦ detection job.photo_id photo_path e
      ])
      else (if str_eq job.job_type "cluster" then clustering e else (returned tt, e))

  handle-run_job :
      (job : Job) (q : Queue) (e : E)
      → handle (services_of detection clustering path_of) job (q, e)
        ≡ ((run_job job e).0, (q, (run_job job e).1))
  unfolding handle
  handle-run_job job q e = ground arith

  abbrev pub run_all : List Job → E → E
  run_all [] e = e
  run_all (job ∷ jobs) e = run_all jobs (run_job job e).1

  -- A pass that finds another job waiting.
  pass_more :
      (auto : Bool) (job next : Job) (rest : List Job) (next_id : ℕ) (e : E)
      → (run_job job e).0 ≢ cancelled
      → filter (other_than job.id) (next ∷ rest) ≡ next ∷ rest
      → pass
          (services_of detection clustering path_of)
          auto
          (waiting (job ∷ next ∷ rest) next_id, e)
        ≡ (true, (waiting (next ∷ rest) next_id, (run_job job e).1))
  unfolding pass maybe_dispatch_clustering JobQueue.dequeue JobQueue.complete
      JobQueue.enqueue_if_idle
  pass_more auto job next rest next_id e going others = ground (
    arith,
    others,
    handle-run_job job (record { inflight = job ∷ []; pending = next ∷ rest; next_id = next_id }) e,
  )

  pass_last :
      (auto : Bool) (job : Job) (next_id : ℕ) (e : E)
      → (run_job job e).0 ≢ cancelled
      → let (on, w) =
          pass (services_of detection clustering path_of) auto (waiting (job ∷ []) next_id, e) in
        (on ≡ true) × (w.1 ≡ (run_job job e).1) × IsIdle w.0
  unfolding pass maybe_dispatch_clustering JobQueue.dequeue JobQueue.complete
      JobQueue.enqueue_if_idle JobQueue.push
  pass_last auto job next_id e going = ground (
    arith,
    handle-run_job job (record { inflight = job ∷ []; pending = []; next_id = next_id }) e,
  )

  Rises-others :
      (lo hi : ℕ) (js : List Job) (k : ℕ) → k < lo → Rises lo js hi → All (λ (j : Job). j.id ≢ k) js
  Rises-others lo hi [] k h r = tt
  Rises-others lo hi (j ∷ js) k h r =
      (omega arith, Rises-others (suc j.id) hi js k (omega arith) r.1)

  -- From a queue with nothing in flight and ids in order, a worker makes as many passes as jobs wait,
  -- and goes on; it runs the handlers of these jobs once each, in order, whatever handlers raise, as
  -- long as none is cancelled; afterwards nothing is in flight, and nothing waits but, if at all, the
  -- clustering that the worker dispatched itself.
  pub run_worker_drains :
      (auto : Bool) (jobs : List Job) (lo next_id : ℕ) (e : E)
      → ((job : Job) (x : E) → (run_job job x).0 ≢ cancelled)
      → Rises lo jobs next_id
      → let q : Queue = record { inflight = []; pending = jobs; next_id = next_id } in
        let (on, w) =
          run_worker (services_of detection clustering path_of) (length jobs) auto (q, e) in
        (on ≡ true) × (w.1 ≡ run_all jobs e) × IsIdle w.0
  unfolding run_worker
  run_worker_drains auto [] lo next_id e going rises = (refl, refl, (refl, tt))
  run_worker_drains auto (job ∷ []) lo next_id e going rises =
      ground (arith, pass_last auto job next_id e (going job e))
  run_worker_drains auto (job ∷ next ∷ rest) lo next_id e going rises =
      let others =
        filter-other_than job.id (next ∷ rest)
          (Rises-others (suc job.id) next_id (next ∷ rest) job.id (omega arith) rises.1) in
      subst
        (λ (end : Bool × (Queue × E)).
          (end.0 ≡ true) × (end.1.1 ≡ run_all (job ∷ next ∷ rest) e) × IsIdle end.1.0)
        (sym (
          run_worker-next (services_of detection clustering path_of) (suc (length rest)) auto _ _
            (pass_more auto job next rest next_id e (going job e) others)))
        (run_worker_drains auto (next ∷ rest) (suc job.id) next_id (run_job job e).1 going rises.1)

abbrev pub is_cancelled : {A : Type 0} → Signal A → Bool
is_cancelled cancelled = true
is_cancelled _ = false

-- Whether clustering is dispatched after a job: a detection that returned, after which nothing waits and
-- nothing is in flight.
abbrev is_dispatched : Bool → Signal (Unit {0}) → Job → ℕ → Bool
is_dispatched auto (returned _) job others =
    str_eq job.job_type "detect" && (auto && not (ltb 0 others))
is_dispatched auto _ job others = false

abbrev pub dispatched : Bool → Signal (Unit {0}) → Job → ℕ → ℕ → List Job
dispatched auto end job others next_id =
    if is_dispatched auto end job others
    then record { id = next_id; job_type = "cluster"; photo_id = ""; payload = "{}" } ∷ []
    else []

-- However the handler of a job ends, the pass that took the job from the queue completes it: no job with
-- its id is left, in flight or waiting, unless the automatic dispatch has added a job, which it does
-- exactly after a detection that returned, if it is switched on and the queue is idle. The other jobs stay
-- as they are. That holds for a handler that is cancelled too, after which alone the loop ends; so a job
-- that a shutdown interrupts is dropped, not put back.
pub pass_completes :
    {E : Type 0} (detection : String → String → Step E (Unit {0})) (clustering : Step E (Unit {0}))
    (path_of : String → Option String) (auto : Bool) (inflight : List Job) (job : Job)
    (rest : List Job) (next_id : ℕ) (e : E)
    → let q : Queue = record { inflight = inflight; pending = job ∷ rest; next_id = next_id } in
      let (on, w) = pass (services_of detection clustering path_of) auto (q, e) in
      let (end, e') = run_job detection clustering path_of job e in
      let others = filter (other_than job.id) rest in
      let still = filter (other_than job.id) inflight in
      (on ≡ not (is_cancelled end))
      × (w.1 ≡ e')
      × (w.0.inflight ≡ still)
      × (w.0.pending ≡ others ++ dispatched auto end job (length others + length still) next_id)
unfolding pass maybe_dispatch_clustering JobQueue.dequeue JobQueue.complete JobQueue.enqueue_if_idle
    JobQueue.push
pass_completes detection clustering path_of auto inflight job rest next_id e = ground (
  arith,
  handle-run_job detection clustering path_of job
      (record { inflight = inflight ++ job ∷ []; pending = rest; next_id = next_id }) e,
  filter-append (other_than job.id) inflight (job ∷ []),
  append-nil (filter (other_than job.id) inflight),
  append-nil (filter (other_than job.id) rest),
)
