-- ===== src/Worker/Team.antt =====
-- The workers of a service at work together: between any two `await`s of one worker the others go on, and
-- requests change the queue. A step is one `await` of the loop of `run_worker`, on the queue of the protocol.
use lychee_facial_recognitio.Prelude.{
  ℕ, zero, suc, ◌≡◌, refl, if◌then◌else◌, str_eq, Bool, true, false, ◌&&◌, ◌||◌, Option, none, some,
  List, [], ◌∷◌, ◌++◌, arith,
}
use lychee_facial_recognitio.Async.{Signal, returned, raised, cancelled, pure}
use lychee_facial_recognitio.JobQueue
use lychee_facial_recognitio.JobQueue.{Job, Queue}
use lychee_facial_recognitio.JobQueue.Protocol.{Request, serve}
use lychee_facial_recognitio.Worker.{Services, handle, maybe_dispatch_clustering, pass}

-- What a worker awaits next: the job that it asks the queue for, the end of the handler of a job and its
-- completion, the automatic dispatch after it, or nothing any more.
pub data Stage : Type 0 where
  waiting stopped : Stage
  handling following : Job → Stage

-- How a call of the queue ends. One that raises or is cancelled may have taken effect: it runs in a thread,
-- which a cancellation does not stop.
pub data Fate : Type 0 where
  finished : Fate
  failed interrupted : Bool → Fate

abbrev pub effect : {A : Type 0} → Fate → A → A → A
effect finished new old = new
effect (failed runs) new old = if runs then new else old
effect (interrupted runs) new old = if runs then new else old

-- `except Exception` goes on with the loop, `except asyncio.CancelledError` breaks it.
abbrev pub onward : Fate → Stage → Stage
onward finished stage = stage
onward (failed runs) stage = waiting
onward (interrupted runs) stage = stopped

abbrev pub picked : Option Job → Stage
picked none = waiting
picked (some job) = handling job

abbrev pub handled : Signal (Unit {0}) → Job → Stage
handled (returned _) job = following job
handled raised job = waiting
handled cancelled job = stopped

-- The automatic dispatch after a detection.
abbrev pub dispatch : Bool → Job → Queue → Queue
dispatch auto_dispatch_dbscan job q =
    if str_eq job.job_type "detect" && auto_dispatch_dbscan
    then (JobQueue.enqueue_if_idle "cluster" "" "{}" q).1
    else q

-- The next `await` of a worker; `end` is how the handler ends.
unfoldable pub advance : Bool → Signal (Unit {0}) → Fate → Stage → Queue → Stage × Queue
advance auto_dispatch_dbscan end fate waiting q =
    let (job, q') = JobQueue.dequeue q in (onward fate (picked job), effect fate q' q)
advance auto_dispatch_dbscan end fate stopped q = (stopped, q)
advance auto_dispatch_dbscan end fate (handling job) q =
    (onward fate (handled end job), effect fate (JobQueue.complete job.id q) q)
advance auto_dispatch_dbscan end fate (following job) q =
    (onward fate waiting, effect fate (dispatch auto_dispatch_dbscan job q) q)

pub record Team : Type 0 where
  pub queue : Queue
  pub stages : List Stage

-- The requests of the endpoints, which take no job and complete none.
abbrev pub IsFromClient : Request → Type 0
IsFromClient Request.dequeue = ⊥
IsFromClient (Request.complete job_id) = ⊥
IsFromClient _ = Unit

abbrev pub after_await : List Stage → List Stage → Stage × Queue → Team
after_await before after (stage, q) = record { queue = q; stages = before ++ stage ∷ after }

pub data Step (max_size : ℕ) (auto_dispatch_dbscan : Bool) (t : Team) : Team → Type 0 where
  work :
      (end : Signal (Unit {0})) (fate : Fate) (before after : List Stage) (stage : Stage)
      → t.stages ≡ before ++ stage ∷ after
      → Step max_size auto_dispatch_dbscan t
          (after_await before after (advance auto_dispatch_dbscan end fate stage t.queue))
  ask :
      (request : Request)
      → IsFromClient request
      → Step max_size auto_dispatch_dbscan t
          (record t { queue = (serve max_size request t.queue).1 })

pub data Reach (max_size : ℕ) (auto_dispatch_dbscan : Bool) (t : Team) : Team → Type 0 where
  here : Reach max_size auto_dispatch_dbscan t t
  later :
      {u v : Team}
      → Reach max_size auto_dispatch_dbscan t u
      → Step max_size auto_dispatch_dbscan u v
      → Reach max_size auto_dispatch_dbscan t v

abbrev pub waiting_workers : ℕ → List Stage
waiting_workers zero = []
waiting_workers (suc n) = waiting ∷ waiting_workers n

-- The services of a worker alone, with a handler that ends as `end` says.
abbrev services_of : Signal (Unit {0}) → Services Queue
services_of end = record {
  dequeue = λ q. let (job, q') = JobQueue.dequeue q in (returned job, q');
  complete = λ job_id q. (returned tt, JobQueue.complete job_id q);
  enqueue_if_idle = λ job_type photo_id payload q.
      let (accepted, q') = JobQueue.enqueue_if_idle job_type photo_id payload q in
      (returned accepted, q');
  run_detection_job = λ photo_id photo_path q. (end, q);
  run_clustering_job = λ q. (end, q);
  sleep = pure tt;
  photo_path_of = some;
}

-- How the handler of the stage ends: a job of an unknown type is discarded.
abbrev end_of : Signal (Unit {0}) → Stage → Signal (Unit {0})
end_of end (handling job) =
    if str_eq job.job_type "detect" || str_eq job.job_type "cluster" then end else returned tt
end_of end _ = end

module _ (auto_dispatch_dbscan : Bool) where
  abbrev next : Signal (Unit {0}) → Stage × Queue → Stage × Queue
  next end (stage, q) = advance auto_dispatch_dbscan (end_of end stage) finished stage q

  -- What is left of a pass when the job is completed.
  abbrev last : Stage × Queue → Bool × Queue
  last (following job, q) = (true, (next raised (following job, q)).1)
  last (stopped, q) = (false, q)
  last (_, q) = (true, q)

  -- A worker that nothing disturbs makes a pass of its loop.
  pub pass-next :
      (end : Signal (Unit {0})) (inflight pending : List Job) (next_id : ℕ)
      → let q : Queue = record { inflight = inflight; pending = pending; next_id = next_id } in
        pass (services_of end) auto_dispatch_dbscan q ≡ last (next end (next end (waiting, q)))
  unfolding pass advance handle maybe_dispatch_clustering JobQueue.dequeue
  pass-next end inflight [] next_id = refl
  pass-next (returned tt) inflight (job ∷ pending) next_id = ground arith
  pass-next raised inflight (job ∷ pending) next_id = ground arith
  pass-next cancelled inflight (job ∷ pending) next_id = ground arith
