-- ===== src/Worker.antt =====
-- app/queue/worker.py: the loop that takes jobs from the queue, runs their handlers and completes them.
-- `W` is the world that the queue and the handlers change. The detection and clustering jobs of
-- app/api/routes.py (DetectionJob, ClusteringJob) are parameters here, and so is `photo_path_of`, which is
-- `json.loads(payload)["photo_path"]` (`none` where it raises).
pub mod Drain
pub mod Team
pub mod Shares
pub mod Exclusive
use lychee_facial_recognitio.Prelude.{
  ℕ, zero, suc, if◌then◌else◌, String, str_eq, Bool, true, false, Option, none, some,
}
use lychee_facial_recognitio.JobQueue.{Job}
use lychee_facial_recognitio.Async.{
  Signal, returned, raised, cancelled, Step, pure, ◌>>=◌, ◌>>◌, try_finally,
}

-- What the worker calls: the queue, the jobs of the routes, and `asyncio.sleep`.
pub record Services (W : Type 0) : Type 0 where
  pub dequeue : Step W (Option Job)
  pub complete : ℕ → Step W (Unit {0})
  pub enqueue_if_idle : String → String → String → Step W Bool
  pub run_detection_job : String → String → Step W (Unit {0})
  pub run_clustering_job : Step W (Unit {0})
  pub sleep : Step W (Unit {0})
  pub photo_path_of : String → Option String

module _ {W : Type 0} (services : Services W) where
  open services use {
    dequeue, complete, enqueue_if_idle, run_detection_job, run_clustering_job, sleep, photo_path_of,
  }

  -- `_handle_detect`
  abbrev pub handle_detect : Job → Step W (Unit {0})
  handle_detect job w = elim (photo_path_of job.payload) [
    | none ↦ (raised, w)
    | some photo_path ↦ run_detection_job job.photo_id photo_path w
  ]

  -- the branches on the job's type
  unfoldable pub handle : Job → Step W (Unit {0})
  handle job =
      if str_eq job.job_type "detect"
      then handle_detect job
      else (if str_eq job.job_type "cluster" then run_clustering_job else pure tt)

  -- `_maybe_dispatch_clustering`
  unfoldable pub maybe_dispatch_clustering : Bool → Step W (Unit {0})
  maybe_dispatch_clustering auto_dispatch_dbscan =
      if auto_dispatch_dbscan then (do enqueue_if_idle "cluster" "" "{}"; pure tt) else pure tt

  abbrev follow_up : Bool → Job → Step W (Unit {0})
  follow_up auto_dispatch_dbscan job =
      if str_eq job.job_type "detect"
      then maybe_dispatch_clustering auto_dispatch_dbscan
      else pure tt

  abbrev process : Bool → Option Job → Step W (Unit {0})
  process auto_dispatch_dbscan none = sleep
  process auto_dispatch_dbscan (some job) = do
    try_finally (handle job) (complete job.id)
    follow_up auto_dispatch_dbscan job

  -- One pass of the loop, and whether the loop goes on: an exception is logged, a cancellation breaks.
  unfoldable pub pass : Bool → W → Bool × W
  pass auto_dispatch_dbscan w =
      let (r, w') = (do job ← dequeue; process auto_dispatch_dbscan job) w in
      elim r [ returned _ ↦ (true, w') | raised ↦ (true, w') | cancelled ↦ (false, w') ]

  -- `run_worker`, for at most as many passes.
  unfoldable pub run_worker : ℕ → Bool → W → Bool × W
  run_worker zero auto_dispatch_dbscan w = (true, w)
  run_worker (suc passes) auto_dispatch_dbscan w =
      let (go_on, w') = pass auto_dispatch_dbscan w in
      elim go_on [ true ↦ run_worker passes auto_dispatch_dbscan w' | false ↦ (false, w') ]
