-- ===== src/Lifespan.antt =====
-- app/main.py: `_default_lifespan`, which starts the service and shuts it down. The detector, the store, the
-- thread pool, the queue and the tasks of the workers are services that change a world `W`; `serve` is the
-- `yield`, the time in which requests are handled. What is logged is left out.
pub mod World
pub mod Shutdown
use lychee_facial_recognitio.Prelude.{
  ℕ, zero, suc, ◌+◌, ◌==◌, if◌then◌else◌, Bool, true, false, ◌||◌, List, [], ◌∷◌,
}
use lychee_facial_recognitio.Async.{Step, pure, ◌>>=◌, ◌>>◌, fail, try_finally}

-- What start-up and shut-down call. `get_up` is the status that Lychee answers at `/up`, and `Pool`, `Store`,
-- `Queue` and `Task` are the values that Python keeps.
pub record Services (W Pool Store Queue Task : Type 0) : Type 0 where
  pub get_up : Step W ℕ
  pub set_deepface_home : Step W (Unit {0})
  pub load_detector : Step W (Unit {0})
  pub create_store : Step W Store
  pub count : Store → Step W ℕ
  pub new_pool : ℕ → Step W Pool
  pub create_queue : Step W Queue
  pub create_worker : Queue → Step W Task
  pub serve : Step W (Unit {0})
  pub cancel : Task → Step W (Unit {0})
  pub gather : List Task → Step W (Unit {0})
  pub close : Queue → Step W (Unit {0})
  pub shutdown : Pool → Step W (Unit {0})

-- `response.status_code in (200, 307)`
abbrev pub is_up : ℕ → Bool
is_up status = status == 200 || status == 307

module _ {W Pool Store Queue Task : Type 0} (services : Services W Pool Store Queue Task) where
  open services use {
    get_up, set_deepface_home, load_detector, create_store, count, new_pool, create_queue,
    create_worker, serve, cancel, gather, close, shutdown,
  }

  abbrev require_up : ℕ → Step W (Unit {0})
  require_up status = if is_up status then pure tt else fail

  -- An answer of another status and a request that fails both end in a `RuntimeError`.
  abbrev pub check_lychee : Bool → Step W (Unit {0})
  check_lychee true = pure tt
  check_lychee false = do status ← get_up; require_up status

  -- `[asyncio.create_task(run_worker(…)) for _ in range(settings.thread_pool_size)]`
  unfoldable pub start_workers : Queue → ℕ → Step W (List Task)
  start_workers queue zero = pure []
  start_workers queue (suc n) = do
    task ← create_worker queue
    tasks ← start_workers queue n
    pure (task ∷ tasks)

  -- `for task in worker_tasks: task.cancel()`
  unfoldable pub cancel_all : List Task → Step W (Unit {0})
  cancel_all [] = pure tt
  cancel_all (task ∷ tasks) = do cancel task; cancel_all tasks

  -- the `finally` clause
  abbrev pub shut_down : Pool → Queue → List Task → Step W (Unit {0})
  shut_down pool queue tasks = do cancel_all tasks; gather tasks; close queue; shutdown pool

  -- What stands above `Start one worker task`
  abbrev pub start_up : Bool → ℕ → Step W (Pool × Queue)
  start_up skip_lychee_check thread_pool_size = do
    check_lychee skip_lychee_check
    set_deepface_home
    load_detector
    store ← create_store
    count store
    pool ← new_pool thread_pool_size
    queue ← create_queue
    pure (pool, queue)

  abbrev run : ℕ → Pool × Queue → Step W (Unit {0})
  run thread_pool_size (pool, queue) = do
    tasks ← start_workers queue thread_pool_size
    try_finally serve (shut_down pool queue tasks)

  -- `_default_lifespan`
  unfoldable pub lifespan : Bool → ℕ → Step W (Unit {0})
  lifespan skip_lychee_check thread_pool_size = do
    started ← start_up skip_lychee_check thread_pool_size
    run thread_pool_size started
