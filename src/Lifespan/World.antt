-- ===== src/Lifespan/World.antt =====
-- The closed world in which start-up and shut-down are followed: what has happened so far, and a clock by
-- which the outside world answers. Creating a task and cancelling one are calls of asyncio that do not wait
-- and do not raise, and so is the shut-down of the thread pool, which is not waited for.
use lychee_facial_recognitio.Prelude.{ℕ, ◌+◌, List, [], ◌∷◌, ◌++◌}
use lychee_facial_recognitio.Async.{Signal, returned, raised, cancelled, Step}
use lychee_facial_recognitio.Lifespan.{Services}

-- What has happened; a worker is known by its number.
pub data Event : Type 0 where
  lychee_answered : ℕ → Event
  home_set detector_loaded store_created store_counted : Event
  pool_created queue_created : Event
  worker_started worker_cancelled : ℕ → Event
  workers_ended queue_closed pool_shut_down : Event

pub record World : Type 0 where
  pub log : List Event
  pub workers : ℕ
  pub clock : ℕ

-- How the outside world answers the call at each tick of the clock.
pub record Outside : Type 0 where
  pub lychee : ℕ → Signal ℕ
  pub detector : ℕ → Signal (Unit {0})
  pub database : ℕ → Signal ℕ
  pub requests : ℕ → Signal (Unit {0})
  pub tasks : ℕ → Signal (Unit {0})

abbrev pub note : Event → World → World
note event w = record w { log = w.log ++ event ∷ [] }

abbrev pub tick : World → World
tick w = record w { clock = w.clock + 1 }

-- The answer of this tick; if the call returns, that is noted.
abbrev pub answer : {A : Type 0} → (ℕ → Signal A) → (A → World → World) → Step World A
answer f change w = elim (f w.clock) [
  | returned a ↦ (returned a, change a (tick w))
  | raised ↦ (raised, tick w)
  | cancelled ↦ (cancelled, tick w)
]

abbrev pub at_once : {A : Type 0} → A → (World → World) → Step World A
at_once a change w = (returned a, change w)

-- The pool, the store and the queue are the only ones.
abbrev pub services_of : Outside → Services World (Unit {0}) (Unit {0}) (Unit {0}) ℕ
services_of outside = record {
  get_up = answer outside.lychee (λ status. note (lychee_answered status));
  set_deepface_home = at_once tt (note home_set);
  load_detector = answer outside.detector (λ _. note detector_loaded);
  create_store = λ w. elim (outside.database w.clock) [
    | returned _ ↦ (returned tt, note store_created (tick w))
    | raised ↦ (raised, tick w)
    | cancelled ↦ (cancelled, tick w)
  ];
  count = λ _. answer outside.database (λ _. note store_counted);
  new_pool = λ size. at_once tt (note pool_created);
  create_queue = λ w. elim (outside.database w.clock) [
    | returned _ ↦ (returned tt, note queue_created (tick w))
    | raised ↦ (raised, tick w)
    | cancelled ↦ (cancelled, tick w)
  ];
  create_worker = λ _ w.
      (returned w.workers, note (worker_started w.workers) (record w { workers = w.workers + 1 }));
  serve = answer outside.requests (λ _ w. w);
  cancel = λ task. at_once tt (note (worker_cancelled task));
  gather = λ _. answer outside.tasks (λ _. note workers_ended);
  close = λ _. answer outside.tasks (λ _. note queue_closed);
  shutdown = λ _. at_once tt (note pool_shut_down);
}
