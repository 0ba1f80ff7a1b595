-- ===== src/Lifespan/Shutdown.antt =====
-- Whatever fails: no worker runs before the service is up, and none is left behind.
use lychee_facial_recognitio.Prelude.{
  ℕ, zero, suc, ◌+◌, ◌≡◌, refl, ap, ◌∙◌, ◌⊎◌, inl, inr, Bool, true, false, List, [], ◌∷◌, ◌++◌, map,
  All, append_assoc, append-nil, arith,
}
use lychee_facial_recognitio.Async.{
  Signal, returned, raised, cancelled, try_finally, bind-returned, try_finally-ends, ◌>>=◌,
}
use lychee_facial_recognitio.Lifespan.{
  is_up, start_up, start_workers, cancel_all, shut_down, run, lifespan,
}
use lychee_facial_recognitio.Lifespan.World.{
  Event, lychee_answered, home_set, detector_loaded, store_created, store_counted, pool_created,
  queue_created, worker_started, worker_cancelled, workers_ended, queue_closed, pool_shut_down,
  World, Outside, services_of, tick,
}

-- Before start-up.
abbrev pub down : ℕ → World
down clock = record { log = []; workers = 0; clock = clock }

abbrev pub is_of_start_up : Event → Bool
is_of_start_up (worker_started n) = false
is_of_start_up (worker_cancelled n) = false
is_of_start_up workers_ended = false
is_of_start_up queue_closed = false
is_of_start_up pool_shut_down = false
is_of_start_up _ = true

abbrev pub started_up : List Event
started_up =
    home_set ∷ detector_loaded ∷ store_created ∷ store_counted ∷ pool_created ∷ queue_created ∷ []

-- Lychee is asked unless the check is skipped, and lets the service start with 200 or 307.
abbrev pub asked : Bool → Signal ℕ → List Event
asked false (returned status) = lychee_answered status ∷ []
asked _ _ = []

abbrev pub LetsIn : Bool → Signal ℕ → Type 0
LetsIn true up = Unit
LetsIn false (returned status) = is_up status ≡ true
LetsIn false _ = ⊥

-- How start-up ends: with all of it, or before its end.
abbrev StartsUp : {A : Type 0} → Bool → Signal ℕ → Signal A × World → Type 0
StartsUp skip up (returned a, w) =
    LetsIn skip up × (w.log ≡ asked skip up ++ started_up) × (w.workers ≡ 0)
StartsUp skip up (raised, w) = All (λ e. is_of_start_up e ≡ true) w.log
StartsUp skip up (cancelled, w) = All (λ e. is_of_start_up e ≡ true) w.log

module _ (outside : Outside) where
  start_up-StartsUp :
      (skip : Bool) (n clock : ℕ)
      → StartsUp skip (outside.lychee clock) (start_up (services_of outside) skip n (down clock))
  start_up-StartsUp true n clock = ground arith
  start_up-StartsUp false n clock = ground arith

-- The numbers of the next workers.
abbrev pub numbers : ℕ → ℕ → List ℕ
numbers first zero = []
numbers first (suc n) = first ∷ numbers (first + 1) n

module _ (outside : Outside) where
  start_workers_lem :
      (n : ℕ) (w : World)
      → start_workers (services_of outside) tt n w ≡ (
        returned (numbers w.workers n),
        record {
          log = w.log ++ map worker_started (numbers w.workers n);
          workers = w.workers + n;
          clock = w.clock;
        },
      )
  unfolding start_workers
  start_workers_lem zero w = ground (arith, append-nil w.log)
  start_workers_lem (suc n) w =
      let w' : World = record {
        log = w.log ++ worker_started w.workers ∷ [];
        workers = w.workers + 1;
        clock = w.clock;
      } in
      let rest = map worker_started (numbers (w.workers + 1) n) in
      ground
        (arith, start_workers_lem n w', append_assoc w.log (worker_started w.workers ∷ []) rest)

  cancel_all_lem :
      (tasks : List ℕ) (w : World)
      → cancel_all (services_of outside) tasks w
        ≡ (returned tt, record w { log = w.log ++ map worker_cancelled tasks })
  unfolding cancel_all
  cancel_all_lem [] w = ground (arith, append-nil w.log)
  cancel_all_lem (task ∷ tasks) w = ground (
    arith,
    cancel_all_lem tasks (record w { log = w.log ++ worker_cancelled task ∷ [] }),
    append_assoc w.log (worker_cancelled task ∷ []) (map worker_cancelled tasks),
  )

-- What follows the cancellation of the workers: how far it comes depends on how the wait for their ends and
-- the closing of the queue end.
abbrev pub rest_of : Signal (Unit {0}) → Signal (Unit {0}) → List Event
rest_of (returned _) (returned _) = workers_ended ∷ queue_closed ∷ pool_shut_down ∷ []
rest_of (returned _) _ = workers_ended ∷ []
rest_of _ _ = []

module _ (outside : Outside) where
  shut_down-log :
      (tasks : List ℕ) (w : World)
      → (shut_down (services_of outside) tt tt tasks w).1.log
        ≡ (w.log ++ map worker_cancelled tasks)
          ++ rest_of (outside.tasks w.clock) (outside.tasks (w.clock + 1))
  shut_down-log tasks w =
      let log = w.log ++ map worker_cancelled tasks in
      ground (
        arith,
        cancel_all_lem outside tasks w,
        append-nil log,
        append_assoc log (workers_ended ∷ []) (queue_closed ∷ []),
        append_assoc log (workers_ended ∷ queue_closed ∷ []) (pool_shut_down ∷ []),
      )

  serve-tick : (w : World) → ((services_of outside).serve w).1 ≡ tick w
  serve-tick w = ground arith

  -- What has happened in the end, when start-up has come to its end.
  abbrev pub whole_log : Bool → ℕ → ℕ → ℕ → List Event
  whole_log skip n clock later =
      (asked skip (outside.lychee clock) ++ started_up)
      ++ map worker_started (numbers 0 n)
      ++ map worker_cancelled (numbers 0 n)
      ++ rest_of (outside.tasks later) (outside.tasks (later + 1))

  run-log :
      (n : ℕ) (w : World)
      → w.workers ≡ 0
      → (later : ℕ) × ((run (services_of outside) n (tt, tt) w).1.log
          ≡ w.log
            ++ map worker_started (numbers 0 n)
            ++ map worker_cancelled (numbers 0 n)
            ++ rest_of (outside.tasks later) (outside.tasks (later + 1)))
  run-log n w none_yet =
      let services = services_of outside in
      let started = map worker_started (numbers 0 n) in
      let cancels = map worker_cancelled (numbers 0 n) in
      let up : World = record {
        log = w.log ++ started;
        workers = w.workers + n;
        clock = w.clock;
      } in
      let over : World = record up { clock = w.clock + 1 } in
      let cleanup = shut_down services tt tt (numbers 0 n) in
      let begun : start_workers services tt n w ≡ (returned (numbers 0 n), up) =
        rw (← none_yet) (start_workers_lem outside n w) in
      let finished =
        try_finally-ends services.serve cleanup up ∙ ap (λ v. (cleanup v).1) (serve-tick up) in
      (
        w.clock + 1,
        ap (λ end. end.1.log)
              (bind-returned (λ tasks. try_finally services.serve (shut_down services tt tt tasks))
                (start_workers services tt n) w up (numbers 0 n) begun)
            ∙ ap (λ (v : World). v.log) finished
            ∙ shut_down-log (numbers 0 n) over,
      )

-- Whether a call has returned.
abbrev pub has_returned : {A : Type 0} → Signal A → Bool
has_returned (returned a) = true
has_returned _ = false

module _ (outside : Outside) (skip : Bool) (n clock : ℕ) where
  -- How the life of the service ends: before its workers were started, with an exception or a cancellation,
  -- or with the whole of `whole_log`.
  abbrev pub Ends : Signal (Unit {0}) × World → Type 0
  Ends (r, w) =
      ((has_returned r ≡ false) × All (λ e. is_of_start_up e ≡ true) w.log)
      ⊎ (LetsIn skip (outside.lychee clock)
          × ((later : ℕ) × (w.log ≡ whole_log outside skip n clock later)))

  run-Ends :
      (end : Signal (Unit {0} × Unit {0}) × World)
      → StartsUp skip (outside.lychee clock) end
      → Ends (((λ _. end) >>= run (services_of outside) n) (down clock))
  run-Ends (returned (pool, queue), w) h =
      let (later, e) = run-log outside n w h.2 in
      let starts = map worker_started (numbers 0 n) in
      let cancels = map worker_cancelled (numbers 0 n) in
      let rest = rest_of (outside.tasks later) (outside.tasks (later + 1)) in
      inr (h.0, (later, e ∙ ap (λ events. events ++ starts ++ cancels ++ rest) h.1))
  run-Ends (raised, w) h = inl (refl, h)
  run-Ends (cancelled, w) h = inl (refl, h)

  -- Whatever calls fail or are cancelled, from a service that is down: either start-up does not come to its
  -- end, and then no worker was started, or Lychee has answered with 200 or 307 (unless the check is
  -- skipped), the detector was loaded and the store and the queue opened, in this order, before the first of
  -- the `thread_pool_size` workers was started. Then, however the handling of requests ends, each of the
  -- workers is cancelled, once; their ends are waited for, and if that returns the queue is closed, and if
  -- that returns the thread pool is shut down.
  pub lifespan-Ends : Ends (lifespan (services_of outside) skip n (down clock))
  unfolding lifespan
  lifespan-Ends =
      run-Ends (start_up (services_of outside) skip n (down clock))
        (start_up-StartsUp outside skip n clock)
