-- ===== src/DbQueue/Postgres/Transactions.antt =====
-- Every method of `PgJobQueue` is one transaction; one that raises changes nothing, unless the connection
-- was lost in its commit.
use lychee_facial_recognitio.Prelude.{ℕ, String, Bool, true, false, if◌then◌else◌, ltb, ap, arith}
use lychee_facial_recognitio.Sql.{Outcome, Session, Result, ok, err, pure, ◌>>=◌}
use lychee_facial_recognitio.Sql.Postgres.{Atomic, IsHealthy}
use lychee_facial_recognitio.JobQueue.Protocol.{Request, Reply, with_reply}
use lychee_facial_recognitio.JobQueue.{is_full}
use lychee_facial_recognitio.DbQueue.{Table, count_pending, count_all, count_pending_up_to}
use lychee_facial_recognitio.DbQueue.Steps.{
  dequeue_step, complete_step, size_step, purge_step, position_step, init_step, step_of,
}
use lychee_facial_recognitio.DbQueue.Postgres.{
  init_table, enqueue_sync, enqueue_if_idle_sync, dequeue_sync, complete_sync, size_sync,
  purge_sync, position_sync, call, insert_serial,
}

-- A method that only wraps the result of another is the same transaction.
wrap-Atomic :
    {A B : Type 0} (f : A → B) (step : Table → A × Table) (s : Session Table)
    (end : Result A × Session Table)
    → Atomic step s end
    → Atomic (λ t. let (a, t') = step t in (f a, t')) s (((λ _. end) >>= λ a. pure (f a)) s)
wrap-Atomic f step s (ok a, s') h = (ap f h.0, h.1, h.2, h.3, h.4)
wrap-Atomic f step s (err e, s') h = (h.0, h.1, h.2)

abbrev pub enqueue_serial_step : ℕ → ℕ → String → String → String → Table → Bool × Table
enqueue_serial_step skipped max_size job_type photo_id payload t =
    if is_full max_size (count_pending t)
    then (false, t)
    else (true, insert_serial skipped job_type photo_id payload t)

abbrev pub enqueue_if_idle_serial_step : ℕ → String → String → String → Table → Bool × Table
enqueue_if_idle_serial_step skipped job_type photo_id payload t =
    if ltb 0 (count_all t)
    then (false, t)
    else (true, insert_serial skipped job_type photo_id payload t)

-- What a method does to the table when an insertion skips so many ids.
abbrev pub serial_step : ℕ → ℕ → Request → Table → Reply × Table
serial_step skipped max_size (Request.enqueue job_type photo_id payload) t =
    with_reply Reply.accepted (enqueue_serial_step skipped max_size job_type photo_id payload t)
serial_step skipped max_size (Request.enqueue_if_idle job_type photo_id payload) t =
    with_reply Reply.accepted (enqueue_if_idle_serial_step skipped job_type photo_id payload t)
serial_step skipped max_size request t = step_of max_size request t

module _ (outcome : ℕ → Outcome) (s : Session Table) (healthy : IsHealthy s) where
  pub init_table-Atomic : Atomic init_step s (init_table outcome s)
  unfolding init_table
  init_table-Atomic = ground arith

  pub enqueue-Atomic :
      (skipped max_size : ℕ) (job_type photo_id payload : String)
      → Atomic
          (enqueue_serial_step skipped max_size job_type photo_id payload)
          s
          (enqueue_sync outcome skipped max_size job_type photo_id payload s)
  unfolding enqueue_sync
  enqueue-Atomic skipped max_size job_type photo_id payload = ground arith

  pub enqueue_if_idle-Atomic :
      (skipped : ℕ) (job_type photo_id payload : String)
      → Atomic
          (enqueue_if_idle_serial_step skipped job_type photo_id payload)
          s
          (enqueue_if_idle_sync outcome skipped job_type photo_id payload s)
  unfolding enqueue_if_idle_sync
  enqueue_if_idle-Atomic skipped job_type photo_id payload = ground arith

  pub dequeue-Atomic : Atomic dequeue_step s (dequeue_sync outcome s)
  unfolding dequeue_sync
  dequeue-Atomic = ground arith

  pub complete-Atomic :
      (job_id : ℕ) → Atomic (complete_step job_id) s (complete_sync outcome job_id s)
  unfolding complete_sync
  complete-Atomic job_id = ground arith

  pub size-Atomic : Atomic size_step s (size_sync outcome s)
  unfolding size_sync
  size-Atomic = ground arith

  pub purge-Atomic : Atomic purge_step s (purge_sync outcome s)
  unfolding purge_sync
  purge-Atomic = ground arith

  pub position-Atomic :
      (photo_id : String) → Atomic (position_step photo_id) s (position_sync outcome photo_id s)
  unfolding position_sync count_pending_up_to
  position-Atomic photo_id = ground arith

  -- Every request is answered by one transaction.
  pub call-Atomic :
      (skipped : ℕ → ℕ) (max_size : ℕ) (request : Request)
      → Atomic
          (serial_step (skipped s.clock) max_size request)
          s
          (call outcome skipped max_size request s)
  unfolding call
  call-Atomic skipped max_size (Request.enqueue job_type photo_id payload) =
      wrap-Atomic Reply.accepted
        (enqueue_serial_step (skipped s.clock) max_size job_type photo_id payload) s
        (enqueue_sync outcome (skipped s.clock) max_size job_type photo_id payload s)
        (enqueue-Atomic (skipped s.clock) max_size job_type photo_id payload)
  call-Atomic skipped max_size (Request.enqueue_if_idle job_type photo_id payload) =
      wrap-Atomic Reply.accepted
        (enqueue_if_idle_serial_step (skipped s.clock) job_type photo_id payload) s
        (enqueue_if_idle_sync outcome (skipped s.clock) job_type photo_id payload s)
        (enqueue_if_idle-Atomic (skipped s.clock) job_type photo_id payload)
  call-Atomic skipped max_size Request.dequeue =
      wrap-Atomic Reply.job dequeue_step s (dequeue_sync outcome s) dequeue-Atomic
  call-Atomic skipped max_size (Request.complete job_id) =
      wrap-Atomic (λ _. Reply.done) (complete_step job_id) s (complete_sync outcome job_id s)
        (complete-Atomic job_id)
  call-Atomic skipped max_size Request.size =
      wrap-Atomic Reply.count size_step s (size_sync outcome s) size-Atomic
  call-Atomic skipped max_size Request.purge =
      wrap-Atomic (λ _. Reply.done) purge_step s (purge_sync outcome s) purge-Atomic
  call-Atomic skipped max_size (Request.position photo_id) =
      wrap-Atomic Reply.place (position_step photo_id) s (position_sync outcome photo_id s)
        (position-Atomic photo_id)
