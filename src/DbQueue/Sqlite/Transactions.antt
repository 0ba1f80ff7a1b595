-- ===== src/DbQueue/Sqlite/Transactions.antt =====
-- Every method of `SQLiteJobQueue` is one transaction.
use lychee_facial_recognitio.Prelude.{ℕ, String, arith}
use lychee_facial_recognitio.Sql.{Outcome, Session}
use lychee_facial_recognitio.Sql.Sqlite.{Atomic, wrap-Atomic}
use lychee_facial_recognitio.JobQueue.Protocol.{Request, Reply}
use lychee_facial_recognitio.DbQueue.{Table, count_pending_up_to}
use lychee_facial_recognitio.DbQueue.Steps.{
  enqueue_step, enqueue_if_idle_step, dequeue_step, complete_step, size_step, purge_step,
  position_step, init_step, step_of,
}
use lychee_facial_recognitio.DbQueue.Sqlite.{
  init_table, enqueue_sync, enqueue_if_idle_sync, dequeue_sync, complete_sync, size_sync,
  purge_sync, position_sync, call,
}

module _ (outcome : ℕ → Outcome) (s : Session Table) where
  pub init_table-Atomic : Atomic init_step s (init_table outcome s)
  unfolding init_table
  init_table-Atomic = ground arith

  pub enqueue-Atomic :
      (max_size : ℕ) (job_type photo_id payload : String)
      → Atomic
          (enqueue_step max_size job_type photo_id payload)
          s
          (enqueue_sync outcome max_size job_type photo_id payload s)
  unfolding enqueue_sync
  enqueue-Atomic max_size job_type photo_id payload = ground arith

  pub enqueue_if_idle-Atomic :
      (job_type photo_id payload : String)
      → Atomic
          (enqueue_if_idle_step job_type photo_id payload)
          s
          (enqueue_if_idle_sync outcome job_type photo_id payload s)
  unfolding enqueue_if_idle_sync
  enqueue_if_idle-Atomic job_type photo_id payload = ground arith

  pub dequeue-Atomic : Atomic dequeue_step s (dequeue_sync outcome s)
  unfolding dequeue_sync
  dequeue-Atomic = ground arith

  pub complete-Atomic :
      (job_id : ℕ) → Atomic (complete_step job_id) s (complete_sync outcome job_id s)
  unfolding complete_sync
  complete-Atomic job_id = ground arith

  pub size-Atomic : Atomic size_step s (size_sync outcome s)
  unfolding size_sync
  size-Atomic = ground arith

  pub purge-Atomic : Atomic purge_step s (purge_sync outcome s)
  unfolding purge_sync
  purge-Atomic = ground arith

  pub position-Atomic :
      (photo_id : String) → Atomic (position_step photo_id) s (position_sync outcome photo_id s)
  unfolding position_sync count_pending_up_to
  position-Atomic photo_id = ground arith

  -- Every request is answered by one transaction.
  pub call-Atomic :
      (max_size : ℕ) (request : Request)
      → Atomic (step_of max_size request) s (call outcome max_size request s)
  unfolding call
  call-Atomic max_size (Request.enqueue job_type photo_id payload) =
      wrap-Atomic Reply.accepted (enqueue_step max_size job_type photo_id payload) s
        (enqueue_sync outcome max_size job_type photo_id payload s)
        (enqueue-Atomic max_size job_type photo_id payload)
  call-Atomic max_size (Request.enqueue_if_idle job_type photo_id payload) =
      wrap-Atomic Reply.accepted (enqueue_if_idle_step job_type photo_id payload) s
        (enqueue_if_idle_sync outcome job_type photo_id payload s)
        (enqueue_if_idle-Atomic job_type photo_id payload)
  call-Atomic max_size Request.dequeue =
      wrap-Atomic Reply.job dequeue_step s (dequeue_sync outcome s) dequeue-Atomic
  call-Atomic max_size (Request.complete job_id) =
      wrap-Atomic (λ _. Reply.done) (complete_step job_id) s (complete_sync outcome job_id s)
        (complete-Atomic job_id)
  call-Atomic max_size Request.size =
      wrap-Atomic Reply.count size_step s (size_sync outcome s) size-Atomic
  call-Atomic max_size Request.purge =
      wrap-Atomic (λ _. Reply.done) purge_step s (purge_sync outcome s) purge-Atomic
  call-Atomic max_size (Request.position photo_id) =
      wrap-Atomic Reply.place (position_step photo_id) s (position_sync outcome photo_id s)
        (position-Atomic photo_id)
