-- ===== src/DbQueue/Postgres.antt =====
-- `PgJobQueue` of app/queue/db_queue.py. Every method runs under the queue's lock, on the connection
-- that the queue keeps; only `enqueue_if_idle` and `dequeue` roll back when a statement raises.
-- `_init_table` creates the table and its index if they are not there; a table that is not there is
-- the empty one. The lock of `LOCK TABLE` and `SKIP LOCKED` excludes other sessions and has no effect
-- on the rows. The id of a row is drawn from a sequence, which no rollback sets back: an insertion skips
-- the ids that were drawn and not committed, as many as the argument `skipped` says, so `next_id` of the
-- table is the first id after those of the committed insertions.
pub mod Transactions
pub mod Refinement
pub mod Aborted
use lychee_facial_recognitio.Prelude.{
  ℕ, ◌+◌, ltb, if◌then◌else◌, String, Bool, true, false, Option, none, some, ◌&&◌,
}
use lychee_facial_recognitio.Sql.{Outcome, Session, Tx, ok, pure, ◌>>=◌, ◌>>◌, except_reraise}
use lychee_facial_recognitio.Sql.Postgres.{query, run, get_conn, commit, rollback, disconnect}
use lychee_facial_recognitio.JobQueue.{Job, is_full}
use lychee_facial_recognitio.JobQueue.Protocol.{Request, Reply}
use lychee_facial_recognitio.DbQueue.{
  Row, Table, pending, processing, count_pending, count_all, insert_job, select_next,
  mark_processing, delete_id, delete_pending, select_by_photo, count_pending_up_to,
  reset_processing,
}

-- INSERT INTO job_queue (job_type, photo_id, payload) VALUES (%s, %s, %s), with an id of the sequence
abbrev pub insert_serial : ℕ → String → String → String → Table → Table
insert_serial skipped job_type photo_id payload t =
    insert_job job_type photo_id payload (record t { next_id = t.next_id + skipped })

module _ (outcome : ℕ → Outcome) where
  unfoldable pub init_table : Tx Table (Unit {0})
  init_table = do
    get_conn outcome
    run outcome (λ t. t)
    run outcome (λ t. t)
    run outcome reset_processing
    commit outcome

  unfoldable pub enqueue_sync : ℕ → ℕ → String → String → String → Tx Table Bool
  enqueue_sync skipped max_size job_type photo_id payload = do
    get_conn outcome
    count ← query outcome count_pending
    if is_full max_size count then pure false else do
      run outcome (insert_serial skipped job_type photo_id payload)
      commit outcome
      pure true

  unfoldable pub enqueue_if_idle_sync : ℕ → String → String → String → Tx Table Bool
  enqueue_if_idle_sync skipped job_type photo_id payload = do
    get_conn outcome
    except_reraise
        (do
          run outcome (λ t. t)
          count ← query outcome count_all
          if ltb 0 count then (do rollback outcome; pure false) else do
            run outcome (insert_serial skipped job_type photo_id payload)
            commit outcome
            pure true)
        (rollback outcome)

  abbrev take_row : Option Row → Tx Table (Option Job)
  take_row none = do rollback outcome; pure none
  take_row (some r) = do run outcome (mark_processing r.job.id); commit outcome; pure (some r.job)

  unfoldable pub dequeue_sync : Tx Table (Option Job)
  dequeue_sync = do
    get_conn outcome
    except_reraise (do row ← query outcome select_next; take_row row) (rollback outcome)

  unfoldable pub complete_sync : ℕ → Tx Table (Unit {0})
  complete_sync job_id = do get_conn outcome; run outcome (delete_id job_id); commit outcome

  unfoldable pub size_sync : Tx Table ℕ
  size_sync = do get_conn outcome; query outcome count_pending

  unfoldable pub purge_sync : Tx Table (Unit {0})
  purge_sync = do get_conn outcome; run outcome delete_pending; commit outcome

  abbrev place_row : Option Row → Tx Table (Option ℕ)
  place_row none = pure none
  place_row (some r) = elim r.status [
    | processing ↦ pure (some 0)
    | pending ↦ (do count ← query outcome (count_pending_up_to r.job.id); pure (some count))
  ]

  unfoldable pub position_sync : String → Tx Table (Option ℕ)
  position_sync photo_id = do
    get_conn outcome
    row ← query outcome (select_by_photo photo_id)
    place_row row

  -- The methods of the protocol, which run those above in a thread; `skipped` is the number of ids that the
  -- sequence has skipped when a call begins, by the number of calls of the driver before it.
  unfoldable pub call : (ℕ → ℕ) → ℕ → Request → Tx Table Reply
  call skipped max_size (Request.enqueue job_type photo_id payload) = λ s.
      (do
        accepted ← enqueue_sync (skipped s.clock) max_size job_type photo_id payload
        pure (Reply.accepted accepted))
        s
  call skipped max_size (Request.enqueue_if_idle job_type photo_id payload) = λ s.
      (do
        accepted ← enqueue_if_idle_sync (skipped s.clock) job_type photo_id payload
        pure (Reply.accepted accepted))
        s
  call skipped max_size Request.dequeue = do job ← dequeue_sync; pure (Reply.job job)
  call skipped max_size (Request.complete job_id) = do complete_sync job_id; pure Reply.done
  call skipped max_size Request.size = do count ← size_sync; pure (Reply.count count)
  call skipped max_size Request.purge = do purge_sync; pure Reply.done
  call skipped max_size (Request.position photo_id) = do
    place ← position_sync photo_id
    pure (Reply.place place)

-- `PgJobQueue.close`: what is not committed is gone with the connection.
unfoldable pub close : Tx Table (Unit {0})
close s = (ok tt, if s.connected then disconnect s else s)
