-- ===== src/DbQueue/Sqlite.antt =====
-- `SQLiteJobQueue` of app/queue/db_queue.py. Each method runs on a connection of its own, and under the
-- queue's lock, but for `size`, which is one SELECT, and `position`, which makes two: they take no
-- lock, and `position` is modelled as if no other method wrote between its SELECTs. `_init_table` creates
-- the table and its index if they are not there; a table that is not there is the empty one.
pub mod Transactions
pub mod Refinement
pub mod Recovery
use lychee_facial_recognitio.Prelude.{
  ℕ, ltb, if◌then◌else◌, String, Bool, true, false, Option, none, some,
}
use lychee_facial_recognitio.Sql.{
  Outcome, Tx, pure, ◌>>=◌, ◌>>◌, try_finally, except_suppress_reraise,
}
use lychee_facial_recognitio.Sql.Sqlite.{query, run, connect, begin, commit, rollback, close}
use lychee_facial_recognitio.JobQueue.{Job, is_full}
use lychee_facial_recognitio.JobQueue.Protocol.{Request, Reply}
use lychee_facial_recognitio.DbQueue.{
  Row, Table, pending, processing, count_pending, count_all, insert_job, select_next,
  mark_processing, delete_id, delete_pending, select_by_photo, count_pending_up_to,
  reset_processing,
}

module _ (outcome : ℕ → Outcome) where
  -- conn = self._connect(); try: body finally: conn.close()
  abbrev with_connection : {A : Type 0} → Tx Table A → Tx Table A
  with_connection body = do connect outcome; try_finally body close

  -- except Exception: with contextlib.suppress(Exception): ROLLBACK; raise
  abbrev rolling_back : {A : Type 0} → Tx Table A → Tx Table A
  rolling_back body = except_suppress_reraise body (rollback outcome)

  unfoldable pub init_table : Tx Table (Unit {0})
  init_table =
      with_connection (do
        run outcome (λ t. t)
        run outcome (λ t. t)
        run outcome reset_processing
        commit outcome)

  unfoldable pub enqueue_sync : ℕ → String → String → String → Tx Table Bool
  enqueue_sync max_size job_type photo_id payload = with_connection (do
    count ← query outcome count_pending
    if is_full max_size count
        then pure false
        else do run outcome (insert_job job_type photo_id payload); commit outcome; pure true)

  unfoldable pub enqueue_if_idle_sync : String → String → String → Tx Table Bool
  enqueue_if_idle_sync job_type photo_id payload = with_connection (
      rolling_back (do
        begin outcome
        count ← query outcome count_all
        if ltb 0 count
            then (do rollback outcome; pure false)
            else do run outcome (insert_job job_type photo_id payload); commit outcome; pure true))

  abbrev take_row : Option Row → Tx Table (Option Job)
  take_row none = do rollback outcome; pure none
  take_row (some r) = do run outcome (mark_processing r.job.id); commit outcome; pure (some r.job)

  unfoldable pub dequeue_sync : Tx Table (Option Job)
  dequeue_sync =
      with_connection
        (rolling_back (do begin outcome; row ← query outcome select_next; take_row row))

  unfoldable pub complete_sync : ℕ → Tx Table (Unit {0})
  complete_sync job_id = with_connection (do run outcome (delete_id job_id); commit outcome)

  unfoldable pub size_sync : Tx Table ℕ
  size_sync = with_connection (query outcome count_pending)

  unfoldable pub purge_sync : Tx Table (Unit {0})
  purge_sync = with_connection (do run outcome delete_pending; commit outcome)

  abbrev place_row : Option Row → Tx Table (Option ℕ)
  place_row none = pure none
  place_row (some r) = elim r.status [
    | processing ↦ pure (some 0)
    | pending ↦ (do count ← query outcome (count_pending_up_to r.job.id); pure (some count))
  ]

  unfoldable pub position_sync : String → Tx Table (Option ℕ)
  position_sync photo_id =
      with_connection (do row ← query outcome (select_by_photo photo_id); place_row row)

  -- The methods of the protocol, which run those above in a thread.
  unfoldable pub call : ℕ → Request → Tx Table Reply
  call max_size (Request.enqueue job_type photo_id payload) = do
    accepted ← enqueue_sync max_size job_type photo_id payload
    pure (Reply.accepted accepted)
  call max_size (Request.enqueue_if_idle job_type photo_id payload) = do
    accepted ← enqueue_if_idle_sync job_type photo_id payload
    pure (Reply.accepted accepted)
  call max_size Request.dequeue = do job ← dequeue_sync; pure (Reply.job job)
  call max_size (Request.complete job_id) = do complete_sync job_id; pure Reply.done
  call max_size Request.size = do count ← size_sync; pure (Reply.count count)
  call max_size Request.purge = do purge_sync; pure Reply.done
  call max_size (Request.position photo_id) = do
    place ← position_sync photo_id
    pure (Reply.place place)
