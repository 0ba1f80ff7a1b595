-- ===== src/DbQueue/Postgres/Aborted.antt =====
-- A statement that raised leaves the kept connection in an aborted transaction.
use lychee_facial_recognitio.Prelude.{ℕ, ◌+◌, ◌≡◌, Bool, true, false, if◌then◌else◌, arith}
use lychee_facial_recognitio.Sql.{
  err, Error, operational_error, in_failed_transaction, interface_error, Outcome, fine, Session,
}
use lychee_facial_recognitio.Sql.Postgres.{keeps}
use lychee_facial_recognitio.JobQueue.Protocol.{Request}
use lychee_facial_recognitio.DbQueue.{Table}
use lychee_facial_recognitio.DbQueue.Postgres.{
  enqueue_sync, enqueue_if_idle_sync, dequeue_sync, complete_sync, size_sync, purge_sync,
  position_sync, call,
}

-- The methods with an `except` clause that rolls back.
abbrev pub rolls_back : Request → Bool
rolls_back Request.dequeue = true
rolls_back (Request.enqueue_if_idle _ _ _) = true
rolls_back _ = false

-- The error of a method, and if the connection is there and its transaction aborted afterwards: what the
-- outcomes of its first two calls of the driver, the statement and the rollback, make of it.
abbrev pub after_abort : Bool → Outcome → Outcome → Error × Bool × Bool
after_abort false first second =
    if keeps first then (in_failed_transaction, true, true) else (operational_error, false, false)
after_abort true first fine =
    if keeps first then (in_failed_transaction, true, false) else (interface_error, false, false)
after_abort true first _ =
    if keeps first then (operational_error, false, false) else (interface_error, false, false)

-- While the transaction of the kept connection is aborted, every method of `PgJobQueue` raises and changes
-- nothing. If the connection outlives the method's statement, a method without a rollback raises
-- `InFailedSqlTransaction` and leaves the transaction aborted; `dequeue` and `enqueue_if_idle` raise the
-- same and end the aborted transaction, if their rollback succeeds. If the connection is lost, it is
-- closed afterwards, and what is raised is an error of the connection.
pub aborted_blocks :
    (outcome : ℕ → Outcome) (skipped : ℕ → ℕ) (max_size : ℕ) (request : Request) (s : Session Table)
    → s.connected ≡ true
    → s.aborted ≡ true
    → let (reply, s') = call outcome skipped max_size request s in
      let (error, connected, aborted) =
        after_abort (rolls_back request) (outcome s.clock) (outcome (s.clock + 1)) in
      (reply ≡ err error)
      × (s'.committed ≡ s.committed)
      × (s'.connected ≡ connected)
      × (s'.aborted ≡ aborted)
unfolding call enqueue_sync enqueue_if_idle_sync dequeue_sync complete_sync size_sync purge_sync
    position_sync
aborted_blocks outcome skipped max_size Request.dequeue s h k = ground arith
aborted_blocks outcome skipped max_size _ s h k = ground arith
