-- ===== src/DbQueue/Sqlite/Refinement.antt =====
-- `SQLiteJobQueue` implements the protocol, whatever statements fail.
use lychee_facial_recognitio.Prelude.{ℕ, List, ap, sym, ◌∙◌, subst}
use lychee_facial_recognitio.Sql.{Result, ok, err, Outcome, Session}
use lychee_facial_recognitio.Sql.Sqlite.{Atomic}
use lychee_facial_recognitio.JobQueue.Protocol.{Request, Reply}
use lychee_facial_recognitio.DbQueue.{Table, view}
use lychee_facial_recognitio.DbQueue.Layout.{IsValid}
use lychee_facial_recognitio.DbQueue.Steps.{step_of}
use lychee_facial_recognitio.DbQueue.Simulation.{step_of-Simulates}
use lychee_facial_recognitio.DbQueue.History.{Answers, Explains, perform, perform-Explains}
use lychee_facial_recognitio.DbQueue.Sqlite.{call}
use lychee_facial_recognitio.DbQueue.Sqlite.Transactions.{call-Atomic}

module _ (max_size : ℕ) (request : Request) (s : Session Table) (valid : IsValid s.committed) where
  answer_of :
      (end : Result Reply × Session Table)
      → Atomic (step_of max_size request) s end
      → Answers max_size request s end × IsValid end.1.committed
  answer_of (ok reply, s') h =
      let (answer, after, kept) = step_of-Simulates max_size request s.committed valid in
      ((h.0 ∙ answer, ap view h.1 ∙ after, h.2), subst IsValid (sym h.1) kept)
  answer_of (err e, s') h = (h, subst IsValid (sym h.0) valid)

module _ (outcome : ℕ → Outcome) (max_size : ℕ) where
  call-Answers :
      (request : Request) (s : Session Table)
      → IsValid s.committed
      → Answers max_size request s (call outcome max_size request s)
        × IsValid (call outcome max_size request s).1.committed
  call-Answers request s valid =
      answer_of max_size request s valid (call outcome max_size request s)
        (call-Atomic outcome s max_size request)

  -- Whatever calls of the driver fail: from a valid table, each request to the SQLite queue is answered
  -- as the protocol answers it on the abstract queue, or raises and changes nothing; the committed
  -- table after the whole sequence stands for the queue that the answered requests lead to.
  pub sqlite-perform-Explains :
      (requests : List Request) (s : Session Table)
      → IsValid s.committed
      → let (replies, s') = perform max_size (call outcome max_size) requests s in
        Explains max_size requests replies (view s.committed) (view s'.committed)
  sqlite-perform-Explains =
      perform-Explains max_size (call outcome max_size) (λ s. IsValid s.committed) call-Answers
