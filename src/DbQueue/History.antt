-- ===== src/DbQueue/History.antt =====
-- Sequences of calls of a database queue, any of which may raise, against the protocol.
use lychee_facial_recognitio.Prelude.{ℕ, List}
use lychee_facial_recognitio.Sql.{Result, Session, Tx}
use lychee_facial_recognitio.Sql.History
use lychee_facial_recognitio.JobQueue.{Queue}
use lychee_facial_recognitio.JobQueue.Protocol.{Request, Reply, serve}
use lychee_facial_recognitio.DbQueue.{Table, view}

-- The answer and the new queue are those of the protocol, or the call raised, some call of the driver
-- failed, and nothing has changed.
abbrev pub Answers : ℕ → Request → Session Table → Result Reply × Session Table → Type 0
Answers max_size = History.Answers (serve max_size) view

-- The replies to a list of requests lead from one queue to another by the protocol; a request that
-- raised has no effect.
abbrev pub Explains : ℕ → List Request → List (Result Reply) → Queue → Queue → Type 0
Explains max_size = History.Explains (serve max_size)

module _ (max_size : ℕ) (call : Request → Tx Table Reply) where
  -- One call after the other; a call that raises does not stop the next.
  abbrev pub perform : List Request → Session Table → List (Result Reply) × Session Table
  perform = History.perform call

  module _ (Inv : Session Table → Type 0)
      (step : (request : Request) (s : Session Table)
        → Inv s
        → Answers max_size request s (call request s) × Inv (call request s).1) where
    pub perform-Explains :
        (requests : List Request) (s : Session Table)
        → Inv s
        → Explains max_size requests
            (perform requests s).0
            (view s.committed)
            (view (perform requests s).1.committed)
    perform-Explains = History.perform-Explains (serve max_size) view call Inv step
