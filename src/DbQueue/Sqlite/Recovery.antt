-- ===== src/DbQueue/Sqlite/Recovery.antt =====
-- `_init_table` at start-up: the jobs that were in flight are pending again, in front.
use lychee_facial_recognitio.Prelude.{ℕ, ◌≡◌, some, List, ◌∷◌, arith, ap, ◌∙◌, sym, subst}
use lychee_facial_recognitio.Sql.{ok, Outcome, Session}
use lychee_facial_recognitio.JobQueue.{Job, Queue, requeue_inflight, dequeue}
use lychee_facial_recognitio.DbQueue.{Table, view, reset_processing}
use lychee_facial_recognitio.DbQueue.Layout.{IsValid}
use lychee_facial_recognitio.DbQueue.Removal.{view-reset_processing, reset_processing-IsValid}
use lychee_facial_recognitio.DbQueue.Simulation.{dequeue-Simulates}
use lychee_facial_recognitio.DbQueue.Steps.{dequeue_step}
use lychee_facial_recognitio.DbQueue.Sqlite.{init_table}
use lychee_facial_recognitio.DbQueue.Sqlite.Transactions.{init_table-Atomic}

recovered :
    (outcome : ℕ → Outcome) (s : Session Table)
    → (init_table outcome s).0 ≡ ok tt
    → (init_table outcome s).1.committed ≡ reset_processing s.committed
recovered outcome s e = ground (arith, init_table-Atomic outcome s)

requeue_first :
    (q : Queue) (j : Job) (rest : List Job)
    → q.inflight ≡ j ∷ rest
    → (dequeue (requeue_inflight q)).0 ≡ some j
unfolding dequeue requeue_inflight
requeue_first q j rest e = ground arith

-- No job is lost by a crash: when the SQLite queue has come up again on a valid table with some job in
-- flight, the queue is the old one with its jobs in flight put back in front of the pending ones, on a
-- valid table; and the next job to be handed out is the oldest of those that were in flight.
pub init_table_recovers :
    (outcome : ℕ → Outcome) (s : Session Table) (j : Job) (rest : List Job)
    → IsValid s.committed
    → (view s.committed).inflight ≡ j ∷ rest
    → (init_table outcome s).0 ≡ ok tt
    → let t = (init_table outcome s).1.committed in
      (view t ≡ requeue_inflight (view s.committed)) × IsValid t × ((dequeue_step t).0 ≡ some j)
init_table_recovers outcome s j rest valid oldest up =
    let e = recovered outcome s up in
    let kept = subst IsValid (sym e) (reset_processing-IsValid s.committed valid) in
    let queue = ap view e ∙ view-reset_processing s.committed valid.split in
    let t = (init_table outcome s).1.committed in
    (
      queue,
      kept,
      (dequeue-Simulates t kept).0
          ∙ ap (λ q. (dequeue q).0) queue
          ∙ requeue_first (view s.committed) j rest oldest,
    )
