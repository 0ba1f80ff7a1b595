-- ===== src/Sql/Postgres.antt =====
-- A connection that is kept between methods (`_get_conn`). A statement that raises aborts the open
-- transaction: until a rollback every further statement raises `InFailedSqlTransaction`. A connection
-- that is lost takes its transaction along, and is opened anew by the next `_get_conn`; lost in a commit,
-- the transaction may be committed all the same.
use lychee_facial_recognitio.Prelude.{ℕ, ◌<◌, ◌≡◌, ◌⊎◌, Bool, true, false}
use lychee_facial_recognitio.Sql.{
  Result, ok, err, operational_error, in_failed_transaction, interface_error, Outcome, fine, fault,
  lost, unanswered, Session, Tx, tick, failed,
}

module _ {T : Type 0} where
  abbrev pub disconnect : Session T → Session T
  disconnect s = record s { working = s.committed; connected = false; aborted = false }

module _ {T : Type 0} (outcome : ℕ → Outcome) where
  -- psycopg2.connect, when there is no open connection
  abbrev pub get_conn : Tx T (Unit {0})
  get_conn s = elim s.connected [
    | true ↦ (ok tt, s)
    | false ↦ elim (outcome s.clock) [
      | fine ↦ (ok tt, record (tick s) { working = s.committed; connected = true; aborted = false })
      | _ ↦ (err operational_error, failed s)
    ]
  ]

  -- In an aborted transaction a statement raises `InFailedSqlTransaction`, unless the connection is lost.
  abbrev pub update : {A : Type 0} → (T → A × T) → Tx T A
  update f s = elim (outcome s.clock) [
    | fine ↦ elim s.aborted [
      | true ↦ (err in_failed_transaction, failed s)
      | false ↦ (let (a, w) = f s.working in (ok a, record (tick s) { working = w }))
    ]
    | fault ↦ elim s.aborted [
      | true ↦ (err in_failed_transaction, failed s)
      | false ↦ (err operational_error, record (failed s) { aborted = true })
    ]
    | _ ↦ (err operational_error, disconnect (failed s))
  ]

  abbrev pub query : {A : Type 0} → (T → A) → Tx T A
  query f = update (λ t. (f t, t))

  abbrev pub run : (T → T) → Tx T (Unit {0})
  run f = update (λ t. (tt, f t))

  -- The commit of an aborted transaction rolls it back. When the connection is lost in a commit, the server
  -- may have committed or not.
  abbrev pub commit : Tx T (Unit {0})
  commit s = elim (outcome s.clock) [
    | fine ↦ elim s.aborted [
      | true ↦ (ok tt, record (tick s) { working = s.committed; aborted = false })
      | false ↦ (ok tt, record (tick s) { committed = s.working })
    ]
    | fault ↦ (err operational_error, record (failed s) { working = s.committed; aborted = false })
    | lost ↦ (err operational_error, disconnect (failed s))
    | unanswered ↦ elim s.aborted [
      | true ↦ (err operational_error, disconnect (failed s))
      | false ↦ (err operational_error, disconnect (record (failed s) { committed = s.working }))
    ]
  ]

  abbrev pub rollback : Tx T (Unit {0})
  rollback s = elim s.connected [
    | true ↦ elim (outcome s.clock) [
      | fine ↦ (ok tt, record (tick s) { working = s.committed; aborted = false })
      | _ ↦ (err operational_error, disconnect (failed s))
    ]
    | false ↦ (err interface_error, failed s)
  ]

-- The connection is still there after the call.
abbrev pub keeps : Outcome → Bool
keeps fine = true
keeps fault = true
keeps _ = false

-- Between two methods nothing is uncommitted, unless the open transaction has been aborted.
abbrev pub IsHealthy : {T : Type 0} → Session T → Type 0
IsHealthy s = elim s.aborted [ false ↦ (s.working ≡ s.committed) | true ↦ (s.connected ≡ true) ]

-- How a method ends: as one transaction, with no call of the driver failed and a usable connection
-- left behind; or with an error, after some call failed, with the committed tables as they were, or as the
-- whole transaction has made them.
abbrev pub Atomic : {T A : Type 0} → (T → A × T) → Session T → Result A × Session T → Type 0
Atomic step s (ok a, s') =
    (a ≡ (step s.committed).0)
    × (s'.committed ≡ (step s.committed).1)
    × (s'.faults ≡ s.faults)
    × IsHealthy s'
    × (s'.aborted ≡ false)
Atomic step s (err e, s') =
    ((s'.committed ≡ s.committed) ⊎ (s'.committed ≡ (step s.committed).1))
    × (s.faults < s'.faults)
    × IsHealthy s'

pub committed_by :
    {T A : Type 0} (step : T → A × T) (s : Session T) (end : Result A × Session T) (a : A)
    → Atomic step s end
    → end.0 ≡ ok a
    → end.1.committed ≡ (step s.committed).1
committed_by step s (ok b, s') a h e = h.1
committed_by step s (err x, s') a h e = absurd cc
