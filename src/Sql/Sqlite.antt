-- ===== src/Sql/Sqlite.antt =====
-- A connection that is opened and closed in each method (`_connect`, `conn.close()`). A statement
-- that raises changes nothing; what is not committed is gone when the connection is closed.
use lychee_facial_recognitio.Prelude.{ℕ, ◌<◌, ◌≡◌, ap}
use lychee_facial_recognitio.Sql.{
  Result, ok, err, operational_error, Outcome, fine, Session, Tx, pure, ◌>>=◌, tick, failed,
}

module _ {T : Type 0} (outcome : ℕ → Outcome) where
  -- One call of the driver: `f` is its effect when it does not raise.
  abbrev pub attempt : {A : Type 0} → (Session T → A × Session T) → Tx T A
  attempt f s = elim (outcome s.clock) [
    | fine ↦ (let (a, s') = f (tick s) in (ok a, s'))
    | _ ↦ (err operational_error, failed s)
  ]

  abbrev pub query : {A : Type 0} → (T → A) → Tx T A
  query f = attempt (λ s. (f s.working, s))

  abbrev pub update : {A : Type 0} → (T → A × T) → Tx T A
  update f = attempt (λ s. let (a, w) = f s.working in (a, record s { working = w }))

  abbrev pub run : (T → T) → Tx T (Unit {0})
  run f = attempt (λ s. (tt, record s { working = f s.working }))

  abbrev pub connect : Tx T (Unit {0})
  connect = attempt (λ s. (tt, record s { working = s.committed }))

  -- BEGIN EXCLUSIVE
  abbrev pub begin : Tx T (Unit {0})
  begin = attempt (λ s. (tt, s))

  abbrev pub commit : Tx T (Unit {0})
  commit = attempt (λ s. (tt, record s { committed = s.working }))

  abbrev pub rollback : Tx T (Unit {0})
  rollback = attempt (λ s. (tt, record s { working = s.committed }))

abbrev pub close : {T : Type 0} → Session T → Session T
close s = record s { working = s.committed }

-- How a method that runs as one transaction ends: it returns what `step` computes from the committed
-- tables, leaves what `step` makes of them, and no statement failed; or it raises, some statement
-- failed, and the committed tables are as they were.
abbrev pub Atomic : {T A : Type 0} → (T → A × T) → Session T → Result A × Session T → Type 0
Atomic step s (ok a, s') =
    (a ≡ (step s.committed).0) × (s'.committed ≡ (step s.committed).1) × (s'.faults ≡ s.faults)
Atomic step s (err e, s') = (s'.committed ≡ s.committed) × (s.faults < s'.faults)

-- How a run of statements inside a transaction ends: it has computed `step` on the working tables, or
-- some statement failed; nothing is committed either way.
abbrev pub Runs : {T A : Type 0} → (T → A × T) → Session T → Result A × Session T → Type 0
Runs step s (ok a, s') =
    (a ≡ (step s.working).0)
    × (s'.working ≡ (step s.working).1)
    × (s'.committed ≡ s.committed)
    × (s'.faults ≡ s.faults)
Runs step s (err e, s') = (s'.committed ≡ s.committed) × (s.faults < s'.faults)

pub committed_by :
    {T A : Type 0} (step : T → A × T) (s : Session T) (end : Result A × Session T) (a : A)
    → Atomic step s end
    → end.0 ≡ ok a
    → end.1.committed ≡ (step s.committed).1
committed_by step s (ok b, s') a h e = h.1
committed_by step s (err x, s') a h e = absurd cc

-- A method that only wraps the result of another is the same transaction.
pub wrap-Atomic :
    {T A B : Type 0} (f : A → B) (step : T → A × T) (s : Session T) (end : Result A × Session T)
    → Atomic step s end
    → Atomic (λ t. let (a, t') = step t in (f a, t')) s (((λ _. end) >>= λ a. pure (f a)) s)
wrap-Atomic f step s (ok a, s') h = (ap f h.0, h.1, h.2)
wrap-Atomic f step s (err e, s') h = h
