-- ===== src/Sql.antt =====
-- The database sessions of the storage and queue backends: methods that run statements, any of which
-- may raise, over a committed and a working copy of the tables. The outside world is a function
-- `outcome` from the number of a statement to what happens to it, so every pattern of faults is
-- covered. The drivers (sqlite3, psycopg2) are modelled by their documented transaction behaviour.
pub mod Sqlite
pub mod Postgres
pub mod History
use lychee_facial_recognitio.Prelude.{ℕ, ◌+◌, Bool}

pub data Error : Type 0 where
  operational_error in_failed_transaction interface_error : Error

pub data Result (A : Type 0) : Type 0 where
  ok : A → Result A
  err : Error → Result A

-- What happens to a call of the driver: it runs, it raises, the connection is lost before the server runs
-- it, or the connection is lost after the server has run it, so that the answer does not arrive.
pub data Outcome : Type 0 where
  fine fault lost unanswered : Outcome

-- `clock` counts the calls of the driver and `faults` those that failed; `aborted` and `connected`
-- are the state of a kept connection.
pub record Session (T : Type 0) : Type 0 where
  pub committed : T
  pub working : T
  pub connected : Bool
  pub aborted : Bool
  pub clock : ℕ
  pub faults : ℕ

-- The clock ticks; the call fails.
abbrev pub tick : {T : Type 0} → Session T → Session T
tick s = record s { clock = s.clock + 1 }

abbrev pub failed : {T : Type 0} → Session T → Session T
failed s = record s { clock = s.clock + 1; faults = s.faults + 1 }

abbrev pub Tx : Type 0 → Type 0 → Type 0
Tx T A = Session T → Result A × Session T

module _ {T A : Type 0} where
  abbrev pub pure : A → Tx T A
  pure a s = (ok a, s)

  -- try: body finally: cleanup
  abbrev pub try_finally : Tx T A → (Session T → Session T) → Tx T A
  try_finally body cleanup s = let (r, s') = body s in (r, cleanup s')

module _ {T A B : Type 0} where
  infixl 5 ◌>>=◌ ◌>>◌
  abbrev pub ◌>>=◌ : Tx T A → (A → Tx T B) → Tx T B
  ◌>>=◌ m f s = let (r, s') = m s in elim r [ ok a ↦ f a s' | err e ↦ (err e, s') ]

  abbrev pub ◌>>◌ : Tx T A → Tx T B → Tx T B
  m >> k = m >>= λ _. k

  -- try: body except Exception: handler; raise
  abbrev pub except_reraise : Tx T A → Tx T B → Tx T A
  except_reraise body handler s =
      let (r, s') = body s in
      elim r [
        | ok a ↦ (ok a, s')
        | err e ↦
            let (h, s'') = handler s' in (elim h [ ok _ ↦ err e | err later ↦ err later ], s'')
      ]

  -- except Exception: with contextlib.suppress(Exception): handler; raise
  abbrev pub except_suppress_reraise : Tx T A → Tx T B → Tx T A
  except_suppress_reraise body handler s =
      let (r, s') = body s in
      elim r [ ok a ↦ (ok a, s') | err e ↦ let (_, s'') = handler s' in (err e, s'') ]
