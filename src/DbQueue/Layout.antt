-- ===== src/DbQueue/Layout.antt =====
-- The invariant of the table `job_queue`: ids rise from row to row and stay below the counter, and
-- every row in flight stands before every pending one.
use lychee_facial_recognitio.Prelude.{
  ℕ, suc, ◌+◌, ◌≤◌, ◌≡◌, refl, Bool, List, [], ◌∷◌, ◌++◌, filter, head?, arith,
}
use lychee_facial_recognitio.DbQueue.{
  Status, pending, processing, Row, Table, set_status, update_where, order_by_id_limit_1,
}

-- Ids from `lo` on, rising, below `hi`.
abbrev pub Rises : ℕ → List Row → ℕ → Type 0
Rises lo [] hi = lo ≤ hi
Rises lo (r ∷ rs) hi = (lo ≤ r.job.id) × Rises (suc r.job.id) rs hi

abbrev pub AllPending : List Row → Type 0
AllPending [] = Unit
AllPending (r ∷ rs) = (r.status ≡ pending) × AllPending rs

abbrev pub Split : List Row → Type 0
Split [] = Unit
Split (r ∷ rs) = elim r.status [ pending ↦ AllPending rs | processing ↦ Split rs ]

pub record IsValid (t : Table) : Type 0 where
  pub rises : Rises 0 t.rows t.next_id
  pub split : Split t.rows

module _ (hi : ℕ) where
  pub Rises-weaken :
      (lo lo' : ℕ) (rows : List Row) → lo' ≤ lo → Rises lo rows hi → Rises lo' rows hi
  Rises-weaken lo lo' [] h r = omega arith
  Rises-weaken lo lo' (x ∷ rows) h r = (omega arith, r.1)

  pub Rises-filter :
      (p : Row → Bool) (lo : ℕ) (rows : List Row) → Rises lo rows hi → Rises lo (filter p rows) hi
  Rises-filter p lo [] r = r
  Rises-filter p lo (x ∷ rows) r = ground (
    arith,
    Rises-filter p (suc x.job.id) rows r.1,
    Rises-weaken (suc x.job.id) lo (filter p rows),
  )

  -- In a rising list the first row has the least id.
  pub order_by_id-eq-head? :
      (lo : ℕ) (rows : List Row) → Rises lo rows hi → order_by_id_limit_1 rows ≡ head? rows
  order_by_id-eq-head? lo [] r = refl
  order_by_id-eq-head? lo (x ∷ []) r = refl
  order_by_id-eq-head? lo (x ∷ y ∷ rows) r =
      ground (arith, order_by_id-eq-head? (suc x.job.id) (y ∷ rows) r.1)

  -- Every test for an id below the first one fails.
  pub Rises-snoc :
      (lo : ℕ) (rows : List Row) (r : Row)
      → r.job.id ≡ hi
      → Rises lo rows hi
      → Rises lo (rows ++ r ∷ []) (hi + 1)
  Rises-snoc lo [] r e h = omega arith
  Rises-snoc lo (x ∷ rows) r e h = (h.0, Rises-snoc (suc x.job.id) rows r e h.1)

  pub Rises-update :
      (test : Row → Bool) (s : Status) (lo : ℕ) (rows : List Row)
      → Rises lo rows hi
      → Rises lo (update_where test (set_status s) rows) hi
  Rises-update test s lo [] h = h
  Rises-update test s lo (x ∷ rows) h = ground (arith, Rises-update test s (suc x.job.id) rows h.1)

pub Split-of_AllPending : (rows : List Row) → AllPending rows → Split rows
Split-of_AllPending [] h = tt
Split-of_AllPending (r ∷ rows) h = ground arith

pub AllPending-filter :
    (p : Row → Bool) (rows : List Row) → AllPending rows → AllPending (filter p rows)
AllPending-filter p [] h = tt
AllPending-filter p (r ∷ rows) h = ground (arith, AllPending-filter p rows h.1)

pub Split-filter : (p : Row → Bool) (rows : List Row) → Split rows → Split (filter p rows)
Split-filter p [] h = tt
Split-filter p (r ∷ rows) h =
    ground
      (arith, Split-filter p rows, AllPending-filter p rows, Split-of_AllPending (filter p rows))

pub AllPending-snoc :
    (rows : List Row) (r : Row) → r.status ≡ pending → AllPending rows → AllPending (rows ++ r ∷ [])
AllPending-snoc [] r e h = (e, tt)
AllPending-snoc (x ∷ rows) r e h = (h.0, AllPending-snoc rows r e h.1)

pub Split-snoc :
    (rows : List Row) (r : Row) → r.status ≡ pending → Split rows → Split (rows ++ r ∷ [])
Split-snoc [] r e h = ground arith
Split-snoc (x ∷ rows) r e h = ground (arith, Split-snoc rows r e, AllPending-snoc rows r e)
