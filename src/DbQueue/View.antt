-- ===== src/DbQueue/View.antt =====
-- What each SQL statement on `job_queue` does to the queue that a client of the protocol sees.
use lychee_facial_recognitio.Prelude.{
  ℕ, suc, ◌+◌, ◌≤◌, ◌<◌, ◌≡◌, refl, String, Bool, List, [], ◌∷◌, ◌++◌, map, length, filter, arith,
  ap, append-nil, filter-append, sym, subst, ◌⊎◌, inl, inr,
}
use mathlib.Core.List.{map-append}
use lychee_facial_recognitio.JobQueue.{Job, push}
use lychee_facial_recognitio.DbQueue.{
  Status, pending, processing, Row, Table, is_pending, is_processing, has_id, set_status,
  update_where, insert_job, count_pending, count_all, view,
}
use lychee_facial_recognitio.DbQueue.Layout.{
  Rises, AllPending, Split, Rises-filter, Split-of_AllPending,
}

abbrev pub jobs : List Row → List Job
jobs rows = map (λ (r : Row). r.job) rows

pub status_cases : (r : Row) → (r.status ≡ pending) ⊎ (r.status ≡ processing)
status_cases r = ground arith

length-jobs : (rows : List Row) → length (jobs rows) ≡ length rows
length-jobs [] = refl
length-jobs (r ∷ rows) = ap suc (length-jobs rows)

pub view-insert_job :
    (job_type photo_id payload : String) (t : Table)
    → view (insert_job job_type photo_id payload t) ≡ push (view t) job_type photo_id payload
unfolding view insert_job push
view-insert_job job_type photo_id payload t = simp (filter-append, map-append, append-nil)

pub count_pending-view : (t : Table) → count_pending t ≡ length (view t).pending
unfolding count_pending view
count_pending-view t = sym (length-jobs (filter is_pending t.rows))

count_split :
    (rows : List Row)
    → length rows
      ≡ length (jobs (filter is_pending rows)) + length (jobs (filter is_processing rows))
count_split [] = omega arith
count_split (r ∷ rows) = ground (arith, count_split rows)

pub count_all-view : (t : Table) → count_all t ≡ length (view t).pending + length (view t).inflight
unfolding count_all view
count_all-view t = count_split t.rows

pub no_processing : (rows : List Row) → AllPending rows → filter is_processing rows ≡ []
no_processing [] h = refl
no_processing (r ∷ rows) h = ground (arith, no_processing rows h.1)

pub all_pending : (rows : List Row) → AllPending rows → filter is_pending rows ≡ rows
all_pending [] h = refl
all_pending (r ∷ rows) h = ground (arith, all_pending rows h.1)

module _ (hi : ℕ) where
  update_absent :
      (k : ℕ) (s : Status) (lo : ℕ) (rows : List Row)
      → k < lo
      → Rises lo rows hi
      → update_where (has_id k) (set_status s) rows ≡ rows
  update_absent k s lo [] h r = refl
  update_absent k s lo (x ∷ rows) h r =
      ground (arith, update_absent k s (suc x.job.id) rows (omega arith) r.1)

  -- The oldest pending row goes from the front of the pending part to the end of the part in flight.
  abbrev pub Moved : List Row → Row → List Row → Type 0
  Moved rows r rest =
      let u = update_where (has_id r.job.id) (set_status processing) rows in
      (filter is_pending u ≡ rest)
      × (jobs (filter is_processing u) ≡ jobs (filter is_processing rows) ++ r.job ∷ [])
      × Split u

  mark_first_pending :
      (lo : ℕ) (x : Row) (rows : List Row)
      → x.status ≡ pending
      → Rises lo (x ∷ rows) hi
      → AllPending rows
      → Moved (x ∷ rows) x rows
  mark_first_pending lo x rows e h p = ground (
    arith,
    update_absent x.job.id processing (suc x.job.id) rows (omega arith) h.1,
    no_processing rows p,
    all_pending rows p,
    Split-of_AllPending rows p,
  )

  id_of_first :
      (p : Row → Bool) (lo : ℕ) (rows : List Row) (r : Row) (rest : List Row)
      → filter p rows ≡ r ∷ rest
      → Rises lo rows hi
      → lo ≤ r.job.id
  id_of_first p lo rows r rest e h = (subst (λ l. Rises lo l hi) e (Rises-filter hi p lo rows h)).0

  pub mark_processing-Moved :
      (lo : ℕ) (rows : List Row) (r : Row) (rest : List Row)
      → filter is_pending rows ≡ r ∷ rest
      → Rises lo rows hi
      → Split rows
      → Moved rows r rest
  mark_processing-Moved lo [] r rest e h s = cc
  mark_processing-Moved lo (x ∷ rows) r rest e h s = elim (status_cases x) [
    | inl waits ↦
        let p : AllPending rows = ground arith in
        ground (arith, mark_first_pending lo x rows waits h p, all_pending rows p)
    | inr runs ↦
        let t : filter is_pending rows ≡ r ∷ rest = ground arith in
        ground (
          arith,
          mark_processing-Moved (suc x.job.id) rows r rest t h.1,
          id_of_first is_pending (suc x.job.id) rows r rest t h.1,
        )
  ]
