-- ===== src/DbQueue/Removal.antt =====
-- The DELETE statements of `job_queue` and the crash recovery, as a client of the protocol sees them.
use lychee_facial_recognitio.Prelude.{ℕ, ◌≡◌, refl, Bool, not, List, [], ◌∷◌, ◌++◌, filter, arith}
use lychee_facial_recognitio.JobQueue.{other_than, complete, purge, requeue_inflight}
use lychee_facial_recognitio.DbQueue.{
  pending, Row, Table, is_pending, is_processing, has_id, set_status, update_where, delete_id,
  delete_pending, reset_processing, view,
}
use lychee_facial_recognitio.DbQueue.Layout.{
  AllPending, Split, IsValid, Rises-filter, Rises-update, Split-filter, Split-of_AllPending,
}
use lychee_facial_recognitio.DbQueue.View.{jobs, no_processing}

jobs-filter-delete :
    (job_id : ℕ) (p : Row → Bool) (rows : List Row)
    → jobs (filter p (filter (λ r. not (has_id job_id r)) rows))
      ≡ filter (other_than job_id) (jobs (filter p rows))
jobs-filter-delete job_id p [] = refl
jobs-filter-delete job_id p (r ∷ rows) = ground (arith, jobs-filter-delete job_id p rows)

pub view-delete_id : (job_id : ℕ) (t : Table) → view (delete_id job_id t) ≡ complete job_id (view t)
unfolding view delete_id complete
view-delete_id job_id t =
    simp
      (jobs-filter-delete job_id is_processing t.rows, jobs-filter-delete job_id is_pending t.rows)

purged_inflight :
    (rows : List Row)
    → filter is_processing (filter (λ r. not (is_pending r)) rows) ≡ filter is_processing rows
purged_inflight [] = refl
purged_inflight (r ∷ rows) = ground (arith, purged_inflight rows)

purged_pending : (rows : List Row) → filter is_pending (filter (λ r. not (is_pending r)) rows) ≡ []
purged_pending [] = refl
purged_pending (r ∷ rows) = ground (arith, purged_pending rows)

pub view-delete_pending : (t : Table) → view (delete_pending t) ≡ purge (view t)
unfolding view delete_pending purge
view-delete_pending t = simp (purged_inflight t.rows, purged_pending t.rows)

abbrev reset : List Row → List Row
reset = update_where is_processing (set_status pending)

reset-AllPending : (rows : List Row) → AllPending (reset rows)
reset-AllPending [] = tt
reset-AllPending (r ∷ rows) = ground (arith, reset-AllPending rows)

reset_inflight : (rows : List Row) → filter is_processing (reset rows) ≡ []
reset_inflight [] = refl
reset_inflight (r ∷ rows) = ground (arith, reset_inflight rows)

reset_of_pending :
    (rows : List Row) → AllPending rows → jobs (filter is_pending (reset rows)) ≡ jobs rows
reset_of_pending [] h = refl
reset_of_pending (r ∷ rows) h = ground (arith, reset_of_pending rows h.1)

jobs_of_pending :
    (rows : List Row)
    → AllPending rows
    → jobs rows ≡ jobs (filter is_processing rows) ++ jobs (filter is_pending rows)
jobs_of_pending [] h = refl
jobs_of_pending (r ∷ rows) h = ground (arith, jobs_of_pending rows h.1, no_processing rows h.1)

reset_pending :
    (rows : List Row)
    → Split rows
    → jobs (filter is_pending (reset rows))
      ≡ jobs (filter is_processing rows) ++ jobs (filter is_pending rows)
reset_pending [] h = refl
reset_pending (r ∷ rows) h =
    ground
      (arith, reset_pending rows, reset_of_pending rows, jobs_of_pending rows, no_processing rows)

pub view-reset_processing :
    (t : Table) → Split t.rows → view (reset_processing t) ≡ requeue_inflight (view t)
unfolding view reset_processing requeue_inflight
view-reset_processing t h = simp (reset_inflight t.rows, reset_pending t.rows h)

pub delete_id-IsValid : (job_id : ℕ) (t : Table) → IsValid t → IsValid (delete_id job_id t)
unfolding delete_id
delete_id-IsValid job_id t v = record {
  rises = Rises-filter t.next_id _ 0 t.rows v.rises;
  split = Split-filter _ t.rows v.split;
}

pub delete_pending-IsValid : (t : Table) → IsValid t → IsValid (delete_pending t)
unfolding delete_pending
delete_pending-IsValid t v = record {
  rises = Rises-filter t.next_id _ 0 t.rows v.rises;
  split = Split-filter _ t.rows v.split;
}

pub reset_processing-IsValid : (t : Table) → IsValid t → IsValid (reset_processing t)
unfolding reset_processing
reset_processing-IsValid t v = record {
  rises = Rises-update t.next_id is_processing pending 0 t.rows v.rises;
  split = Split-of_AllPending (reset t.rows) (reset-AllPending t.rows);
}
