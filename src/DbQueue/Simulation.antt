-- ===== src/DbQueue/Simulation.antt =====
-- On a valid table every method does to the queue that a client sees what the protocol says, and
-- leaves a valid table.
use lychee_facial_recognitio.Prelude.{
  ℕ, ◌≡◌, refl, String, some, List, [], ◌∷◌, filter, ◌∙◌, ap, head?, arith,
}
use lychee_facial_recognitio.JobQueue
use lychee_facial_recognitio.JobQueue.{Queue}
use lychee_facial_recognitio.JobQueue.Protocol.{Request, Reply, serve}
use lychee_facial_recognitio.DbQueue.{
  Row, Table, processing, is_pending, has_id, insert_job, mark_processing, select_next, view,
}
use lychee_facial_recognitio.DbQueue.Layout.{
  IsValid, Rises-snoc, Rises-filter, Rises-update, Split-snoc, order_by_id-eq-head?,
}
use lychee_facial_recognitio.DbQueue.View.{
  view-insert_job, count_pending-view, count_all-view, mark_processing-Moved,
}
use lychee_facial_recognitio.DbQueue.Removal.{
  view-delete_id, view-delete_pending, delete_id-IsValid, delete_pending-IsValid,
}
use lychee_facial_recognitio.DbQueue.Place.{place_of-position}
use lychee_facial_recognitio.DbQueue.Steps.{step_of, dequeue_step}

-- `after` is what the protocol makes of the queue of `t`, and a valid table.
abbrev pub Simulates : {A : Type 0} → (Queue → A × Queue) → Table → A × Table → Type 0
Simulates spec t (a, after) =
    (a ≡ (spec (view t)).0) × (view after ≡ (spec (view t)).1) × IsValid after

insert_job-IsValid :
    (job_type photo_id payload : String) (t : Table)
    → IsValid t
    → IsValid (insert_job job_type photo_id payload t)
unfolding insert_job
insert_job-IsValid job_type photo_id payload t v = record {
  rises = Rises-snoc t.next_id 0 t.rows _ refl v.rises;
  split = Split-snoc t.rows _ refl v.split;
}

select_next-eq-head? : (t : Table) → IsValid t → select_next t ≡ head? (filter is_pending t.rows)
unfolding select_next
select_next-eq-head? t v =
    order_by_id-eq-head? t.next_id 0 _ (Rises-filter t.next_id is_pending 0 t.rows v.rises)

-- With a pending row in front, `dequeue` moves it to the end of the rows in flight.
mark_processing-view :
    (t : Table) (r : Row) (rest : List Row)
    → filter is_pending t.rows ≡ r ∷ rest
    → IsValid t
    → (view (mark_processing r.job.id t) ≡ (JobQueue.dequeue (view t)).1)
      × IsValid (mark_processing r.job.id t)
unfolding view mark_processing JobQueue.dequeue
mark_processing-view t r rest e v =
    let moved = mark_processing-Moved t.next_id 0 t.rows r rest e v.rises v.split in
    (
      rw e (simp (moved.0, moved.1)),
      record {
        rises = Rises-update t.next_id (has_id r.job.id) processing 0 t.rows v.rises;
        split = moved.2;
      },
    )

dequeue_found :
    (t : Table) (l : List Row)
    → filter is_pending t.rows ≡ l
    → IsValid t
    → Simulates JobQueue.dequeue t (dequeue_step t)
unfolding JobQueue.dequeue view
dequeue_found t [] e v = ground (arith, select_next-eq-head? t v)
dequeue_found t (r ∷ rest) e v =
    let found : select_next t ≡ some r = select_next-eq-head? t v ∙ ap head? e in
    let (after, valid) = mark_processing-view t r rest e v in
    rw (found, dequeue_step) ((unfold JobQueue.dequeue view in rw e), after, valid)

pub dequeue-Simulates : (t : Table) → IsValid t → Simulates JobQueue.dequeue t (dequeue_step t)
dequeue-Simulates t v = dequeue_found t (filter is_pending t.rows) refl v

pub step_of-Simulates :
    (max_size : ℕ) (request : Request) (t : Table)
    → IsValid t
    → Simulates (serve max_size request) t (step_of max_size request t)
unfolding serve JobQueue.enqueue JobQueue.enqueue_if_idle
step_of-Simulates max_size (Request.enqueue job_type photo_id payload) t v = ground (
  arith,
  count_pending-view t,
  view-insert_job job_type photo_id payload t,
  insert_job-IsValid job_type photo_id payload t v,
)
step_of-Simulates max_size (Request.enqueue_if_idle job_type photo_id payload) t v = ground (
  arith,
  count_all-view t,
  view-insert_job job_type photo_id payload t,
  insert_job-IsValid job_type photo_id payload t v,
)
step_of-Simulates max_size Request.dequeue t v =
    let (reply, after, valid) = dequeue-Simulates t v in (ap Reply.job reply, after, valid)
step_of-Simulates max_size (Request.complete job_id) t v =
    (refl, view-delete_id job_id t, delete_id-IsValid job_id t v)
step_of-Simulates max_size Request.size t v =
    (ap Reply.count (unfold JobQueue.size in count_pending-view t), refl, v)
step_of-Simulates max_size Request.purge t v =
    (refl, view-delete_pending t, delete_pending-IsValid t v)
step_of-Simulates max_size (Request.position photo_id) t v =
    (ap Reply.place (place_of-position photo_id t v), refl, v)
