-- ===== src/DbQueue/Steps.antt =====
-- What each method of the database queues does to the table when it runs to its end: the reference
-- for the transactions of both backends.
use lychee_facial_recognitio.Prelude.{
  ℕ, ltb, if◌then◌else◌, String, Bool, true, false, Option, none, some,
}
use lychee_facial_recognitio.JobQueue.{Job, is_full}
use lychee_facial_recognitio.JobQueue.Protocol.{Request, Reply, accepted, done, with_reply}
use lychee_facial_recognitio.DbQueue.{
  Table, count_pending, count_all, insert_job, select_next, mark_processing, delete_id,
  delete_pending, select_by_photo, reset_processing,
}
use lychee_facial_recognitio.DbQueue.Place.{place_of}

abbrev pub enqueue_step : ℕ → String → String → String → Table → Bool × Table
enqueue_step max_size job_type photo_id payload t =
    if is_full max_size (count_pending t)
    then (false, t)
    else (true, insert_job job_type photo_id payload t)

abbrev pub enqueue_if_idle_step : String → String → String → Table → Bool × Table
enqueue_if_idle_step job_type photo_id payload t =
    if ltb 0 (count_all t) then (false, t) else (true, insert_job job_type photo_id payload t)

abbrev pub dequeue_step : Table → Option Job × Table
dequeue_step t = elim (select_next t) [
  | none ↦ (none, t)
  | some r ↦ (some r.job, mark_processing r.job.id t)
]

abbrev pub complete_step : ℕ → Table → Unit {0} × Table
complete_step job_id t = (tt, delete_id job_id t)

abbrev pub size_step : Table → ℕ × Table
size_step t = (count_pending t, t)

abbrev pub purge_step : Table → Unit {0} × Table
purge_step t = (tt, delete_pending t)

abbrev pub position_step : String → Table → Option ℕ × Table
position_step photo_id t = (place_of t.rows (select_by_photo photo_id t), t)

abbrev pub init_step : Table → Unit {0} × Table
init_step t = (tt, reset_processing t)

-- The method that a request calls.
abbrev pub step_of : ℕ → Request → Table → Reply × Table
step_of max_size (Request.enqueue job_type photo_id payload) t =
    with_reply accepted (enqueue_step max_size job_type photo_id payload t)
step_of max_size (Request.enqueue_if_idle job_type photo_id payload) t =
    with_reply accepted (enqueue_if_idle_step job_type photo_id payload t)
step_of max_size Request.dequeue t = with_reply Reply.job (dequeue_step t)
step_of max_size (Request.complete job_id) t = with_reply (λ _. done) (complete_step job_id t)
step_of max_size Request.size t = with_reply Reply.count (size_step t)
step_of max_size Request.purge t = with_reply (λ _. done) (purge_step t)
step_of max_size (Request.position photo_id) t = with_reply Reply.place (position_step photo_id t)
