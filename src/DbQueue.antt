-- ===== src/DbQueue.antt =====
-- app/queue/db_queue.py: the table `job_queue` and the SQL statements that the two database
-- backends share. A table is its rows in insertion order with the AUTOINCREMENT counter; a
-- statement is a function on it. `created_at` is written by the database and never read.
pub mod Layout
pub mod View
pub mod Removal
pub mod Place
pub mod Steps
pub mod Simulation
pub mod History
pub mod Sqlite
pub mod Postgres
use lychee_facial_recognitio.Prelude.{
  ℕ, zero, ◌+◌, ◌==◌, if◌then◌else◌, leb, String, str_eq, Bool, true, false, not, ◌&&◌, ◌||◌,
  Option, none, some, List, [], ◌∷◌, ◌++◌, map, length, filter,
}
use lychee_facial_recognitio.JobQueue.{Job, Queue}

-- The column `status` holds only these two of the words.
pub data Status : Type 0 where
  pending processing : Status

pub record Row : Type 0 where
  pub job : Job
  pub status : Status

pub record Table : Type 0 where
  pub rows : List Row
  pub next_id : ℕ

abbrev pub is_pending : Row → Bool
is_pending r = elim r.status [ pending ↦ true | processing ↦ false ]

abbrev pub is_processing : Row → Bool
is_processing r = elim r.status [ pending ↦ false | processing ↦ true ]

abbrev pub has_id : ℕ → Row → Bool
has_id job_id r = r.job.id == job_id

abbrev pub set_status : Status → Row → Row
set_status s r = record r { status = s }

-- UPDATE … SET … WHERE test
abbrev pub update_where : (Row → Bool) → (Row → Row) → List Row → List Row
update_where test f [] = []
update_where test f (r ∷ rs) = (if test r then f r else r) ∷ update_where test f rs

-- The row with the smaller id, for ORDER BY id LIMIT 1
abbrev pub lower_id : Row → Option Row → Row
lower_id r none = r
lower_id r (some m) = if leb r.job.id m.job.id then r else m

abbrev pub order_by_id_limit_1 : List Row → Option Row
order_by_id_limit_1 [] = none
order_by_id_limit_1 (r ∷ rs) = some (lower_id r (order_by_id_limit_1 rs))

-- SELECT COUNT(*) FROM job_queue WHERE status = 'pending'
unfoldable pub count_pending : Table → ℕ
count_pending t = length (filter is_pending t.rows)

-- SELECT COUNT(*) FROM job_queue
unfoldable pub count_all : Table → ℕ
count_all t = length t.rows

-- INSERT INTO job_queue (job_type, photo_id, payload) VALUES (?, ?, ?)
unfoldable pub insert_job : String → String → String → Table → Table
insert_job job_type photo_id payload t = record {
  rows =
      t.rows
      ++ record {
        job = record {
          id = t.next_id;
          job_type = job_type;
          photo_id = photo_id;
          payload = payload;
        };
        status = pending;
      }
        ∷ [];
  next_id = t.next_id + 1;
}

-- SELECT … WHERE status = 'pending' ORDER BY id LIMIT 1
unfoldable pub select_next : Table → Option Row
select_next t = order_by_id_limit_1 (filter is_pending t.rows)

-- UPDATE job_queue SET status = 'processing' WHERE id = ?
unfoldable pub mark_processing : ℕ → Table → Table
mark_processing job_id t = record t {
  rows = update_where (has_id job_id) (set_status processing) t.rows;
}

-- DELETE FROM job_queue WHERE id = ?
unfoldable pub delete_id : ℕ → Table → Table
delete_id job_id t = record t { rows = filter (λ r. not (has_id job_id r)) t.rows }

-- DELETE FROM job_queue WHERE status = 'pending'
unfoldable pub delete_pending : Table → Table
delete_pending t = record t { rows = filter (λ r. not (is_pending r)) t.rows }

-- UPDATE job_queue SET status = 'pending' WHERE status = 'processing'
unfoldable pub reset_processing : Table → Table
reset_processing t = record t { rows = update_where is_processing (set_status pending) t.rows }

-- SELECT id, status … WHERE photo_id = ? AND status IN ('pending', 'processing') ORDER BY id LIMIT 1
unfoldable pub select_by_photo : String → Table → Option Row
select_by_photo photo_id t =
    order_by_id_limit_1
      (filter (λ r. str_eq r.job.photo_id photo_id && (is_pending r || is_processing r)) t.rows)

-- SELECT COUNT(*) FROM job_queue WHERE status = 'pending' AND id <= ?
unfoldable pub count_pending_up_to : ℕ → Table → ℕ
count_pending_up_to job_id t = length (filter (λ r. is_pending r && leb r.job.id job_id) t.rows)

-- What the table means to a client of the protocol.
unfoldable pub view : Table → Queue
view t = record {
  inflight = map (λ (r : Row). r.job) (filter is_processing t.rows);
  pending = map (λ (r : Row). r.job) (filter is_pending t.rows);
  next_id = t.next_id;
}
