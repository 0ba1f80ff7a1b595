-- ===== src/FaceStore/Sqlite/Calls.antt =====
-- The methods of `SQLiteEmbeddingStore` as answers to the requests of store.py, and their transactions.
use lychee_facial_recognitio.Prelude.{ℕ, List, length, arith}
use lychee_facial_recognitio.Sql.{Outcome, Session, pure, ◌>>=◌, ◌>>◌}
use lychee_facial_recognitio.Sql.Sqlite.{Atomic, wrap-Atomic}
use lychee_facial_recognitio.FaceStore.{metadata, count_photo}
use lychee_facial_recognitio.FaceStore.Protocol.{Request, Reply, done, number, vectors, records}
use lychee_facial_recognitio.FaceStore.Sqlite as Store
use lychee_facial_recognitio.FaceStore.Sqlite.{Tables, Method, join}
use lychee_facial_recognitio.FaceStore.Sqlite.Transactions.{
  delete_step, delete_each_step, add_step, sync_step, purge_step, add-Atomic, delete-Atomic,
  delete_many-Atomic, sync_batch-Atomic, purge_absent-Atomic,
}

abbrev pub with_reply : {A S R : Type 0} → (A → R) → A × S → R × S
with_reply f (a, s) = (f a, s)

module _ {B V F : Type 0} (new_rowid : List ℕ → ℕ) (pack : V → B) (unpack : B → V) where
  -- What each method does to the tables when it runs to its end.
  abbrev pub step_of : Request V F → Tables B F → Reply V F × Tables B F
  step_of (Request.add face_id embedding photo_id variance crop_path) t =
      with_reply (λ _. done)
        (add_step new_rowid face_id (pack embedding) photo_id variance crop_path t)
  step_of (Request.delete face_id) t = with_reply (λ _. done) (delete_step face_id t)
  step_of (Request.delete_many face_ids) t = with_reply number (delete_each_step face_ids 0 t)
  step_of (Request.sync_batch face_ids batch) t = with_reply number (sync_step face_ids batch t)
  step_of Request.purge_absent t = with_reply number (purge_step t)
  step_of Request.get_all t = (vectors (join unpack t.meta t.vecs), t)
  step_of Request.get_all_with_metadata t = (records (metadata t.meta), t)
  step_of Request.count t = (number (length t.meta), t)
  step_of (Request.count_by_photo_id photo_id) t = (number (count_photo photo_id t.meta), t)

  module _ (outcome : ℕ → Outcome) where
    unfoldable pub call : Request V F → Method B F (Reply V F)
    call (Request.add face_id embedding photo_id variance crop_path) = do
      Store.add outcome new_rowid pack face_id embedding photo_id variance crop_path
      pure done
    call (Request.delete face_id) = do Store.delete outcome face_id; pure done
    call (Request.delete_many face_ids) = do
      deleted ← Store.delete_many outcome face_ids
      pure (number deleted)
    call (Request.sync_batch face_ids batch) = do
      marked ← Store.sync_batch outcome face_ids batch
      pure (number marked)
    call Request.purge_absent = do deleted ← Store.purge_absent outcome; pure (number deleted)
    call Request.get_all = do faces ← Store.get_all outcome unpack; pure (vectors faces)
    call Request.get_all_with_metadata = do
      rows ← Store.get_all_with_metadata outcome
      pure (records rows)
    call Request.count = do total ← Store.count outcome; pure (number total)
    call (Request.count_by_photo_id photo_id) = do
      total ← Store.count_by_photo_id outcome photo_id
      pure (number total)

    pub call-Atomic :
        (request : Request V F) (s : Session (Tables B F))
        → Atomic (step_of request) s (call request s)
    unfolding call Store.get_all Store.get_all_with_metadata Store.count Store.count_by_photo_id
    call-Atomic (Request.add face_id embedding photo_id variance crop_path) s =
        wrap-Atomic (λ _. done)
          (add_step new_rowid face_id (pack embedding) photo_id variance crop_path) s
          (Store.add outcome new_rowid pack face_id embedding photo_id variance crop_path s)
          (add-Atomic outcome s new_rowid pack face_id embedding photo_id variance crop_path)
    call-Atomic (Request.delete face_id) s =
        wrap-Atomic (λ _. done) (λ t. (tt, (delete_step face_id t).1)) s
          (Store.delete outcome face_id s) (delete-Atomic outcome s face_id)
    call-Atomic (Request.delete_many face_ids) s =
        wrap-Atomic number (delete_each_step face_ids 0) s (Store.delete_many outcome face_ids s)
          (delete_many-Atomic outcome s face_ids)
    call-Atomic (Request.sync_batch face_ids batch) s =
        wrap-Atomic number (sync_step face_ids batch) s (Store.sync_batch outcome face_ids batch s)
          (sync_batch-Atomic outcome s face_ids batch)
    call-Atomic Request.purge_absent s =
        wrap-Atomic number purge_step s (Store.purge_absent outcome s)
          (purge_absent-Atomic outcome s)
    call-Atomic Request.get_all s = ground arith
    call-Atomic Request.get_all_with_metadata s = ground arith
    call-Atomic Request.count s = ground arith
    call-Atomic (Request.count_by_photo_id photo_id) s = ground arith
