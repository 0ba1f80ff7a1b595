-- ===== src/FaceStore/Sqlite/Transactions.antt =====
-- Every write of `SQLiteEmbeddingStore` is one transaction.
use lychee_facial_recognitio.Prelude.{
  ℕ, ◌+◌, ◌==◌, String, Bool, true, false, not, List, [], ◌∷◌, Option-cases, Bool-cases, inl, inr,
  none, some, arith, length, filter, if◌then◌else◌,
}
use lychee_facial_recognitio.Sql.{Outcome, Session}
use lychee_facial_recognitio.Sql.Sqlite.{Atomic, Runs, connect, run, update, query}
use lychee_facial_recognitio.FaceStore.{is_listed, mark_present, delete_where, flagged}
use lychee_facial_recognitio.FaceStore.Rows.{mark_chunks}
use lychee_facial_recognitio.FaceStore.Sqlite.{
  Tables, chunks, max_vars, select_rowid, delete_vec, delete_meta, on_meta, delete_absent_vecs,
  insert_vec, insert_meta, add, delete, delete_each, delete_many, mark_each, reset, sync_batch,
  purge_absent,
}

module _ {B F : Type 0} where
  abbrev pub delete_step : String → Tables B F → Bool × Tables B F
  delete_step face_id t = elim (select_rowid face_id t) [
    | none ↦ (false, t)
    | some rowid ↦ (true, delete_meta face_id (delete_vec rowid t))
  ]

  abbrev pub delete_each_step : List String → ℕ → Tables B F → ℕ × Tables B F
  delete_each_step [] deleted t = (deleted, t)
  delete_each_step (fid ∷ fids) deleted t =
      let (found, t') = delete_step fid t in
      delete_each_step fids (if found then deleted + 1 else deleted) t'

  abbrev pub add_step :
      (List ℕ → ℕ) → String → B → String → F → String → Tables B F → Unit {0} × Tables B F
  add_step new_rowid face_id blob photo_id variance crop_path t =
      let (rowid, t') = insert_vec new_rowid blob (delete_step face_id t).1 in
      (tt, insert_meta rowid face_id photo_id variance crop_path t')

  abbrev pub sync_step : List String → ℕ → Tables B F → ℕ × Tables B F
  sync_step face_ids batch t =
      on_meta (mark_chunks (chunks max_vars face_ids) 0) (if batch == 0 then reset t else t)

  abbrev pub purge_step : Tables B F → ℕ × Tables B F
  purge_step t = on_meta (delete_where (λ r. not (flagged r))) (delete_absent_vecs t)

module _ {B F : Type 0} (outcome : ℕ → Outcome) where
  pub mark_each-Runs :
      (slices : List (List String)) (marked : ℕ) (s : Session (Tables B F))
      → Runs (on_meta (mark_chunks slices marked)) s (mark_each outcome slices marked s)
  mark_each-Runs [] marked s = ground arith
  mark_each-Runs (slice ∷ slices) marked s =
      let (rows, s') = update outcome (on_meta (mark_present slice)) s in
      let n = length (filter (is_listed slice) s.working.meta) in
      ground (arith, mark_each-Runs slices (marked + n) s')

  pub delete_each-Runs :
      (fids : List String) (deleted : ℕ) (s : Session (Tables B F))
      → Runs (delete_each_step fids deleted) s (delete_each outcome fids deleted s)
  delete_each-Runs [] deleted s = ground arith
  delete_each-Runs (fid ∷ fids) deleted s =
      let s' = (query outcome (select_rowid fid) s).1 in
      elim (Option-cases (select_rowid fid s.working)) [
        | inl absent ↦ ground (arith, absent, delete_each-Runs fids deleted s')
        | inr (rowid, found) ↦
            let s'' = (run outcome (delete_vec rowid) s').1 in
            ground (
              arith,
              found,
              delete_each-Runs fids (deleted + 1) (run outcome (delete_meta fid) s'').1,
            )
      ]

module _ {B F : Type 0} (outcome : ℕ → Outcome) (s : Session (Tables B F)) where
  pub add-Atomic :
      {V : Type 0} (new_rowid : List ℕ → ℕ) (pack : V → B) (face_id : String) (embedding : V)
      (photo_id : String) (variance : F) (crop_path : String)
      → Atomic
          (add_step new_rowid face_id (pack embedding) photo_id variance crop_path)
          s
          (add outcome new_rowid pack face_id embedding photo_id variance crop_path s)
  unfolding add
  add-Atomic new_rowid pack face_id embedding photo_id variance crop_path = ground arith

  pub purge_absent-Atomic : Atomic purge_step s (purge_absent outcome s)
  unfolding purge_absent
  purge_absent-Atomic = ground arith

  pub delete-Atomic :
      (face_id : String)
      → Atomic (λ t. (tt, (delete_step face_id t).1)) s (delete outcome face_id s)
  unfolding delete
  delete-Atomic face_id = ground arith

  sync_batch_listed :
      (face_id : String) (face_ids : List String) (batch : ℕ)
      → Atomic
          (sync_step (face_id ∷ face_ids) batch)
          s
          (sync_batch outcome (face_id ∷ face_ids) batch s)
  unfolding sync_batch
  sync_batch_listed face_id face_ids batch =
      let slices = chunks max_vars (face_id ∷ face_ids) in
      let s' = (connect outcome s).1 in
      elim (Bool-cases (batch == 0)) [
        | inl first ↦
            ground (arith, first, mark_each-Runs outcome slices 0 (run outcome reset s').1)
        | inr later ↦ ground (arith, later, mark_each-Runs outcome slices 0 s')
      ]

  pub sync_batch-Atomic :
      (face_ids : List String) (batch : ℕ)
      → Atomic (sync_step face_ids batch) s (sync_batch outcome face_ids batch s)
  unfolding sync_batch chunks
  sync_batch-Atomic [] batch = ground arith
  sync_batch-Atomic (face_id ∷ face_ids) batch = sync_batch_listed face_id face_ids batch

  delete_many_listed :
      (face_id : String) (face_ids : List String)
      → Atomic
          (delete_each_step (face_id ∷ face_ids) 0)
          s
          (delete_many outcome (face_id ∷ face_ids) s)
  unfolding delete_many
  delete_many_listed face_id face_ids =
      ground (arith, delete_each-Runs outcome (face_id ∷ face_ids) 0 (connect outcome s).1)

  pub delete_many-Atomic :
      (face_ids : List String)
      → Atomic (delete_each_step face_ids 0) s (delete_many outcome face_ids s)
  unfolding delete_many
  delete_many-Atomic [] = ground arith
  delete_many-Atomic (face_id ∷ face_ids) = delete_many_listed face_id face_ids
