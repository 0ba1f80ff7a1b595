-- ===== src/FaceStore/Sqlite/Invariant.antt =====
-- Every write of the SQLite store keeps its two tables in step, whatever statements fail.
use lychee_facial_recognitio.Prelude.{
  ℕ, ◌+◌, ◌≡◌, ◌≢◌, String, List, [], ◌∷◌, arith, All, none, Option-cases, inl, inr, if◌then◌else◌,
  ◌==◌, Bool-cases,
}
use lychee_facial_recognitio.Sql.{Result, ok, err, Outcome, Session}
use lychee_facial_recognitio.Sql.Sqlite.{Atomic}
use lychee_facial_recognitio.FaceStore.{find_face}
use lychee_facial_recognitio.FaceStore.Sqlite.{
  Tables, rowids, chunks, max_vars, add, delete, delete_many, sync_batch, purge_absent,
}
use lychee_facial_recognitio.FaceStore.Sqlite.Transactions.{
  delete_step, delete_each_step, add_step, sync_step, purge_step, add-Atomic, delete-Atomic,
  delete_many-Atomic, sync_batch-Atomic, purge_absent-Atomic,
}
use lychee_facial_recognitio.FaceStore.Sqlite.Linked.{
  Unused, Linked, delete-Linked, reset_present-Linked, mark_chunks-Linked, snoc-Linked,
  purge-Linked,
}

-- `vec_faces` gives a new row a rowid that no row has.
abbrev pub IsFresh : (List ℕ → ℕ) → Type 0
IsFresh new_rowid = (ks : List ℕ) → All (λ k. k ≢ new_rowid ks) ks

abbrev pub AreLinked : {B F : Type 0} → Tables B F → Type 0
AreLinked t = Linked t.meta t.vecs

pub Unused-of_All :
    {B : Type 0} (k : ℕ) (vecs : List (ℕ × B)) → All (λ j. j ≢ k) (rowids vecs) → Unused k vecs
Unused-of_All k [] h = tt
Unused-of_All k (v ∷ vecs) h = (h.0, Unused-of_All k vecs h.1)

module _ {B F : Type 0} where
  pub delete_step-AreLinked :
      (face_id : String) (t : Tables B F)
      → AreLinked t
      → let t' = (delete_step face_id t).1 in AreLinked t' × (find_face face_id t'.meta ≡ none)
  delete_step-AreLinked face_id t l = elim (Option-cases (find_face face_id t.meta)) [
    | inl absent ↦ ground (arith, absent)
    | inr (r, found) ↦ ground (arith, found, delete-Linked face_id t.meta t.vecs r found l)
  ]

  pub delete_each_step-AreLinked :
      (fids : List String) (deleted : ℕ) (t : Tables B F)
      → AreLinked t
      → AreLinked (delete_each_step fids deleted t).1
  delete_each_step-AreLinked [] deleted t l = l
  delete_each_step-AreLinked (fid ∷ fids) deleted t l =
      let (found, t') = delete_step fid t in
      delete_each_step-AreLinked fids (if found then deleted + 1 else deleted) t'
        (delete_step-AreLinked fid t l).0

  pub add_step-AreLinked :
      (new_rowid : List ℕ → ℕ) (face_id : String) (blob : B) (photo_id : String) (variance : F)
      (crop_path : String) (t : Tables B F)
      → IsFresh new_rowid
      → AreLinked t
      → AreLinked (add_step new_rowid face_id blob photo_id variance crop_path t).1
  add_step-AreLinked new_rowid face_id blob photo_id variance crop_path t fresh l =
      let t' = (delete_step face_id t).1 in
      let (kept, gone) = delete_step-AreLinked face_id t l in
      snoc-Linked t'.meta t'.vecs _ blob kept
        (Unused-of_All (new_rowid (rowids t'.vecs)) t'.vecs (fresh (rowids t'.vecs))) gone

  pub sync_step-AreLinked :
      (ids : List String) (batch : ℕ) (t : Tables B F)
      → AreLinked t
      → AreLinked (sync_step ids batch t).1
  sync_step-AreLinked ids batch t l = elim (Bool-cases (batch == 0)) [
    | inl first ↦
        rw first (
          mark_chunks-Linked (chunks max_vars ids) 0 _ t.vecs
            (reset_present-Linked t.meta t.vecs l))
    | inr later ↦ rw later (mark_chunks-Linked (chunks max_vars ids) 0 t.meta t.vecs l)
  ]

  Atomic-AreLinked :
      {A : Type 0} (step : Tables B F → A × Tables B F) (s : Session (Tables B F))
      (end : Result A × Session (Tables B F))
      → Atomic step s end
      → AreLinked s.committed
      → AreLinked (step s.committed).1
      → AreLinked end.1.committed
  Atomic-AreLinked step s (ok a, s') h before after = rw h.1 after
  Atomic-AreLinked step s (err e, s') h before after = rw h.0 before

module _ {B F V : Type 0} (outcome : ℕ → Outcome) (new_rowid : List ℕ → ℕ) (pack : V → B) where
  -- If the vector table gives fresh rowids, then whatever statements fail, each write of the SQLite store
  -- leaves committed tables in which every row of `face_meta` has its own vector, no vector is without
  -- a row, and no face id stands twice.
  pub writes-AreLinked :
      (face_id : String) (face_ids : List String) (batch : ℕ) (embedding : V) (variance : F)
      (photo_id crop_path : String) (s : Session (Tables B F))
      → IsFresh new_rowid
      → AreLinked s.committed
      → AreLinked
          (add outcome new_rowid pack face_id embedding photo_id variance crop_path s).1.committed
        × AreLinked (delete outcome face_id s).1.committed
        × AreLinked (delete_many outcome face_ids s).1.committed
        × AreLinked (sync_batch outcome face_ids batch s).1.committed
        × AreLinked (purge_absent outcome s).1.committed
  writes-AreLinked face_id face_ids batch embedding variance photo_id crop_path s fresh l =
      let t = s.committed in
      (
        Atomic-AreLinked (add_step new_rowid face_id (pack embedding) photo_id variance crop_path) s
            (add outcome new_rowid pack face_id embedding photo_id variance crop_path s)
            (add-Atomic outcome s new_rowid pack face_id embedding photo_id variance crop_path) l
            (add_step-AreLinked new_rowid face_id (pack embedding) photo_id variance crop_path t
              fresh l),
        Atomic-AreLinked (λ t. (tt, (delete_step face_id t).1)) s (delete outcome face_id s)
            (delete-Atomic outcome s face_id) l (delete_step-AreLinked face_id t l).0,
        Atomic-AreLinked (delete_each_step face_ids 0) s (delete_many outcome face_ids s)
            (delete_many-Atomic outcome s face_ids) l (delete_each_step-AreLinked face_ids 0 t l),
        Atomic-AreLinked (sync_step face_ids batch) s (sync_batch outcome face_ids batch s)
            (sync_batch-Atomic outcome s face_ids batch) l (sync_step-AreLinked face_ids batch t l),
        Atomic-AreLinked purge_step s (purge_absent outcome s) (purge_absent-Atomic outcome s) l
            (purge-Linked t.meta t.vecs l),
      )
