-- ===== src/FaceStore/Sqlite/Simulation.antt =====
-- What the transactions of the SQLite store do to the two tables, on the one table of faces.
use lychee_facial_recognitio.Prelude.{
  ℕ, ◌+◌, ◌≡◌, refl, ap, sym, ◌∙◌, String, str_eq, Bool, true, false, not, List, [], ◌∷◌, ◌++◌,
  length, filter, arith, Option-cases, Bool-cases, inl, inr, if◌then◌else◌, ◌==◌,
}
use lychee_facial_recognitio.FaceStore.{
  FaceRow, has_face, is_listed, find_face, flagged, reset_present, set_present,
}
use lychee_facial_recognitio.FaceStore.Rows.{mark_chunks}
use lychee_facial_recognitio.FaceStore.Protocol.{
  Request, serve, without, before_batch, new_face, number, vectors, records,
}
use lychee_facial_recognitio.FaceStore.Sqlite.{Tables, chunks, max_vars, rowids}
use lychee_facial_recognitio.FaceStore.Sqlite.Transactions.{
  delete_step, delete_each_step, add_step, sync_step,
}
use lychee_facial_recognitio.FaceStore.Sqlite.Calls.{step_of}
use lychee_facial_recognitio.FaceStore.Sqlite.Chunks.{marked_at_once}
use lychee_facial_recognitio.FaceStore.Sqlite.Invariant.{
  IsFresh, AreLinked, delete_step-AreLinked, delete_each_step-AreLinked, add_step-AreLinked,
  sync_step-AreLinked,
}
use lychee_facial_recognitio.FaceStore.Sqlite.Linked.{Linked, purge-Linked, reset_present-Linked}
use lychee_facial_recognitio.FaceStore.Sqlite.View.{
  faces_of, faces_missing, count_missing, count_found, delete-faces, snoc-faces, set_present-faces,
  reset_present-faces, purge-faces, count-faces, length-faces, metadata-faces, mark_chunks-faces,
  join-faces,
}

module _ {V F : Type 0} where
  -- Deleting the faces of a list is deleting those of its first id and then those of the others.
  filter_rest :
      (fid : String) (fids : List String) (rows : List (FaceRow V F))
      → filter (λ r. not (is_listed (fid ∷ fids) r)) rows
        ≡ filter (λ r. not (is_listed fids r)) (without fid rows)
  filter_rest fid fids [] = refl
  filter_rest fid fids (r ∷ rows) = ground (arith, filter_rest fid fids rows)

  count_rest :
      (fid : String) (fids : List String) (rows : List (FaceRow V F))
      → length (filter (is_listed (fid ∷ fids)) rows)
        ≡ length (filter (has_face fid) rows) + length (filter (is_listed fids) (without fid rows))
  count_rest fid fids [] = omega arith
  count_rest fid fids (r ∷ rows) = ground (arith, count_rest fid fids rows)

  filter_none : (rows : List (FaceRow V F)) → filter (λ r. not (is_listed [] r)) rows ≡ rows
  filter_none [] = refl
  filter_none (r ∷ rows) = ap (λ rest. r ∷ rest) (filter_none rows)

  count_none : (rows : List (FaceRow V F)) → length (filter (is_listed []) rows) ≡ 0
  count_none [] = refl
  count_none (r ∷ rows) = count_none rows

add_found : (found : Bool) (n : ℕ) → (if found then n + 1 else n) ≡ n + (if found then 1 else 0)
add_found true n = refl
add_found false n = omega arith

module _ {B V F : Type 0} (unpack : B → V) where
  -- The table of faces that the two tables stand for.
  abbrev pub faces : Tables B F → List (FaceRow V F)
  faces t = faces_of unpack t.meta t.vecs

  delete_step-faces :
      (face_id : String) (t : Tables B F)
      → AreLinked t
      → let (found, t') = delete_step face_id t in
        (faces t' ≡ without face_id (faces t))
        × ((if found then 1 else 0) ≡ length (filter (has_face face_id) (faces t)))
  delete_step-faces face_id t l = elim (Option-cases (find_face face_id t.meta)) [
    | inl absent ↦ ground (
      arith,
      absent,
      faces_missing unpack face_id t.meta t.vecs absent,
      count_missing unpack face_id t.meta t.vecs absent,
    )
    | inr (r, found) ↦ ground (
      arith,
      found,
      delete-faces unpack face_id t.meta t.vecs r found l,
      count_found unpack face_id t.meta t.vecs r found l,
    )
  ]

  delete_each_step-faces :
      (fids : List String) (deleted : ℕ) (t : Tables B F)
      → AreLinked t
      → let (total, t') = delete_each_step fids deleted t in
        (total ≡ deleted + length (filter (is_listed fids) (faces t)))
        × (faces t' ≡ filter (λ r. not (is_listed fids r)) (faces t))
  delete_each_step-faces [] deleted t l =
      (omega (arith, count_none (faces t)), sym (filter_none (faces t)))
  delete_each_step-faces (fid ∷ fids) deleted t l =
      let (found, t') = delete_step fid t in
      let n = if found then deleted + 1 else deleted in
      let (after, once) = delete_step-faces fid t l in
      let (total, left) = delete_each_step-faces fids n t' (delete_step-AreLinked fid t l).0 in
      let listed = ap (λ rows. length (filter (is_listed fids) rows)) after in
      (
        omega (arith, add_found found deleted, count_rest fid fids (faces t)),
        left
            ∙ ap (λ rows. filter (λ r. not (is_listed fids r)) rows) after
            ∙ sym (filter_rest fid fids (faces t)),
      )

  pub add_step-faces :
      (new_rowid : List ℕ → ℕ) (face_id : String) (blob : B) (photo_id : String) (variance : F)
      (crop_path : String) (t : Tables B F)
      → AreLinked t
      → faces (add_step new_rowid face_id blob photo_id variance crop_path t).1
        ≡ without face_id (faces t)
          ++ new_face face_id (unpack blob) photo_id variance crop_path ∷ []
  add_step-faces new_rowid face_id blob photo_id variance crop_path t l =
      let t' = (delete_step face_id t).1 in
      snoc-faces unpack t'.meta t'.vecs
        (new_face face_id (new_rowid (rowids t'.vecs)) photo_id variance crop_path) blob
        (delete_step-AreLinked face_id t l).0
      ∙ ap (λ rows. rows ++ new_face face_id (unpack blob) photo_id variance crop_path ∷ [])
          (delete_step-faces face_id t l).0

  marked-faces :
      (ids : List String) (rows : List (FaceRow ℕ F)) (vecs : List (ℕ × B))
      (before : List (FaceRow V F))
      → Linked rows vecs
      → faces_of unpack rows vecs ≡ before
      → ((mark_chunks (chunks max_vars ids) 0 rows).0
          ≡ (mark_chunks (chunks max_vars ids) 0 before).0)
        × (faces_of unpack (mark_chunks (chunks max_vars ids) 0 rows).1 vecs
            ≡ set_present ids before)
  marked-faces ids rows vecs before l e = (
    mark_chunks-faces unpack (chunks max_vars ids) 0 rows vecs l
        ∙ ap (λ fs. (mark_chunks (chunks max_vars ids) 0 fs).0) e,
    ap (λ marked. faces_of unpack marked vecs) (marked_at_once ids rows)
        ∙ set_present-faces unpack ids rows vecs
        ∙ ap (set_present ids) e,
  )

  sync_step-faces :
      (ids : List String) (batch : ℕ) (t : Tables B F)
      → AreLinked t
      → let (marked, t') = sync_step ids batch t in
        (marked ≡ (mark_chunks (chunks max_vars ids) 0 (before_batch batch (faces t))).0)
        × (faces t' ≡ set_present ids (before_batch batch (faces t)))
  sync_step-faces ids batch t l = elim (Bool-cases (batch == 0)) [
    | inl first ↦ rw first (
        marked-faces ids (reset_present t.meta) t.vecs (reset_present (faces t))
          (reset_present-Linked t.meta t.vecs l) (reset_present-faces unpack t.meta t.vecs))
    | inr later ↦ rw later (marked-faces ids t.meta t.vecs (faces t) l refl)
  ]

  -- One request: the reply and the faces are those of the one table, and the tables stay linked.
  pub step_of-serve :
      (new_rowid : List ℕ → ℕ) (pack : V → B) (request : Request V F) (t : Tables B F)
      → IsFresh new_rowid
      → AreLinked t
      → let (reply, t') = step_of new_rowid pack unpack request t in
        let (reply', rows) = serve (λ v. unpack (pack v)) (chunks max_vars) request (faces t) in
        (reply ≡ reply') × (faces t' ≡ rows) × AreLinked t'
  unfolding serve
  step_of-serve new_rowid pack (Request.add face_id embedding photo_id variance crop_path) t fresh
        l =
      (
        refl,
        add_step-faces new_rowid face_id (pack embedding) photo_id variance crop_path t l,
        add_step-AreLinked new_rowid face_id (pack embedding) photo_id variance crop_path t fresh l,
      )
  step_of-serve new_rowid pack (Request.delete face_id) t fresh l =
      (refl, (delete_step-faces face_id t l).0, (delete_step-AreLinked face_id t l).0)
  step_of-serve new_rowid pack (Request.delete_many face_ids) t fresh l =
      let (total, left) = delete_each_step-faces face_ids 0 t l in
      (ap number (omega arith), left, delete_each_step-AreLinked face_ids 0 t l)
  step_of-serve new_rowid pack (Request.sync_batch face_ids batch) t fresh l =
      let (marked, after) = sync_step-faces face_ids batch t l in
      (ap number marked, after, sync_step-AreLinked face_ids batch t l)
  step_of-serve new_rowid pack Request.purge_absent t fresh l = (
    ap number (
        count-faces unpack (λ r. not (flagged r)) (λ r. not (flagged r)) (λ r blob. refl) t.meta
          t.vecs l),
    purge-faces unpack t.meta t.vecs l,
    purge-Linked t.meta t.vecs l,
  )
  step_of-serve new_rowid pack Request.get_all t fresh l =
      (ap vectors (join-faces unpack t.meta t.vecs l), refl, l)
  step_of-serve new_rowid pack Request.get_all_with_metadata t fresh l =
      (ap records (metadata-faces unpack t.meta t.vecs l), refl, l)
  step_of-serve new_rowid pack Request.count t fresh l =
      (ap number (length-faces unpack t.meta t.vecs l), refl, l)
  step_of-serve new_rowid pack (Request.count_by_photo_id photo_id) t fresh l = (
    ap number (
        count-faces unpack (λ r. str_eq r.photo_id photo_id) (λ r. str_eq r.photo_id photo_id)
          (λ r blob. refl) t.meta t.vecs l),
    refl,
    l,
  )
