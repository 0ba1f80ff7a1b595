-- ===== src/FaceStore/Sqlite/View.antt =====
-- The two tables of the SQLite store as one table of faces: each row of `face_meta` with its vector. While
-- the tables are linked, the statements on the two act as those on the one.
use lychee_facial_recognitio.Prelude.{
  ℕ, ◌+◌, ◌≡◌, ◌≢◌, refl, ap, sym, ◌∙◌, String, eq_iff, Bool, not, List, [], ◌∷◌, ◌++◌, filter,
  length, arith, none, some, ◌==◌,
}
use lychee_facial_recognitio.FaceStore.{
  FaceRow, has_face, is_listed, find_face, flagged, set_present, reset_present, metadata,
}
use lychee_facial_recognitio.FaceStore.Pgvector.{embeddings}
use lychee_facial_recognitio.FaceStore.Rows.{mark_chunks}
use lychee_facial_recognitio.FaceStore.Sqlite.{absent_rowids, elem_ℕ, join}
use lychee_facial_recognitio.FaceStore.Sqlite.Linked.{
  Unused, Linked, filter_missing, filter-Unused, found_used, skip-Unused, Unused-absent,
  set_present-Linked,
}

module _ {B V F : Type 0} (unpack : B → V) where
  abbrev pub face_of : FaceRow ℕ F → B → FaceRow V F
  face_of r blob = record {
    face_id = r.face_id;
    vector = unpack blob;
    photo_id = r.photo_id;
    laplacian_variance = r.laplacian_variance;
    crop_path = r.crop_path;
    is_present = r.is_present;
  }

  abbrev pub faces_of : List (FaceRow ℕ F) → List (ℕ × B) → List (FaceRow V F)
  faces_of [] vecs = []
  faces_of (r ∷ rows) [] = []
  faces_of (r ∷ rows) (v ∷ vecs) = face_of r v.1 ∷ faces_of rows vecs

  pub faces_missing :
      (face_id : String) (rows : List (FaceRow ℕ F)) (vecs : List (ℕ × B))
      → find_face face_id rows ≡ none
      → filter (λ r. not (has_face face_id r)) (faces_of rows vecs) ≡ faces_of rows vecs
  faces_missing face_id [] vecs e = refl
  faces_missing face_id (x ∷ rows) [] e = refl
  faces_missing face_id (x ∷ rows) (v ∷ vecs) e = ground (arith, faces_missing face_id rows vecs)

  pub count_missing :
      (face_id : String) (rows : List (FaceRow ℕ F)) (vecs : List (ℕ × B))
      → find_face face_id rows ≡ none
      → length (filter (has_face face_id) (faces_of rows vecs)) ≡ 0
  count_missing face_id [] vecs e = refl
  count_missing face_id (x ∷ rows) [] e = refl
  count_missing face_id (x ∷ rows) (v ∷ vecs) e = ground (arith, count_missing face_id rows vecs)

  pub count_found :
      (face_id : String) (rows : List (FaceRow ℕ F)) (vecs : List (ℕ × B)) (r : FaceRow ℕ F)
      → find_face face_id rows ≡ some r
      → Linked rows vecs
      → length (filter (has_face face_id) (faces_of rows vecs)) ≡ 1
  count_found face_id [] vecs r e l = cc
  count_found face_id (x ∷ rows) [] r e l = absurd l
  count_found face_id (x ∷ rows) (v ∷ vecs) r e l = ground (
    arith,
    count_found face_id rows vecs r,
    count_missing face_id rows vecs,
    eq_iff x.face_id face_id,
  )

  pub delete-faces :
      (face_id : String) (rows : List (FaceRow ℕ F)) (vecs : List (ℕ × B)) (r : FaceRow ℕ F)
      → find_face face_id rows ≡ some r
      → Linked rows vecs
      → faces_of
          (filter (λ x. not (has_face face_id x)) rows)
          (filter (λ v. not (v.0 == r.vector)) vecs)
        ≡ filter (λ x. not (has_face face_id x)) (faces_of rows vecs)
  delete-faces face_id [] vecs r e l = cc
  delete-faces face_id (x ∷ rows) [] r e l = absurd l
  delete-faces face_id (x ∷ rows) (v ∷ vecs) r e l = ground (
    arith,
    delete-faces face_id rows vecs r,
    filter_missing face_id rows,
    filter-Unused r.vector vecs,
    found_used x.vector face_id rows vecs r,
    faces_missing face_id rows vecs,
    eq_iff x.face_id face_id,
  )

  pub snoc-faces :
      (rows : List (FaceRow ℕ F)) (vecs : List (ℕ × B)) (r : FaceRow ℕ F) (blob : B)
      → Linked rows vecs
      → faces_of (rows ++ r ∷ []) (vecs ++ (r.vector, blob) ∷ [])
        ≡ faces_of rows vecs ++ face_of r blob ∷ []
  snoc-faces [] [] r blob l = refl
  snoc-faces [] (v ∷ vecs) r blob l = absurd l
  snoc-faces (x ∷ rows) [] r blob l = absurd l
  snoc-faces (x ∷ rows) (v ∷ vecs) r blob l =
      ap (λ rest. face_of x v.1 ∷ rest) (snoc-faces rows vecs r blob l.3)

  pub set_present-faces :
      (ids : List String) (rows : List (FaceRow ℕ F)) (vecs : List (ℕ × B))
      → faces_of (set_present ids rows) vecs ≡ set_present ids (faces_of rows vecs)
  set_present-faces ids [] vecs = refl
  set_present-faces ids (x ∷ rows) [] = refl
  set_present-faces ids (x ∷ rows) (v ∷ vecs) = ground (arith, set_present-faces ids rows vecs)

  pub reset_present-faces :
      (rows : List (FaceRow ℕ F)) (vecs : List (ℕ × B))
      → faces_of (reset_present rows) vecs ≡ reset_present (faces_of rows vecs)
  reset_present-faces [] vecs = refl
  reset_present-faces (x ∷ rows) [] = refl
  reset_present-faces (x ∷ rows) (v ∷ vecs) = ground (arith, reset_present-faces rows vecs)

  pub purge-faces :
      (rows : List (FaceRow ℕ F)) (vecs : List (ℕ × B))
      → Linked rows vecs
      → faces_of
          (filter (λ r. not (not (flagged r))) rows)
          (filter (λ v. not (elem_ℕ v.0 (absent_rowids rows))) vecs)
        ≡ filter (λ r. not (not (flagged r))) (faces_of rows vecs)
  purge-faces [] vecs l = refl
  purge-faces (x ∷ rows) [] l = absurd l
  purge-faces (x ∷ rows) (v ∷ vecs) l = ground (
    arith,
    purge-faces rows vecs l.3,
    skip-Unused x.vector (absent_rowids rows) vecs l.1,
    Unused-absent x.vector rows vecs l.3 l.1,
  )

  -- A test that does not look at the vector selects as many rows of `face_meta` as faces.
  pub count-faces :
      (p : FaceRow ℕ F → Bool) (q : FaceRow V F → Bool)
      → ((r : FaceRow ℕ F) (blob : B) → p r ≡ q (face_of r blob))
      → (rows : List (FaceRow ℕ F)) (vecs : List (ℕ × B)) → Linked rows vecs
      → length (filter p rows) ≡ length (filter q (faces_of rows vecs))
  count-faces p q same [] vecs l = refl
  count-faces p q same (x ∷ rows) [] l = absurd l
  count-faces p q same (x ∷ rows) (v ∷ vecs) l =
      ground (arith, same x v.1, count-faces p q same rows vecs l.3)

  pub length-faces :
      (rows : List (FaceRow ℕ F)) (vecs : List (ℕ × B))
      → Linked rows vecs
      → length rows ≡ length (faces_of rows vecs)
  length-faces [] vecs l = refl
  length-faces (x ∷ rows) [] l = absurd l
  length-faces (x ∷ rows) (v ∷ vecs) l = omega (arith, length-faces rows vecs l.3)

  pub metadata-faces :
      (rows : List (FaceRow ℕ F)) (vecs : List (ℕ × B))
      → Linked rows vecs
      → metadata rows ≡ metadata (faces_of rows vecs)
  metadata-faces [] vecs l = refl
  metadata-faces (x ∷ rows) [] l = absurd l
  metadata-faces (x ∷ rows) (v ∷ vecs) l =
      ap (λ rest. (x.face_id, x.photo_id, x.laplacian_variance, x.crop_path) ∷ rest)
        (metadata-faces rows vecs l.3)

  pub mark_chunks-faces :
      (slices : List (List String)) (marked : ℕ) (rows : List (FaceRow ℕ F)) (vecs : List (ℕ × B))
      → Linked rows vecs
      → (mark_chunks slices marked rows).0 ≡ (mark_chunks slices marked (faces_of rows vecs)).0
  mark_chunks-faces [] marked rows vecs l = refl
  mark_chunks-faces (slice ∷ slices) marked rows vecs l =
      let n' = marked + length (filter (is_listed slice) (faces_of rows vecs)) in
      ap (λ n. (mark_chunks slices (marked + n) (set_present slice rows)).0)
        (count-faces (is_listed slice) (is_listed slice) (λ r blob. refl) rows vecs l)
      ∙ mark_chunks-faces slices n' (set_present slice rows) vecs
          (set_present-Linked slice rows vecs l)
      ∙ ap (λ faces. (mark_chunks slices n' faces).0) (set_present-faces slice rows vecs)

  abbrev Avoids : ℕ → List (FaceRow ℕ F) → Type 0
  Avoids k [] = Unit
  Avoids k (r ∷ rows) = (k ≢ r.vector) × Avoids k rows

  Unused-Avoids :
      (k : ℕ) (rows : List (FaceRow ℕ F)) (vecs : List (ℕ × B))
      → Linked rows vecs
      → Unused k vecs
      → Avoids k rows
  Unused-Avoids k [] vecs l u = tt
  Unused-Avoids k (x ∷ rows) [] l u = absurd l
  Unused-Avoids k (x ∷ rows) (v ∷ vecs) l u =
      ((λ e. u.0 (sym l.0 ∙ sym e)), Unused-Avoids k rows vecs l.3 u.1)

  join-skip :
      (k : ℕ) (blob : B) (rows : List (FaceRow ℕ F)) (vecs : List (ℕ × B))
      → Avoids k rows
      → join unpack rows ((k, blob) ∷ vecs) ≡ join unpack rows vecs
  join-skip k blob [] vecs a = refl
  join-skip k blob (x ∷ rows) vecs a = ground (arith, join-skip k blob rows vecs a.1)

  pub join-faces :
      (rows : List (FaceRow ℕ F)) (vecs : List (ℕ × B))
      → Linked rows vecs
      → join unpack rows vecs ≡ embeddings (faces_of rows vecs)
  join-faces [] vecs l = refl
  join-faces (x ∷ rows) [] l = absurd l
  join-faces (x ∷ rows) (v ∷ vecs) l = ground (
    arith,
    join-skip v.0 v.1 rows vecs,
    Unused-Avoids x.vector rows vecs l.3 l.1,
    join-faces rows vecs l.3,
  )
