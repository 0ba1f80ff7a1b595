-- ===== src/FaceStore/Sqlite/Linked.antt =====
-- The two tables of the SQLite store stay in step: every row of `face_meta` has its own vector, no
-- vector is left without a row, and no face id stands twice.
use lychee_facial_recognitio.Prelude.{
  ℕ, ◌+◌, ◌≡◌, ◌≢◌, refl, String, eq_iff, Bool, false, not, List, [], ◌∷◌, ◌++◌, filter, arith,
  none, some, ◌==◌,
}
use lychee_facial_recognitio.FaceStore.{
  FaceRow, has_face, find_face, flagged, set_present, reset_present, mark_present,
}
use lychee_facial_recognitio.FaceStore.Rows.{mark_chunks}
use lychee_facial_recognitio.FaceStore.Sqlite.{absent_rowids, elem_ℕ}

module _ {B : Type 0} where
  abbrev pub Unused : ℕ → List (ℕ × B) → Type 0
  Unused k [] = Unit
  Unused k (v ∷ vecs) = (v.0 ≢ k) × Unused k vecs

  pub filter-Unused :
      (k : ℕ) (vecs : List (ℕ × B)) → Unused k vecs → filter (λ v. not (v.0 == k)) vecs ≡ vecs
  filter-Unused k [] u = refl
  filter-Unused k (v ∷ vecs) u = ground (arith, filter-Unused k vecs u.1)

  Unused-filter :
      (p : ℕ × B → Bool) (k : ℕ) (vecs : List (ℕ × B)) → Unused k vecs → Unused k (filter p vecs)
  Unused-filter p k [] u = tt
  Unused-filter p k (v ∷ vecs) u = ground (arith, Unused-filter p k vecs u.1)

  Unused-snoc :
      (k j : ℕ) (b : B) (vecs : List (ℕ × B))
      → j ≢ k
      → Unused k vecs
      → Unused k (vecs ++ (j, b) ∷ [])
  Unused-snoc k j b [] ne u = (ne, tt)
  Unused-snoc k j b (v ∷ vecs) ne u = (u.0, Unused-snoc k j b vecs ne u.1)

module _ {F : Type 0} where
  pub filter_missing :
      (face_id : String) (rows : List (FaceRow ℕ F))
      → find_face face_id rows ≡ none
      → filter (λ r. not (has_face face_id r)) rows ≡ rows
  filter_missing face_id [] e = refl
  filter_missing face_id (x ∷ rows) e = ground (arith, filter_missing face_id rows)

  find-filter :
      (p : FaceRow ℕ F → Bool) (face_id : String) (rows : List (FaceRow ℕ F))
      → find_face face_id rows ≡ none
      → find_face face_id (filter p rows) ≡ none
  find-filter p face_id [] e = refl
  find-filter p face_id (x ∷ rows) e = ground (arith, find-filter p face_id rows)

  find-set_present :
      (ids : List String) (face_id : String) (rows : List (FaceRow ℕ F))
      → find_face face_id rows ≡ none
      → find_face face_id (set_present ids rows) ≡ none
  find-set_present ids face_id [] e = refl
  find-set_present ids face_id (x ∷ rows) e = ground (arith, find-set_present ids face_id rows)

  find-reset_present :
      (face_id : String) (rows : List (FaceRow ℕ F))
      → find_face face_id rows ≡ none
      → find_face face_id (reset_present rows) ≡ none
  find-reset_present face_id [] e = refl
  find-reset_present face_id (x ∷ rows) e = ground (arith, find-reset_present face_id rows)

  find-snoc :
      (face_id : String) (rows : List (FaceRow ℕ F)) (r : FaceRow ℕ F)
      → r.face_id ≢ face_id
      → find_face face_id rows ≡ none
      → find_face face_id (rows ++ r ∷ []) ≡ none
  find-snoc face_id [] r ne e = ground (arith, eq_iff r.face_id face_id)
  find-snoc face_id (x ∷ rows) r ne e = ground (arith, find-snoc face_id rows r ne)

module _ {B F : Type 0} where
  abbrev pub Linked : List (FaceRow ℕ F) → List (ℕ × B) → Type 0
  Linked [] [] = Unit
  Linked (r ∷ rows) (v ∷ vecs) =
      (r.vector ≡ v.0) × Unused r.vector vecs × (find_face r.face_id rows ≡ none) × Linked rows vecs
  Linked _ _ = ⊥

  -- A row that is found refers to a vector that is there.
  pub found_used :
      (k : ℕ) (face_id : String) (rows : List (FaceRow ℕ F)) (vecs : List (ℕ × B)) (r : FaceRow ℕ F)
      → find_face face_id rows ≡ some r
      → Linked rows vecs
      → Unused k vecs
      → r.vector ≢ k
  found_used k face_id [] vecs r e l u = cc
  found_used k face_id (x ∷ rows) [] r e l u = absurd l
  found_used k face_id (x ∷ rows) (v ∷ vecs) r e l u =
      ground (arith, found_used k face_id rows vecs r)

  pub delete-Linked :
      (face_id : String) (rows : List (FaceRow ℕ F)) (vecs : List (ℕ × B)) (r : FaceRow ℕ F)
      → find_face face_id rows ≡ some r
      → Linked rows vecs
      → Linked
          (filter (λ x. not (has_face face_id x)) rows)
          (filter (λ v. not (v.0 == r.vector)) vecs)
        × (find_face face_id (filter (λ x. not (has_face face_id x)) rows) ≡ none)
  delete-Linked face_id [] vecs r e l = cc
  delete-Linked face_id (x ∷ rows) [] r e l = absurd l
  delete-Linked face_id (x ∷ rows) (v ∷ vecs) r e l = ground (
    arith,
    delete-Linked face_id rows vecs r,
    filter_missing face_id rows,
    filter-Unused r.vector vecs,
    found_used x.vector face_id rows vecs r,
    eq_iff x.face_id face_id,
    Unused-filter (λ v. not (v.0 == r.vector)) x.vector vecs,
    find-filter (λ x. not (has_face face_id x)) x.face_id rows,
  )

  pub set_present-Linked :
      (ids : List String) (rows : List (FaceRow ℕ F)) (vecs : List (ℕ × B))
      → Linked rows vecs
      → Linked (set_present ids rows) vecs
  set_present-Linked ids [] vecs l = l
  set_present-Linked ids (x ∷ rows) [] l = absurd l
  set_present-Linked ids (x ∷ rows) (v ∷ vecs) l =
      ground (arith, set_present-Linked ids rows vecs l.3, find-set_present ids x.face_id rows l.2)

  pub reset_present-Linked :
      (rows : List (FaceRow ℕ F)) (vecs : List (ℕ × B))
      → Linked rows vecs
      → Linked (reset_present rows) vecs
  reset_present-Linked [] vecs l = l
  reset_present-Linked (x ∷ rows) [] l = absurd l
  reset_present-Linked (x ∷ rows) (v ∷ vecs) l =
      ground (arith, reset_present-Linked rows vecs l.3, find-reset_present x.face_id rows l.2)

  pub mark_chunks-Linked :
      (slices : List (List String)) (marked : ℕ) (rows : List (FaceRow ℕ F)) (vecs : List (ℕ × B))
      → Linked rows vecs
      → Linked (mark_chunks slices marked rows).1 vecs
  mark_chunks-Linked [] marked rows vecs l = l
  mark_chunks-Linked (slice ∷ slices) marked rows vecs l =
      mark_chunks-Linked slices (marked + (mark_present slice rows).0) (set_present slice rows) vecs
        (set_present-Linked slice rows vecs l)

  -- A new face with a rowid of its own.
  pub snoc-Linked :
      (rows : List (FaceRow ℕ F)) (vecs : List (ℕ × B)) (r : FaceRow ℕ F) (blob : B)
      → Linked rows vecs
      → Unused r.vector vecs
      → find_face r.face_id rows ≡ none
      → Linked (rows ++ r ∷ []) (vecs ++ (r.vector, blob) ∷ [])
  snoc-Linked [] [] r blob l u e = (refl, tt, refl, tt)
  snoc-Linked [] (v ∷ vecs) r blob l u e = absurd l
  snoc-Linked (x ∷ rows) [] r blob l u e = absurd l
  snoc-Linked (x ∷ rows) (v ∷ vecs) r blob l u e = ground (
    arith,
    snoc-Linked rows vecs r blob l.3 u.1,
    Unused-snoc x.vector r.vector blob vecs,
    find-snoc x.face_id rows r,
    eq_iff x.face_id r.face_id,
  )

  -- A rowid that no vector has is no rowid of an absent face.
  pub Unused-absent :
      (k : ℕ) (rows : List (FaceRow ℕ F)) (vecs : List (ℕ × B))
      → Linked rows vecs
      → Unused k vecs
      → elem_ℕ k (absent_rowids rows) ≡ false
  Unused-absent k [] vecs l u = refl
  Unused-absent k (x ∷ rows) [] l u = absurd l
  Unused-absent k (x ∷ rows) (v ∷ vecs) l u = ground (arith, Unused-absent k rows vecs l.3 u.1)

module _ {B : Type 0} where
  pub skip-Unused :
      (k : ℕ) (ks : List ℕ) (vecs : List (ℕ × B))
      → Unused k vecs
      → filter (λ v. not (elem_ℕ v.0 (k ∷ ks))) vecs ≡ filter (λ v. not (elem_ℕ v.0 ks)) vecs
  skip-Unused k ks [] u = refl
  skip-Unused k ks (v ∷ vecs) u = ground (arith, skip-Unused k ks vecs u.1)

module _ {B F : Type 0} where
  pub purge-Linked :
      (rows : List (FaceRow ℕ F)) (vecs : List (ℕ × B))
      → Linked rows vecs
      → Linked
          (filter (λ r. not (not (flagged r))) rows)
          (filter (λ v. not (elem_ℕ v.0 (absent_rowids rows))) vecs)
  purge-Linked [] [] l = tt
  purge-Linked [] (v ∷ vecs) l = absurd l
  purge-Linked (x ∷ rows) [] l = absurd l
  purge-Linked (x ∷ rows) (v ∷ vecs) l = ground (
    arith,
    purge-Linked rows vecs l.3,
    skip-Unused x.vector (absent_rowids rows) vecs l.1,
    Unused-absent x.vector rows vecs l.3 l.1,
    Unused-filter (λ v. not (elem_ℕ v.0 (absent_rowids rows))) x.vector vecs l.1,
    find-filter (λ r. not (not (flagged r))) x.face_id rows l.2,
  )
