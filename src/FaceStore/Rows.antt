-- ===== src/FaceStore/Rows.antt =====
-- The statements on rows of faces: what they keep, and how marking and purging work together.
use lychee_facial_recognitio.Prelude.{
  ℕ, ◌+◌, ◌≡◌, refl, sym, ◌∙◌, String, true, not, ◌||◌, List, [], ◌∷◌, ◌++◌, length, filter, arith,
}
use lychee_facial_recognitio.FaceStore.{
  FaceRow, elem, is_listed, flagged, with_flag, reset_present, set_present, mark_present,
}

elem-append : (x : String) (xs ys : List String) → elem x (xs ++ ys) ≡ (elem x xs || elem x ys)
elem-append x [] ys = refl
elem-append x (y ∷ xs) ys = ground (arith, elem-append x xs ys)

module _ {V F : Type 0} where
  -- Marking by two lists is marking by both at once.
  pub set_present-append :
      (xs ys : List String) (rows : List (FaceRow V F))
      → set_present ys (set_present xs rows) ≡ set_present (xs ++ ys) rows
  set_present-append xs ys [] = refl
  set_present-append xs ys (r ∷ rows) =
      ground (arith, set_present-append xs ys rows, elem-append r.face_id xs ys)

  pub set_present-nil : (rows : List (FaceRow V F)) → set_present [] rows ≡ rows
  set_present-nil [] = refl
  set_present-nil (r ∷ rows) = ground (arith, set_present-nil rows)

  abbrev pub flag_all : List (FaceRow V F) → List (FaceRow V F)
  flag_all [] = []
  flag_all (r ∷ rows) = with_flag true r ∷ flag_all rows

  -- After a reset and a marking the rows that stay are those that are listed.
  pub marked_survivors :
      (ids : List String) (rows : List (FaceRow V F))
      → filter (λ r. not (not (flagged r))) (set_present ids (reset_present rows))
        ≡ flag_all (filter (is_listed ids) rows)
  marked_survivors ids [] = refl
  marked_survivors ids (r ∷ rows) = ground (arith, marked_survivors ids rows)

  pub marked_victims :
      (ids : List String) (rows : List (FaceRow V F))
      → length (filter (λ r. not (flagged r)) (set_present ids (reset_present rows)))
        ≡ length (filter (λ r. not (is_listed ids r)) rows)
  marked_victims ids [] = refl
  marked_victims ids (r ∷ rows) = ground (arith, marked_victims ids rows)

abbrev pub concat : List (List String) → List String
concat [] = []
concat (xs ∷ xss) = xs ++ concat xss

module _ {V F : Type 0} where
  -- One UPDATE for each slice, the row counts added up.
  abbrev pub mark_chunks : List (List String) → ℕ → List (FaceRow V F) → ℕ × List (FaceRow V F)
  mark_chunks [] marked rows = (marked, rows)
  mark_chunks (chunk ∷ rest) marked rows =
      let (rowcount, rows') = mark_present chunk rows in mark_chunks rest (marked + rowcount) rows'

  pub mark_chunks-set_present :
      (chunks : List (List String)) (marked : ℕ) (rows : List (FaceRow V F))
      → (mark_chunks chunks marked rows).1 ≡ set_present (concat chunks) rows
  mark_chunks-set_present [] marked rows = sym (set_present-nil rows)
  mark_chunks-set_present (chunk ∷ rest) marked rows =
      mark_chunks-set_present rest (marked + length (filter (is_listed chunk) rows))
        (set_present chunk rows)
      ∙ set_present-append chunk (concat rest) rows
