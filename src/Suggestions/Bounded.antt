-- ===== src/Suggestions/Bounded.antt =====
-- No face gets more suggestions than `max_per_face`.
use lychee_facial_recognitio.Prelude.{
  ℕ, ◌+◌, ◌≤◌, ◌<◌, ◌≡◌, refl, String, str_eq, eq_iff, false, List, [], ◌∷◌, ◌++◌, arith, All,
  if◌then◌else◌, Bool-cases, Option-cases, ◌∙◌, subst, inl, inr,
}
use lychee_facial_recognitio.Suggestions.{
  ℤ, same_label, noise, get, ClusterSuggestion, count_of, suggest_from, suggest_for, suggest_all,
  generate_cross_cluster_suggestions,
}

-- No face stands twice.
abbrev pub AreDistinct : List (String × ℤ) → Type 0
AreDistinct [] = Unit
AreDistinct (entry ∷ entries) =
    All (λ (other : String × ℤ). str_eq entry.0 other.0 ≡ false) entries × AreDistinct entries

module _ {S : Type 0} where
  count_of-snoc :
      (face_id : String) (suggestions : List (ClusterSuggestion S)) (s : ClusterSuggestion S)
      → count_of face_id (suggestions ++ s ∷ [])
        ≡ count_of face_id suggestions + (if str_eq s.face_id face_id then 1 else 0)
  count_of-snoc face_id [] s = ground arith
  count_of-snoc face_id (x ∷ suggestions) s = ground (arith, count_of-snoc face_id suggestions s)

  module _ (results : List (String × ℤ)) (valid_face_ids : List String) (max_per_face : ℕ)
      (face_id : String) (label : ℤ) where
    suggest_from-bounded :
        (matches : List (String × S)) (suggestions : List (ClusterSuggestion S))
        → count_of face_id suggestions < max_per_face
        → count_of face_id
            (suggest_from results valid_face_ids max_per_face face_id label matches suggestions)
          ≤ max_per_face
    unfolding suggest_from
    suggest_from-bounded [] suggestions h = omega arith
    suggest_from-bounded ((suggested, confidence) ∷ matches) suggestions h =
        let s : ClusterSuggestion S = record {
          face_id = face_id;
          suggested_face_id = suggested;
          confidence = confidence;
        } in
        ground (
          arith,
          count_of-snoc face_id suggestions s,
          suggest_from-bounded matches suggestions h,
          suggest_from-bounded matches (suggestions ++ s ∷ []),
        )

    suggest_from-others :
        (other : String) (matches : List (String × S)) (suggestions : List (ClusterSuggestion S))
        → str_eq face_id other ≡ false
        → count_of other
            (suggest_from results valid_face_ids max_per_face face_id label matches suggestions)
          ≡ count_of other suggestions
    unfolding suggest_from
    suggest_from-others other [] suggestions h = refl
    suggest_from-others other ((suggested, confidence) ∷ matches) suggestions h =
        let s : ClusterSuggestion S = record {
          face_id = face_id;
          suggested_face_id = suggested;
          confidence = confidence;
        } in
        ground (
          arith,
          count_of-snoc other suggestions s,
          suggest_from-others other matches suggestions h,
          suggest_from-others other matches (suggestions ++ s ∷ []) h,
        )

  module _ {V : Type 0} (results : List (String × ℤ)) (embeddings : List (String × V))
      (valid_face_ids : List String) (similar : V → ℕ → List (String × S)) (max_per_face : ℕ) where
    suggest_for-bounded :
        (face_id : String) (label : ℤ) (suggestions : List (ClusterSuggestion S))
        → count_of face_id suggestions < max_per_face
        → count_of face_id (
            suggest_for results embeddings valid_face_ids similar max_per_face face_id label
              suggestions)
          ≤ max_per_face
    suggest_for-bounded face_id label suggestions h = elim (Bool-cases (same_label label noise)) [
      | inl skip ↦ rw skip (omega arith)
      | inr go ↦ rw go (elim (Option-cases (get face_id embeddings)) [
        | inl absent ↦ rw absent (omega arith)
        | inr (embedding, found) ↦ rw found (
            suggest_from-bounded results valid_face_ids max_per_face face_id label
              (similar embedding (max_per_face + 10)) suggestions h)
      ])
    ]

    suggest_for-others :
        (face_id other : String) (label : ℤ) (suggestions : List (ClusterSuggestion S))
        → str_eq face_id other ≡ false
        → count_of other (
            suggest_for results embeddings valid_face_ids similar max_per_face face_id label
              suggestions)
          ≡ count_of other suggestions
    suggest_for-others face_id other label suggestions h =
        elim (Bool-cases (same_label label noise)) [
          | inl skip ↦ rw skip refl
          | inr go ↦ rw go (elim (Option-cases (get face_id embeddings)) [
            | inl absent ↦ rw absent refl
            | inr (embedding, found) ↦ rw found (
                suggest_from-others results valid_face_ids max_per_face face_id label other
                  (similar embedding (max_per_face + 10)) suggestions h)
          ])
        ]

    abbrev HaveNone : List (String × ℤ) → List (ClusterSuggestion S) → Type 0
    HaveNone entries suggestions =
        All (λ (entry : String × ℤ). count_of entry.0 suggestions ≡ 0) entries

    suggest_for-HaveNone :
        (face_id : String) (label : ℤ) (entries : List (String × ℤ))
        (suggestions : List (ClusterSuggestion S))
        → All (λ (other : String × ℤ). str_eq face_id other.0 ≡ false) entries
        → HaveNone entries suggestions
        → HaveNone entries (
            suggest_for results embeddings valid_face_ids similar max_per_face face_id label
              suggestions)
    suggest_for-HaveNone face_id label [] suggestions others h = tt
    suggest_for-HaveNone face_id label (entry ∷ entries) suggestions others h = (
      suggest_for-others face_id entry.0 label suggestions others.0 ∙ h.0,
      suggest_for-HaveNone face_id label entries suggestions others.1 h.1,
    )

    suggest_all-bounded :
        (face_id : String) (entries : List (String × ℤ)) (suggestions : List (ClusterSuggestion S))
        → 0 < max_per_face
        → AreDistinct entries
        → HaveNone entries suggestions
        → count_of face_id suggestions ≤ max_per_face
        → count_of face_id
            (suggest_all results embeddings valid_face_ids similar max_per_face entries suggestions)
          ≤ max_per_face
    suggest_all-bounded face_id [] suggestions some_room distinct fresh h = h
    suggest_all-bounded face_id ((own, label) ∷ entries) suggestions some_room distinct fresh h =
        let after =
          suggest_for results embeddings valid_face_ids similar max_per_face own label
            suggestions in
        suggest_all-bounded face_id entries after some_room distinct.1
          (suggest_for-HaveNone own label entries suggestions distinct.0 fresh.1)
          (elim (Bool-cases (str_eq own face_id)) [
            | inl same ↦
                subst (λ f. count_of f after ≤ max_per_face) ((eq_iff own face_id).0 same)
                  (suggest_for-bounded own label suggestions (omega (arith, fresh.0)))
            | inr other ↦ omega (arith, suggest_for-others own face_id label suggestions other)
          ])

    none_yet : (entries : List (String × ℤ)) → HaveNone entries []
    none_yet [] = tt
    none_yet (entry ∷ entries) = (refl, none_yet entries)

    -- If no face stands twice in the cluster results and `max_per_face` is above 0, no face gets more
    -- suggestions than `max_per_face`, however many similar faces the store returns.
    pub generate-bounded :
        (face_id : String)
        → 0 < max_per_face
        → AreDistinct results
        → count_of face_id (
            generate_cross_cluster_suggestions results embeddings valid_face_ids similar
              max_per_face)
          ≤ max_per_face
    unfolding generate_cross_cluster_suggestions
    generate-bounded face_id some_room distinct =
        suggest_all-bounded face_id results [] some_room distinct (none_yet results) (omega arith)
