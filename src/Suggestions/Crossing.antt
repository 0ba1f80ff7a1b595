-- ===== src/Suggestions/Crossing.antt =====
-- Every suggestion is of a known face in another cluster.
use lychee_facial_recognitio.Prelude.{
  Option, none, some, if◌then◌else◌, ℕ, ◌+◌, ◌≡◌, refl, String, str_eq, eq_iff, Bool, true, false,
  not, ◌&&◌, ◌||◌, List, [], ◌∷◌, ◌++◌, arith, All, leb, Bool-cases, Option-cases, inl, inr,
}
use lychee_facial_recognitio.FaceStore.{elem}
use lychee_facial_recognitio.Suggestions.{
  ℤ, same_label, noise, get, ClusterSuggestion, count_of, is_other_cluster, suggest_from,
  suggest_for, suggest_all, generate_cross_cluster_suggestions,
}

-- A known cluster that is not noise and not the given one.
abbrev pub is_separate : ℤ → Option ℤ → Bool
is_separate label cluster = elim cluster [
  | none ↦ false
  | some other ↦ if same_label other noise then false else not (same_label other label)
]

module _ {S : Type 0} where
  -- Some of the entries gives the suggestion's face a cluster that is not noise and not that of the
  -- suggested face, which has one that is not noise.
  abbrev pub crosses : List (String × ℤ) → List (String × ℤ) → ClusterSuggestion S → Bool
  crosses results [] s = false
  crosses results ((face_id, label) ∷ entries) s =
      (str_eq face_id s.face_id
        && (not (same_label label noise) && is_separate label (get s.suggested_face_id results)))
      || crosses results entries s

  abbrev pub IsSound : List (String × ℤ) → List String → ClusterSuggestion S → Type 0
  IsSound results valid_face_ids s =
      (elem s.suggested_face_id valid_face_ids ≡ true) × (crosses results results s ≡ true)

-- The face is in the results with this label, which is not noise.
abbrev IsEntry : Type 0 → List (String × ℤ) → String → ℤ → Type 0
IsEntry S results face_id label =
    (s : ClusterSuggestion S)
    → s.face_id ≡ face_id
    → is_other_cluster label (get s.suggested_face_id results) ≡ true
    → crosses results results s ≡ true

module _ {S : Type 0} where
  module _ (results : List (String × ℤ)) (valid_face_ids : List String) where
    IsSound-snoc :
        (suggestions : List (ClusterSuggestion S)) (s : ClusterSuggestion S)
        → All (IsSound results valid_face_ids) suggestions
        → IsSound results valid_face_ids s
        → All (IsSound results valid_face_ids) (suggestions ++ s ∷ [])
    IsSound-snoc [] s h k = (k, tt)
    IsSound-snoc (x ∷ suggestions) s h k = (h.0, IsSound-snoc suggestions s h.1 k)

    suggest_from-IsSound :
        (max_per_face : ℕ) (face_id : String) (label : ℤ) (matches : List (String × S))
        (suggestions : List (ClusterSuggestion S))
        → IsEntry S results face_id label
        → All (IsSound results valid_face_ids) suggestions
        → All
            (IsSound results valid_face_ids)
            (suggest_from results valid_face_ids max_per_face face_id label matches suggestions)
    unfolding suggest_from
    suggest_from-IsSound max_per_face face_id label [] suggestions entry h = h
    suggest_from-IsSound max_per_face face_id label ((suggested, confidence) ∷ matches) suggestions
          entry h =
        let s : ClusterSuggestion S = record {
          face_id = face_id;
          suggested_face_id = suggested;
          confidence = confidence;
        } in
        let skipped = suggest_from-IsSound max_per_face face_id label matches suggestions entry h in
        elim (Bool-cases (elem suggested valid_face_ids)) [
          | inr unknown ↦ rw unknown skipped
          | inl known ↦ elim (Bool-cases (is_other_cluster label (get suggested results))) [
            | inr same ↦ rw (known, same) skipped
            | inl other ↦
                let added = IsSound-snoc suggestions s h (known, entry s refl other) in
                rw (known, other)
                  (elim (Bool-cases (leb max_per_face (count_of face_id (suggestions ++ s ∷ [])))) [
                    | inl enough ↦ rw enough added
                    | inr more ↦ rw more (
                        suggest_from-IsSound max_per_face face_id label matches
                          (suggestions ++ s ∷ []) entry added)
                  ])
          ]
        ]

    module _ {V : Type 0} (embeddings : List (String × V)) (similar : V → ℕ → List (String × S))
        (max_per_face : ℕ) where
      suggest_for-IsSound :
          (face_id : String) (label : ℤ) (suggestions : List (ClusterSuggestion S))
          → (same_label label noise ≡ false → IsEntry S results face_id label)
          → All (IsSound results valid_face_ids) suggestions
          → All (IsSound results valid_face_ids) (
              suggest_for results embeddings valid_face_ids similar max_per_face face_id label
                suggestions)
      suggest_for-IsSound face_id label suggestions entry h =
          elim (Bool-cases (same_label label noise)) [
            | inl skip ↦ rw skip h
            | inr go ↦ rw go (elim (Option-cases (get face_id embeddings)) [
              | inl absent ↦ rw absent h
              | inr (embedding, found) ↦ rw found (
                  suggest_from-IsSound max_per_face face_id label
                    (similar embedding (max_per_face + 10)) suggestions (entry go) h)
            ])
          ]

      suggest_all-IsSound :
          (entries : List (String × ℤ)) (suggestions : List (ClusterSuggestion S))
          → ((s : ClusterSuggestion S)
              → crosses results entries s ≡ true
              → crosses results results s ≡ true)
          → All (IsSound results valid_face_ids) suggestions
          → All (IsSound results valid_face_ids) (
              suggest_all results embeddings valid_face_ids similar max_per_face entries
                suggestions)
      suggest_all-IsSound [] suggestions within h = h
      suggest_all-IsSound ((face_id, label) ∷ entries) suggestions within h =
          suggest_all-IsSound entries _ (λ s e. within s (ground (arith, e)))
            (suggest_for-IsSound face_id label suggestions
              (λ go s e other. within s (ground (arith, eq_iff face_id s.face_id))) h)

      -- Every suggestion names a face that Lychee knows, for a face of the cluster results: the two are
      -- in different clusters there, and neither cluster is noise.
      pub generate-IsSound : All (IsSound results valid_face_ids) (
          generate_cross_cluster_suggestions results embeddings valid_face_ids similar max_per_face)
      unfolding generate_cross_cluster_suggestions
      generate-IsSound = suggest_all-IsSound results [] (λ s e. e) tt
