-- ===== src/Suggestions.antt =====
-- app/api/routes.py: `_generate_cross_cluster_suggestions`, which looks for similar faces in other
-- clusters. A cluster label is an integer, -1 for noise. `similar` is the store's `similarity_search` at
-- the threshold, as a function of the embedding and the limit; its scores lie in [0, 1], the range that
-- the field `confidence` accepts.
pub mod Bounded
pub mod Crossing
use lychee_facial_recognitio.Prelude.{
  ℕ, ◌+◌, ◌==◌, leb, if◌then◌else◌, String, str_eq, Bool, false, Option, none, some, List, [], ◌∷◌,
  ◌++◌, length, filter, not, ◌&&◌,
}
use lychee_facial_recognitio.FaceStore.{elem}
pub use lychee_facial_recognitio.Prelude.Int.{ℤ, pos, negsuc}

abbrev pub same_label : ℤ → ℤ → Bool
same_label (pos m) (pos n) = m == n
same_label (negsuc m) (negsuc n) = m == n
same_label _ _ = false

abbrev pub noise : ℤ
noise = negsuc 0

module _ {A : Type 0} where
  -- `{key: value for key, value in entries}.get(key)`: the last entry of a key counts.
  abbrev pub get : String → List (String × A) → Option A
  get key [] = none
  get key ((k, v) ∷ entries) = elim (get key entries) [
    | some later ↦ some later
    | none ↦ if str_eq k key then some v else none
  ]

abbrev pub ids : List (String × ℤ) → List String
ids [] = []
ids ((face_id, _) ∷ results) = face_id ∷ ids results

pub record ClusterSuggestion (S : Type 0) : Type 0 where
  pub face_id : String
  pub suggested_face_id : String
  pub confidence : S

-- The cluster of a suggested face is known, is another one, and is not noise.
abbrev pub is_other_cluster : ℤ → Option ℤ → Bool
is_other_cluster label none = false
is_other_cluster label (some suggested) =
    not (same_label suggested label) && not (same_label suggested noise)

module _ {S : Type 0} where
  -- `len([s for s in suggestions if s.face_id == face_id])`
  abbrev pub count_of : String → List (ClusterSuggestion S) → ℕ
  count_of face_id suggestions = length (filter (λ s. str_eq s.face_id face_id) suggestions)

  module _ (results : List (String × ℤ)) (valid_face_ids : List String) (max_per_face : ℕ)
      (face_id : String) (label : ℤ) where
    -- `for suggested_face_id, confidence in matches`, with the `break` at `max_per_face`
    unfoldable pub suggest_from :
        List (String × S) → List (ClusterSuggestion S) → List (ClusterSuggestion S)
    suggest_from [] suggestions = suggestions
    suggest_from ((suggested, confidence) ∷ matches) suggestions =
        let added =
          suggestions
          ++ record { face_id = face_id; suggested_face_id = suggested; confidence = confidence }
            ∷ [] in
        let skipped = suggest_from matches suggestions in
        let further = suggest_from matches added in
        if elem suggested valid_face_ids && is_other_cluster label (get suggested results)
        then (if leb max_per_face (count_of face_id added) then added else further)
        else skipped

  module _ {V : Type 0} (results : List (String × ℤ)) (embeddings : List (String × V))
      (valid_face_ids : List String) (similar : V → ℕ → List (String × S)) (max_per_face : ℕ) where
    -- The faces of one entry of the results.
    abbrev pub suggest_for : String → ℤ → List (ClusterSuggestion S) → List (ClusterSuggestion S)
    suggest_for face_id label suggestions =
        if same_label label noise then suggestions else (elim (get face_id embeddings) [
          | none ↦ suggestions
          | some embedding ↦
              suggest_from results valid_face_ids max_per_face face_id label
                (similar embedding (max_per_face + 10)) suggestions
        ])

    -- `for face_id, cluster_label in cluster_results`
    abbrev pub suggest_all :
        List (String × ℤ) → List (ClusterSuggestion S) → List (ClusterSuggestion S)
    suggest_all [] suggestions = suggestions
    suggest_all ((face_id, label) ∷ entries) suggestions =
        suggest_all entries (suggest_for face_id label suggestions)

    unfoldable pub generate_cross_cluster_suggestions : List (ClusterSuggestion S)
    generate_cross_cluster_suggestions = suggest_all results []
