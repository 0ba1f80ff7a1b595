-- ===== src/Clusterer.antt =====
-- app/clustering/clusterer.py: `FaceClusterer.cluster`. A vector is a list of numbers, `norm` is
-- `numpy.linalg.norm` of a row, `float32` rounds a number to the type of the array, and `fit_predict` is
-- DBSCAN of scikit-learn. The embeddings have one length, as those of one model have.
use lychee_facial_recognitio.Prelude.{
  ◌≡◌, ◌⊎◌, String, Bool, true, false, Option, none, some, List, [], ◌∷◌, map, if◌then◌else◌,
}
use lychee_facial_recognitio.Suggestions.{ℤ}

-- What the code uses of numpy's numbers; `is_zero` is `== 0`.
pub record Numbers (F : Type 0) : Type 0 where
  pub float32 : F → F
  pub norm : List F → F
  pub is_zero : F → Bool
  pub one : F
  pub divide : F → F → F

-- `zip(ids, labels, strict=True)`: `none` where it raises
abbrev pub paired : Option (List (String × ℤ)) → String → ℤ → Option (List (String × ℤ))
paired none face_id label = none
paired (some pairs) face_id label = some ((face_id, label) ∷ pairs)

abbrev pub zip_strict : List String → List ℤ → Option (List (String × ℤ))
zip_strict [] [] = some []
zip_strict (face_id ∷ ids) (label ∷ labels) = paired (zip_strict ids labels) face_id label
zip_strict _ _ = none

module _ {V : Type 0} where
  abbrev pub ids_of : List (String × V) → List String
  ids_of [] = []
  ids_of ((face_id, _) ∷ faces) = face_id ∷ ids_of faces

module _ {F : Type 0} (numbers : Numbers F) where
  open numbers use {float32, norm, is_zero, one, divide}

  -- `np.array([emb for _, emb in face_embeddings], dtype=np.float32)`
  abbrev pub vectors_of : List (String × List F) → List (List F)
  vectors_of [] = []
  vectors_of ((_, vector) ∷ faces) = map float32 vector ∷ vectors_of faces

  -- `np.where(norms == 0, 1.0, norms)`
  abbrev pub divisor : List F → F
  divisor vector = if is_zero (norm vector) then one else norm vector

  -- `vectors / norms`
  abbrev pub normalised : List (List F) → List (List F)
  normalised [] = []
  normalised (vector ∷ vectors) = map (λ x. divide x (divisor vector)) vector ∷ normalised vectors

  module _ (fit_predict : List (List F) → List ℤ) where
    unfoldable pub cluster : List (String × List F) → Option (List (String × ℤ))
    cluster [] = some []
    cluster (face ∷ faces) =
        zip_strict (ids_of (face ∷ faces)) (fit_predict (normalised (vectors_of (face ∷ faces))))

-- The labels of some pairs.
abbrev pub labels_of : List (String × ℤ) → List ℤ
labels_of [] = []
labels_of ((_, label) ∷ pairs) = label ∷ labels_of pairs

-- What pairs ids with labels, in order; and not an error.
abbrev pub Pairs : List String → List ℤ → Option (List (String × ℤ)) → Type 0
Pairs ids labels none = ⊥
Pairs ids labels (some pairs) = (ids_of pairs ≡ ids) × (labels_of pairs ≡ labels)

-- Arithmetic as it would be without rounding: dividing by 1 changes nothing, and a vector that is divided
-- by its norm has the norm 1.
pub record IsExact {F : Type 0} (numbers : Numbers F) : Type 0 where
  pub divide-one : (x : F) → numbers.divide x numbers.one ≡ x
  pub norm-divide :
      (vector : List F)
      → numbers.is_zero (numbers.norm vector) ≡ false
      → numbers.norm (map (λ x. numbers.divide x (numbers.norm vector)) vector) ≡ numbers.one

module _ {F : Type 0} (numbers : Numbers F) where
  open numbers use {float32, norm, is_zero, one, divide}

  -- The vectors that DBSCAN gets: of each face its embedding scaled to the norm 1, or the embedding as it is
  -- if its norm is zero.
  abbrev pub AreUnits : List (String × List F) → List (List F) → Type 0
  AreUnits [] [] = Unit
  AreUnits ((_, embedding) ∷ faces) (vector ∷ vectors) =
      (((norm vector ≡ one) × (is_zero (norm (map float32 embedding)) ≡ false))
        ⊎ ((vector ≡ map float32 embedding) × (is_zero (norm vector) ≡ true)))
      × AreUnits faces vectors
  AreUnits _ _ = ⊥
