-- ===== src/Detector/Sorting.antt =====
-- `sort_by_confidence` orders the faces by descending confidence and loses none.
use lychee_facial_recognitio.Prelude.{
  ℕ, zero, suc, ◌≡◌, true, false, List, [], ◌∷◌, arith, All, take, drop, Bool-cases, inl, inr,
}
use mathlib.Core.List.{Perm}
use mathlib.Core.List.Perm
use lychee_facial_recognitio.Detector.{
  Floats, DetectedFace, insert_by_confidence, sort_by_confidence,
}

-- The comparison of confidences that are no NaN.
pub record IsOrder {F : Type 0} (fl : Floats F) : Type 0 where
  pub asymm : (a b : F) → fl.lt a b ≡ true → fl.lt b a ≡ false
  pub trans : (a b c : F) → fl.lt a b ≡ false → fl.lt b c ≡ false → fl.lt a c ≡ false

module _ {F E : Type 0} (fl : Floats F) where
  -- No face of the list has a higher confidence.
  abbrev pub IsTop : DetectedFace F E → List (DetectedFace F E) → Type 0
  IsTop f = All (λ (g : DetectedFace F E). fl.lt f.confidence g.confidence ≡ false)

  abbrev pub IsDescending : List (DetectedFace F E) → Type 0
  IsDescending [] = Unit
  IsDescending (f ∷ fs) = IsTop f fs × IsDescending fs

  pub insert_by_confidence-perm :
      (f : DetectedFace F E) (fs : List (DetectedFace F E))
      → Perm (insert_by_confidence fl f fs) (f ∷ fs)
  insert_by_confidence-perm f [] = Perm.rfl
  insert_by_confidence-perm f (g ∷ gs) = elim (Bool-cases (fl.lt f.confidence g.confidence)) [
    | inl lower ↦
        rw lower (Perm.trans (Perm.cons g (insert_by_confidence-perm f gs)) (Perm.swap f g gs))
    | inr first ↦ rw first Perm.rfl
  ]

  pub sort_by_confidence-perm : (fs : List (DetectedFace F E)) → Perm (sort_by_confidence fl fs) fs
  unfolding sort_by_confidence
  sort_by_confidence-perm [] = Perm.rfl
  sort_by_confidence-perm (f ∷ fs) =
      Perm.trans (insert_by_confidence-perm f (sort_by_confidence fl fs))
        (Perm.cons f (sort_by_confidence-perm fs))

  module _ (order : IsOrder fl) where
    IsTop-weaken :
        (f g : DetectedFace F E) (fs : List (DetectedFace F E))
        → fl.lt f.confidence g.confidence ≡ false
        → IsTop g fs
        → IsTop f fs
    IsTop-weaken f g [] h top = tt
    IsTop-weaken f g (x ∷ fs) h top =
        (order.trans f.confidence g.confidence x.confidence h top.0, IsTop-weaken f g fs h top.1)

    IsTop-insert :
        (f g : DetectedFace F E) (fs : List (DetectedFace F E))
        → fl.lt f.confidence g.confidence ≡ false
        → IsTop f fs
        → IsTop f (insert_by_confidence fl g fs)
    IsTop-insert f g [] h top = (h, tt)
    IsTop-insert f g (x ∷ fs) h top = ground (arith, IsTop-insert f g fs)

    insert_by_confidence-IsDescending :
        (f : DetectedFace F E) (fs : List (DetectedFace F E))
        → IsDescending fs
        → IsDescending (insert_by_confidence fl f fs)
    insert_by_confidence-IsDescending f [] d = (tt, tt)
    insert_by_confidence-IsDescending f (g ∷ gs) d =
        elim (Bool-cases (fl.lt f.confidence g.confidence)) [
          | inl lower ↦ rw lower (
            IsTop-insert g f gs (order.asymm f.confidence g.confidence lower) d.0,
            insert_by_confidence-IsDescending f gs d.1,
          )
          | inr first ↦ rw first ((first, IsTop-weaken f g gs first d.0), d)
        ]

    pub sort_by_confidence-IsDescending :
        (fs : List (DetectedFace F E)) → IsDescending (sort_by_confidence fl fs)
    unfolding sort_by_confidence
    sort_by_confidence-IsDescending [] = tt
    sort_by_confidence-IsDescending (f ∷ fs) =
        insert_by_confidence-IsDescending f (sort_by_confidence fl fs)
          (sort_by_confidence-IsDescending fs)

  -- In a descending list the first `n` faces are the best: none of the rest has a higher confidence.
  pub take-IsTop :
      (n : ℕ) (fs : List (DetectedFace F E))
      → IsDescending fs
      → All (λ (f : DetectedFace F E). IsTop f (drop n fs)) (take n fs)
  take-IsTop zero fs d = tt
  take-IsTop (suc n) [] d = tt
  take-IsTop (suc n) (f ∷ fs) d = (IsTop-drop n fs d.0, take-IsTop n fs d.1)
    where
      IsTop-drop : (n : ℕ) (fs : List (DetectedFace F E)) → IsTop f fs → IsTop f (drop n fs)
      IsTop-drop zero fs h = h
      IsTop-drop (suc n) [] h = h
      IsTop-drop (suc n) (g ∷ gs) h = IsTop-drop n gs h.1
