-- ===== src/Detector/Filters.antt =====
-- What `_detect_array` returns: the faces that pass the filters, each once, the most confident first.
use lychee_facial_recognitio.Prelude.{
  ◌≡◌, ◌⊎◌, refl, sym, Bool, true, false, Option, some, List, [], ◌∷◌, ◌++◌, map, arith, All,
  filter, not, ◌&&◌, Bool-cases, inl, inr, append-nil, append_assoc, subst,
}
use mathlib.Core.List.{Perm}
use lychee_facial_recognitio.Detector.{
  Floats, RawFace, DetectedFace, FaceDetector, Image, faces, clamp, is_unsure, is_small, is_blurry,
  detected, judge, judge_all, sort_by_confidence, insert_by_confidence, detect,
}
use lychee_facial_recognitio.Detector.Sorting.{
  IsOrder, IsDescending, sort_by_confidence-perm, sort_by_confidence-IsDescending,
}

-- Between 0.0 and 1.0.
abbrev pub IsFraction : {F : Type 0} → Floats F → F → Type 0
IsFraction fl v =
    (v ≡ fl.of_ℕ 0)
    ⊎ (v ≡ fl.of_ℕ 1)
    ⊎ ((fl.lt (fl.of_ℕ 0) v ≡ true) × (fl.lt v (fl.of_ℕ 1) ≡ true))

pub clamp-IsFraction :
    {F : Type 0} (fl : Floats F) (v : F)
    → fl.lt (fl.of_ℕ 0) (fl.of_ℕ 1) ≡ true
    → IsFraction fl (clamp fl v)
clamp-IsFraction fl v h = elim (Bool-cases (fl.lt v (fl.of_ℕ 1))) [
  | inl below ↦ rw below (elim (Bool-cases (fl.lt (fl.of_ℕ 0) v)) [
    | inl above ↦ rw above (inr (inr (above, below)))
    | inr low ↦ rw low (inl refl)
  ])
  | inr high ↦ rw (high, h) (inr (inl refl))
]

module _ {F E : Type 0} (fl : Floats F) (self : FaceDetector F) (img : Image F) where
  -- The three filters together.
  abbrev pub passes : RawFace F E → Bool
  passes face =
      not (is_unsure fl self face)
      && (not (is_small fl self face) && not (is_blurry fl self img face))

  judge_all-eq-map-filter :
      (results : List (DetectedFace F E)) (raw_faces : List (RawFace F E))
      → judge_all fl self img results raw_faces
        ≡ results ++ map (detected fl img) (filter passes raw_faces)
  unfolding judge_all
  judge_all-eq-map-filter results [] = sym (append-nil results)
  judge_all-eq-map-filter results (face ∷ raw_faces) = ground (
    arith,
    judge_all-eq-map-filter (judge fl self img results face) raw_faces,
    append_assoc results (detected fl img face ∷ [])
        (map (detected fl img) (filter passes raw_faces)),
  )

  -- A face that the service may report: sure enough, with its box inside the image.
  abbrev pub IsReportable : DetectedFace F E → Type 0
  IsReportable f =
      (fl.lt f.confidence self.detection_threshold ≡ false)
      × IsFraction fl f.x
      × IsFraction fl f.y
      × IsFraction fl f.width
      × IsFraction fl f.height

  IsReportable-snoc :
      (results : List (DetectedFace F E)) (f : DetectedFace F E)
      → All IsReportable results
      → IsReportable f
      → All IsReportable (results ++ f ∷ [])
  IsReportable-snoc [] f all h = (h, tt)
  IsReportable-snoc (g ∷ results) f all h = (all.0, IsReportable-snoc results f all.1 h)

  module _ (unit : fl.lt (fl.of_ℕ 0) (fl.of_ℕ 1) ≡ true) where
    detected-IsReportable :
        (face : RawFace F E) → is_unsure fl self face ≡ false → IsReportable (detected fl img face)
    detected-IsReportable face sure = (
      sure,
      clamp-IsFraction fl _ unit,
      clamp-IsFraction fl _ unit,
      clamp-IsFraction fl _ unit,
      clamp-IsFraction fl _ unit,
    )

    judge-IsReportable :
        (results : List (DetectedFace F E)) (face : RawFace F E)
        → All IsReportable results
        → All IsReportable (judge fl self img results face)
    judge-IsReportable results face all = elim (Bool-cases (is_unsure fl self face)) [
      | inl unsure ↦ rw unsure all
      | inr sure ↦ rw sure (elim (Bool-cases (is_small fl self face)) [
        | inl small ↦ rw small all
        | inr large ↦ rw large (elim (Bool-cases (is_blurry fl self img face)) [
          | inl blurry ↦ rw blurry all
          | inr sharp ↦ rw sharp (
              IsReportable-snoc results (detected fl img face) all
                (detected-IsReportable face sure))
        ])
      ])
    ]

    judge_all-IsReportable :
        (results : List (DetectedFace F E)) (raw_faces : List (RawFace F E))
        → All IsReportable results
        → All IsReportable (judge_all fl self img results raw_faces)
    unfolding judge_all
    judge_all-IsReportable results [] all = all
    judge_all-IsReportable results (face ∷ raw_faces) all =
        judge_all-IsReportable (judge fl self img results face) raw_faces
          (judge-IsReportable results face all)

    insert-IsReportable :
        (f : DetectedFace F E) (fs : List (DetectedFace F E))
        → IsReportable f
        → All IsReportable fs
        → All IsReportable (insert_by_confidence fl f fs)
    insert-IsReportable f [] h all = (h, tt)
    insert-IsReportable f (g ∷ gs) h all = elim (Bool-cases (fl.lt f.confidence g.confidence)) [
      | inl lower ↦ rw lower (all.0, insert-IsReportable f gs h all.1)
      | inr first ↦ rw first (h, all)
    ]

    sort-IsReportable :
        (fs : List (DetectedFace F E))
        → All IsReportable fs
        → All IsReportable (sort_by_confidence fl fs)
    unfolding sort_by_confidence
    sort-IsReportable [] all = tt
    sort-IsReportable (f ∷ fs) all =
        insert-IsReportable f (sort_by_confidence fl fs) all.0 (sort-IsReportable fs all.1)

module _ {F E : Type 0} (fl : Floats F) (represent : Image F → Option (List (RawFace F E)))
    (self : FaceDetector F) (img : Image F) (raw_faces : List (RawFace F E)) where
  -- If the model is loaded and DeepFace finds these faces, detection returns those that pass the filters,
  -- each of them once, by descending confidence (confidences are no NaN); every one is at least as
  -- confident as the threshold, and its box lies between 0.0 and 1.0, whatever DeepFace computed.
  pub detect_lem :
      IsOrder fl
      → fl.lt (fl.of_ℕ 0) (fl.of_ℕ 1) ≡ true
      → self.loaded ≡ true
      → represent img ≡ some raw_faces
      → (fs : List (DetectedFace F E)) × (detect fl represent self (some img) ≡ faces fs)
        × Perm fs (map (detected fl img) (filter (passes fl self img) raw_faces))
        × IsDescending fl fs
        × All (IsReportable fl self img) fs
  unfolding detect
  detect_lem order unit up found =
      let results = judge_all fl self img [] raw_faces in
      (
        sort_by_confidence fl results,
        ground (arith, up, found),
        subst (λ l. Perm (sort_by_confidence fl results) l)
            (judge_all-eq-map-filter fl self img [] raw_faces) (sort_by_confidence-perm fl results),
        sort_by_confidence-IsDescending fl order results,
        sort-IsReportable fl self img unit results
            (judge_all-IsReportable fl self img unit [] raw_faces tt),
      )
