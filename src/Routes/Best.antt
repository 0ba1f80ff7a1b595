-- ===== src/Routes/Best.antt =====
-- What `POST /match` searches for.
use mathlib.Core.Bool.{Bool-set}
use mathlib.Core.Logic.{∥∥₁_elim}
use mathlib.Core.List.{Perm, Mem, Memᴰ}
use mathlib.Core.List.Memᴰ
use mathlib.Core.List.Perm
use lychee_facial_recognitio.Prelude.{
  ℕ, ◌≡◌, refl, sym, ap, subst, ◌∙◌, ◌⊎◌, String, eq_iff, Bool, true, false, Option, some, List, [],
  ◌∷◌, arith, map, filter, Bool-cases, inl, inr,
}
use lychee_facial_recognitio.Settings.{AppSettings}
use lychee_facial_recognitio.Detector.{
  Floats, RawFace, DetectedFace, FaceDetector, Image, detect, detected,
}
use lychee_facial_recognitio.Detector.Sorting.{IsOrder, IsTop, IsDescending}
use lychee_facial_recognitio.Detector.Filters.{passes, detect_lem}
use lychee_facial_recognitio.DetectionJob.{SuggestionResult, suggestion_results}
use lychee_facial_recognitio.Routes.{
  Answer, http_exception, faces_of, match_response, match_best, match_selfie,
}

module _ {F : Type 0} (fl : Floats F) where
  irreflexive : IsOrder fl → (a : F) → fl.lt a a ≡ false
  irreflexive order a = elim (Bool-cases (fl.lt a a)) [
    | inl below ↦ order.asymm a a below
    | inr not_below ↦ not_below
  ]

module _ {F V : Type 0} (fl : Floats F) where
  -- A face of some candidates, and none of them is more confident.
  abbrev pub IsBest : DetectedFace F V → List (DetectedFace F V) → Type 0
  IsBest best candidates =
      Mem best candidates
      × ((g : DetectedFace F V) → Mem g candidates → fl.lt best.confidence g.confidence ≡ false)

  IsTop-mem :
      (best : DetectedFace F V) (fs : List (DetectedFace F V))
      → IsTop fl best fs
      → (g : DetectedFace F V) → Memᴰ g fs
      → fl.lt best.confidence g.confidence ≡ false
  IsTop-mem best [] top g m = absurd (Memᴰ.not-nil m)
  IsTop-mem best (f ∷ fs) top g (Memᴰ.head same) =
      ap (λ v. fl.lt best.confidence v.confidence) same ∙ top.0
  IsTop-mem best (f ∷ fs) top g (Memᴰ.tail later) = IsTop-mem best fs top.1 g later

  first-IsBest :
      (best : DetectedFace F V) (fs candidates : List (DetectedFace F V))
      → IsOrder fl
      → Perm (best ∷ fs) candidates
      → IsDescending fl (best ∷ fs)
      → IsBest best candidates
  first-IsBest best fs candidates order p d = (
    Perm.subset p best ∣ Memᴰ.head refl ∣₁,
    λ g m.
        ∥∥₁_elim (Perm.subset (Perm.symm p) g m) (Bool-set _ _)
          (IsTop-mem best (best ∷ fs) (irreflexive fl order best.confidence, d.0) g),
  )

-- No face is a candidate and the answer is 422, or the answer is what the search gives for a best one.
abbrev pub Answers :
    {F V : Type 0}
    → Floats F
    → List (DetectedFace F V)
    → (V → Answer (List (SuggestionResult F)))
    → Answer (List (SuggestionResult F))
    → Type 0
Answers fl candidates search answer =
    ((candidates ≡ []) × (answer ≡ http_exception 422))
    ⊎ ((best : DetectedFace _ _) × IsBest fl best candidates × (answer ≡ search best.embedding))

module _ {F V : Type 0} (settings : AppSettings F) (in_unit : F → Bool)
    (similarity_search : V → F → ℕ → List (String × F)) where
  -- What the store finds for an embedding: at most the ten that it is asked for, at the threshold.
  abbrev pub search_for : V → Answer (List (SuggestionResult F))
  search_for embedding =
      match_response
        (suggestion_results in_unit (similarity_search embedding settings.match_threshold 10))

  match_best-Answers :
      (fl : Floats F) (fs candidates : List (DetectedFace F V))
      → IsOrder fl
      → Perm fs candidates
      → IsDescending fl fs
      → Answers fl candidates search_for (match_best settings in_unit similarity_search (some fs))
  match_best-Answers fl [] candidates order p d = inl (sym (Perm.nil-eq p), refl)
  match_best-Answers fl (best ∷ fs) candidates order p d =
      inr (best, first-IsBest fl best fs candidates order p d, refl)

  module _ (fl : Floats F) (represent : Image F → Option (List (RawFace F V)))
      (self : FaceDetector F) (img : Image F) (raw_faces : List (RawFace F V)) where
    -- For a selfie with the configured key, where the model is loaded and DeepFace finds some faces
    -- (confidences are no NaN, and 0.0 is below 1.0): if no face passes the filters of the detector then
    -- the answer is 422, else it is what the store finds for the embedding of a face that passes them,
    -- such that no face that passes them has a higher confidence.
    pub match_selfie-Answers :
        {S : Type 0} (x_api_key : String) (s : S)
        → x_api_key ≡ settings.api_key
        → IsOrder fl
        → fl.lt (fl.of_ℕ 0) (fl.of_ℕ 1) ≡ true
        → self.loaded ≡ true
        → represent img ≡ some raw_faces
        → Answers fl
            (map (detected fl img) (filter (passes fl self img) raw_faces))
            search_for
            (match_selfie settings in_unit similarity_search x_api_key
              (faces_of (detect fl represent self (some img)))
              s).0
    unfolding match_selfie
    match_selfie-Answers x_api_key s key order unit up found =
        let (fs, e, p, d, _) = detect_lem fl represent self img raw_faces order unit up found in
        let same = (eq_iff x_api_key settings.api_key).1 key in
        let step : (match_selfie settings in_unit similarity_search x_api_key
              (faces_of (detect fl represent self (some img))) s).0
            ≡ match_best settings in_unit similarity_search (some fs) =
          ground (arith, same, e) in
        subst
          (Answers fl (map (detected fl img) (filter (passes fl self img) raw_faces)) search_for)
          (sym step) (match_best-Answers fl fs _ order p d)
