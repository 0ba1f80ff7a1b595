-- ===== src/Matcher.antt =====
-- app/matching/matcher.py: `FaceMatcher`, which no route uses; `POST /match` does the same by itself. The
-- detector's answer to the image is an argument (`none` where it raises), and so is the search of the store.
use lychee_facial_recognitio.Prelude.{
  ℕ, ◌≡◌, refl, String, eq_iff, Bool, Option, none, some, List, [], ◌∷◌, arith,
}
use lychee_facial_recognitio.Settings.{AppSettings}
use lychee_facial_recognitio.Detector.{DetectedFace}
use lychee_facial_recognitio.DetectionJob.{SuggestionResult, suggestion_results}
use lychee_facial_recognitio.Routes.{
  Answer, ok, http_exception, server_error, match_best, match_selfie, match_response,
}

-- How `match` ends: with the matches, with the ValueError of a selfie without a face, or with another
-- exception.
pub data Matching (F : Type 0) : Type 0 where
  matches : List (SuggestionResult F) → Matching F
  value_error other_error : Matching F

-- The part of `FaceMatcher` that `match` reads; its search is bound to its store.
pub record FaceMatcher (F V : Type 0) : Type 0 where
  pub similarity_search : V → F → ℕ → List (String × F)
  pub threshold : F

-- `MatchResponse(matches=[MatchResult(…) for face_id, conf in matches])`
abbrev pub validated : {F : Type 0} → Option (List (SuggestionResult F)) → Matching F
validated none = other_error
validated (some results) = matches results

module _ {F V : Type 0} (in_unit : F → Bool) where
  unfoldable pub match : FaceMatcher F V → Option (List (DetectedFace F V)) → ℕ → Matching F
  match self none limit = other_error
  match self (some []) limit = value_error
  match self (some (best ∷ _)) limit =
      validated
        (suggestion_results in_unit (self.similarity_search best.embedding self.threshold limit))

-- The answer that an endpoint on top of `FaceMatcher` gives: 422 for a selfie without a face.
abbrev pub answer_of : {F : Type 0} → Matching F → Answer (List (SuggestionResult F))
answer_of (matches results) = ok results
answer_of value_error = http_exception 422
answer_of other_error = server_error

responded :
    {F : Type 0} (results : Option (List (SuggestionResult F)))
    → match_response results ≡ answer_of (validated results)
responded none = refl
responded (some results) = refl

module _ {F V : Type 0} (settings : AppSettings F) (in_unit : F → Bool)
    (similarity_search : V → F → ℕ → List (String × F)) where
  -- The matcher of the service's settings.
  abbrev pub matcher : FaceMatcher F V
  matcher = record { similarity_search = similarity_search; threshold = settings.match_threshold }

  matched :
      (raw_faces : Option (List (DetectedFace F V)))
      → match_best settings in_unit similarity_search raw_faces
        ≡ answer_of (match in_unit matcher raw_faces 10)
  unfolding match
  matched none = refl
  matched (some []) = refl
  matched (some (best ∷ faces)) = responded _

  -- With the configured key, `POST /match` answers what `FaceMatcher` finds with the settings' threshold and
  -- a limit of ten: its matches, 422 for its ValueError, and 500 for any other exception.
  pub match_selfie-match :
      {S : Type 0} (x_api_key : String) (raw_faces : Option (List (DetectedFace F V))) (s : S)
      → x_api_key ≡ settings.api_key
      → match_selfie settings in_unit similarity_search x_api_key raw_faces s
        ≡ (answer_of (match in_unit matcher raw_faces 10), s)
  unfolding match_selfie
  match_selfie-match x_api_key raw_faces s key =
      ground (arith, (eq_iff x_api_key settings.api_key).1 key, matched raw_faces)
