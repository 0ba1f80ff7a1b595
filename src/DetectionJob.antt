-- ===== src/DetectionJob.antt =====
-- app/api/routes.py: `_run_detection_job` and `_send_error_callback`, with the payloads of
-- app/api/schemas.py. The detector, the cropper, the store, the disk and Lychee's endpoint are services
-- that change a world `W` and may raise or be cancelled. `F` is the type of floats and `V` that of
-- embeddings; `in_unit` is the range that the fields with `ge=0.0, le=1.0` accept.
pub mod World
pub mod Safety
pub mod Persistence
pub mod Outcome
pub mod Again
use lychee_facial_recognitio.Prelude.{
  ℕ, ltb, if◌then◌else◌, String, Bool, true, false, ◌&&◌, Option, none, some, List, [], ◌∷◌, take,
  ◌<>◌,
}
use lychee_facial_recognitio.Async.{Step, pure, ◌>>=◌, ◌>>◌, fail, try_except}
use lychee_facial_recognitio.Detector.{DetectedFace}
use lychee_facial_recognitio.Suggestions.{get}

pub record SuggestionResult (F : Type 0) : Type 0 where
  pub lychee_face_id : String
  pub confidence : F

pub record FaceResult (F : Type 0) : Type 0 where
  pub x : F
  pub y : F
  pub width : F
  pub height : F
  pub confidence : F
  pub embedding_id : String
  pub crop : String
  pub laplacian_variance : F
  pub suggestions : List (SuggestionResult F)

pub record FaceMapping : Type 0 where
  pub embedding_id : String
  pub lychee_face_id : String

-- What is posted to `/api/v2/FaceDetection/results`
pub data CallbackPayload (F : Type 0) : Type 0 where
  detected : String → List (FaceResult F) → CallbackPayload F
  failed : String → String → String → CallbackPayload F

-- An answer of Lychee: if `raise_for_status` lets it pass, and the mappings, if the body validates.
pub record Response : Type 0 where
  pub is_success : Bool
  pub faces : Option (List FaceMapping)

-- What the job calls. `save_crop` decodes a crop and writes it to `data/faces`.
pub record Services (W V F : Type 0) : Type 0 where
  pub count_by_photo_id : String → Step W ℕ
  pub detect : String → Step W (List (DetectedFace F V))
  pub uuid4 : Step W String
  pub generate_crop : String → F → F → F → F → Step W String
  pub similarity_search : V → ℕ → Step W (List (String × F))
  pub post : CallbackPayload F → Step W Response
  pub make_crop_dir : Step W (Unit {0})
  pub save_crop : String → String → Step W (Unit {0})
  pub add : String → V → String → F → String → Step W (Unit {0})

-- A face with its transient id, its embedding, and what is sent of it.
abbrev pub FaceData : Type 0 → Type 0 → Type 0
FaceData V F = String × (V × FaceResult F)

module _ {F : Type 0} (in_unit : F → Bool) where
  -- `[SuggestionResult(…) for fid, conf in suggestions]`; `none` where a field is refused
  abbrev pub suggestion_results : List (String × F) → Option (List (SuggestionResult F))
  suggestion_results [] = some []
  suggestion_results ((face_id, confidence) ∷ rest) = elim (suggestion_results rest) [
    | none ↦ none
    | some results ↦
        if in_unit confidence
        then some (record { lychee_face_id = face_id; confidence = confidence } ∷ results)
        else none
  ]

  -- `FaceResult(…)`
  abbrev pub face_result :
      {V : Type 0}
      → DetectedFace F V
      → String
      → String
      → List (SuggestionResult F)
      → Option (FaceResult F)
  face_result f embedding_id crop suggestions =
      if in_unit f.x
        && (in_unit f.y && (in_unit f.width && (in_unit f.height && in_unit f.confidence)))
      then some (record {
        x = f.x;
        y = f.y;
        width = f.width;
        height = f.height;
        confidence = f.confidence;
        embedding_id = embedding_id;
        crop = crop;
        laplacian_variance = f.laplacian_variance;
        suggestions = suggestions;
      })
      else none

module _ {F V : Type 0} where
  abbrev pub results_of : List (FaceData V F) → List (FaceResult F)
  results_of [] = []
  results_of ((_, (_, result)) ∷ face_data) = result ∷ results_of face_data

module _ {W : Type 0} where
  abbrev pub or_raise : {A : Type 0} → Option A → Step W A
  or_raise none = fail
  or_raise (some a) = pure a

  abbrev pub raise_for_status : Response → Step W (Unit {0})
  raise_for_status response w = if response.is_success then pure tt w else fail w

module _ {W V F : Type 0} (services : Services W V F) where
  open services use {
    count_by_photo_id, detect, uuid4, generate_crop, similarity_search, post, make_crop_dir,
    save_crop, add,
  }

  -- `_send_error_callback`
  unfoldable pub send_error_callback : String → String → String → Step W (Unit {0})
  send_error_callback photo_id error_code message =
      try_except (do post (failed photo_id error_code message); pure tt) (pure tt)

  -- The photo has faces already: an empty success.
  unfoldable pub report_nothing : String → Step W (Unit {0})
  report_nothing photo_id = do response ← post (detected photo_id []); raise_for_status response

  -- One round of `for raw_face in raw_faces`
  unfoldable pub prepare : (F → Bool) → String → DetectedFace F V → Step W (FaceData V F)
  prepare in_unit image_path f = do
    emp_id ← uuid4
    crop ← generate_crop image_path f.x f.y f.width f.height
    similar ← similarity_search f.embedding 10
    suggestions ← or_raise (suggestion_results in_unit similar)
    result ← or_raise (face_result in_unit f emp_id crop suggestions)
    pure (emp_id, (f.embedding, result))

  unfoldable pub prepare_all :
      (F → Bool) → String → List (DetectedFace F V) → Step W (List (FaceData V F))
  prepare_all in_unit image_path [] = pure []
  prepare_all in_unit image_path (f ∷ fs) = do
    face ← prepare in_unit image_path f
    face_data ← prepare_all in_unit image_path fs
    pure (face ∷ face_data)

  -- The crop goes to the disk, then the embedding to the store.
  abbrev pub persist_found : String → String → Option (V × FaceResult F) → Step W (Unit {0})
  persist_found photo_id lychee_face_id none = pure tt
  persist_found photo_id lychee_face_id (some (vec, result)) = do
    save_crop (lychee_face_id <> ".jpg") result.crop
    add lychee_face_id vec photo_id result.laplacian_variance ("faces/" <> lychee_face_id <> ".jpg")

  -- `for mapping in callback_resp.faces`
  unfoldable pub persist_all : String → List (FaceData V F) → List FaceMapping → Step W (Unit {0})
  persist_all photo_id face_data [] = pure tt
  persist_all photo_id face_data (mapping ∷ mappings) = do
    persist_found photo_id mapping.lychee_face_id (get mapping.embedding_id face_data)
    persist_all photo_id face_data mappings

  -- What follows an answer of Lychee.
  abbrev pub after_answer : String → List (FaceData V F) → Response → Step W (Unit {0})
  after_answer photo_id face_data response = do
    raise_for_status response
    mappings ← or_raise response.faces
    make_crop_dir
    persist_all photo_id face_data mappings

  -- The callback with the faces.
  unfoldable pub report : String → List (FaceData V F) → Step W (Unit {0})
  report photo_id face_data = do
    response ← post (detected photo_id (results_of face_data))
    after_answer photo_id face_data response

  -- The job for a photo without faces.
  unfoldable pub detect_and_report : (F → Bool) → ℕ → String → String → Step W (Unit {0})
  detect_and_report in_unit max_faces_per_photo photo_id image_path = do
    raw_faces ← detect image_path
    face_data ← prepare_all in_unit image_path (take max_faces_per_photo raw_faces)
    report photo_id face_data

  abbrev pub attempt_job : (F → Bool) → ℕ → String → String → ℕ → Step W (Unit {0})
  attempt_job in_unit max_faces_per_photo photo_id image_path existing_count =
      elim (ltb 0 existing_count) [
        | true ↦ report_nothing photo_id
        | false ↦ detect_and_report in_unit max_faces_per_photo photo_id image_path
      ]

  unfoldable pub run_detection_job : (F → Bool) → ℕ → String → String → Step W (Unit {0})
  run_detection_job in_unit max_faces_per_photo photo_id image_path =
      try_except
        (do
          existing_count ← count_by_photo_id photo_id
          attempt_job in_unit max_faces_per_photo photo_id image_path existing_count)
        (send_error_callback photo_id "internal_error" "Detection pipeline failed")
