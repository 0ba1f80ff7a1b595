-- ===== src/Routes.antt =====
-- app/api/routes.py and app/api/dependencies.py: the handlers of the HTTP endpoints. A handler takes the
-- key that the request carries and the state that it changes; an `HTTPException` is a value. The queue is
-- that of JobQueue, the operations that its backends are proved to implement. FastAPI runs
-- `require_api_key` before the body of a handler.
pub mod Confined
pub mod Guarded
pub mod Best
pub mod Embeddings
use Prim.Native.String.{slice, len}
use text.Mathlib.Text.{starts_with}
use lychee_facial_recognitio.Prelude.{
  ℕ, ◌-◌, if◌then◌else◌, String, str_eq, ◌<>◌, Bool, not, ◌&&◌, Option, none, some, List, [], ◌∷◌,
}
use lychee_facial_recognitio.JobQueue.{Queue, enqueue, size, purge, position}
use lychee_facial_recognitio.Settings.{AppSettings, to_diagnostics_payload}
use lychee_facial_recognitio.Detector.{
  DetectedFace, Detection, faces, runtime_error, value_error, backend_error,
}
use lychee_facial_recognitio.DetectionJob.{SuggestionResult, suggestion_results}

-- How a handler ends: with its result, with an `HTTPException` of some status, or with another exception,
-- which FastAPI answers with 500.
pub data Answer (A : Type 0) : Type 0 where
  ok : A → Answer A
  http_exception : ℕ → Answer A
  server_error : Answer A

abbrev pub require_api_key : {F : Type 0} → String → AppSettings F → Answer (Unit {0})
require_api_key x_api_key settings =
    if not (str_eq x_api_key settings.api_key) then http_exception 401 else ok tt

-- `_: None = Depends(require_api_key)`
abbrev pub authorised :
    {F S A : Type 0} → String → AppSettings F → (S → Answer A × S) → S → Answer A × S
authorised x_api_key settings handler s = elim (require_api_key x_api_key settings) [
  | ok _ ↦ handler s
  | http_exception status ↦ (http_exception status, s)
  | server_error ↦ (server_error, s)
]

-- `s.removesuffix(t)` and `s.removeprefix(t)`
abbrev pub removesuffix : String → String → String
removesuffix t s = let n = len s - len t in if str_eq (slice s n (len s)) t then slice s 0 n else s

abbrev pub removeprefix : String → String → String
removeprefix t s = if starts_with s t then slice s (len t) (len s) else s

-- pathlib and json: `resolve p` is `str(Path(p).resolve())`, `is_file` asks the disk, and `dumps` is
-- `json.dumps({"photo_path": …})`.
pub record Paths : Type 0 where
  pub resolve : String → String
  pub is_file : String → Bool
  pub dumps : String → String

-- `if not accepted: raise HTTPException(status_code=429)`
abbrev pub accepted_or_full : Bool × Queue → Answer (Unit {0}) × Queue
accepted_or_full (accepted, q) = (if accepted then ok tt else http_exception 429, q)

-- `if pos is None: raise HTTPException(status_code=404)`
abbrev pub found_or_404 : String → Option ℕ → Answer (String × ℕ)
found_or_404 photo_id none = http_exception 404
found_or_404 photo_id (some pos) = ok (photo_id, pos)

module _ {F : Type 0} (settings : AppSettings F) where
  -- The path of a photo, made absolute, with its `..` and its links followed.
  abbrev pub resolved_path : Paths → String → String
  resolved_path paths photo_path =
      paths.resolve (removesuffix "/" settings.photos_path <> "/" <> removeprefix "/" photo_path)

  -- `not str(resolved).startswith(str(photos_root) + "/") and resolved != photos_root`
  abbrev pub is_outside : Paths → String → Bool
  is_outside paths resolved =
      let photos_root = paths.resolve settings.photos_path in
      not (starts_with resolved (photos_root <> "/")) && not (str_eq resolved photos_root)

  -- POST /detect
  unfoldable pub detect : Paths → String → String → String → Queue → Answer (Unit {0}) × Queue
  detect paths x_api_key photo_id photo_path = authorised x_api_key settings λ q.
      let resolved = resolved_path paths photo_path in
      if is_outside paths resolved
      then (http_exception 400, q)
      else if not (paths.is_file resolved)
      then (http_exception 400, q)
      else accepted_or_full
          (enqueue settings.queue_max_size "detect" photo_id (paths.dumps resolved) q)

  -- POST /cluster
  unfoldable pub cluster : String → Queue → Answer (Unit {0}) × Queue
  cluster x_api_key =
      authorised x_api_key settings
        (λ q. accepted_or_full (enqueue settings.queue_max_size "cluster" "" "{}" q))

  -- GET /queue
  unfoldable pub queue_size : String → Queue → Answer ℕ × Queue
  queue_size x_api_key = authorised x_api_key settings (λ q. (ok (size q), q))

  -- DELETE /queue
  unfoldable pub queue_purge : String → Queue → Answer (Unit {0}) × Queue
  queue_purge x_api_key = authorised x_api_key settings (λ q. (ok tt, purge q))

  -- GET /queue/{photo_id}
  unfoldable pub queue_position : String → String → Queue → Answer (String × ℕ) × Queue
  queue_position x_api_key photo_id =
      authorised x_api_key settings (λ q. (found_or_404 photo_id (position photo_id q), q))

  -- GET /config
  unfoldable pub service_config :
      (ℕ → String) → (F → String) → String → Queue → Answer (List (String × String)) × Queue
  service_config str_int str_float x_api_key =
      authorised x_api_key settings
        (λ q. (ok (to_diagnostics_payload str_int str_float settings), q))

-- What `detect_bytes` returns; `none` where it raises.
abbrev pub faces_of : {F V : Type 0} → Detection F V → Option (List (DetectedFace F V))
faces_of (faces fs) = some fs
faces_of runtime_error = none
faces_of value_error = none
faces_of backend_error = none

-- `MatchResponse(…)`, whose scores are validated
abbrev pub match_response :
    {F : Type 0} → Option (List (SuggestionResult F)) → Answer (List (SuggestionResult F))
match_response none = server_error
match_response (some matches) = ok matches

-- A selfie is matched by the store's search.
module _ {F V : Type 0} (settings : AppSettings F) (in_unit : F → Bool)
    (similarity_search : V → F → ℕ → List (String × F)) where
  -- `raw_faces[0]`, or 422 without a face
  abbrev pub match_best : Option (List (DetectedFace F V)) → Answer (List (SuggestionResult F))
  match_best none = server_error
  match_best (some []) = http_exception 422
  match_best (some (best ∷ _)) =
      match_response
        (suggestion_results in_unit (similarity_search best.embedding settings.match_threshold 10))

  -- POST /match
  unfoldable pub match_selfie :
      {S : Type 0}
      → String
      → Option (List (DetectedFace F V))
      → S
      → Answer (List (SuggestionResult F)) × S
  match_selfie x_api_key raw_faces = authorised x_api_key settings (λ s. (match_best raw_faces, s))
