-- ===== src/Settings.antt =====
-- app/config.py: the settings, what the diagnostics show of them, and what is printed when they are not
-- valid. `F` is the type of floats; `str_int` and `str_float` are Python's `str` of a number, and `upper`
-- is `str.upper`. pydantic reads the environment and validates it.
pub mod Reported
use lychee_facial_recognitio.Prelude.{
  ℕ, if◌then◌else◌, String, str_eq, ◌<>◌, Bool, List, [], ◌∷◌, ◌++◌,
}

pub record AppSettings (F : Type 0) : Type 0 where
  pub lychee_api_url : String
  pub api_key : String
  pub verify_ssl : Bool
  pub skip_lychee_check : Bool
  pub model_name : String
  pub detector_backend : String
  pub detection_threshold : F
  pub match_threshold : F
  pub rescan_iou_threshold : F
  pub max_faces_per_photo : ℕ
  pub thread_pool_size : ℕ
  pub workers : ℕ
  pub storage_backend : String
  pub storage_path : String
  pub pg_host : String
  pub pg_port : ℕ
  pub pg_database : String
  pub pg_user : String
  pub pg_password : String
  pub photos_path : String
  pub log_level : String
  pub cluster_eps : F
  pub auto_dispatch_dbscan : Bool
  pub queue_backend : String
  pub queue_max_size : ℕ
  pub redis_host : String
  pub redis_port : ℕ
  pub redis_password : String
  pub redis_db : ℕ
  pub min_face_size_pixels : ℕ
  pub blur_threshold : F
  pub model_root : String

abbrev str_bool : Bool → String
str_bool b = if b then "True" else "False"

module _ {F : Type 0} (str_int : ℕ → String) (str_float : F → String) where
  unfoldable pub to_diagnostics_payload : AppSettings F → List (String × String)
  to_diagnostics_payload self =
      ("auto_dispatch_dbscan", str_bool self.auto_dispatch_dbscan)
      ∷ ("blur_threshold", str_float self.blur_threshold)
      ∷ ("cluster_eps", str_float self.cluster_eps)
      ∷ ("detection_threshold", str_float self.detection_threshold)
      ∷ ("detector_backend", self.detector_backend)
      ∷ ("match_threshold", str_float self.match_threshold)
      ∷ ("max_faces_per_photo", str_int self.max_faces_per_photo)
      ∷ ("min_face_size_pixels", str_int self.min_face_size_pixels)
      ∷ ("model_name", self.model_name)
      ∷ ("rescan_iou_threshold", str_float self.rescan_iou_threshold)
      ∷ ("thread_pool_size", str_int self.thread_pool_size)
      ∷ ("verify_ssl", str_bool self.verify_ssl)
      ∷ ("workers", str_int self.workers)
      ∷ []

-- An entry of pydantic's `ValidationError.errors()`: the field, its kind and its message.
pub record FieldError : Type 0 where
  pub field : String
  pub kind : String
  pub msg : String

abbrev red : String
red = "\u{1b}[31m"

abbrev yellow : String
yellow = "\u{1b}[33m"

abbrev bold : String
bold = "\u{1b}[1m"

abbrev dim : String
dim = "\u{1b}[2m"

abbrev reset : String
reset = "\u{1b}[0m"

abbrev pub is_missing : FieldError → Bool
is_missing error = str_eq error.kind "missing"

abbrev pub missing_line : String → String
missing_line var = "  " <> bold <> var <> reset

abbrev pub invalid_line : String → String → String
invalid_line var msg = "  " <> bold <> var <> reset <> "  " <> dim <> "— " <> msg <> reset

abbrev pub banner : List String
banner =
    ""
    ∷ (bold <> red <> "✗  AI Vision Service failed to start — invalid configuration" <> reset)
    ∷ ""
    ∷ []

abbrev pub missing_heading : String
missing_heading = yellow <> "Required environment variables are not set:" <> reset

abbrev pub invalid_heading : String
invalid_heading = yellow <> "Environment variables have invalid values:" <> reset

abbrev pub examples : List String
examples =
    (dim <> "All settings use the VISION_FACE_ prefix.")
    ∷ ("Example:  VISION_FACE_LYCHEE_API_URL=http://lychee  VISION_FACE_API_KEY=secret" <> reset)
    ∷ ""
    ∷ []

-- A heading, the lines under it, and an empty line; nothing if there are no lines.
abbrev pub listing : String → List String → List String
listing heading [] = []
listing heading (line ∷ lines) = heading ∷ (line ∷ lines) ++ "" ∷ []

module _ (upper : String → String) where
  abbrev pub env_var : FieldError → String
  env_var error = "VISION_FACE_" <> upper error.field

  -- The lines for the variables in `missing`, and for those in `invalid`.
  abbrev pub missing_lines : List FieldError → List String
  missing_lines [] = []
  missing_lines (error ∷ errors) =
      let rest = missing_lines errors in
      if is_missing error then missing_line (env_var error) ∷ rest else rest

  abbrev pub invalid_lines : List FieldError → List String
  invalid_lines [] = []
  invalid_lines (error ∷ errors) =
      let rest = invalid_lines errors in
      if is_missing error then rest else invalid_line (env_var error) error.msg ∷ rest

  -- The lines that go to stderr.
  unfoldable pub pretty_config_error : List FieldError → List String
  pretty_config_error errors =
      banner
      ++ listing missing_heading (missing_lines errors)
      ++ listing invalid_heading (invalid_lines errors)
      ++ examples
