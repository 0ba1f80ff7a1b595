-- ===== src/Settings/Reported.antt =====
-- What the diagnostics hide, and what an invalid configuration reports.
use lychee_facial_recognitio.Prelude.{
  ℕ, ◌≡◌, ◌∙◌, sym, ap, if◌then◌else◌, refl, String, true, false, List, [], ◌∷◌, ◌++◌, Bool-cases,
  inl, inr,
}
use mathlib.Core.List.{Memᴰ}
use mathlib.Core.List.Memᴰ
use lychee_facial_recognitio.Settings.{
  AppSettings, to_diagnostics_payload, FieldError, env_var, is_missing, missing_line, invalid_line,
  missing_lines, invalid_lines, listing, pretty_config_error, banner, missing_heading,
  invalid_heading, examples,
}

-- Whatever the API key, the address of Lychee, and the places and the credentials of PostgreSQL and
-- Redis are, the diagnostics show the same.
pub to_diagnostics_payload-redacts :
    {F : Type 0} (str_int : ℕ → String) (str_float : F → String) (self : AppSettings F)
    (api_key lychee_api_url pg_host pg_database pg_user pg_password redis_host
      redis_password : String)
    → to_diagnostics_payload str_int str_float (record self {
      api_key = api_key;
      lychee_api_url = lychee_api_url;
      pg_host = pg_host;
      pg_database = pg_database;
      pg_user = pg_user;
      pg_password = pg_password;
      redis_host = redis_host;
      redis_password = redis_password;
    })
      ≡ to_diagnostics_payload str_int str_float self
unfolding to_diagnostics_payload
to_diagnostics_payload-redacts str_int str_float self api_key lychee_api_url pg_host pg_database
      pg_user pg_password redis_host redis_password =
    refl

module _ (upper : String → String) where
  -- The line that names the variable of an error, and what is wrong with it if it is set.
  abbrev pub line_of : FieldError → String
  line_of error =
      if is_missing error
      then missing_line (env_var upper error)
      else invalid_line (env_var upper error) error.msg

  listing-mem :
      (heading line : String) (lines : List String)
      → Memᴰ line lines
      → Memᴰ line (listing heading lines)
  listing-mem heading line [] m = absurd (Memᴰ.not-nil m)
  listing-mem heading line (l ∷ lines) m = Memᴰ.tail (Memᴰ.append_left ("" ∷ []) m)

  missing_lines-mem :
      (error : FieldError) (errors : List FieldError)
      → is_missing error ≡ true
      → Memᴰ error errors
      → Memᴰ (missing_line (env_var upper error)) (missing_lines upper errors)
  missing_lines-mem error [] h m = absurd (Memᴰ.not-nil m)
  missing_lines-mem error (e ∷ errors) h (Memᴰ.head same) =
      rw (ap is_missing (sym same) ∙ h) (Memᴰ.head (ap (λ v. missing_line (env_var upper v)) same))
  missing_lines-mem error (e ∷ errors) h (Memᴰ.tail later) = elim (Bool-cases (is_missing e)) [
    | inl absent ↦ rw absent (Memᴰ.tail (missing_lines-mem error errors h later))
    | inr set ↦ rw set (missing_lines-mem error errors h later)
  ]

  invalid_lines-mem :
      (error : FieldError) (errors : List FieldError)
      → is_missing error ≡ false
      → Memᴰ error errors
      → Memᴰ (invalid_line (env_var upper error) error.msg) (invalid_lines upper errors)
  invalid_lines-mem error [] h m = absurd (Memᴰ.not-nil m)
  invalid_lines-mem error (e ∷ errors) h (Memᴰ.head same) =
      rw (ap is_missing (sym same) ∙ h)
        (Memᴰ.head (ap (λ v. invalid_line (env_var upper v) v.msg) same))
  invalid_lines-mem error (e ∷ errors) h (Memᴰ.tail later) = elim (Bool-cases (is_missing e)) [
    | inl absent ↦ rw absent (invalid_lines-mem error errors h later)
    | inr set ↦ rw set (Memᴰ.tail (invalid_lines-mem error errors h later))
  ]

  -- Of every error that the validation found, the report has the line: it names the variable, and for a
  -- value that is set and is not valid it has the message.
  pub pretty_config_error-reports :
      (error : FieldError) (errors : List FieldError)
      → Memᴰ error errors
      → Memᴰ (line_of error) (pretty_config_error upper errors)
  unfolding pretty_config_error
  pretty_config_error-reports error errors m =
      let absents = listing missing_heading (missing_lines upper errors) in
      elim (Bool-cases (is_missing error)) [
        | inl absent ↦ rw absent (
            Memᴰ.append_left examples (
              Memᴰ.append_left (listing invalid_heading (invalid_lines upper errors)) (
                Memᴰ.append_right banner
                  (listing-mem missing_heading _ _ (missing_lines-mem error errors absent m)))))
        | inr set ↦ rw set (
            Memᴰ.append_left examples (
              Memᴰ.append_right (banner ++ absents)
                (listing-mem invalid_heading _ _ (invalid_lines-mem error errors set m))))
      ]
