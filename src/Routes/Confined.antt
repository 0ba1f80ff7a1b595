-- ===== src/Routes/Confined.antt =====
-- Which photos `POST /detect` lets through.
use text.Mathlib.TextEquality.{starts_with_iff}
use text.Mathlib.Text.{starts_with}
use lychee_facial_recognitio.Prelude.{
  ℕ, ◌≡◌, refl, ◌⊎◌, ap, String, str_eq, eq_iff, ◌<>◌, true, false, arith, Bool-cases, inl, inr,
  length,
}
use lychee_facial_recognitio.JobQueue.{Queue, push, enqueue, is_full}
use lychee_facial_recognitio.Settings.{AppSettings}
use lychee_facial_recognitio.Routes.{
  Answer, ok, http_exception, Paths, detect, resolved_path, is_outside, removesuffix, removeprefix,
}

-- At the root, or below it.
abbrev pub IsBelow : String → String → Type 0
IsBelow root path = ((rest : String) × ((root <> "/") <> rest ≡ path)) ⊎ (path ≡ root)

module _ {F : Type 0} (settings : AppSettings F) (paths : Paths) where
  inside :
      (path : String)
      → is_outside settings paths path ≡ false
      → IsBelow (paths.resolve settings.photos_path) path
  inside path h =
      let root = paths.resolve settings.photos_path in
      elim (Bool-cases (starts_with path (root <> "/"))) [
        | inl below ↦ inl ((starts_with_iff path (root <> "/")).0 below)
        | inr other ↦ inr ((eq_iff path root).0 (ground (arith, h, other)))
      ]

  -- The path of the request under the root, as text.
  abbrev pub joined : String → String
  joined photo_path = removesuffix "/" settings.photos_path <> "/" <> removeprefix "/" photo_path

  -- How a request may end: refused with an error status and the queue left as it is; or let in with the
  -- configured key, and one job more at the end of the queue, for a file whose resolved path is the root or
  -- lies below it.
  abbrev pub IsConfined : String → String → String → Queue → Answer (Unit {0}) × Queue → Type 0
  IsConfined x_api_key photo_id photo_path q (r, q') =
      ((q' ≡ q) × ((status : ℕ) × (r ≡ http_exception status)))
      ⊎ ((path : String) × (x_api_key ≡ settings.api_key)
          × (r ≡ ok tt)
          × (q' ≡ push q "detect" photo_id (paths.dumps path))
          × (paths.is_file path ≡ true)
          × (path ≡ paths.resolve (joined photo_path))
          × IsBelow (paths.resolve settings.photos_path) path)

  refused :
      (x_api_key photo_id photo_path : String) (q : Queue) (end : Answer (Unit {0}) × Queue)
      (status : ℕ)
      → end ≡ (http_exception status, q)
      → IsConfined x_api_key photo_id photo_path q end
  refused x_api_key photo_id photo_path q end status e =
      inl (ap (λ v. v.1) e, (status, ap (λ v. v.0) e))

  -- Whatever key, photo and path a request for a detection carries, either the answer is an error status
  -- and the queue stays as it is, or the key is the configured one, the answer is a success, and the
  -- queue gains one job at its end: a detection of this photo at the path that pathlib resolves the
  -- request's path under the root to (so that no `..` and no link is left in it), which is a file and is
  -- the resolved root of the photos or lies below it.
  pub detect-IsConfined :
      (x_api_key photo_id photo_path : String) (q : Queue)
      → IsConfined x_api_key photo_id photo_path q
          (detect settings paths x_api_key photo_id photo_path q)
  unfolding detect enqueue
  detect-IsConfined x_api_key photo_id photo_path q =
      let path = resolved_path settings paths photo_path in
      let end = detect settings paths x_api_key photo_id photo_path q in
      elim (Bool-cases (str_eq x_api_key settings.api_key)) [
        | inr wrong ↦ refused x_api_key photo_id photo_path q end 401 (ground (arith, wrong))
        | inl right ↦ elim (Bool-cases (is_outside settings paths path)) [
          | inl outside ↦
              refused x_api_key photo_id photo_path q end 400 (ground (arith, right, outside))
          | inr in_root ↦ elim (Bool-cases (paths.is_file path)) [
            | inr no_file ↦
                refused x_api_key photo_id photo_path q end 400
                  (ground (arith, right, in_root, no_file))
            | inl file ↦ elim (Bool-cases (is_full settings.queue_max_size (length q.pending))) [
              | inl full ↦
                  refused x_api_key photo_id photo_path q end 429
                    (ground (arith, right, in_root, file, full))
              | inr fits ↦
                  let e : end ≡ (ok tt, push q "detect" photo_id (paths.dumps path)) =
                    ground (arith, right, in_root, file, fits) in
                  inr (
                    path,
                    (eq_iff x_api_key settings.api_key).0 right,
                    ap (λ v. v.0) e,
                    ap (λ v. v.1) e,
                    file,
                    refl,
                    inside path in_root,
                  )
            ]
          ]
        ]
      ]
