-- ===== src/FaceStore.antt =====
-- app/embeddings: the stores of face embeddings. This module has what the two backends share: the row
-- of a face and the SQL statements on a table of such rows. In `face_meta` (sqlite_store.py) a row
-- refers to its vector by a rowid; in `face_embeddings` (pgvector_store.py) it holds the embedding.
-- `V` is the type of that column and `F` that of the sharpness scores, floats in the program, which no
-- statement here looks at.
pub mod Rows
pub mod SyncSession
pub mod Sqlite
pub mod Pgvector
pub mod Readd
pub mod Search
pub mod Protocol
use lychee_facial_recognitio.Prelude.{
  ℕ, ◌+◌, if◌then◌else◌, String, str_eq, Bool, true, false, not, ◌||◌, Option, none, some, List, [],
  ◌∷◌, ◌++◌, length, filter,
}

pub record FaceRow (V F : Type 0) : Type 0 where
  pub face_id : String
  pub vector : V
  pub photo_id : String
  pub laplacian_variance : F
  pub crop_path : String
  pub is_present : Bool

-- x IN (…), x = ANY(…)
abbrev pub elem : String → List String → Bool
elem x [] = false
elem x (y ∷ ys) = str_eq x y || elem x ys

module _ {V F : Type 0} where
  abbrev pub has_face : String → FaceRow V F → Bool
  has_face face_id r = str_eq r.face_id face_id

  abbrev pub is_listed : List String → FaceRow V F → Bool
  is_listed face_ids r = elem r.face_id face_ids

  abbrev pub flagged : FaceRow V F → Bool
  flagged r = r.is_present

  abbrev pub with_flag : Bool → FaceRow V F → FaceRow V F
  with_flag b r = record r { is_present = b }

  -- UPDATE … SET is_present = 0
  abbrev pub reset_present : List (FaceRow V F) → List (FaceRow V F)
  reset_present [] = []
  reset_present (r ∷ rows) = with_flag false r ∷ reset_present rows

  -- UPDATE … SET is_present = 1 WHERE lychee_face_id IN (…), with its row count
  abbrev pub set_present : List String → List (FaceRow V F) → List (FaceRow V F)
  set_present face_ids [] = []
  set_present face_ids (r ∷ rows) =
      (if is_listed face_ids r then with_flag true r else r) ∷ set_present face_ids rows

  abbrev pub mark_present : List String → List (FaceRow V F) → ℕ × List (FaceRow V F)
  mark_present face_ids rows =
      (length (filter (is_listed face_ids) rows), set_present face_ids rows)

  -- DELETE … WHERE test, with its row count
  abbrev pub delete_where : (FaceRow V F → Bool) → List (FaceRow V F) → ℕ × List (FaceRow V F)
  delete_where test rows = (length (filter test rows), filter (λ r. not (test r)) rows)

  -- SELECT COUNT(*) … WHERE photo_id = ?
  abbrev pub count_photo : String → List (FaceRow V F) → ℕ
  count_photo photo_id rows = length (filter (λ r. str_eq r.photo_id photo_id) rows)

  -- SELECT … WHERE lychee_face_id = ?
  abbrev pub find_face : String → List (FaceRow V F) → Option (FaceRow V F)
  find_face face_id [] = none
  find_face face_id (r ∷ rows) = if has_face face_id r then some r else find_face face_id rows

  -- SELECT lychee_face_id, photo_id, laplacian_variance, crop_path
  abbrev pub metadata : List (FaceRow V F) → List (String × String × F × String)
  metadata [] = []
  metadata (r ∷ rows) = (r.face_id, r.photo_id, r.laplacian_variance, r.crop_path) ∷ metadata rows
