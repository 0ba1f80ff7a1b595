-- ===== src/FaceStore/Protocol.antt =====
-- app/embeddings/store.py: the methods of `EmbeddingStore` as data, and what they do to one table of faces.
-- A face that is added replaces the face of its id and is present. `stored` is what a store returns of an
-- embedding that it was given (the SQLite store keeps 32 bits of each number), and `slices` is how it cuts
-- the list of a batch: the rows that are marked are counted slice by slice.
use lychee_facial_recognitio.Prelude.{
  ℕ, if◌then◌else◌, ◌==◌, String, true, not, List, [], ◌∷◌, ◌++◌, length, filter,
}
use lychee_facial_recognitio.FaceStore.{
  FaceRow, has_face, is_listed, flagged, reset_present, set_present, delete_where, count_photo,
  metadata,
}
use lychee_facial_recognitio.FaceStore.Pgvector.{embeddings}
use lychee_facial_recognitio.FaceStore.Rows.{mark_chunks}

pub data Request (V F : Type 0) : Type 0 where
  add : String → V → String → F → String → Request V F
  delete : String → Request V F
  delete_many : List String → Request V F
  sync_batch : List String → ℕ → Request V F
  purge_absent get_all get_all_with_metadata count : Request V F
  count_by_photo_id : String → Request V F

pub data Reply (V F : Type 0) : Type 0 where
  done : Reply V F
  number : ℕ → Reply V F
  vectors : List (String × V) → Reply V F
  records : List (String × String × F × String) → Reply V F

module _ {V F : Type 0} where
  -- The row of a new face.
  abbrev pub new_face : String → V → String → F → String → FaceRow V F
  new_face face_id embedding photo_id variance crop_path = record {
    face_id = face_id;
    vector = embedding;
    photo_id = photo_id;
    laplacian_variance = variance;
    crop_path = crop_path;
    is_present = true;
  }

  abbrev pub without : String → List (FaceRow V F) → List (FaceRow V F)
  without face_id rows = filter (λ r. not (has_face face_id r)) rows

  -- What a batch finds: the first one of a session resets the flags.
  abbrev pub before_batch : ℕ → List (FaceRow V F) → List (FaceRow V F)
  before_batch batch rows = if batch == 0 then reset_present rows else rows

  abbrev pub counted : ℕ × List (FaceRow V F) → Reply V F × List (FaceRow V F)
  counted (n, rows) = (number n, rows)

  unfoldable pub serve :
      (V → V)
      → (List String → List (List String))
      → Request V F
      → List (FaceRow V F)
      → Reply V F × List (FaceRow V F)
  serve stored slices (add face_id embedding photo_id variance crop_path) rows = (
    done,
    without face_id rows ++ new_face face_id (stored embedding) photo_id variance crop_path ∷ [],
  )
  serve stored slices (delete face_id) rows = (done, without face_id rows)
  serve stored slices (delete_many face_ids) rows = counted (delete_where (is_listed face_ids) rows)
  serve stored slices (sync_batch face_ids batch) rows = (
    number (mark_chunks (slices face_ids) 0 (before_batch batch rows)).0,
    set_present face_ids (before_batch batch rows),
  )
  serve stored slices purge_absent rows = counted (delete_where (λ r. not (flagged r)) rows)
  serve stored slices get_all rows = (vectors (embeddings rows), rows)
  serve stored slices get_all_with_metadata rows = (records (metadata rows), rows)
  serve stored slices count rows = (number (length rows), rows)
  serve stored slices (count_by_photo_id photo_id) rows = (number (count_photo photo_id rows), rows)
