-- ===== src/FaceStore/Pgvector.antt =====
-- app/embeddings/pgvector_store.py: `PgVectorEmbeddingStore`. One table, `face_embeddings`, with the
-- face id as its key. Every method runs under the store's lock on the connection that it keeps, and no
-- method rolls back. The text form of a vector that is
-- written is that of the value that is stored.
pub mod Transactions
pub mod Survivors
use lychee_facial_recognitio.Prelude.{
  Option, none, some, ℕ, if◌then◌else◌, String, Bool, true, false, List, [], ◌∷◌, ◌++◌, length,
  ◌==◌, not,
}
use lychee_facial_recognitio.Sql.{Outcome, Tx, pure, ◌>>=◌, ◌>>◌}
use lychee_facial_recognitio.Sql.Postgres.{query, run, update, get_conn, commit}
use lychee_facial_recognitio.FaceStore.{
  FaceRow, has_face, is_listed, flagged, reset_present, mark_present, delete_where, count_photo,
  metadata,
}

module _ {V F : Type 0} where
  -- INSERT … ON CONFLICT (lychee_face_id) DO UPDATE: of a row that is there the flag `is_present` is
  -- not written; a new row has its default.
  unfoldable pub upsert : String → V → String → F → String → List (FaceRow V F) → List (FaceRow V F)
  upsert face_id embedding photo_id variance crop_path [] =
      record {
        face_id = face_id;
        vector = embedding;
        photo_id = photo_id;
        laplacian_variance = variance;
        crop_path = crop_path;
        is_present = true;
      }
      ∷ []
  upsert face_id embedding photo_id variance crop_path (r ∷ rows) =
      let rest = upsert face_id embedding photo_id variance crop_path rows in
      if has_face face_id r
      then record r {
        vector = embedding;
        photo_id = photo_id;
        laplacian_variance = variance;
        crop_path = crop_path;
      }
        ∷ rows
      else r ∷ rest

  -- The faces with their vectors, as a statement sees them.
  abbrev pub embeddings : List (FaceRow V F) → List (String × V)
  embeddings [] = []
  embeddings (r ∷ rows) = (r.face_id, r.vector) ∷ embeddings rows

-- `[float(v) for v in value]`, where `items` is what the loop over the value of the driver yields and
-- `to_float` is `float`, with `none` where it raises.
abbrev pub floats : {X E : Type 0} → (X → Option E) → List X → Option (List E)
floats to_float [] = some []
floats to_float (x ∷ xs) = elim (to_float x) [
  | none ↦ none
  | some e ↦ elim (floats to_float xs) [ none ↦ none | some es ↦ some (e ∷ es) ]
]

module _ {V F X E : Type 0} (items : V → List X) (to_float : X → Option E) where
  abbrev pub read_rows : List (FaceRow V F) → Option (List (String × List E))
  read_rows [] = some []
  read_rows (r ∷ rows) = elim (floats to_float (items r.vector)) [
    | none ↦ none
    | some embedding ↦ elim (read_rows rows) [
      | none ↦ none
      | some rest ↦ some ((r.face_id, embedding) ∷ rest)
    ]
  ]

abbrev pub Method : Type 0 → Type 0 → Type 0 → Type 0
Method V F A = Tx (List (FaceRow V F)) A

module _ {V F : Type 0} (outcome : ℕ → Outcome) where
  unfoldable pub add : String → V → String → F → String → Method V F (Unit {0})
  add face_id embedding photo_id variance crop_path = do
    get_conn outcome
    run outcome (upsert face_id embedding photo_id variance crop_path)
    commit outcome

  unfoldable pub delete : String → Method V F (Unit {0})
  delete face_id = do
    get_conn outcome
    update outcome (delete_where (has_face face_id))
    commit outcome

  abbrev delete_listed : List String → Method V F ℕ
  delete_listed face_ids = do
    get_conn outcome
    deleted ← update outcome (delete_where (is_listed face_ids))
    commit outcome
    pure deleted

  unfoldable pub delete_many : List String → Method V F ℕ
  delete_many [] = pure 0
  delete_many (face_id ∷ face_ids) = delete_listed (face_id ∷ face_ids)

  abbrev mark : List String → Method V F ℕ
  mark [] = pure 0
  mark (face_id ∷ face_ids) = update outcome (mark_present (face_id ∷ face_ids))

  unfoldable pub sync_batch : List String → ℕ → Method V F ℕ
  sync_batch face_ids batch = do
    get_conn outcome
    if batch == 0 then run outcome reset_present else pure tt
    marked ← mark face_ids
    commit outcome
    pure marked

  unfoldable pub purge_absent : Method V F ℕ
  purge_absent = do
    get_conn outcome
    deleted ← update outcome (delete_where (λ r. not (flagged r)))
    commit outcome
    pure deleted

  -- `none` stands for the ValueError of `float`, raised after the statement.
  unfoldable pub get_all :
      {X E : Type 0} → (V → List X) → (X → Option E) → Method V F (Option (List (String × List E)))
  get_all items to_float = do get_conn outcome; query outcome (read_rows items to_float)

  unfoldable pub get_all_with_metadata : Method V F (List (String × String × F × String))
  get_all_with_metadata = do get_conn outcome; query outcome metadata

  unfoldable pub count : Method V F ℕ
  count = do get_conn outcome; query outcome length

  unfoldable pub count_by_photo_id : String → Method V F ℕ
  count_by_photo_id photo_id = do get_conn outcome; query outcome (count_photo photo_id)
