-- ===== src/Routes/Embeddings.antt =====
-- app/api/routes.py: the handlers over the embedding store, and `root` and `health`. A method of the store
-- is an argument of the handler that calls it; what it raises is answered with 500. FastAPI validates the
-- body of a request when the key has been checked, and answers 422. `score` is `float(v or 0.0)`.
pub mod Purge
use lychee_facial_recognitio.Prelude.{ℕ, String, Bool, List, [], ◌∷◌, if◌then◌else◌}
use lychee_facial_recognitio.Prelude.Int.{ℤ, pos, negsuc}
use lychee_facial_recognitio.Settings.{AppSettings}
use lychee_facial_recognitio.Sql.{Result, Session, Tx}
use lychee_facial_recognitio.Routes.{Answer, ok, http_exception, server_error, authorised}

-- The answer to a request over a store with tables of type `T`.
abbrev pub Handler : Type 0 → Type 0 → Type 0
Handler T A = Session T → Answer A × Session T

abbrev pub answer_of : {A : Type 0} → Result A → Answer A
answer_of (Result.ok a) = ok a
answer_of (Result.err e) = server_error

module _ {T A : Type 0} where
  abbrev pub answered : Tx T A → Handler T A
  answered method s = let (r, s') = method s in (answer_of r, s')

-- `EmbeddingExportItem`
pub record EmbeddingExportItem (F : Type 0) : Type 0 where
  pub lychee_face_id : String
  pub photo_id : String
  pub laplacian_variance : F
  pub crop_path : String

abbrev pub export_items :
    {F : Type 0} → (F → F) → List (String × String × F × String) → List (EmbeddingExportItem F)
export_items score [] = []
export_items score ((face_id, photo_id, variance, crop_path) ∷ rows) =
    record {
      lychee_face_id = face_id;
      photo_id = photo_id;
      laplacian_variance = score variance;
      crop_path = crop_path;
    }
    ∷ export_items score rows

-- `HealthResponse`
pub record HealthResponse : Type 0 where
  pub status : String
  pub model_loaded : Bool
  pub embedding_count : ℕ

-- GET /: where the request is redirected to
abbrev pub root : String
root = "/health"

module _ {F T : Type 0} (settings : AppSettings F) where
  -- `face_ids: list[str] = Field(min_length=1)`
  abbrev delete_valid : (List String → Tx T ℕ) → List String → Handler T ℕ
  delete_valid delete_many [] s = (http_exception 422, s)
  delete_valid delete_many (face_id ∷ face_ids) s = answered (delete_many (face_id ∷ face_ids)) s

  -- DELETE /embeddings
  unfoldable pub delete_embeddings : (List String → Tx T ℕ) → String → List String → Handler T ℕ
  delete_embeddings delete_many x_api_key face_ids =
      authorised x_api_key settings (delete_valid delete_many face_ids)

  -- `batch: int = Field(ge=0)`
  abbrev sync_valid : (List String → ℕ → Tx T ℕ) → List String → ℤ → Handler T ℕ
  sync_valid sync_batch face_ids (negsuc n) s = (http_exception 422, s)
  sync_valid sync_batch face_ids (pos batch) s = answered (sync_batch face_ids batch) s

  -- DELETE /embeddings/sync
  unfoldable pub sync_embeddings :
      (List String → ℕ → Tx T ℕ) → String → List String → ℤ → Handler T ℕ
  sync_embeddings sync_batch x_api_key face_ids batch =
      authorised x_api_key settings (sync_valid sync_batch face_ids batch)

  -- DELETE /embeddings/purge
  unfoldable pub purge_embeddings : Tx T ℕ → String → Handler T ℕ
  purge_embeddings purge_absent x_api_key = authorised x_api_key settings (answered purge_absent)

  abbrev exported :
      (F → F)
      → Answer (List (String × String × F × String)) × Session T
      → Answer (List (EmbeddingExportItem F)) × Session T
  exported score (ok rows, s) = (ok (export_items score rows), s)
  exported score (http_exception status, s) = (http_exception status, s)
  exported score (server_error, s) = (server_error, s)

  -- GET /embeddings/export
  unfoldable pub export_embeddings :
      (F → F)
      → Tx T (List (String × String × F × String))
      → String
      → Handler T (List (EmbeddingExportItem F))
  export_embeddings score get_all_with_metadata x_api_key =
      authorised x_api_key settings (λ s. exported score (answered get_all_with_metadata s))

module _ {T : Type 0} where
  abbrev reported : Bool → Answer ℕ × Session T → Answer HealthResponse × Session T
  reported is_loaded (ok total, s) = (
    ok record {
      status = if is_loaded then "ok" else "degraded";
      model_loaded = is_loaded;
      embedding_count = total;
    },
    s,
  )
  reported is_loaded (http_exception status, s) = (http_exception status, s)
  reported is_loaded (server_error, s) = (server_error, s)

  -- GET /health, which asks for no key
  unfoldable pub health : Bool → Tx T ℕ → Handler T HealthResponse
  health is_loaded count s = reported is_loaded (answered count s)
