-- ===== src/Routes/Guarded.antt =====
-- Without the configured key, no handler does anything.
use lychee_facial_recognitio.Prelude.{
  ℕ, ◌≡◌, ◌≢◌, String, str_eq, eq_iff, Bool, false, Option, List, arith, Bool-cases, inl, inr,
}
use lychee_facial_recognitio.Prelude.Int.{ℤ}
use lychee_facial_recognitio.Sql.{Session, Tx}
use lychee_facial_recognitio.JobQueue.{Queue}
use lychee_facial_recognitio.Settings.{AppSettings}
use lychee_facial_recognitio.Detector.{DetectedFace}
use lychee_facial_recognitio.Routes.{
  Answer, http_exception, Paths, detect, cluster, queue_size, queue_purge, queue_position,
  service_config, match_selfie,
}
use lychee_facial_recognitio.Routes.Embeddings.{
  delete_embeddings, sync_embeddings, purge_embeddings, export_embeddings,
}

-- The request is answered with 401 and has changed nothing.
abbrev pub IsRefused : {A S : Type 0} → S → Answer A × S → Type 0
IsRefused s end = end ≡ (http_exception 401, s)

module _ {F : Type 0} (settings : AppSettings F) (x_api_key : String)
    (wrong : x_api_key ≢ settings.api_key) where
  other : str_eq x_api_key settings.api_key ≡ false
  other = elim (Bool-cases (str_eq x_api_key settings.api_key)) [
    | inl same ↦ absurd (wrong ((eq_iff x_api_key settings.api_key).0 same))
    | inr differs ↦ differs
  ]

  -- If the request carries another key than the configured one, then every endpoint that asks for a key
  -- (detection, clustering, the size, the purge and the positions of the queue, the configuration, the
  -- match of a selfie, and the deletion, the synchronisation, the purge and the export of embeddings)
  -- answers 401 and leaves the queue and the store as they are, whatever else the request holds and
  -- whatever the store would do.
  pub require_api_key-guards :
      {V T : Type 0} (paths : Paths) (in_unit : F → Bool)
      (similarity_search : V → F → ℕ → List (String × F))
      (raw_faces : Option (List (DetectedFace F V))) (str_int : ℕ → String) (str_float : F → String)
      (photo_id photo_path : String) (q : Queue) (delete_many : List String → Tx T ℕ)
      (sync_batch : List String → ℕ → Tx T ℕ) (purge_absent : Tx T ℕ)
      (get_all_with_metadata : Tx T (List (String × String × F × String))) (score : F → F)
      (face_ids : List String) (batch : ℤ) (s : Session T)
      → IsRefused q (detect settings paths x_api_key photo_id photo_path q)
        × IsRefused q (cluster settings x_api_key q)
        × IsRefused q (queue_size settings x_api_key q)
        × IsRefused q (queue_purge settings x_api_key q)
        × IsRefused q (queue_position settings x_api_key photo_id q)
        × IsRefused q (service_config settings str_int str_float x_api_key q)
        × IsRefused q (match_selfie settings in_unit similarity_search x_api_key raw_faces q)
        × IsRefused s (delete_embeddings settings delete_many x_api_key face_ids s)
        × IsRefused s (sync_embeddings settings sync_batch x_api_key face_ids batch s)
        × IsRefused s (purge_embeddings settings purge_absent x_api_key s)
        × IsRefused s (export_embeddings settings score get_all_with_metadata x_api_key s)
  unfolding detect cluster queue_size queue_purge queue_position service_config match_selfie
      delete_embeddings sync_embeddings purge_embeddings export_embeddings
  require_api_key-guards paths in_unit similarity_search raw_faces str_int str_float photo_id
        photo_path q delete_many sync_batch purge_absent get_all_with_metadata score face_ids batch
        s =
      (
        ground (arith, other),
        ground (arith, other),
        ground (arith, other),
        ground (arith, other),
        ground (arith, other),
        ground (arith, other),
        ground (arith, other),
        ground (arith, other),
        ground (arith, other),
        ground (arith, other),
        ground (arith, other),
      )
