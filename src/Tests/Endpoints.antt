-- ===== src/Tests/Endpoints.antt =====
-- The theorems about the endpoints at concrete inputs.
use lychee_facial_recognitio.Prelude.{
  ℕ, ◌≡◌, ◌≢◌, String, str_eq, eq_iff, true, false, none, [], ◌∷◌,
}
use lychee_facial_recognitio.Prelude.Int.{pos}
use lychee_facial_recognitio.FaceStore.Rows.{concat}
use lychee_facial_recognitio.FaceStore.Sqlite as Store
use lychee_facial_recognitio.FaceStore.Sqlite.Survivors.{sqlite_store}
use lychee_facial_recognitio.Routes.{
  detect, cluster, queue_size, queue_purge, queue_position, service_config, match_selfie,
}
use lychee_facial_recognitio.Routes.Guarded.{IsRefused, require_api_key-guards}
use lychee_facial_recognitio.Routes.Embeddings.{
  delete_embeddings, sync_embeddings, purge_embeddings, export_embeddings,
}
use lychee_facial_recognitio.Routes.Embeddings.Purge.{synchronise, Ends, synchronise-Ends}
use lychee_facial_recognitio.Tests.Groups.{settings}
use lychee_facial_recognitio.Tests.Detection.{in_unit}
use lychee_facial_recognitio.Tests.Faces.{all_fine, session, tables}
use lychee_facial_recognitio.Tests.Service.{str, paths, queue, search}

abbrev guess : String
guess = "guess"

wrong : guess ≢ settings.api_key
wrong e = let same : false ≡ true = (eq_iff guess settings.api_key).1 e in absurd cc

abbrev score : ℕ → ℕ
score v = v

require_api_key-guards_example :
    IsRefused queue (detect settings paths "guess" "photo" "/a.jpg" queue)
    × IsRefused queue (cluster settings "guess" queue)
    × IsRefused queue (queue_size settings "guess" queue)
    × IsRefused queue (queue_purge settings "guess" queue)
    × IsRefused queue (queue_position settings "guess" "photo" queue)
    × IsRefused queue (service_config settings str str "guess" queue)
    × IsRefused queue (match_selfie settings in_unit search "guess" none queue)
    × IsRefused (session tables) (
        delete_embeddings settings (Store.delete_many all_fine) "guess" ("f" ∷ []) (session tables))
    × IsRefused (session tables) (
        sync_embeddings settings
          (Store.sync_batch all_fine)
          "guess"
          ("f" ∷ [])
          (pos 0)
          (session tables))
    × IsRefused
        (session tables)
        (purge_embeddings settings (Store.purge_absent all_fine) "guess" (session tables))
    × IsRefused (session tables) (
        export_embeddings settings score
          (Store.get_all_with_metadata all_fine)
          "guess"
          (session tables))
require_api_key-guards_example =
    require_api_key-guards settings "guess" wrong paths in_unit search none str str "photo" "/a.jpg"
      queue (Store.delete_many all_fine) (Store.sync_batch all_fine) (Store.purge_absent all_fine)
      (Store.get_all_with_metadata all_fine) score ("f" ∷ []) (pos 0) (session tables)

synchronise-Ends_example :
    let store = sqlite_store String ℕ all_fine in
    Ends store settings "secret"
      (str_eq "secret" settings.api_key)
      (concat (("f" ∷ []) ∷ ("h" ∷ []) ∷ []))
      (session tables)
      (synchronise store settings "secret" (("f" ∷ []) ∷ ("h" ∷ []) ∷ []) (session tables))
synchronise-Ends_example =
    synchronise-Ends (sqlite_store String ℕ all_fine) settings "secret" ("f" ∷ []) (("h" ∷ []) ∷ [])
      (session tables) tt
