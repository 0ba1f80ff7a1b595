-- ===== src/ClusteringJob.antt =====
-- app/api/routes.py: `_run_clustering_job` and `_send_cluster_callback`, with the payload of
-- app/api/schemas.py. The store, the executor and Lychee's endpoint are services that change a world `W`
-- and may raise or be cancelled; the clusterer and the suggestions are those of Clusterer and
-- Suggestions. `V` is the type of embeddings and `S` that of scores.
pub mod Reports
use lychee_facial_recognitio.Prelude.{
  ℕ, ◌+◌, if◌then◌else◌, String, Option, none, some, List, [], ◌∷◌,
}
use lychee_facial_recognitio.Async.{Step, pure, ◌>>=◌, ◌>>◌, try_except}
use lychee_facial_recognitio.Suggestions.{
  ℤ, noise, same_label, get, ids, ClusterSuggestion, suggest_from,
}
use lychee_facial_recognitio.Clusterer.{Numbers, cluster}
use lychee_facial_recognitio.DetectionJob.{Response, or_raise, raise_for_status}

-- `labels` pairs a face id with its cluster label, as `ClusterFaceResult` does.
pub record ClusterCallbackPayload (S : Type 0) : Type 0 where
  pub labels : List (String × ℤ)
  pub suggestions : List (ClusterSuggestion S)

-- What the job calls. `wait` is the time that a computation takes on the executor, which may fail, and
-- `similarity_search` is the store's at the configured threshold.
pub record Services (W V S : Type 0) : Type 0 where
  pub get_all : Step W (List (String × V))
  pub wait : Step W (Unit {0})
  pub similarity_search : V → ℕ → Step W (List (String × S))
  pub post : ClusterCallbackPayload S → Step W Response

abbrev pub empty_payload : {S : Type 0} → ClusterCallbackPayload S
empty_payload = record { labels = []; suggestions = [] }

abbrev pub max_per_face : ℕ
max_per_face = 3

module _ {W F S : Type 0} (services : Services W (List F) S) where
  open services use {get_all, wait, similarity_search, post}

  -- `_generate_cross_cluster_suggestions`, one search of the store after the other
  module _ (results : List (String × ℤ)) (embeddings : List (String × List F)) where
    abbrev pub suggest_one :
        String → ℤ → List (ClusterSuggestion S) → Step W (List (ClusterSuggestion S))
    suggest_one face_id label suggestions =
        if same_label label noise then pure suggestions else (elim (get face_id embeddings) [
          | none ↦ pure suggestions
          | some embedding ↦ do
            found ← similarity_search embedding (max_per_face + 10)
            pure (suggest_from results (ids results) max_per_face face_id label found suggestions)
        ])

    unfoldable pub suggest_each :
        List (String × ℤ) → List (ClusterSuggestion S) → Step W (List (ClusterSuggestion S))
    suggest_each [] suggestions = pure suggestions
    suggest_each ((face_id, label) ∷ entries) suggestions = do
      further ← suggest_one face_id label suggestions
      suggest_each entries further

  -- `_send_cluster_callback`: what it catches, it raises again.
  unfoldable pub send_cluster_callback : ClusterCallbackPayload S → Step W (Unit {0})
  send_cluster_callback payload = do response ← post payload; raise_for_status response

  module _ (numbers : Numbers F) (fit_predict : List (List F) → List ℤ) where
    unfoldable pub cluster_and_report : List (String × List F) → Step W (Unit {0})
    cluster_and_report [] = send_cluster_callback empty_payload
    cluster_and_report (face ∷ faces) = do
      wait
      results ← or_raise (cluster numbers fit_predict (face ∷ faces))
      suggestions ← suggest_each results (face ∷ faces) results []
      send_cluster_callback record { labels = results; suggestions = suggestions }

    unfoldable pub run_clustering_job : Step W (Unit {0})
    run_clustering_job =
        try_except (do all_embeddings ← get_all; cluster_and_report all_embeddings)
          (try_except (send_cluster_callback empty_payload) (pure tt))
