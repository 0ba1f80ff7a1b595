-- ===== src/ClusteringJob/Reports.antt =====
-- What a clustering job reports to Lychee.
use lychee_facial_recognitio.Prelude.{
  ◌≡◌, ◌≢◌, refl, String, true, false, some, List, [], ◌∷◌, arith, ◌∙◌, ℕ, ◌+◌, Option-cases, inl,
  inr,
}
use lychee_facial_recognitio.Async.{returned, raised, bind-returned}
use lychee_facial_recognitio.Suggestions.{
  ℤ, ids, ClusterSuggestion, generate_cross_cluster_suggestions, suggest_all, suggest_for, get,
}
use lychee_facial_recognitio.Clusterer.{Numbers, cluster}
use lychee_facial_recognitio.DetectionJob.{Response}
use lychee_facial_recognitio.ClusteringJob.{
  Services, ClusterCallbackPayload, empty_payload, max_per_face, suggest_one, suggest_each,
  send_cluster_callback, cluster_and_report, run_clustering_job,
}

module _ {W F S : Type 0} (services : Services W (List F) S) where
  open services use {get_all, wait, similarity_search, post}

  module _ (results : List (String × ℤ)) (embeddings : List (String × List F))
      (similar : List F → ℕ → List (String × S)) (w : W)
      (found : (embedding : List F) (limit : ℕ)
        → similarity_search embedding limit w ≡ (returned (similar embedding limit), w)) where
    suggest_one-suggest_for :
        (face_id : String) (label : ℤ) (suggestions : List (ClusterSuggestion S))
        → suggest_one services results embeddings face_id label suggestions w ≡ (
          returned (
              suggest_for results embeddings
                (ids results)
                similar
                max_per_face
                face_id
                label
                suggestions),
          w,
        )
    suggest_one-suggest_for face_id label suggestions =
        elim (Option-cases (get face_id embeddings)) [
          | inl e ↦ ground (arith, e)
          | inr (embedding, e) ↦ ground (arith, e, found embedding (max_per_face + 10))
        ]

    suggest_each-suggest_all :
        (entries : List (String × ℤ)) (suggestions : List (ClusterSuggestion S))
        → suggest_each services results embeddings entries suggestions w ≡ (
          returned (
              suggest_all results embeddings
                (ids results)
                similar
                max_per_face
                entries
                suggestions),
          w,
        )
    unfolding suggest_each
    suggest_each-suggest_all [] suggestions = refl
    suggest_each-suggest_all ((face_id, label) ∷ entries) suggestions =
        bind-returned (suggest_each services results embeddings entries)
          (suggest_one services results embeddings face_id label suggestions) w w _
          (suggest_one-suggest_for face_id label suggestions)
        ∙ suggest_each-suggest_all entries _

  -- What the job reports of some labels.
  module _ (numbers : Numbers F) (fit_predict : List (List F) → List ℤ)
      (similar : List F → ℕ → List (String × S)) where
    abbrev payload_of : List (String × ℤ) → List (String × List F) → ClusterCallbackPayload S
    payload_of results embeddings = record {
      labels = results;
      suggestions =
          generate_cross_cluster_suggestions results embeddings (ids results) similar max_per_face;
    }

    cluster_and_report_lem :
        (face : String × List F) (faces : List (String × List F)) (results : List (String × ℤ))
        (w : W)
        → wait w ≡ (returned tt, w)
        → cluster numbers fit_predict (face ∷ faces) ≡ some results
        → ((embedding : List F) (limit : ℕ)
            → similarity_search embedding limit w ≡ (returned (similar embedding limit), w))
        → cluster_and_report services numbers fit_predict (face ∷ faces) w
          ≡ send_cluster_callback services (payload_of results (face ∷ faces)) w
    unfolding cluster_and_report generate_cross_cluster_suggestions
    cluster_and_report_lem face faces results w waited clustered found = ground (
      arith,
      waited,
      clustered,
      suggest_each-suggest_all results (face ∷ faces) similar w found results [],
    )

    module _ (face : String × List F) (faces : List (String × List F)) (results : List (String × ℤ))
        (w w' : W) (fetched : get_all w ≡ (returned (face ∷ faces), w))
        (waited : wait w ≡ (returned tt, w))
        (clustered : cluster numbers fit_predict (face ∷ faces) ≡ some results)
        (found : (embedding : List F) (limit : ℕ)
          → similarity_search embedding limit w ≡ (returned (similar embedding limit), w))
        (response : Response)
        (posted : post (payload_of results (face ∷ faces)) w ≡ (returned response, w')) where
      -- Where the store returns some faces, the clusterer labels them, every search of the store
      -- returns without changing anything, and Lychee answers the post with a success, the job
      -- returns after one post, of the clusterer's labels and of the suggestions that are found for
      -- them.
      pub run_clustering_job_lem :
          response.is_success ≡ true
          → run_clustering_job services numbers fit_predict w ≡ (returned tt, w')
      unfolding run_clustering_job send_cluster_callback
      run_clustering_job_lem accepted = ground (
        arith,
        fetched,
        posted,
        accepted,
        cluster_and_report_lem face faces results w waited clustered found,
      )

      -- Under the same conditions, but where Lychee answers the post with an error status, the job
      -- posts once more, an empty result, and ends with the world that this post leaves.
      pub run_clustering_job-falls_back :
          response.is_success ≡ false
          → (run_clustering_job services numbers fit_predict w).1 ≡ (post empty_payload w').1
      unfolding run_clustering_job send_cluster_callback
      run_clustering_job-falls_back refused = ground (
        arith,
        fetched,
        posted,
        refused,
        cluster_and_report_lem face faces results w waited clustered found,
      )

  -- Whatever the store, the executor, the clusterer and Lychee do, the job does not raise: it returns,
  -- or is cancelled.
  pub run_clustering_job-ne-raised :
      (numbers : Numbers F) (fit_predict : List (List F) → List ℤ) (w : W)
      → (run_clustering_job services numbers fit_predict w).0 ≢ raised
  unfolding run_clustering_job
  run_clustering_job-ne-raised numbers fit_predict w = ground arith
