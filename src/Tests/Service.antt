-- ===== src/Tests/Service.antt =====
-- The theorems about the settings, the routes and the clustering job at concrete inputs.
use lychee_facial_recognitio.Prelude.{
  ℕ, suc, ◌≡◌, refl, String, Bool, true, false, none, some, List, [], ◌∷◌, filter, map,
}
use lychee_facial_recognitio.Async.{returned}
use lychee_facial_recognitio.JobQueue.{Queue}
use lychee_facial_recognitio.Settings.{to_diagnostics_payload}
use lychee_facial_recognitio.Settings.Reported.{to_diagnostics_payload-redacts}
use lychee_facial_recognitio.Detector.{detect as detect_faces, detected}
use lychee_facial_recognitio.Detector.Filters.{passes}
use lychee_facial_recognitio.Routes.{Paths, detect, match_selfie, faces_of}
use lychee_facial_recognitio.Routes.Confined.{IsConfined, detect-IsConfined}
use lychee_facial_recognitio.Routes.Best.{Answers, search_for, match_selfie-Answers}
use lychee_facial_recognitio.Suggestions.{ℤ, pos}
use lychee_facial_recognitio.Clusterer
use lychee_facial_recognitio.ClusteringJob.{Services, run_clustering_job}
use lychee_facial_recognitio.ClusteringJob.Reports.{
  run_clustering_job_lem, run_clustering_job-falls_back,
}
use lychee_facial_recognitio.Tests.Groups.{settings, numbers}
use lychee_facial_recognitio.Tests.Detection.{
  fl, raw_faces, img, represent, detector, in_unit, order,
}

abbrev pub str : ℕ → String
str n = "n"

to_diagnostics_payload-redacts_example :
    to_diagnostics_payload str str (record settings {
      api_key = "other";
      lychee_api_url = "http://other";
      pg_host = "db";
      pg_database = "other";
      pg_user = "me";
      pg_password = "hidden";
      redis_host = "cache";
      redis_password = "hidden";
    })
    ≡ to_diagnostics_payload str str settings
to_diagnostics_payload-redacts_example =
    to_diagnostics_payload-redacts str str settings "other" "http://other" "db" "other" "me"
      "hidden" "cache" "hidden"

-- Paths without `..` and links, of which all are files.
abbrev pub paths : Paths
paths = record { resolve = λ p. p; is_file = λ p. true; dumps = λ p. p }

abbrev pub queue : Queue
queue = record { inflight = []; pending = []; next_id = 1 }

detect-IsConfined_example :
    IsConfined settings paths "secret" "photo" "/a.jpg" queue
      (detect settings paths "secret" "photo" "/a.jpg" queue)
detect-IsConfined_example = detect-IsConfined settings paths "secret" "photo" "/a.jpg" queue

abbrev pub search : ℕ → ℕ → ℕ → List (String × ℕ)
search embedding threshold limit = ("face-1", 80) ∷ []

match_selfie-Answers_example :
    Answers fl
      (map (detected fl img) (filter (passes fl detector img) raw_faces))
      (search_for settings in_unit search)
      (match_selfie settings in_unit search "secret"
        (faces_of (detect_faces fl represent detector (some img)))
        queue).0
match_selfie-Answers_example =
    match_selfie-Answers settings in_unit search fl represent detector img raw_faces "secret" queue
      refl order refl refl refl

-- Two faces, each a cluster of its own; the world counts the posts.
abbrev labels : List (List ℕ) → List ℤ
labels vectors = pos 0 ∷ pos 1 ∷ []

abbrev clustering_services : Bool → Services ℕ (List ℕ) ℕ
clustering_services accepted = record {
  get_all = λ w. (returned (("a", 1 ∷ []) ∷ ("b", 2 ∷ []) ∷ []), w);
  wait = λ w. (returned tt, w);
  similarity_search = λ embedding limit w. (returned (("b", 80) ∷ []), w);
  post = λ payload w. (returned record { is_success = accepted; faces = none }, suc w);
}

clustered :
    Clusterer.cluster numbers labels (("a", 1 ∷ []) ∷ ("b", 2 ∷ []) ∷ [])
    ≡ some (("a", pos 0) ∷ ("b", pos 1) ∷ [])
unfolding Clusterer.cluster
clustered = refl

run_clustering_job_lem_example :
    run_clustering_job (clustering_services true) numbers labels 0 ≡ (returned tt, 1)
run_clustering_job_lem_example =
    run_clustering_job_lem (clustering_services true) numbers labels (λ v n. ("b", 80) ∷ [])
      ("a", 1 ∷ []) (("b", 2 ∷ []) ∷ []) (("a", pos 0) ∷ ("b", pos 1) ∷ []) 0 1 refl refl clustered
      (λ embedding limit. refl) (record { is_success = true; faces = none }) refl refl

run_clustering_job-falls_back_example :
    (run_clustering_job (clustering_services false) numbers labels 0).1 ≡ 2
run_clustering_job-falls_back_example =
    run_clustering_job-falls_back (clustering_services false) numbers labels (λ v n. ("b", 80) ∷ [])
      ("a", 1 ∷ []) (("b", 2 ∷ []) ∷ []) (("a", pos 0) ∷ ("b", pos 1) ∷ []) 0 1 refl refl clustered
      (λ embedding limit. refl) (record { is_success = false; faces = none }) refl refl
