-- ===== src/Tests/Groups.antt =====
-- The theorems about suggestions, clustering and the factories at concrete inputs.
use lychee_facial_recognitio.Prelude.{
  ℕ, ◌≡◌, ◌≤◌, ◌/◌, ◌==◌, max, refl, String, true, false, List, [], ◌∷◌, All, arith,
}
use lychee_facial_recognitio.Suggestions.{
  ℤ, pos, negsuc, count_of, generate_cross_cluster_suggestions,
}
use lychee_facial_recognitio.Suggestions.Bounded.{AreDistinct, generate-bounded}
use lychee_facial_recognitio.Suggestions.Crossing.{IsSound, generate-IsSound}
use lychee_facial_recognitio.Clusterer.{Numbers}
use lychee_facial_recognitio.Settings.{AppSettings}
use lychee_facial_recognitio.Factories.{
  create_queue, create_store, queue_of, create_queue-create_store,
}

abbrev results : List (String × ℤ)
results = ("a", pos 0) ∷ ("b", pos 1) ∷ ("c", pos 1) ∷ ("d", negsuc 0) ∷ []

abbrev embeddings : List (String × ℕ)
embeddings = ("a", 5) ∷ ("b", 6) ∷ ("c", 7) ∷ ("d", 8) ∷ []

abbrev valid : List String
valid = "a" ∷ "b" ∷ "c" ∷ "d" ∷ []

-- Every face is similar to every other.
abbrev similar : ℕ → ℕ → List (String × ℕ)
similar embedding limit = ("a", 90) ∷ ("b", 80) ∷ ("c", 70) ∷ ("d", 60) ∷ []

results-AreDistinct : AreDistinct results
results-AreDistinct = ((refl, (refl, (refl, tt))), ((refl, (refl, tt)), ((refl, tt), (tt, tt))))

generate-bounded_example :
    count_of "a" (generate_cross_cluster_suggestions results embeddings valid similar 1) ≤ 1
generate-bounded_example =
    generate-bounded results embeddings valid similar 1 "a" (omega arith) results-AreDistinct

generate-IsSound_example :
    All
      (IsSound results valid)
      (generate_cross_cluster_suggestions results embeddings valid similar 1)
generate-IsSound_example = generate-IsSound results valid embeddings similar 1

-- Whole numbers with the maximum norm.
abbrev maximum : List ℕ → ℕ
maximum [] = 0
maximum (x ∷ vector) = max x (maximum vector)

abbrev pub numbers : Numbers ℕ
numbers = record {
  float32 = λ x. x;
  norm = maximum;
  is_zero = λ x. x == 0;
  one = 1;
  divide = λ x y. x / y;
}

abbrev all_one : List (List ℕ) → List ℤ
all_one [] = []
all_one (_ ∷ vectors) = pos 0 ∷ all_one vectors

abbrev faces : List (String × List ℕ)
faces = ("a", 5 ∷ 3 ∷ []) ∷ ("b", 0 ∷ 0 ∷ []) ∷ []

abbrev pub settings : AppSettings ℕ
settings = record {
  lychee_api_url = "http://lychee";
  api_key = "secret";
  verify_ssl = true;
  skip_lychee_check = false;
  model_name = "ArcFace";
  detector_backend = "retinaface";
  detection_threshold = 50;
  match_threshold = 50;
  rescan_iou_threshold = 50;
  max_faces_per_photo = 10;
  thread_pool_size = 1;
  workers = 1;
  photos_path = "/data/photos";
  log_level = "info";
  cluster_eps = 30;
  auto_dispatch_dbscan = true;
  min_face_size_pixels = 0;
  blur_threshold = 50;
  model_root = "/root/.deepface";
  queue_backend = "database";
  storage_backend = "pgvector";
  storage_path = "/data/embeddings";
  queue_max_size = 1000;
  pg_host = "localhost";
  pg_port = 5432;
  pg_database = "ai_vision";
  pg_user = "ai_vision";
  pg_password = "";
  redis_host = "localhost";
  redis_port = 6379;
  redis_password = "";
  redis_db = 0;
}

abbrev lower : String → String
lower s = s

create_queue-create_store_example :
    create_queue lower false settings ≡ queue_of 1000 (create_store lower settings)
create_queue-create_store_example = create_queue-create_store lower false settings refl
