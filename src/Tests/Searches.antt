-- ===== src/Tests/Searches.antt =====
-- The two searches at a concrete input: whole numbers as embeddings, their difference
-- as distance, and 10 less the distance as similarity.
use lychee_facial_recognitio.Prelude.{
  ℕ, ◌+◌, ◌-◌, ◌≡◌, refl, String, Bool, true, false, List, [], ◌∷◌, leb,
}
use lychee_facial_recognitio.Sql.{Outcome, Session, fine, ok}
use lychee_facial_recognitio.FaceStore.{FaceRow}
use lychee_facial_recognitio.FaceStore.Sqlite.{Tables}
use lychee_facial_recognitio.FaceStore.Search.{collect, sqlite_search, pgvector_search}

abbrev distance : ℕ → ℕ → ℕ
distance x y = (x - y) + (y - x)

abbrev similarity : ℕ → ℕ
similarity d = 10 - d

abbrev reaches : ℕ → Bool
reaches score = leb 7 score

abbrev unpack : ℕ → ℕ
unpack blob = blob

abbrev row : String → ℕ → FaceRow ℕ ℕ
row face_id vector = record {
  face_id = face_id;
  vector = vector;
  photo_id = "p";
  laplacian_variance = 0;
  crop_path = "";
  is_present = true;
}

abbrev sqlite_tables : Tables ℕ ℕ
sqlite_tables = record {
  meta = row "far" 1 ∷ row "near" 2 ∷ row "here" 3 ∷ [];
  vecs = (1, 40) ∷ (2, 22) ∷ (3, 20) ∷ [];
}

abbrev session : {T : Type 0} → T → Session T
session t = record {
  committed = t;
  working = t;
  connected = true;
  aborted = false;
  clock = 0;
  faults = 0;
}

abbrev pg_rows : List (FaceRow ℕ ℕ)
pg_rows = row "far" 40 ∷ row "near" 22 ∷ row "here" 20 ∷ []

abbrev all_fine : ℕ → Outcome
all_fine _ = fine

abbrev found : List (String × ℕ)
found = ("here", 10) ∷ ("near", 8) ∷ []

sqlite_found :
    (sqlite_search leb distance similarity reaches all_fine unpack 20 5 (session sqlite_tables)).0
    ≡ ok found
unfolding sqlite_search collect
sqlite_found = refl

pgvector_found :
    (pgvector_search leb distance similarity reaches all_fine 20 5 (session pg_rows)).0 ≡ ok found
unfolding pgvector_search
pgvector_found = refl
