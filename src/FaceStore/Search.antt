-- ===== src/FaceStore/Search.antt =====
-- `similarity_search` of the two stores, on the faces with their embeddings. `distance` is the
-- distance that the database of the store computes, for sqlite-vec the L2 distance and for pgvector the
-- cosine distance: the two searches have a `distance` each. `closer` compares two distances, `similarity` is
-- `1.0 - distance`, and `reaches` is the test `similarity >= threshold`. Rows at the same distance
-- come in the order of the table.
pub mod Ranking
pub mod Agreement
use lychee_facial_recognitio.Prelude.{
  ℕ, ◌+◌, ◌*◌, String, Bool, List, [], ◌∷◌, ◌++◌, length, take, filter, leb, if◌then◌else◌,
}
use lychee_facial_recognitio.Sql.{Outcome, ◌>>=◌, ◌>>◌}
use lychee_facial_recognitio.Sql.Sqlite
use lychee_facial_recognitio.Sql.Postgres
use lychee_facial_recognitio.FaceStore.{FaceRow}
use lychee_facial_recognitio.FaceStore.Sqlite as SqliteStore
use lychee_facial_recognitio.FaceStore.Sqlite.{Tables, join, with_connection}
use lychee_facial_recognitio.FaceStore.Pgvector as PgvectorStore
use lychee_facial_recognitio.FaceStore.Pgvector.{embeddings}

-- ORDER BY distance
module _ {D : Type 0} (closer : D → D → Bool) where
  abbrev pub insert_by : String × D → List (String × D) → List (String × D)
  insert_by x [] = x ∷ []
  insert_by x (y ∷ ys) = if closer x.1 y.1 then x ∷ y ∷ ys else y ∷ insert_by x ys

  abbrev pub order_by : List (String × D) → List (String × D)
  order_by [] = []
  order_by (x ∷ xs) = insert_by x (order_by xs)

module _ {V D : Type 0} (distance : V → V → D) where
  abbrev pub distances : V → List (String × V) → List (String × D)
  distances embedding [] = []
  distances embedding ((face_id, vector) ∷ faces) =
      (face_id, distance vector embedding) ∷ distances embedding faces

module _ {D S : Type 0} (similarity : D → S) (reaches : S → Bool) where
  -- `for lychee_face_id, distance in rows`, with the `break` at `limit` results
  unfoldable pub collect : ℕ → List (String × S) → List (String × D) → List (String × S)
  collect limit results [] = results
  collect limit results (row ∷ rows) =
      let found =
        if reaches (similarity row.1) then results ++ (row.0, similarity row.1) ∷ [] else results in
      let rest = collect limit found rows in if leb limit (length found) then found else rest

  abbrev pub near : String × D → Bool
  near row = reaches (similarity row.1)

module _ {D S : Type 0} (similarity : D → S) where
  abbrev pub scored : List (String × D) → List (String × S)
  scored [] = []
  scored (row ∷ rows) = (row.0, similarity row.1) ∷ scored rows

-- The SQLite store; `l2_distance` is that of a table without `distance_metric`.
module _ {V D S : Type 0} (closer : D → D → Bool) (l2_distance : V → V → D) (similarity : D → S)
    (reaches : S → Bool) where
  -- MATCH ? AND k = ? ORDER BY v.distance, with `k` five times the limit, and the loop over the rows
  abbrev pub over_fetched : V → ℕ → List (String × V) → List (String × S)
  over_fetched embedding limit faces =
      collect similarity reaches limit []
        (take (limit * 5) (order_by closer (distances l2_distance embedding faces)))

  unfoldable pub sqlite_search :
      {B F : Type 0} → (ℕ → Outcome) → (B → V) → V → ℕ → SqliteStore.Method B F (List (String × S))
  sqlite_search outcome unpack embedding limit =
      with_connection outcome
        (Sqlite.query outcome (λ t. over_fetched embedding limit (join unpack t.meta t.vecs)))

-- The pgvector store; `cosine_distance` is that of the operator `<=>`.
module _ {V D S : Type 0} (closer : D → D → Bool) (cosine_distance : V → V → D) (similarity : D → S)
    (reaches : S → Bool) where
  -- WHERE similarity >= threshold ORDER BY distance LIMIT limit
  abbrev pub filtered : V → ℕ → List (String × V) → List (String × S)
  filtered embedding limit faces = scored similarity (
      take limit (
        order_by closer
          (filter (near similarity reaches) (distances cosine_distance embedding faces))))

  unfoldable pub pgvector_search :
      {F : Type 0} → (ℕ → Outcome) → V → ℕ → PgvectorStore.Method V F (List (String × S))
  pgvector_search outcome embedding limit = do
    Postgres.get_conn outcome
    Postgres.query outcome (λ rows. filtered embedding limit (embeddings rows))
