-- ===== src/FaceStore/Search/Agreement.antt =====
-- The search of the SQLite store, which cuts before it filters, loses nothing by that.
use lychee_facial_recognitio.Prelude.{ℕ, ◌<◌, ◌≡◌, Bool, String, List}
use lychee_facial_recognitio.Sql.{Result, ok, err, Session}
use lychee_facial_recognitio.FaceStore.Sqlite.{Tables, join}
use lychee_facial_recognitio.FaceStore.Search.{filtered}
use lychee_facial_recognitio.FaceStore.Search.Ranking.{IsOrder}

module _ {V D S : Type 0} (closer : D → D → Bool) (distance : V → V → D) (similarity : D → S)
    (reaches : S → Bool) (order : IsOrder closer similarity reaches) where
  -- What a search ends with: the reference's faces, or an error after a statement that failed.
  abbrev pub Finds :
      {B F : Type 0}
      → (B → V)
      → V
      → ℕ
      → Session (Tables B F)
      → Result (List (String × S)) × Session (Tables B F)
      → Type 0
  Finds unpack embedding limit s (ok found, s') =
      found
      ≡ filtered closer distance similarity reaches embedding limit
          (join unpack s.committed.meta s.committed.vecs)
  Finds unpack embedding limit s (err e, s') = s.faults < s'.faults
