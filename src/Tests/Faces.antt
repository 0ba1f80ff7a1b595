-- ===== src/Tests/Faces.antt =====
-- The theorems about the embedding stores at concrete inputs.
use lychee_facial_recognitio.Prelude.{
  ℕ, suc, ◌≡◌, ◌≢◌, refl, String, Bool, Option, none, true, false, some, List, [], ◌∷◌, arith, All,
  ◌≤◌, max,
}
use lychee_facial_recognitio.Sql.{Outcome, fine, Session, ok}
use lychee_facial_recognitio.FaceStore.{FaceRow, set_present, reset_present}
use lychee_facial_recognitio.FaceStore.Rows.{concat}
use lychee_facial_recognitio.FaceStore.SyncSession.{sync_session, Survives}
use lychee_facial_recognitio.FaceStore
use lychee_facial_recognitio.FaceStore.Sqlite.{Tables, chunks, max_vars}
use lychee_facial_recognitio.FaceStore.Sqlite.Invariant.{IsFresh, AreLinked, writes-AreLinked}
use lychee_facial_recognitio.FaceStore.Sqlite.Survivors.{sqlite_store, sqlite-session-Survives}
use lychee_facial_recognitio.FaceStore.Pgvector.{upsert}
use lychee_facial_recognitio.FaceStore.Pgvector.Survivors.{
  pgvector_store, pgvector-session-Survives,
}
use lychee_facial_recognitio.FaceStore.Readd.{flag_of, add_flags}

abbrev pub all_fine : ℕ → Outcome
all_fine _ = fine

abbrev pub session : {T : Type 0} → T → Session T
session t = record {
  committed = t;
  working = t;
  connected = true;
  aborted = false;
  clock = 0;
  faults = 0;
}

abbrev pub face : {V : Type 0} → String → V → Bool → FaceRow V ℕ
face face_id vector is_present = record {
  face_id = face_id;
  vector = vector;
  photo_id = "p";
  laplacian_variance = 120;
  crop_path = "";
  is_present = is_present;
}

abbrev pub tables : Tables String ℕ
tables = record {
  meta = face "f" 1 true ∷ face "g" 2 false ∷ [];
  vecs = (1, "blob") ∷ (2, "other") ∷ [];
}

abbrev embedded : List (FaceRow String ℕ)
embedded = face "f" "blob" true ∷ face "g" "other" false ∷ []

-- One more than every rowid.
abbrev pub next_rowid : List ℕ → ℕ
next_rowid [] = 1
next_rowid (k ∷ ks) = max (suc k) (next_rowid ks)

All-below : (bound : ℕ) (ks : List ℕ) → next_rowid ks ≤ bound → All (λ k. k ≢ bound) ks
All-below bound [] h = tt
All-below bound (k ∷ ks) h = (omega arith, All-below bound ks (omega arith))

pub next_rowid-IsFresh : IsFresh next_rowid
next_rowid-IsFresh ks = All-below (next_rowid ks) ks (omega arith)

sqlite-session-Survives_example :
    let store = sqlite_store String ℕ all_fine in
    Survives store
      (concat (("f" ∷ []) ∷ ("h" ∷ []) ∷ []))
      (session tables)
      (sync_session store (("f" ∷ []) ∷ ("h" ∷ []) ∷ []) (session tables))
sqlite-session-Survives_example =
    sqlite-session-Survives String ℕ all_fine ("f" ∷ []) (("h" ∷ []) ∷ []) (session tables)

pgvector-session-Survives_example :
    let store = pgvector_store String ℕ all_fine in
    Survives store
      (concat (("f" ∷ []) ∷ ("h" ∷ []) ∷ []))
      (session embedded)
      (sync_session store (("f" ∷ []) ∷ ("h" ∷ []) ∷ []) (session embedded))
pgvector-session-Survives_example =
    pgvector-session-Survives String ℕ all_fine ("f" ∷ []) (("h" ∷ []) ∷ []) (session embedded) refl

pub tables-AreLinked : AreLinked tables
tables-AreLinked = ground arith

abbrev pub pack : String → String
pack embedding = embedding

writes-AreLinked_example :
    AreLinked
      (FaceStore.Sqlite.add all_fine next_rowid pack "h" "new" "p" 90 ""
        (session tables)).1.committed
    × AreLinked (FaceStore.Sqlite.delete all_fine "h" (session tables)).1.committed
    × AreLinked (FaceStore.Sqlite.delete_many all_fine ("f" ∷ []) (session tables)).1.committed
    × AreLinked (FaceStore.Sqlite.sync_batch all_fine ("f" ∷ []) 0 (session tables)).1.committed
    × AreLinked (FaceStore.Sqlite.purge_absent all_fine (session tables)).1.committed
writes-AreLinked_example =
    writes-AreLinked all_fine next_rowid pack "h" ("f" ∷ []) 0 "new" 90 "p" "" (session tables)
      next_rowid-IsFresh tables-AreLinked

-- The text of a vector as it is iterated over; a numeral is read, a bracket is not.
abbrev characters : String → List (Option ℕ)
characters vector = none ∷ some 1 ∷ none ∷ []

abbrev to_float : Option ℕ → Option ℕ
to_float character = character

abbrev stuck : Session (List (FaceRow String ℕ))
stuck = record (session embedded) { aborted = true }

sqlite_added :
    (FaceStore.Sqlite.add all_fine next_rowid pack "g" "new" "p" 90 "" (session tables)).0 ≡ ok tt
unfolding FaceStore.Sqlite.add
sqlite_added = refl

pgvector_added : (FaceStore.Pgvector.add all_fine "g" "new" "p" 90 "" (session embedded)).0 ≡ ok tt
unfolding FaceStore.Pgvector.add
pgvector_added = refl

add_flags_example :
    let s' =
      (FaceStore.Sqlite.add all_fine next_rowid pack "g" "new" "p" 90 "" (session tables)).1 in
    let p' = (FaceStore.Pgvector.add all_fine "g" "new" "p" 90 "" (session embedded)).1 in
    (flag_of "g" s'.committed.meta ≡ some true) × (flag_of "g" p'.committed ≡ some false)
add_flags_example =
    add_flags all_fine next_rowid pack "g" "new" "p" 90 "" (session tables) (session embedded) refl
      sqlite_added pgvector_added
