-- ===== src/Tests/Stores.antt =====
-- The theorems about the SQLite store as one table of faces, at concrete inputs.
use lychee_facial_recognitio.Prelude.{
  ℕ, ◌==◌, ◌≡◌, refl, String, str_eq, some, List, [], ◌∷◌, if◌then◌else◌,
}
use lychee_facial_recognitio.Sql.{Outcome, fine, fault, ok}
use lychee_facial_recognitio.Sql.History.{perform, Explains}
use lychee_facial_recognitio.Suggestions.{get}
use lychee_facial_recognitio.FaceStore.Protocol.{Request}
use lychee_facial_recognitio.FaceStore.Sqlite.{add, get_all}
use lychee_facial_recognitio.FaceStore.Sqlite.Calls.{call}
use lychee_facial_recognitio.FaceStore.Sqlite.Simulation.{faces}
use lychee_facial_recognitio.FaceStore.Sqlite.Refinement.{protocol, sqlite_store-perform-Explains}
use lychee_facial_recognitio.FaceStore.Sqlite.Roundtrip.{add-get_all}
use lychee_facial_recognitio.Tests.Faces.{
  all_fine, session, tables, next_rowid, next_rowid-IsFresh, tables-AreLinked, pack,
}

-- The fourth call of the driver fails.
abbrev one_fault : ℕ → Outcome
one_fault n = if n == 3 then fault else fine

abbrev requests : List (Request String ℕ)
requests =
    Request.count
    ∷ Request.add "h" "new" "p" 90 ""
    ∷ Request.add "f" "newer" "p" 95 ""
    ∷ Request.get_all
    ∷ Request.sync_batch ("f" ∷ []) 0
    ∷ Request.purge_absent
    ∷ Request.delete_many ("f" ∷ "g" ∷ [])
    ∷ []

sqlite_store-perform-Explains_example :
    let (replies, s') = perform (call next_rowid pack pack one_fault) requests (session tables) in
    Explains (protocol pack pack) requests replies (faces pack tables) (faces pack s'.committed)
sqlite_store-perform-Explains_example =
    sqlite_store-perform-Explains one_fault next_rowid pack pack next_rowid-IsFresh requests
      (session tables) tables-AreLinked

abbrev old : List (String × String)
old = ("f", "blob") ∷ ("g", "other") ∷ []

abbrev new : List (String × String)
new = ("g", "other") ∷ ("f", "newer") ∷ []

read_before : (get_all all_fine pack (session tables)).0 ≡ ok old
unfolding get_all
read_before = refl

added : (add all_fine next_rowid pack "f" "newer" "p" 90 "" (session tables)).0 ≡ ok tt
unfolding add
added = refl

read_after :
    (get_all all_fine pack
      (add all_fine next_rowid pack "f" "newer" "p" 90 "" (session tables)).1).0
    ≡ ok new
unfolding add get_all
read_after = refl

add-get_all_example : get "f" new ≡ (if str_eq "f" "f" then some "newer" else get "f" old)
add-get_all_example =
    add-get_all all_fine pack next_rowid pack "f" "newer" "p" 90 "" "f" (session tables) old new
      next_rowid-IsFresh tables-AreLinked read_before added read_after
