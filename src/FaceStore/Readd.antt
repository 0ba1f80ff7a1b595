-- ===== src/FaceStore/Readd.antt =====
-- `add` of a face that is stored already, in the two backends.
use lychee_facial_recognitio.Prelude.{
  ℕ, ◌≡◌, refl, String, eq_iff, Bool, true, not, List, [], ◌∷◌, ◌++◌, filter, arith, Option, none,
  some, Option-cases, inl, inr,
}
use lychee_facial_recognitio.FaceStore.{FaceRow, has_face, find_face}
use lychee_facial_recognitio.FaceStore.Pgvector.{upsert}
use lychee_facial_recognitio.FaceStore.Sqlite.{Tables}
use lychee_facial_recognitio.FaceStore.Sqlite as SqliteStore
use lychee_facial_recognitio.FaceStore.Sqlite.Transactions
use lychee_facial_recognitio.FaceStore.Sqlite.Transactions.{add_step, delete_step}
use lychee_facial_recognitio.FaceStore.Pgvector
use lychee_facial_recognitio.FaceStore.Pgvector.Transactions as PgTransactions
use lychee_facial_recognitio.Sql.Sqlite
use lychee_facial_recognitio.Sql.Postgres
use lychee_facial_recognitio.Sql.{Outcome, Session, ok}
use lychee_facial_recognitio.Sql.Postgres.{IsHealthy}

-- The flag of a face: `none` if it is not stored.
abbrev pub flag_of : {V F : Type 0} → String → List (FaceRow V F) → Option Bool
flag_of face_id rows = elim (find_face face_id rows) [ none ↦ none | some r ↦ some r.is_present ]

module _ {V F : Type 0} (face_id : String) (embedding : V) (photo_id : String) (variance : F)
    (crop_path : String) where
  upsert_flag :
      (rows : List (FaceRow V F))
      → flag_of face_id (upsert face_id embedding photo_id variance crop_path rows)
        ≡ (elim (flag_of face_id rows) [ none ↦ some true | some flag ↦ some flag ])
  unfolding upsert
  upsert_flag [] = ground (arith, eq_iff face_id face_id)
  upsert_flag (r ∷ rows) = ground (arith, upsert_flag rows)

module _ {F : Type 0} where
  find_last :
      (face_id : String) (rows : List (FaceRow ℕ F)) (r : FaceRow ℕ F)
      → r.face_id ≡ face_id
      → find_face face_id rows ≡ none
      → find_face face_id (rows ++ r ∷ []) ≡ some r
  find_last face_id [] r e gone = ground (arith, eq_iff r.face_id face_id)
  find_last face_id (x ∷ rows) r e gone = ground (arith, find_last face_id rows r)

  flag_last :
      (face_id : String) (rows : List (FaceRow ℕ F)) (r : FaceRow ℕ F)
      → r.face_id ≡ face_id
      → find_face face_id rows ≡ none
      → flag_of face_id (rows ++ r ∷ []) ≡ some r.is_present
  flag_last face_id rows r e gone = ground (arith, find_last face_id rows r e gone)

  find_filter_self :
      (face_id : String) (rows : List (FaceRow ℕ F))
      → find_face face_id (filter (λ r. not (has_face face_id r)) rows) ≡ none
  find_filter_self face_id [] = refl
  find_filter_self face_id (x ∷ rows) = ground (arith, find_filter_self face_id rows)

deleted_gone :
    {B F : Type 0} (face_id : String) (t : Tables B F)
    → find_face face_id (delete_step face_id t).1.meta ≡ none
deleted_gone face_id t = elim (Option-cases (find_face face_id t.meta)) [
  | inl absent ↦ ground (arith, absent)
  | inr (r, found) ↦ ground (arith, found, find_filter_self face_id t.meta)
]

-- After `add` has returned (on a usable connection, for pgvector), the SQLite store has the face flagged present, whether it was stored or not;
-- the pgvector store does so for a new face only, and leaves the flag of a stored face as it was. So a
-- face that was flagged absent and is added again in the middle of a synchronisation survives the purge
-- in the one store and is deleted by it in the other.
pub add_flags :
    {B V F : Type 0} (outcome : ℕ → Outcome) (new_rowid : List ℕ → ℕ) (pack : V → B)
    (face_id : String) (embedding : V) (photo_id : String) (variance : F) (crop_path : String)
    (s : Session (Tables B F)) (p : Session (List (FaceRow V F)))
    → IsHealthy p
    → (SqliteStore.add outcome new_rowid pack face_id embedding photo_id variance crop_path s).0
      ≡ ok tt
    → (Pgvector.add outcome face_id embedding photo_id variance crop_path p).0 ≡ ok tt
    → let s' =
        (SqliteStore.add outcome new_rowid pack face_id embedding photo_id variance crop_path
          s).1 in
      let p' = (Pgvector.add outcome face_id embedding photo_id variance crop_path p).1 in
      (flag_of face_id s'.committed.meta ≡ some true)
      × (flag_of face_id p'.committed
          ≡ (elim (flag_of face_id p.committed) [ none ↦ some true | some flag ↦ some flag ]))
add_flags outcome new_rowid pack face_id embedding photo_id variance crop_path s p healthy done
      added =
    let after =
      Sqlite.committed_by (add_step new_rowid face_id (pack embedding) photo_id variance crop_path)
        s (SqliteStore.add outcome new_rowid pack face_id embedding photo_id variance crop_path s)
        tt
        (Transactions.add-Atomic outcome s new_rowid pack face_id embedding photo_id variance
          crop_path)
        done in
    let pg_after =
      Postgres.committed_by
        (λ rows. (tt, upsert face_id embedding photo_id variance crop_path rows)) p
        (Pgvector.add outcome face_id embedding photo_id variance crop_path p) tt
        (PgTransactions.add-Atomic outcome p healthy face_id embedding photo_id variance crop_path)
        added in
    (
      rw after (
          flag_last face_id (delete_step face_id s.committed).1.meta _ refl
            (deleted_gone face_id s.committed)),
      rw pg_after (upsert_flag face_id embedding photo_id variance crop_path p.committed),
    )
