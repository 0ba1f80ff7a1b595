-- ===== src/FaceStore/Pgvector/Transactions.antt =====
-- Every write of `PgVectorEmbeddingStore` is one transaction; one that raises changes nothing, unless
-- the connection was lost in its commit. Once a
-- statement has raised, the kept connection is of no more use until it is lost.
use lychee_facial_recognitio.Prelude.{
  ℕ, ◌==◌, ◌≡◌, String, Bool, true, false, not, List, [], ◌∷◌, arith, if◌then◌else◌, Bool-cases,
  inl, inr,
}
use lychee_facial_recognitio.Sql.{
  Result, err, operational_error, in_failed_transaction, Outcome, Session,
}
use lychee_facial_recognitio.Sql.Postgres.{Atomic, IsHealthy}
use lychee_facial_recognitio.FaceStore.{
  FaceRow, has_face, is_listed, mark_present, delete_where, flagged, reset_present,
}
use lychee_facial_recognitio.FaceStore.Pgvector.{
  upsert, add, delete, delete_many, sync_batch, purge_absent,
}

module _ {V F : Type 0} where
  abbrev pub mark_step : List String → List (FaceRow V F) → ℕ × List (FaceRow V F)
  mark_step [] rows = (0, rows)
  mark_step (face_id ∷ face_ids) rows = mark_present (face_id ∷ face_ids) rows

  abbrev pub sync_step : List String → ℕ → List (FaceRow V F) → ℕ × List (FaceRow V F)
  sync_step face_ids batch rows =
      mark_step face_ids (if batch == 0 then reset_present rows else rows)

  abbrev pub purge_step : List (FaceRow V F) → ℕ × List (FaceRow V F)
  purge_step = delete_where (λ r. not (flagged r))

  abbrev pub delete_many_step : List String → List (FaceRow V F) → ℕ × List (FaceRow V F)
  delete_many_step [] rows = (0, rows)
  delete_many_step (face_id ∷ face_ids) rows = delete_where (is_listed (face_id ∷ face_ids)) rows

module _ {V F : Type 0} (outcome : ℕ → Outcome) (s : Session (List (FaceRow V F)))
    (healthy : IsHealthy s) where
  pub add-Atomic :
      (face_id : String) (embedding : V) (photo_id : String) (variance : F) (crop_path : String)
      → Atomic
          (λ rows. (tt, upsert face_id embedding photo_id variance crop_path rows))
          s
          (add outcome face_id embedding photo_id variance crop_path s)
  unfolding add
  add-Atomic face_id embedding photo_id variance crop_path = ground arith

  pub delete-Atomic :
      (face_id : String)
      → Atomic (λ rows. (tt, (delete_where (has_face face_id) rows).1)) s (delete outcome face_id s)
  unfolding delete
  delete-Atomic face_id = ground arith

  pub sync_batch-Atomic :
      (face_ids : List String) (batch : ℕ)
      → Atomic (sync_step face_ids batch) s (sync_batch outcome face_ids batch s)
  unfolding sync_batch
  sync_batch-Atomic [] batch = elim (Bool-cases (batch == 0)) [
    | inl first ↦ ground (arith, first)
    | inr later ↦ ground (arith, later)
  ]
  sync_batch-Atomic (face_id ∷ face_ids) batch = elim (Bool-cases (batch == 0)) [
    | inl first ↦ ground (arith, first)
    | inr later ↦ ground (arith, later)
  ]

  pub purge_absent-Atomic : Atomic purge_step s (purge_absent outcome s)
  unfolding purge_absent
  purge_absent-Atomic = ground arith

  delete_many_listed :
      (face_id : String) (face_ids : List String)
      → Atomic
          (delete_many_step (face_id ∷ face_ids))
          s
          (delete_many outcome (face_id ∷ face_ids) s)
  unfolding delete_many
  delete_many_listed face_id face_ids = ground arith

-- A method that was called on the kept connection while its transaction is aborted; the Boolean says if the
-- connection outlives the method's first call of the driver.
abbrev pub IsStuck : {T A : Type 0} → Session T → Bool → Result A × Session T → Type 0
IsStuck s true (r, s') =
    (r ≡ err in_failed_transaction)
    × (s'.committed ≡ s.committed)
    × (s'.connected ≡ true)
    × (s'.aborted ≡ true)
IsStuck s false (r, s') =
    (r ≡ err operational_error) × (s'.committed ≡ s.committed) × (s'.connected ≡ false)
