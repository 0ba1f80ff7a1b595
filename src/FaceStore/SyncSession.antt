-- ===== src/FaceStore/SyncSession.antt =====
-- A synchronisation session as a client runs it, `DELETE /embeddings/sync` with batches 0, 1, 2, … and
-- then `DELETE /embeddings/purge`, over any store whose `sync_batch` and `purge_absent` keep the laws
-- of `SyncStore`. The two backends fill it (Sqlite/Survivors, Pgvector/Survivors).
use lychee_facial_recognitio.Prelude.{
  ℕ, suc, ◌+◌, ◌<◌, ◌≡◌, refl, String, List, [], ◌∷◌, length, filter, not, arith, sym,
  if◌then◌else◌, ◌==◌,
}
use lychee_facial_recognitio.Sql.{Result, ok, err, Session, Tx, pure, ◌>>◌}
use lychee_facial_recognitio.FaceStore.{FaceRow, is_listed, set_present, reset_present, flagged}
use lychee_facial_recognitio.FaceStore.Rows.{
  concat, flag_all, set_present-append, set_present-nil, marked_survivors, marked_victims,
}

module _ {T V F : Type 0} (rows : T → List (FaceRow V F)) (Ready : Session T → Type 0) where
  -- The rows that a batch leaves, or some statement failed.
  abbrev pub SyncEnds : List String → ℕ → Session T → Result ℕ × Session T → Type 0
  SyncEnds ids batch s (ok _, s') =
      (rows s'.committed
        ≡ set_present ids
            (if batch == 0 then reset_present (rows s.committed) else rows s.committed))
      × (s'.faults ≡ s.faults)
      × Ready s'
  SyncEnds ids batch s (err e, s') = s.faults < s'.faults

  abbrev pub PurgeEnds : Session T → Result ℕ × Session T → Type 0
  PurgeEnds s (ok deleted, s') =
      (rows s'.committed ≡ filter (λ r. not (not (flagged r))) (rows s.committed))
      × (deleted ≡ length (filter (λ r. not (flagged r)) (rows s.committed)))
      × (s'.faults ≡ s.faults)
  PurgeEnds s (err e, s') = s.faults < s'.faults

pub record SyncStore (V F : Type 0) : Type 1 where
  pub Tables : Type 0
  pub rows : Tables → List (FaceRow V F)
  pub Ready : Session Tables → Type 0
  pub sync_batch : List String → ℕ → Tx Tables ℕ
  pub purge_absent : Tx Tables ℕ
  pub sync_batch_ends :
      (ids : List String) (batch : ℕ) (s : Session Tables)
      → Ready s
      → SyncEnds rows Ready ids batch s (sync_batch ids batch s)
  pub purge_absent_ends : (s : Session Tables) → Ready s → PurgeEnds rows Ready s (purge_absent s)

module _ {V F : Type 0} (store : SyncStore V F) where
  open store use {Tables, rows, Ready, sync_batch, purge_absent, sync_batch_ends, purge_absent_ends}

  abbrev pub sync_from : ℕ → List (List String) → Tx Tables (Unit {0})
  sync_from batch [] = pure tt
  sync_from batch (ids ∷ rest) = do sync_batch ids batch; sync_from (batch + 1) rest

  unfoldable pub sync_session : List (List String) → Tx Tables ℕ
  sync_session batches = do sync_from 0 batches; purge_absent

  abbrev Marks : List (FaceRow V F) → Session Tables → Result (Unit {0}) × Session Tables → Type 0
  Marks marked s (ok _, s') = (rows s'.committed ≡ marked) × (s'.faults ≡ s.faults) × Ready s'
  Marks marked s (err e, s') = s.faults < s'.faults

  sync_from_later :
      (batch : ℕ) (batches : List (List String)) (s : Session Tables)
      → Ready s
      → Marks (set_present (concat batches) (rows s.committed)) s (sync_from (suc batch) batches s)
  sync_from_later batch [] s ready = (sym (set_present-nil (rows s.committed)), refl, ready)
  sync_from_later batch (ids ∷ rest) s ready =
      let s' = (sync_batch ids (suc batch) s).1 in
      ground (
        arith,
        sync_batch_ends ids (suc batch) s ready,
        sync_from_later (suc batch) rest s',
        set_present-append ids (concat rest) (rows s.committed),
      )

  sync_from_first :
      (first : List String) (rest : List (List String)) (s : Session Tables)
      → Ready s
      → Marks
          (set_present (concat (first ∷ rest)) (reset_present (rows s.committed)))
          s
          (sync_from 0 (first ∷ rest) s)
  sync_from_first first rest s ready =
      let s' = (sync_batch first 0 s).1 in
      ground (
        arith,
        sync_batch_ends first 0 s ready,
        sync_from_later 0 rest s',
        set_present-append first (concat rest) (reset_present (rows s.committed)),
      )

  -- How a session ends: the faces that stay are those that were listed, with all else of their rows
  -- unchanged and their flag set; the count is that of the others. Or some statement failed.
  abbrev pub Survives : List String → Session Tables → Result ℕ × Session Tables → Type 0
  Survives ids s (ok deleted, s') =
      (rows s'.committed ≡ flag_all (filter (is_listed ids) (rows s.committed)))
      × (deleted ≡ length (filter (λ r. not (is_listed ids r)) (rows s.committed)))
      × (s'.faults ≡ s.faults)
  Survives ids s (err e, s') = s.faults < s'.faults

  pub session-Survives :
      (first : List String) (rest : List (List String)) (s : Session Tables)
      → Ready s
      → Survives (concat (first ∷ rest)) s (sync_session (first ∷ rest) s)
  unfolding sync_session
  session-Survives first rest s ready =
      let ids = concat (first ∷ rest) in
      let s' = (sync_from 0 (first ∷ rest) s).1 in
      ground (
        arith,
        sync_from_first first rest s ready,
        purge_absent_ends s',
        marked_survivors ids (rows s.committed),
        marked_victims ids (rows s.committed),
      )
