-- ===== src/FaceStore/Pgvector/Survivors.antt =====
-- A synchronisation session on `PgVectorEmbeddingStore` keeps exactly the faces that were listed.
use lychee_facial_recognitio.Prelude.{
  ℕ, ◌≡◌, refl, sym, String, List, [], ◌∷◌, arith, if◌then◌else◌, ◌==◌,
}
use lychee_facial_recognitio.Sql.{Outcome, Session}
use lychee_facial_recognitio.Sql.Postgres.{IsHealthy}
use lychee_facial_recognitio.FaceStore.{FaceRow, set_present, reset_present}
use lychee_facial_recognitio.FaceStore.Rows.{concat, set_present-nil}
use lychee_facial_recognitio.FaceStore.SyncSession.{
  SyncStore, SyncEnds, PurgeEnds, Survives, sync_session, session-Survives,
}
use lychee_facial_recognitio.FaceStore.Pgvector.{sync_batch, purge_absent}
use lychee_facial_recognitio.FaceStore.Pgvector.Transactions.{
  mark_step, sync_batch-Atomic, purge_absent-Atomic,
}

mark_step-rows :
    {V F : Type 0} (ids : List String) (rows : List (FaceRow V F))
    → (mark_step ids rows).1 ≡ set_present ids rows
mark_step-rows [] rows = sym (set_present-nil rows)
mark_step-rows (id ∷ ids) rows = refl

module _ (V F : Type 0) (outcome : ℕ → Outcome) where
  pub sync_ends :
      (ids : List String) (batch : ℕ) (s : Session (List (FaceRow V F)))
      → IsHealthy s
      → SyncEnds (λ rows. rows) IsHealthy ids batch s (sync_batch outcome ids batch s)
  sync_ends ids batch s ready =
      let rows = if batch == 0 then reset_present s.committed else s.committed in
      ground (arith, sync_batch-Atomic outcome s ready ids batch, mark_step-rows ids rows)

  pub purge_ends :
      (s : Session (List (FaceRow V F)))
      → IsHealthy s
      → PurgeEnds (λ rows. rows) IsHealthy s (purge_absent outcome s)
  purge_ends s ready = ground (arith, purge_absent-Atomic outcome s ready)

  abbrev pub pgvector_store : SyncStore V F
  pgvector_store = record {
    Tables = List (FaceRow V F);
    rows = λ rows. rows;
    Ready = IsHealthy;
    sync_batch = sync_batch outcome;
    purge_absent = purge_absent outcome;
    sync_batch_ends = sync_ends;
    purge_absent_ends = purge_ends;
  }

-- From a connection with nothing uncommitted (or an aborted transaction), a synchronisation session on
-- the pgvector store keeps exactly the faces that some batch listed: after batches 0, 1, … and the
-- purge, `face_embeddings` holds the old rows whose id is in a batch, flagged present, and the purge
-- reports the number of the others; unless a statement failed, and then the session raised.
pub pgvector-session-Survives :
    (V F : Type 0) (outcome : ℕ → Outcome) (first : List String) (rest : List (List String))
    (s : Session (List (FaceRow V F)))
    → IsHealthy s
    → let store = pgvector_store V F outcome in
      Survives store (concat (first ∷ rest)) s (sync_session store (first ∷ rest) s)
pgvector-session-Survives V F outcome first rest s ready =
    session-Survives (pgvector_store V F outcome) first rest s ready
