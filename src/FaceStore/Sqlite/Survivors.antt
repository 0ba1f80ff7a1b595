-- ===== src/FaceStore/Sqlite/Survivors.antt =====
-- A synchronisation session on `SQLiteEmbeddingStore` keeps exactly the faces that were listed.
use lychee_facial_recognitio.Prelude.{ℕ, String, List, ◌∷◌, arith}
use lychee_facial_recognitio.Sql.{Outcome, Session}
use lychee_facial_recognitio.FaceStore.Rows.{concat}
use lychee_facial_recognitio.FaceStore.SyncSession.{
  SyncStore, SyncEnds, PurgeEnds, Survives, sync_session, session-Survives,
}
use lychee_facial_recognitio.FaceStore.Sqlite.{Tables, sync_batch, purge_absent}
use lychee_facial_recognitio.FaceStore.Sqlite.Transactions.{sync_batch-Atomic, purge_absent-Atomic}
use lychee_facial_recognitio.FaceStore.Sqlite.Chunks.{sync_step-meta}

abbrev pub Always : {B F : Type 0} → Session (Tables B F) → Type 0
Always s = Unit

module _ (B F : Type 0) (outcome : ℕ → Outcome) where
  pub sync_ends :
      (ids : List String) (batch : ℕ) (s : Session (Tables B F))
      → Unit {0}
      → SyncEnds (λ t. t.meta) Always ids batch s (sync_batch outcome ids batch s)
  sync_ends ids batch s ready =
      ground (arith, sync_batch-Atomic outcome s ids batch, sync_step-meta ids batch s.committed)

  pub purge_ends :
      (s : Session (Tables B F))
      → Unit {0}
      → PurgeEnds (λ t. t.meta) Always s (purge_absent outcome s)
  purge_ends s ready = ground (arith, purge_absent-Atomic outcome s)

  abbrev pub sqlite_store : SyncStore ℕ F
  sqlite_store = record {
    Tables = Tables B F;
    rows = λ t. t.meta;
    Ready = Always;
    sync_batch = sync_batch outcome;
    purge_absent = purge_absent outcome;
    sync_batch_ends = sync_ends;
    purge_absent_ends = purge_ends;
  }

-- A synchronisation session on the SQLite store keeps exactly the faces that some batch listed: after
-- batches 0, 1, … and the purge, `face_meta` holds the old rows whose id is in a batch, flagged
-- present, and the purge reports the number of the others; unless a statement failed, and then the
-- session raised.
pub sqlite-session-Survives :
    (B F : Type 0) (outcome : ℕ → Outcome) (first : List String) (rest : List (List String))
    (s : Session (Tables B F))
    → let store = sqlite_store B F outcome in
      Survives store (concat (first ∷ rest)) s (sync_session store (first ∷ rest) s)
sqlite-session-Survives B F outcome first rest s =
    session-Survives (sqlite_store B F outcome) first rest s tt
