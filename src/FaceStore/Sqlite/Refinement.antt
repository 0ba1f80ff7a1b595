-- ===== src/FaceStore/Sqlite/Refinement.antt =====
-- `SQLiteEmbeddingStore` is one table of faces, whatever statements fail.
use lychee_facial_recognitio.Prelude.{ℕ, ap, sym, ◌∙◌, subst, List}
use lychee_facial_recognitio.Sql.{Result, ok, err, Outcome, Session}
use lychee_facial_recognitio.Sql.History.{perform, Explains, Answers, perform-Explains}
use lychee_facial_recognitio.Sql.Sqlite.{Atomic}
use lychee_facial_recognitio.FaceStore.{FaceRow}
use lychee_facial_recognitio.FaceStore.Protocol.{Request, Reply, serve}
use lychee_facial_recognitio.FaceStore.Sqlite.{Tables, chunks, max_vars}
use lychee_facial_recognitio.FaceStore.Sqlite.Simulation.{faces, step_of-serve}
use lychee_facial_recognitio.FaceStore.Sqlite.Calls.{step_of, call, call-Atomic}
use lychee_facial_recognitio.FaceStore.Sqlite.Invariant.{IsFresh, AreLinked}

-- The one table, with embeddings as they are after packing, and with the slices of the SQLite store.
abbrev pub protocol :
    {B V F : Type 0}
    → (V → B)
    → (B → V)
    → Request V F
    → List (FaceRow V F)
    → Reply V F × List (FaceRow V F)
protocol pack unpack = serve (λ v. unpack (pack v)) (chunks max_vars)

module _ {B V F : Type 0} (outcome : ℕ → Outcome) (new_rowid : List ℕ → ℕ) (pack : V → B)
    (unpack : B → V) (fresh : IsFresh new_rowid) where
  answer_of :
      (request : Request V F) (s : Session (Tables B F))
      (end : Result (Reply V F) × Session (Tables B F))
      → AreLinked s.committed
      → Atomic (step_of new_rowid pack unpack request) s end
      → Answers (protocol pack unpack) (faces unpack) request s end × AreLinked end.1.committed
  answer_of request s (ok reply, s') l h =
      let (answer, after, linked) =
        step_of-serve unpack new_rowid pack request s.committed fresh l in
      ((h.0 ∙ answer, ap (faces unpack) h.1 ∙ after, h.2), subst AreLinked (sym h.1) linked)
  answer_of request s (err e, s') l h = (h, subst AreLinked (sym h.0) l)

  -- If the vector table gives fresh rowids: whatever statements fail, from tables that are linked, each
  -- request to the SQLite store is answered as one table of faces answers it, or raises and changes
  -- nothing; the committed tables after the whole sequence stand for the faces that the answered requests
  -- lead to.
  pub sqlite_store-perform-Explains :
      (requests : List (Request V F)) (s : Session (Tables B F))
      → AreLinked s.committed
      → let (replies, s') = perform (call new_rowid pack unpack outcome) requests s in
        Explains
          (protocol pack unpack)
          requests
          replies
          (faces unpack s.committed)
          (faces unpack s'.committed)
  sqlite_store-perform-Explains =
      perform-Explains (protocol pack unpack) (faces unpack) (call new_rowid pack unpack outcome)
        (λ s. AreLinked s.committed)
        (λ request s l.
          answer_of request s (call new_rowid pack unpack outcome request s) l
            (call-Atomic new_rowid pack unpack outcome request s))
