-- ===== src/FaceStore/Sqlite/Roundtrip.antt =====
-- What `get_all` of the SQLite store returns for a face that was added.
use mathlib.Core.Bool.{false≢true}
use lychee_facial_recognitio.Prelude.{
  ℕ, ◌≡◌, ◌≢◌, refl, ap, sym, ◌∙◌, String, str_eq, eq_iff, if◌then◌else◌, Bool-cases, inl, inr,
  List, [], ◌∷◌, ◌++◌, arith, some,
}
use lychee_facial_recognitio.Sql.{ok, Outcome, Session}
use lychee_facial_recognitio.Sql.Sqlite.{committed_by}
use lychee_facial_recognitio.Suggestions.{get}
use lychee_facial_recognitio.FaceStore.{FaceRow}
use lychee_facial_recognitio.FaceStore.Pgvector.{embeddings}
use lychee_facial_recognitio.FaceStore.Protocol.{without, new_face}
use lychee_facial_recognitio.FaceStore.Sqlite.{Tables, add, get_all, join}
use lychee_facial_recognitio.FaceStore.Sqlite.Transactions.{add_step, add-Atomic}
use lychee_facial_recognitio.FaceStore.Sqlite.Invariant.{IsFresh, AreLinked, add_step-AreLinked}
use lychee_facial_recognitio.FaceStore.Sqlite.Simulation.{faces, add_step-faces}
use lychee_facial_recognitio.FaceStore.Sqlite.View.{join-faces}

module _ {V F : Type 0} where
  get-snoc_self :
      (rows : List (FaceRow V F)) (r : FaceRow V F)
      → get r.face_id (embeddings (rows ++ r ∷ [])) ≡ some r.vector
  get-snoc_self [] r = ground (arith, eq_iff r.face_id r.face_id)
  get-snoc_self (x ∷ rows) r = ground (arith, get-snoc_self rows r)

  get-snoc_other :
      (key : String) (rows : List (FaceRow V F)) (r : FaceRow V F)
      → r.face_id ≢ key
      → get key (embeddings (rows ++ r ∷ [])) ≡ get key (embeddings rows)
  get-snoc_other key [] r other = ground (arith, eq_iff r.face_id key)
  get-snoc_other key (x ∷ rows) r other = ground (arith, get-snoc_other key rows r)

  get-without :
      (key face_id : String) (rows : List (FaceRow V F))
      → face_id ≢ key
      → get key (embeddings (without face_id rows)) ≡ get key (embeddings rows)
  get-without key face_id [] other = refl
  get-without key face_id (x ∷ rows) other =
      ground
        (arith, get-without key face_id rows other, eq_iff x.face_id face_id, eq_iff x.face_id key)

  get-added :
      (key : String) (rows : List (FaceRow V F)) (r : FaceRow V F)
      → get key (embeddings (without r.face_id rows ++ r ∷ []))
        ≡ (if str_eq r.face_id key then some r.vector else get key (embeddings rows))
  get-added key rows r = elim (Bool-cases (str_eq r.face_id key)) [
    | inl same ↦ rw same (
        ap (λ k. get k (embeddings (without r.face_id rows ++ r ∷ [])))
          (sym ((eq_iff r.face_id key).0 same))
        ∙ get-snoc_self (without r.face_id rows) r)
    | inr differ ↦
        let other : r.face_id ≢ key = λ e. false≢true (sym differ ∙ (eq_iff r.face_id key).1 e) in
        rw differ (
          get-snoc_other key (without r.face_id rows) r other
          ∙ get-without key r.face_id rows other)
  ]

-- `get_all` that runs returns the join of the tables.
module _ {B V F : Type 0} (outcome : ℕ → Outcome) (unpack : B → V) where
  get_all-join :
      (s : Session (Tables B F)) (found : List (String × V))
      → (get_all outcome unpack s).0 ≡ ok found
      → found ≡ join unpack s.committed.meta s.committed.vecs
  unfolding get_all
  get_all-join s found e = ground arith

  module _ (new_rowid : List ℕ → ℕ) (pack : V → B) where
    -- If the vector table gives fresh rowids and the tables are linked: when `get_all` is read, a face is
    -- added, and `get_all` is read again, all without an error, then the second reading has for the face
    -- the embedding as it is after packing and unpacking, and for every other face what the first had.
    pub add-get_all :
        (face_id : String) (embedding : V) (photo_id : String) (variance : F) (crop_path : String)
        (key : String) (s : Session (Tables B F)) (old found : List (String × V))
        → IsFresh new_rowid
        → AreLinked s.committed
        → (get_all outcome unpack s).0 ≡ ok old
        → (add outcome new_rowid pack face_id embedding photo_id variance crop_path s).0 ≡ ok tt
        → let s' = (add outcome new_rowid pack face_id embedding photo_id variance crop_path s).1 in
          (get_all outcome unpack s').0 ≡ ok found
          → get key found
            ≡ (if str_eq face_id key then some (unpack (pack embedding)) else get key old)
    add-get_all face_id embedding photo_id variance crop_path key s old found fresh l before added
          after =
        let t = s.committed in
        let step = add_step new_rowid face_id (pack embedding) photo_id variance crop_path in
        let t' = (step t).1 in
        let end = add outcome new_rowid pack face_id embedding photo_id variance crop_path s in
        let l' =
          add_step-AreLinked new_rowid face_id (pack embedding) photo_id variance crop_path t fresh
            l in
        let committed =
          committed_by step s end tt
            (add-Atomic outcome s new_rowid pack face_id embedding photo_id variance crop_path)
            added in
        let row = new_face face_id (unpack (pack embedding)) photo_id variance crop_path in
        let read =
          get_all-join end.1 found after
          ∙ ap (λ u. join unpack u.meta u.vecs) committed
          ∙ join-faces unpack t'.meta t'.vecs l'
          ∙ ap embeddings (
              add_step-faces unpack new_rowid face_id (pack embedding) photo_id variance crop_path t
                l) in
        let first = get_all-join s old before ∙ join-faces unpack t.meta t.vecs l in
        ap (get key) read
        ∙ get-added key (faces unpack t) row
        ∙ ap
            (λ entries.
              if str_eq face_id key then some (unpack (pack embedding)) else get key entries)
            (sym first)
