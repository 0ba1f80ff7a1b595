-- ===== src/FaceStore/Sqlite.antt =====
-- app/embeddings/sqlite_store.py: `SQLiteEmbeddingStore`. Two tables: `face_meta`, whose rows hold the
-- rowid of their vector, and the vector table `vec_faces` of sqlite-vec. Every write runs under the
-- store's lock, each method on a connection of its own. `pack` and `unpack` are `struct.pack` and
-- `struct.unpack` between an embedding and its blob; `new_rowid` is the rowid that `vec_faces` gives to
-- a new row.
pub mod Transactions
pub mod Chunks
pub mod Linked
pub mod Invariant
pub mod Survivors
pub mod View
pub mod Calls
pub mod Simulation
pub mod Refinement
pub mod Roundtrip
use lychee_facial_recognitio.Prelude.{
  ℕ, zero, suc, ◌+◌, if◌then◌else◌, String, Bool, true, false, not, List, [], ◌∷◌, ◌++◌, length,
  ◌==◌, map, Option, none, some, filter, take, drop,
}
use lychee_facial_recognitio.Sql.{Outcome, Tx, pure, ◌>>=◌, ◌>>◌, try_finally}
use lychee_facial_recognitio.Sql.Sqlite.{query, run, update, connect, commit, close}
use lychee_facial_recognitio.FaceStore.{
  FaceRow, has_face, elem, flagged, reset_present, mark_present, delete_where, count_photo,
  metadata, find_face,
}

pub record Tables (B F : Type 0) : Type 0 where
  pub meta : List (FaceRow ℕ F)
  pub vecs : List (ℕ × B)

-- `_SQLITE_MAX_VARS`
abbrev pub max_vars : ℕ
max_vars = 999

-- `for i in range(0, len(face_ids), _SQLITE_MAX_VARS)`: the slices of the list, of `size` each. The fuel
-- is the length of the list.
abbrev pub chunks_from : ℕ → ℕ → List String → List (List String)
chunks_from size zero ids = []
chunks_from size (suc fuel) [] = []
chunks_from size (suc fuel) (x ∷ ids) =
    take size (x ∷ ids) ∷ chunks_from size fuel (drop size (x ∷ ids))

unfoldable pub chunks : ℕ → List String → List (List String)
chunks size ids = chunks_from size (length ids) ids

module _ {F : Type 0} where
  abbrev pub absent_rowids : List (FaceRow ℕ F) → List ℕ
  absent_rowids [] = []
  absent_rowids (r ∷ rows) = if flagged r then absent_rowids rows else r.vector ∷ absent_rowids rows

abbrev pub elem_ℕ : ℕ → List ℕ → Bool
elem_ℕ x [] = false
elem_ℕ x (y ∷ ys) = if x == y then true else elem_ℕ x ys

module _ {B : Type 0} where
  abbrev pub lookup_vec : ℕ → List (ℕ × B) → Option B
  lookup_vec rowid [] = none
  lookup_vec rowid ((k, blob) ∷ vecs) = if k == rowid then some blob else lookup_vec rowid vecs

  abbrev pub rowids : List (ℕ × B) → List ℕ
  rowids [] = []
  rowids ((k, _) ∷ vecs) = k ∷ rowids vecs

  abbrev pub join_row :
      {V : Type 0} → (B → V) → String → Option B → List (String × V) → List (String × V)
  join_row unpack face_id none rest = rest
  join_row unpack face_id (some blob) rest = (face_id, unpack blob) ∷ rest

module _ {B F : Type 0} where
  -- SELECT vec_rowid FROM face_meta WHERE lychee_face_id = ?
  abbrev pub select_rowid : String → Tables B F → Option ℕ
  select_rowid face_id t = elim (find_face face_id t.meta) [ none ↦ none | some r ↦ some r.vector ]

  -- DELETE FROM vec_faces WHERE rowid = ?
  abbrev pub delete_vec : ℕ → Tables B F → Tables B F
  delete_vec rowid t = record t { vecs = filter (λ v. not (v.0 == rowid)) t.vecs }

  -- DELETE FROM face_meta WHERE lychee_face_id = ?
  abbrev pub delete_meta : String → Tables B F → Tables B F
  delete_meta face_id t = record t { meta = (delete_where (has_face face_id) t.meta).1 }

  abbrev pub on_meta :
      {A : Type 0} → (List (FaceRow ℕ F) → A × List (FaceRow ℕ F)) → Tables B F → A × Tables B F
  on_meta f t = let (a, meta) = f t.meta in (a, record t { meta = meta })

  -- UPDATE face_meta SET is_present = 0
  abbrev pub reset : Tables B F → Tables B F
  reset t = record t { meta = reset_present t.meta }

  -- DELETE FROM vec_faces WHERE rowid IN (SELECT vec_rowid FROM face_meta WHERE is_present = 0)
  abbrev pub delete_absent_vecs : Tables B F → Tables B F
  delete_absent_vecs t = record t {
    vecs = filter (λ v. not (elem_ℕ v.0 (absent_rowids t.meta))) t.vecs;
  }

  -- INSERT INTO face_meta(…) VALUES (…), with the default of `is_present`
  abbrev pub insert_meta : ℕ → String → String → F → String → Tables B F → Tables B F
  insert_meta rowid face_id photo_id variance crop_path t = record t {
    meta =
        t.meta
        ++ record {
          face_id = face_id;
          vector = rowid;
          photo_id = photo_id;
          laplacian_variance = variance;
          crop_path = crop_path;
          is_present = true;
        }
          ∷ [];
  }

  -- INSERT INTO vec_faces(face_embedding) VALUES (?), with `lastrowid`
  abbrev pub insert_vec : (List ℕ → ℕ) → B → Tables B F → ℕ × Tables B F
  insert_vec new_rowid blob t =
      let rowid = new_rowid (rowids t.vecs) in
      (rowid, record t { vecs = t.vecs ++ (rowid, blob) ∷ [] })

  -- FROM face_meta m JOIN vec_faces v ON v.rowid = m.vec_rowid
  abbrev pub join : {V : Type 0} → (B → V) → List (FaceRow ℕ F) → List (ℕ × B) → List (String × V)
  join unpack [] vecs = []
  join unpack (r ∷ rows) vecs =
      join_row unpack r.face_id (lookup_vec r.vector vecs) (join unpack rows vecs)

abbrev pub Method : Type 0 → Type 0 → Type 0 → Type 0
Method B F A = Tx (Tables B F) A

module _ {B F : Type 0} (outcome : ℕ → Outcome) where
  abbrev pub with_connection : {A : Type 0} → Method B F A → Method B F A
  with_connection body = do connect outcome; try_finally body close

  -- The two DELETE statements for a face whose rowid was found; the result says if there was one.
  abbrev pub delete_found : String → Option ℕ → Method B F Bool
  delete_found face_id none = pure false
  delete_found face_id (some rowid) = do
    run outcome (delete_vec rowid)
    run outcome (delete_meta face_id)
    pure true

  -- `_delete_internal`
  unfoldable pub delete_internal : String → Method B F Bool
  delete_internal face_id = do row ← query outcome (select_rowid face_id); delete_found face_id row

  unfoldable pub add :
      (List ℕ → ℕ)
      → {V : Type 0} → (V → B)
      → String
      → V
      → String
      → F
      → String
      → Method B F (Unit {0})
  unfolding delete_internal
  add new_rowid pack face_id embedding photo_id variance crop_path = with_connection (do
    delete_internal face_id
    rowid ← update outcome (insert_vec new_rowid (pack embedding))
    run outcome (insert_meta rowid face_id photo_id variance crop_path)
    commit outcome)

  unfoldable pub delete : String → Method B F (Unit {0})
  unfolding delete_internal
  delete face_id = with_connection (do delete_internal face_id; commit outcome)

  -- `for fid in lychee_face_ids`
  abbrev pub delete_each : List String → ℕ → Method B F ℕ
  delete_each [] deleted = pure deleted
  delete_each (fid ∷ fids) deleted = do
    row ← query outcome (select_rowid fid)
    found ← delete_found fid row
    delete_each fids (if found then deleted + 1 else deleted)

  abbrev delete_listed : List String → Method B F ℕ
  delete_listed face_ids =
      with_connection (do deleted ← delete_each face_ids 0; commit outcome; pure deleted)

  unfoldable pub delete_many : List String → Method B F ℕ
  delete_many [] = pure 0
  delete_many (face_id ∷ face_ids) = delete_listed (face_id ∷ face_ids)

  -- `_mark_present_chunked`
  abbrev pub mark_each : List (List String) → ℕ → Method B F ℕ
  mark_each [] marked = pure marked
  mark_each (chunk ∷ rest) marked = do
    rowcount ← update outcome (on_meta (mark_present chunk))
    mark_each rest (marked + rowcount)

  abbrev mark : List String → Method B F ℕ
  mark [] = pure 0
  mark (face_id ∷ face_ids) = mark_each (chunks max_vars (face_id ∷ face_ids)) 0

  unfoldable pub sync_batch : List String → ℕ → Method B F ℕ
  sync_batch face_ids batch = with_connection (do
    if batch == 0 then run outcome reset else pure tt
    marked ← mark face_ids
    commit outcome
    pure marked)

  unfoldable pub purge_absent : Method B F ℕ
  purge_absent = with_connection (do
    run outcome delete_absent_vecs
    deleted ← update outcome (on_meta (delete_where (λ r. not (flagged r))))
    commit outcome
    pure deleted)

  unfoldable pub get_all : {V : Type 0} → (B → V) → Method B F (List (String × V))
  get_all unpack = with_connection (query outcome (λ t. join unpack t.meta t.vecs))

  unfoldable pub get_all_with_metadata : Method B F (List (String × String × F × String))
  get_all_with_metadata = with_connection (query outcome (λ t. metadata t.meta))

  unfoldable pub count : Method B F ℕ
  count = with_connection (query outcome (λ t. length t.meta))

  unfoldable pub count_by_photo_id : String → Method B F ℕ
  count_by_photo_id photo_id = with_connection (query outcome (λ t. count_photo photo_id t.meta))
