-- ===== src/FaceStore/Sqlite/Chunks.antt =====
-- `_mark_present_chunked`: the slices are the whole list, none is too long, and marking slice by slice
-- is marking at once.
use lychee_facial_recognitio.Prelude.{
  ℕ, zero, suc, ◌≤◌, ◌≡◌, refl, String, List, [], ◌∷◌, ◌++◌, length, take, drop, arith, ap, ◌∙◌,
  All, length-take-le, take-append-drop, if◌then◌else◌, ◌==◌, Bool-cases, inl, inr,
}
use lychee_facial_recognitio.FaceStore.{FaceRow, set_present, reset_present}
use lychee_facial_recognitio.FaceStore.Rows.{concat, mark_chunks, mark_chunks-set_present}
use lychee_facial_recognitio.FaceStore.Sqlite.{Tables, chunks, chunks_from, max_vars}
use lychee_facial_recognitio.FaceStore.Sqlite.Transactions.{sync_step}

length-drop-le : (n : ℕ) (ids : List String) → length (drop n ids) ≤ length ids
length-drop-le zero ids = omega arith
length-drop-le (suc n) [] = omega arith
length-drop-le (suc n) (x ∷ ids) = omega (arith, length-drop-le n ids)

concat-chunks_from :
    (n fuel : ℕ) (ids : List String)
    → length ids ≤ fuel
    → concat (chunks_from (suc n) fuel ids) ≡ ids
concat-chunks_from n zero [] h = refl
concat-chunks_from n zero (x ∷ ids) h = absurd (omega arith)
concat-chunks_from n (suc fuel) [] h = refl
concat-chunks_from n (suc fuel) (x ∷ ids) h =
    ap (λ l. x ∷ (take n ids ++ l))
      (concat-chunks_from n fuel (drop n ids) (omega (arith, length-drop-le n ids)))
    ∙ ap (λ l. x ∷ l) (take-append-drop n ids)

chunks_from-short :
    (size fuel : ℕ) (ids : List String)
    → All (λ (slice : List String). length slice ≤ size) (chunks_from size fuel ids)
chunks_from-short size zero ids = tt
chunks_from-short size (suc fuel) [] = tt
chunks_from-short size (suc fuel) (x ∷ ids) =
    (length-take-le size (x ∷ ids), chunks_from-short size fuel (drop size (x ∷ ids)))

-- The slices that `_mark_present_chunked` sends are the list of ids, whole and in order, and none
-- holds more ids than a statement has room for.
pub chunks_cover :
    (ids : List String)
    → (concat (chunks max_vars ids) ≡ ids)
      × All (λ (slice : List String). length slice ≤ max_vars) (chunks max_vars ids)
unfolding chunks
chunks_cover ids = (
  concat-chunks_from 998 (length ids) ids (omega arith),
  chunks_from-short max_vars (length ids) ids,
)

pub marked_at_once :
    {F : Type 0} (ids : List String) (rows : List (FaceRow ℕ F))
    → (mark_chunks (chunks max_vars ids) 0 rows).1 ≡ set_present ids rows
marked_at_once ids rows =
    mark_chunks-set_present (chunks max_vars ids) 0 rows
    ∙ ap (λ l. set_present l rows) (chunks_cover ids).0

-- Whatever the slices, the flags are those of one UPDATE over the whole list.
pub sync_step-meta :
    {B F : Type 0} (ids : List String) (batch : ℕ) (t : Tables B F)
    → (sync_step ids batch t).1.meta
      ≡ set_present ids (if batch == 0 then reset_present t.meta else t.meta)
sync_step-meta ids batch t = elim (Bool-cases (batch == 0)) [
  | inl first ↦ rw first (marked_at_once ids (reset_present t.meta))
  | inr later ↦ rw later (marked_at_once ids t.meta)
]
