-- ===== src/DbQueue/Place.antt =====
-- The two SELECT statements of `position` compute the rank that the protocol promises.
use lychee_facial_recognitio.Prelude.{
  ℕ, suc, ◌+◌, ◌≤◌, ◌<◌, ◌≡◌, refl, if◌then◌else◌, Bool, ◌&&◌, ◌||◌, List, [], ◌∷◌, filter, arith,
  String, str_eq, Option, none, some, length, head?, leb, Option-cases, inl, inr,
}
use lychee_facial_recognitio.JobQueue.{has_photo, rank_from, position}
use lychee_facial_recognitio.DbQueue.{
  pending, processing, Row, Table, is_pending, is_processing, select_by_photo, view,
}
use lychee_facial_recognitio.DbQueue.Layout.{
  Rises, AllPending, Split, IsValid, Rises-filter, order_by_id-eq-head?,
}
use lychee_facial_recognitio.DbQueue.View.{jobs, status_cases, no_processing, all_pending}

abbrev pub of_photo : String → Row → Bool
of_photo photo_id r = str_eq r.job.photo_id photo_id && (is_pending r || is_processing r)

abbrev pub waits_up_to : ℕ → Row → Bool
waits_up_to job_id r = is_pending r && leb r.job.id job_id

-- What `_position_sync` makes of the row that it selects.
abbrev pub place_of : List Row → Option Row → Option ℕ
place_of rows none = none
place_of rows (some r) = elim r.status [
  | pending ↦ some (length (filter (waits_up_to r.job.id) rows))
  | processing ↦ some 0
]

module _ (hi : ℕ) (photo_id : String) where
  none_up_to :
      (k lo : ℕ) (rows : List Row)
      → k < lo
      → Rises lo rows hi
      → length (filter (waits_up_to k) rows) ≡ 0
  none_up_to k lo [] h r = refl
  none_up_to k lo (x ∷ rows) h r =
      ground (arith, none_up_to k (suc x.job.id) rows (omega arith) r.1)

  id_of_head :
      (p : Row → Bool) (lo : ℕ) (rows : List Row) (r : Row)
      → head? (filter p rows) ≡ some r
      → Rises lo rows hi
      → lo ≤ r.job.id
  id_of_head p lo [] r e h = cc
  id_of_head p lo (x ∷ rows) r e h = ground (arith, id_of_head p (suc x.job.id) rows r)

  -- Among pending rows the count of the ids up to the first match is its rank.
  rank_of_pending :
      (before lo : ℕ) (rows : List Row)
      → Rises lo rows hi
      → AllPending rows
      → rank_from before photo_id (jobs rows) ≡ (elim (head? (filter (of_photo photo_id) rows)) [
        | none ↦ none
        | some r ↦ some (before + length (filter (waits_up_to r.job.id) rows))
      ])
  rank_of_pending before lo [] h p = refl
  rank_of_pending before lo (x ∷ rows) h p =
      let ih = rank_of_pending (before + 1) (suc x.job.id) rows h.1 p.1 in
      let above = none_up_to x.job.id (suc x.job.id) rows (omega arith) h.1 in
      elim (Option-cases (head? (filter (of_photo photo_id) rows))) [
        | inl absent ↦ ground (arith, ih, above, absent)
        | inr (r, found) ↦
            ground
              (arith, ih, above, id_of_head (of_photo photo_id) (suc x.job.id) rows r found h.1)
      ]

  head_waits :
      (p : Row → Bool) (rows : List Row) (r : Row)
      → AllPending rows
      → head? (filter p rows) ≡ some r
      → r.status ≡ pending
  head_waits p [] r h e = cc
  head_waits p (x ∷ rows) r h e = ground (arith, head_waits p rows r h.1)

  place_of_pending :
      (lo : ℕ) (rows : List Row)
      → Rises lo rows hi
      → AllPending rows
      → place_of rows (head? (filter (of_photo photo_id) rows)) ≡ rank_from 0 photo_id (jobs rows)
  place_of_pending lo rows h p =
      let rank = rank_of_pending 0 lo rows h p in
      elim (Option-cases (head? (filter (of_photo photo_id) rows))) [
        | inl absent ↦ ground (arith, rank, absent)
        | inr (r, found) ↦
            ground (arith, rank, found, head_waits (of_photo photo_id) rows r p found)
      ]

  -- The row that is selected first decides as the protocol does.
  place_of_first :
      (lo : ℕ) (rows : List Row)
      → Rises lo rows hi
      → Split rows
      → place_of rows (head? (filter (of_photo photo_id) rows)) ≡ (
          if has_photo photo_id (jobs (filter is_processing rows))
          then some 0
          else rank_from 0 photo_id (jobs (filter is_pending rows)))
  place_of_first lo [] h s = refl
  place_of_first lo (x ∷ rows) h s = elim (status_cases x) [
    | inl waits ↦
        let p : AllPending (x ∷ rows) = ground arith in
        rw (no_processing (x ∷ rows) p, all_pending (x ∷ rows) p)
          (place_of_pending lo (x ∷ rows) h p)
    | inr runs ↦
        let ih = place_of_first (suc x.job.id) rows h.1 in
        elim (Option-cases (head? (filter (of_photo photo_id) rows))) [
          | inl absent ↦ ground (arith, ih, absent)
          | inr (r, found) ↦ ground (arith, ih, found)
        ]
  ]

-- For a valid table the selected row gives the position that the protocol promises.
pub place_of-position :
    (photo_id : String) (t : Table)
    → IsValid t
    → place_of t.rows (select_by_photo photo_id t) ≡ position photo_id (view t)
unfolding select_by_photo position view
place_of-position photo_id t v =
    rw
      (order_by_id-eq-head? t.next_id 0 _
        (Rises-filter t.next_id (of_photo photo_id) 0 t.rows v.rises))
      (place_of_first t.next_id photo_id 0 t.rows v.rises v.split)
