-- ===== src/FaceStore/Search/Ranking.antt =====
-- Rows in the order of their distance: selecting the near ones, before or after the order, before or
-- after a cut.
use lychee_facial_recognitio.Prelude.{
  ℕ, zero, suc, ◌+◌, ◌≤◌, ◌≡◌, refl, String, Bool, true, false, List, [], ◌∷◌, ◌++◌, length, take,
  filter, arith, if◌then◌else◌, sym, ap, Bool-cases, inl, inr, append-nil, append_assoc,
  length-append,
}
use lychee_facial_recognitio.FaceStore.Search.{insert_by, order_by, collect, near, scored}

-- The comparison of distances is total and transitive (no NaN among them), and what is closer than a
-- near row is near.
pub record IsOrder {D S : Type 0} (closer : D → D → Bool) (similarity : D → S) (reaches : S → Bool)
    : Type 0 where
  pub total : (x y : D) → closer x y ≡ false → closer y x ≡ true
  pub transitive : (x y z : D) → closer x y ≡ true → closer y z ≡ true → closer x z ≡ true
  pub antitone :
      (x y : D) → closer x y ≡ true → reaches (similarity y) ≡ true → reaches (similarity x) ≡ true

module _ {D S : Type 0} (closer : D → D → Bool) (similarity : D → S) (reaches : S → Bool)
    (order : IsOrder closer similarity reaches) where
  abbrev After : D → List (String × D) → Type 0
  After d [] = Unit
  After d (x ∷ xs) = (closer d x.1 ≡ true) × After d xs

  abbrev Ranked : List (String × D) → Type 0
  Ranked [] = Unit
  Ranked (x ∷ xs) = After x.1 xs × Ranked xs

  After-weaken : (d e : D) (xs : List (String × D)) → closer d e ≡ true → After e xs → After d xs
  After-weaken d e [] h k = tt
  After-weaken d e (x ∷ xs) h k = (order.transitive d e x.1 h k.0, After-weaken d e xs h k.1)

  After-insert :
      (d : D) (x : String × D) (xs : List (String × D))
      → closer d x.1 ≡ true
      → After d xs
      → After d (insert_by closer x xs)
  After-insert d x [] h k = (h, tt)
  After-insert d x (y ∷ ys) h k = ground (arith, After-insert d x ys)

  insert-Ranked :
      (x : String × D) (xs : List (String × D)) → Ranked xs → Ranked (insert_by closer x xs)
  insert-Ranked x [] r = (tt, tt)
  insert-Ranked x (y ∷ ys) r = elim (Bool-cases (closer x.1 y.1)) [
    | inl first ↦ rw first ((first, After-weaken x.1 y.1 ys first r.0), r)
    | inr later ↦
        rw later (After-insert y.1 x ys (order.total x.1 y.1 later) r.0, insert-Ranked x ys r.1)
  ]

  pub order_by-Ranked : (xs : List (String × D)) → Ranked (order_by closer xs)
  order_by-Ranked [] = tt
  order_by-Ranked (x ∷ xs) = insert-Ranked x (order_by closer xs) (order_by-Ranked xs)

  none_near :
      (d : D) (xs : List (String × D))
      → reaches (similarity d) ≡ false
      → After d xs
      → filter (near similarity reaches) xs ≡ []
  none_near d [] far h = refl
  none_near d (x ∷ xs) far h = ground (arith, none_near d xs far h.1, order.antitone d x.1 h.0)

  After-take : (d : D) (k : ℕ) (xs : List (String × D)) → After d xs → After d (take k xs)
  After-take d zero xs h = tt
  After-take d (suc k) [] h = tt
  After-take d (suc k) (x ∷ xs) h = (h.0, After-take d k xs h.1)

  -- In ranked rows the near ones are in front, so a cut that leaves `n` rows loses none of the first
  -- `n` near ones.
  pub take-filter-take :
      (n k : ℕ) (xs : List (String × D))
      → n ≤ k
      → Ranked xs
      → take n (filter (near similarity reaches) (take k xs))
        ≡ take n (filter (near similarity reaches) xs)
  take-filter-take zero k xs h r = refl
  take-filter-take (suc n) zero xs h r = absurd (omega arith)
  take-filter-take (suc n) (suc k) [] h r = refl
  take-filter-take (suc n) (suc k) (x ∷ xs) h r = elim (Bool-cases (near similarity reaches x)) [
    | inl close ↦ rw close (ap (λ l. x ∷ l) (take-filter-take n k xs (omega arith) r.1))
    | inr far ↦
        rw (far, none_near x.1 xs far r.0, none_near x.1 (take k xs) far (After-take x.1 k xs r.0))
          refl
  ]

  insert_first :
      (x : String × D) (xs : List (String × D)) → After x.1 xs → insert_by closer x xs ≡ x ∷ xs
  insert_first x [] h = refl
  insert_first x (y ∷ ys) h = rw h.0 refl

  After-filter :
      (d : D) (xs : List (String × D)) → After d xs → After d (filter (near similarity reaches) xs)
  After-filter d [] h = tt
  After-filter d (x ∷ xs) h = ground (arith, After-filter d xs h.1)

  filter-insert :
      (x : String × D) (xs : List (String × D))
      → Ranked xs
      → filter (near similarity reaches) (insert_by closer x xs) ≡ (
          if near similarity reaches x
          then insert_by closer x (filter (near similarity reaches) xs)
          else filter (near similarity reaches) xs)
  filter-insert x [] r = refl
  filter-insert x (y ∷ ys) r = elim (Bool-cases (closer x.1 y.1)) [
    | inl first ↦ ground (
      arith,
      first,
      insert_first x (filter (near similarity reaches) ys)
          (After-filter x.1 ys (After-weaken x.1 y.1 ys first r.0)),
    )
    | inr later ↦ ground (arith, later, filter-insert x ys r.1)
  ]

  -- Selecting before the order is selecting after it.
  pub filter-order_by :
      (xs : List (String × D))
      → filter (near similarity reaches) (order_by closer xs)
        ≡ order_by closer (filter (near similarity reaches) xs)
  filter-order_by [] = refl
  filter-order_by (x ∷ xs) =
      ground (arith, filter-insert x (order_by closer xs) (order_by-Ranked xs), filter-order_by xs)

module _ {D S : Type 0} (similarity : D → S) (reaches : S → Bool) where
  -- The loop adds to the results the first near rows, as many as there is room for.
  pub collect_lem :
      (limit room : ℕ) (results : List (String × S)) (xs : List (String × D))
      → length results + suc room ≡ limit
      → collect similarity reaches limit results xs
        ≡ results ++ scored similarity (take (suc room) (filter (near similarity reaches) xs))
  unfolding collect
  collect_lem limit room results [] h = sym (append-nil results)
  collect_lem limit zero results (x ∷ xs) h = ground (
    arith,
    collect_lem limit zero results xs h,
    length-append results ((x.0, similarity x.1) ∷ []),
  )
  collect_lem limit (suc room) results (x ∷ xs) h = ground (
    arith,
    collect_lem limit (suc room) results xs h,
    collect_lem limit room (results ++ (x.0, similarity x.1) ∷ []) xs,
    length-append results ((x.0, similarity x.1) ∷ []),
    append_assoc results ((x.0, similarity x.1) ∷ [])
        (scored similarity (take (suc room) (filter (near similarity reaches) xs))),
  )
