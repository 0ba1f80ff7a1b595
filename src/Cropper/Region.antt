-- ===== src/Cropper/Region.antt =====
-- The square of a face lies in the image.
use native.Mathlib.Nat.{
  mul-le-mul, mul-le-mul_right, min-le_left, min-le_right, div-lt_iff_lt-mul, le-div_iff_mul-le,
  div-add-mod', mod-lt,
}
use lychee_facial_recognitio.Prelude.{
  ℕ, ◌+◌, ◌-◌, ◌*◌, ◌/◌, ◌≤◌, ◌<◌, ◌≡◌, ap, ◌∙◌, ◌⊎◌, inl, inr, arith, min, max,
}
use lychee_facial_recognitio.Prelude.Int.{
  ℤ, pos, negsuc, ◌+ℤ◌, ◌-ℤ◌, ◌/ℤ◌, pos_part, neg_part, int_laws, pos_laws, pos-/,
}
use lychee_facial_recognitio.Cropper.{
  fit, unit, padded_edge, padded_length, square_size, center, around, calculate_square_crop_coords,
}

-- Where a span of some length that starts at `a` is put in an image.
abbrev pub place : ℤ → ℕ → ℕ → ℕ
place (pos n) length img = min n (img - length)
place (negsuc n) length img = 0

pub fit_lem :
    (a b : ℤ) (length img : ℕ)
    → pos_part b + neg_part a ≡ neg_part b + pos_part a + length
    → length ≤ img
    → fit (pos img) (a, b) ≡ (pos (place a length img), pos (place a length img + length))
unfolding fit ◌+ℤ◌ ◌-ℤ◌
fit_lem (pos a) (pos b) length img e h = ground arith
fit_lem (pos a) (negsuc b) length img e h = ground arith
fit_lem (negsuc a) (pos b) length img e h = ground arith
fit_lem (negsuc a) (negsuc b) length img e h = ground arith

pub place_bound : (a : ℤ) (length img : ℕ) → length ≤ img → place a length img + length ≤ img
place_bound (pos n) length img h = omega arith
place_bound (negsuc n) length img h = omega arith

-- Half of the padded length of a side of a face.
abbrev pub half_length : ℕ → ℕ → ℕ → ℕ → ℕ
half_length p q length img = length * (q * img) + 2 * (length * (p * img))

module _ (d p q w img : ℕ) where
  half_length_lem : padded_length d p q (pos w) img /ℤ 2 ≡ pos (half_length p q w img)
  half_length_lem = simp pos_laws (ap pos (omega arith))

  -- The middle of a face.
  pub center_lem :
      (x : ℤ)
      → center d p q x (pos w) img ≡ padded_edge d p q x (pos w) img +ℤ pos (half_length p q w img)
  unfolding center
  center_lem x = rw half_length_lem

module _ (d p q : ℕ) where
  -- A square starts half its size before its middle.
  pub around_lem :
      (middle : ℤ) (half : ℕ)
      → around d p q middle (pos (2 * half)) ≡ (middle -ℤ pos half, middle +ℤ pos half)
  around_lem middle half =
      let e : pos (2 * half) /ℤ 2 ≡ pos half = pos-/ (2 * half) 2 ∙ ap pos (omega arith) in rw e

module _ (d p q w h img_w img_h : ℕ) where
  -- Half of the square's size, and its size as a number of units.
  abbrev pub half_size : ℕ
  half_size =
      min (max (half_length p q w img_w) (half_length p q h img_h)) (min img_w img_h * (q * d))

  pub square_size_lem : square_size d p q (pos w) (pos h) img_w img_h ≡ pos (2 * half_size)
  unfolding square_size
  square_size_lem = simp pos_laws (ap pos (omega arith))

  -- The edge of the square that is nearer to 0, in units, and both in pixels.
  abbrev pub start : ℤ → ℕ → ℕ → ℕ
  start x length img =
      place (center d p q x (pos length) img -ℤ pos half_size) (2 * half_size) (img * unit d p q)

  fit-around :
      (x : ℤ) (length img : ℕ)
      → 2 * half_size ≤ img * unit d p q
      → fit
          (pos (img * unit d p q))
          (around d p q (center d p q x (pos length) img) (pos (2 * half_size)))
        ≡ (pos (start x length img), pos (start x length img + 2 * half_size))
  fit-around x length img small =
      let middle = center d p q x (pos length) img in
      rw (around_lem d p q middle half_size) (
        fit_lem (middle -ℤ pos half_size) (middle +ℤ pos half_size) (2 * half_size)
          (img * unit d p q) (omega int_laws) small)

  pub size_fits : (2 * half_size ≤ img_w * unit d p q) × (2 * half_size ≤ img_h * unit d p q)
  size_fits =
      let w_fits = mul-le-mul_right (q * d) (min-le_left img_w img_h) in
      let h_fits = mul-le-mul_right (q * d) (min-le_right img_w img_h) in (omega arith, omega arith)

  pub coords_lem :
      (x y : ℤ)
      → let a = start x w img_w in
        let b = start y h img_h in
        let u = unit d p q in
        calculate_square_crop_coords d p q x y (pos w) (pos h) img_w img_h
        ≡ (pos (a / u), pos (b / u), pos ((a + 2 * half_size) / u), pos ((b + 2 * half_size) / u))
  unfolding calculate_square_crop_coords
  coords_lem x y =
      rw square_size_lem
        (rw (fit-around x w img_w size_fits.0, fit-around y h img_h size_fits.1) (simp pos_laws))

-- The pixels of a span whose edges are `a` and `a + size`.
quotient_bounds :
    (a size u : ℕ)
    → 0 < u
    → (a / u + size / u ≤ (a + size) / u) × ((a + size) / u ≤ a / u + size / u + 1)
quotient_bounds a size u h =
    let e = div-add-mod' a u in
    let e' = div-add-mod' size u in
    let l = mod-lt a h in
    let l' = mod-lt size h in
    (
      (le-div_iff_mul-le h).1 (omega arith),
      omega
          (arith, (div-lt_iff_lt-mul {x = a + size} {y = a / u + size / u + 2} h).1 (omega arith)),
    )

-- A square up to one pixel, in an image.
abbrev pub IsCrop : ℕ → ℕ → ℤ × ℤ × ℤ × ℤ → Type 0
IsCrop img_w img_h coords =
    (x1 : ℕ) × (y1 : ℕ) × (x2 : ℕ) × (y2 : ℕ) × (coords ≡ (pos x1, pos y1, pos x2, pos y2))
    × (x1 ≤ x2)
    × (x2 ≤ img_w)
    × (y1 ≤ y2)
    × (y2 ≤ img_h)
    × (x2 - x1 ≤ y2 - y1 + 1)
    × (y2 - y1 ≤ x2 - x1 + 1)

pub quotient-le : (a img u : ℕ) → 0 < u → a ≤ img * u → a / u ≤ img
quotient-le a img u h small =
    omega (arith, (div-lt_iff_lt-mul {x = a} {y = img + 1} h).1 (omega arith))

pub unit-pos : (d p q : ℕ) → 0 < d → 0 < q → 0 < unit d p q
unit-pos d p q h h' = let e : 1 * 1 ≤ q * d = mul-le-mul h' h in omega arith

-- For a box of any place, not of a negative size, the crop is a region of the image, with edges in order,
-- and it is a square up to one pixel, which the cutting to whole pixels may cost.
pub coords-IsCrop :
    (d p q w h img_w img_h : ℕ) (x y : ℤ)
    → 0 < d
    → 0 < q
    → IsCrop img_w img_h (calculate_square_crop_coords d p q x y (pos w) (pos h) img_w img_h)
coords-IsCrop d p q w h img_w img_h x y d_pos q_pos =
    let u = unit d p q in
    let positive = unit-pos d p q d_pos q_pos in
    let size = 2 * half_size d p q w h img_w img_h in
    let a = start d p q w h img_w img_h x w img_w in
    let b = start d p q w h img_w img_h y h img_h in
    let (fits_w, fits_h) = size_fits d p q w h img_w img_h in
    let x_bounds = quotient_bounds a size u positive in
    let y_bounds = quotient_bounds b size u positive in
    (
      a / u,
      b / u,
      (a + size) / u,
      (b + size) / u,
      coords_lem d p q w h img_w img_h x y,
      omega arith,
      quotient-le (a + size) img_w u positive (place_bound _ size (img_w * u) fits_w),
      omega arith,
      quotient-le (b + size) img_h u positive (place_bound _ size (img_h * u) fits_h),
      omega arith,
      omega arith,
    )

pixel-le-half_size :
    (d p q w h img_w img_h : ℕ)
    → (d ≤ w * img_w) ⊎ (d ≤ h * img_h)
    → 1 ≤ min img_w img_h
    → q * d ≤ half_size d p q w h img_w img_h
pixel-le-half_size d p q w h img_w img_h (inl wide) image =
    let image' = mul-le-mul_right (q * d) image in
    let wide' = mul-le-mul_right q wide in omega arith
pixel-le-half_size d p q w h img_w img_h (inr high) image =
    let image' = mul-le-mul_right (q * d) image in
    let high' = mul-le-mul_right q high in omega arith

-- Of a box that is a pixel long or more, in an image that is not empty, the crop is not empty.
pub coords-nonempty :
    (d p q w h img_w img_h : ℕ) (x y : ℤ) (x1 y1 x2 y2 : ℕ)
    → 0 < d
    → 0 < q
    → (d ≤ w * img_w) ⊎ (d ≤ h * img_h)
    → 1 ≤ min img_w img_h
    → calculate_square_crop_coords d p q x y (pos w) (pos h) img_w img_h
      ≡ (pos x1, pos y1, pos x2, pos y2)
    → (x1 < x2) × (y1 < y2)
coords-nonempty d p q w h img_w img_h x y x1 y1 x2 y2 d_pos q_pos box image e =
    let u = unit d p q in
    let positive = unit-pos d p q d_pos q_pos in
    let size = 2 * half_size d p q w h img_w img_h in
    let a = start d p q w h img_w img_h x w img_w in
    let b = start d p q w h img_w img_h y h img_h in
    let half = pixel-le-half_size d p q w h img_w img_h box image in
    let large = (le-div_iff_mul-le {x = 1} {y = size} positive).1 (omega arith) in
    let x_bounds = quotient_bounds a size u positive in
    let y_bounds = quotient_bounds b size u positive in
    let values = coords_lem d p q w h img_w img_h x y in
    let same_x1 : a / u ≡ x1 = cc in
    let same_x2 : (a + size) / u ≡ x2 = cc in
    let same_y1 : b / u ≡ y1 = cc in
    let same_y2 : (b + size) / u ≡ y2 = cc in (omega arith, omega arith)
