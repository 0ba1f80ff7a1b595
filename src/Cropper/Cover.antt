-- ===== src/Cropper/Cover.antt =====
-- The crop of a face shows the face.
use native.Mathlib.Nat.{
  mul-le-mul_right, le_of_mul-le-mul_right, lt_of_mul-lt-mul_right, mul-div-le, lt-mul-div-succ,
}
use lychee_facial_recognitio.Prelude.{ℕ, ◌+◌, ◌*◌, ◌/◌, ◌≤◌, ◌<◌, ◌≡◌, arith, min}
use lychee_facial_recognitio.Prelude.Int.{
  ℤ, pos, negsuc, ◌+ℤ◌, ◌-ℤ◌, ◌≤ℤ◌, pos_part, neg_part, int_laws, pos-*,
}
use lychee_facial_recognitio.Cropper.{unit, center, calculate_square_crop_coords}
use lychee_facial_recognitio.Cropper.Region.{
  place, half_length, half_size, center_lem, coords_lem, unit-pos, size_fits,
}

-- A span that is put into an image goes on covering what it covered of the image.
place_covers :
    (a : ℤ) (length img l r : ℕ)
    → length ≤ img
    → r ≤ img
    → a ≤ℤ pos l
    → r + neg_part a ≤ pos_part a + length
    → (place a length img ≤ l) × (r ≤ place a length img + length)
place_covers (pos n) length img l r small inside before after = (omega arith, omega arith)
place_covers (negsuc n) length img l r small inside before after = (omega arith, omega arith)

-- A span that starts `half` before the middle of a padded face, `own` being half the face itself.
middle_covers :
    (x pad own half : ℕ)
    → own ≤ half
    → let a = pos x -ℤ pos pad +ℤ pos (own + pad) -ℤ pos half in
      (a ≤ℤ pos x) × (x + 2 * own + neg_part a ≤ pos_part a + 2 * half)
middle_covers x pad own half h = (omega int_laws, omega int_laws)

module _ (d p q : ℕ) where
  -- The square in one direction, in units, for a box that lies in the image.
  square_covers :
      (x length img half : ℕ)
      → x + length ≤ d
      → length * (q * img) ≤ half
      → 2 * half ≤ img * unit d p q
      → let a =
          place (center d p q (pos x) (pos length) img -ℤ pos half) (2 * half) (img * unit d p q) in
        (a ≤ x * (2 * (q * img))) × ((x + length) * (2 * (q * img)) ≤ a + 2 * half)
  square_covers x length img half inside large small =
      let in_image = mul-le-mul_right (2 * (q * img)) inside in
      let padding = length * (2 * (p * img)) in
      let own = length * (q * img) in
      let halves : half_length p q length img ≡ own + padding = omega arith in
      let covers = middle_covers (x * (2 * (q * img))) padding own half large in
      rw (center_lem d p q length img (pos x), halves)
        (simp pos-* (
          place_covers _ (2 * half) (img * unit d p q) (x * (2 * (q * img)))
            ((x + length) * (2 * (q * img))) small (omega arith) covers.0
            (omega (arith, covers.1))))

  -- The same in pixels: the first pixel begins before the box, and the last one does not end before it.
  pixels_cover :
      (x length img half : ℕ)
      → 0 < d
      → 0 < q
      → x + length ≤ d
      → length * (q * img) ≤ half
      → 2 * half ≤ img * unit d p q
      → let u = unit d p q in
        let a = place (center d p q (pos x) (pos length) img -ℤ pos half) (2 * half) (img * u) in
        (a / u * d ≤ x * img) × ((x + length) * img < ((a + 2 * half) / u + 1) * d)
  pixels_cover x length img half d_pos q_pos inside large small =
      let u = unit d p q in
      let a = place (center d p q (pos x) (pos length) img -ℤ pos half) (2 * half) (img * u) in
      let (before, after) = square_covers x length img half inside large small in
      let above = mul-div-le a u in
      let below = lt-mul-div-succ (a + 2 * half) (unit-pos d p q d_pos q_pos) in
      (
        le_of_mul-le-mul_right {k = 2 * q} (omega arith) (omega arith),
        lt_of_mul-lt-mul_right (2 * q) (omega arith),
      )

-- A crop that shows a box: no part of the box lies before its first pixel, or behind the pixel after its
-- last one.
abbrev pub Shows : ℕ → ℕ → ℕ → ℕ → ℕ → ℕ → ℕ → ℤ × ℤ × ℤ × ℤ → Type 0
Shows d x y w h img_w img_h coords =
    (x1 : ℕ) × (y1 : ℕ) × (x2 : ℕ) × (y2 : ℕ) × (coords ≡ (pos x1, pos y1, pos x2, pos y2))
    × (x1 * d ≤ x * img_w)
    × (y1 * d ≤ y * img_h)
    × ((x + w) * img_w < (x2 + 1) * d)
    × ((y + h) * img_h < (y2 + 1) * d)

module _ (d p q w h img_w img_h : ℕ) where
  -- The square is at least as large as the box.
  size_covers :
      w * img_w ≤ min img_w img_h * d
      → h * img_h ≤ min img_w img_h * d
      → let half = half_size d p q w h img_w img_h in
        (w * (q * img_w) ≤ half) × (h * (q * img_h) ≤ half)
  size_covers w_fits h_fits =
      let w_fits' = mul-le-mul_right q w_fits in
      let h_fits' = mul-le-mul_right q h_fits in (omega arith, omega arith)

  -- For a box that lies in the image, and that is in neither direction longer than the smaller side of
  -- the image, the crop shows the whole box, up to the part of a pixel that is cut at its end.
  pub coords-Shows :
      (x y : ℕ)
      → 0 < d
      → 0 < q
      → x + w ≤ d
      → y + h ≤ d
      → w * img_w ≤ min img_w img_h * d
      → h * img_h ≤ min img_w img_h * d
      → Shows d x y w h img_w img_h
          (calculate_square_crop_coords d p q (pos x) (pos y) (pos w) (pos h) img_w img_h)
  coords-Shows x y d_pos q_pos x_in y_in w_fits h_fits =
      let half = half_size d p q w h img_w img_h in
      let (large_w, large_h) = size_covers w_fits h_fits in
      let (small_w, small_h) = size_fits d p q w h img_w img_h in
      let x_shown = pixels_cover d p q x w img_w half d_pos q_pos x_in large_w small_w in
      let y_shown = pixels_cover d p q y h img_h half d_pos q_pos y_in large_h small_h in
      (
        _,
        _,
        _,
        _,
        coords_lem d p q w h img_w img_h (pos x) (pos y),
        x_shown.0,
        y_shown.0,
        x_shown.1,
        y_shown.1,
      )
