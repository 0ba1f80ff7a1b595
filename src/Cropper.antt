-- ===== src/Cropper.antt =====
-- app/detection/cropper.py: the square region that is cut out of an image for a face, and the thumbnail
-- made of it. The coordinates of a box are fractions over `d`, the padding factor is `p / q`, and a
-- coordinate in pixels is a whole number of units, `unit` of them to a pixel: with these every product
-- and every half of the code is a whole number of units. What floats lose by rounding is left out.
pub mod Region
pub mod Cover
pub mod Thumbnail
use lychee_facial_recognitio.Prelude.{
  ℕ, ◌+◌, ◌-◌, ◌*◌, ◌/◌, ◌==◌, ltb, if◌then◌else◌, Option, none, some, String, min, max,
}
use lychee_facial_recognitio.Prelude.Int.{ℤ, pos, ◌+ℤ◌, ◌-ℤ◌, ◌*ℤ◌, ◌/ℤ◌, ltb_ℤ, min_ℤ, max_ℤ}

-- A side of an image, from an edge to the opposite one.
abbrev pub Span : Type 0
Span = ℤ × ℤ

-- `if x1 < 0: shift = -x1; x1 = 0; x2 = min(float(img_w), x2 + shift)`
abbrev pub shift_up : ℤ → Span → Span
shift_up img (x1, x2) =
    if ltb_ℤ x1 (pos 0) then (pos 0, min_ℤ img (x2 +ℤ (pos 0 -ℤ x1))) else (x1, x2)

-- `if x2 > img_w: shift = x2 - img_w; x2 = img_w; x1 = max(0.0, x1 - shift)`
abbrev pub shift_down : ℤ → Span → Span
shift_down img (x1, x2) =
    if ltb_ℤ img x2 then (max_ℤ (pos 0) (x1 -ℤ (x2 -ℤ img)), img) else (x1, x2)

-- Both shifts of an axis, as the code makes them for the width and again for the height.
unfoldable pub fit : ℤ → Span → Span
fit img span = shift_down img (shift_up img span)

module _ (d p q : ℕ) where
  abbrev pub unit : ℕ
  unit = 2 * (q * d)

  -- `x * img_w`
  abbrev pub absolute : ℤ → ℕ → ℤ
  absolute x img = x *ℤ (2 * (q * img))

  -- `abs_w * padding_factor`
  abbrev pub pad : ℤ → ℕ → ℤ
  pad width img = width *ℤ (2 * (p * img))

  -- `padded_x = abs_x - pad_x` and `padded_w = abs_w + 2 * pad_x`
  abbrev pub padded_edge : ℤ → ℤ → ℕ → ℤ
  padded_edge x width img = absolute x img -ℤ pad width img

  abbrev pub padded_length : ℤ → ℕ → ℤ
  padded_length width img = absolute width img +ℤ (pad width img +ℤ pad width img)

  -- The larger padded side, capped at the smaller side of the image.
  unfoldable pub square_size : ℤ → ℤ → ℕ → ℕ → ℤ
  square_size width height img_w img_h =
      min_ℤ (max_ℤ (padded_length width img_w) (padded_length height img_h))
        (pos (min img_w img_h * unit))

  -- `center_x = padded_x + padded_w / 2`, and the square around it
  unfoldable pub center : ℤ → ℤ → ℕ → ℤ
  center x width img = padded_edge x width img +ℤ padded_length width img /ℤ 2

  abbrev pub around : ℤ → ℤ → Span
  around middle size = (middle -ℤ size /ℤ 2, middle +ℤ size /ℤ 2)

  -- `_calculate_square_crop_coords`: (x1, y1, x2, y2) in pixels, where `int` cuts towards zero.
  unfoldable pub calculate_square_crop_coords : ℤ → ℤ → ℤ → ℤ → ℕ → ℕ → ℤ × ℤ × ℤ × ℤ
  calculate_square_crop_coords x y width height img_w img_h =
      let size = square_size width height img_w img_h in
      let (x1, x2) = fit (pos (img_w * unit)) (around (center x width img_w) size) in
      let (y1, y2) = fit (pos (img_h * unit)) (around (center y height img_h) size) in
      (x1 /ℤ unit, y1 /ℤ unit, x2 /ℤ unit, y2 /ℤ unit)

-- Pillow: what the cropper calls. `open_file` and `open_bytes` are `Image.open(…).convert("RGB")`, `none`
-- where it raises; `new_black` is `Image.new("RGB", size, (0, 0, 0))`, and `jpeg` is
-- `save(buf, format="JPEG", quality=85)` with the base64 text of what it writes. `B` is the type of bytes.
pub record Pillow (I B : Type 0) : Type 0 where
  pub open_file : String → Option I
  pub open_bytes : B → Option I
  pub size : I → ℕ × ℕ
  pub crop : I → ℤ × ℤ × ℤ × ℤ → I
  pub new_black : ℕ × ℕ → I
  pub paste : I → I → ℕ × ℕ → I
  pub resize : I → ℕ × ℕ → I
  pub jpeg : I → String

abbrev pub crop_size : ℕ
crop_size = 150

module _ {I B : Type 0} (pillow : Pillow I B) where
  open pillow use {open_file, open_bytes, size, crop, new_black, paste, resize, jpeg}

  unfoldable pub pad_to_square : I → I
  pad_to_square img =
      let (width, height) = size img in
      if width == height
      then img
      else (let side = max width height in
          paste (new_black (side, side)) img ((side - width) / 2, (side - height) / 2))

  -- What both functions do with the image that is open.
  abbrev pub thumbnail : ℕ → ℕ → ℕ → ℤ → ℤ → ℤ → ℤ → I → String
  thumbnail d p q x y width height img =
      let (img_w, img_h) = size img in
      jpeg (
        resize
          (pad_to_square
            (crop img (calculate_square_crop_coords d p q x y width height img_w img_h)))
          (crop_size, crop_size))

  unfoldable pub generate_crop : ℕ → ℕ → ℕ → String → ℤ → ℤ → ℤ → ℤ → Option String
  generate_crop d p q image_path x y width height = elim (open_file image_path) [
    | none ↦ none
    | some img ↦ some (thumbnail d p q x y width height img)
  ]

  unfoldable pub generate_crop_from_bytes : ℕ → ℕ → ℕ → B → ℤ → ℤ → ℤ → ℤ → Option String
  generate_crop_from_bytes d p q image_bytes x y width height = elim (open_bytes image_bytes) [
    | none ↦ none
    | some img ↦ some (thumbnail d p q x y width height img)
  ]
