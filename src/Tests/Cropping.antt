-- ===== src/Tests/Cropping.antt =====
-- The theorems about the cropper at concrete inputs: a face in an image of 640 x 480 pixels, its box in
-- tenths, with the padding factor 3/20.
use lychee_facial_recognitio.Prelude.{ℕ, ◌-◌, ◌≡◌, refl, some, String, inl, arith}
use lychee_facial_recognitio.Prelude.Int.{ℤ, pos, pos_part, ◌+ℤ◌, ◌-ℤ◌, ◌*ℤ◌, ◌/ℤ◌}
use lychee_facial_recognitio.Cropper.{
  Pillow, generate_crop, generate_crop_from_bytes, calculate_square_crop_coords, fit, center,
  square_size,
}
use lychee_facial_recognitio.Cropper.Cover.{Shows, coords-Shows}
use lychee_facial_recognitio.Cropper.Thumbnail.{Sizes, IsThumbnail, generate_crop-IsThumbnail}

-- A face at the left edge of the image: the square is moved to the right.
edge_face :
    calculate_square_crop_coords 10 3 20 (pos 0) (pos 5) (pos 2) (pos 3) 640 480
    ≡ (pos 0, pos 218, pos 187, pos 405)
unfolding calculate_square_crop_coords fit center square_size ◌+ℤ◌ ◌-ℤ◌ ◌*ℤ◌ ◌/ℤ◌
edge_face = refl

coords-Shows_example :
    Shows 10 1 5 2 3 640 480
      (calculate_square_crop_coords 10 3 20 (pos 1) (pos 5) (pos 2) (pos 3) 640 480)
coords-Shows_example =
    coords-Shows 10 3 20 2 3 640 480 1 5 (omega arith) (omega arith) (omega arith) (omega arith)
      (omega arith) (omega arith)

-- Images known by their sizes.
abbrev crop_sides : ℕ × ℕ → ℤ × ℤ × ℤ × ℤ → ℕ × ℕ
crop_sides img (x1, y1, x2, y2) = (pos_part x2 - pos_part x1, pos_part y2 - pos_part y1)

abbrev pillow : Pillow (ℕ × ℕ) (ℕ × ℕ)
pillow = record {
  open_file = λ image_path. some (640, 480);
  open_bytes = λ image_bytes. some image_bytes;
  size = λ img. img;
  crop = crop_sides;
  new_black = λ size. size;
  paste = λ img part at. img;
  resize = λ img size. size;
  jpeg = λ img. "jpeg";
}

sizes : Sizes pillow
sizes = record {
  size-crop = λ img x1 y1 x2 y2 h h'. refl;
  size-new = λ width height. refl;
  size-paste = λ img part at. refl;
}

generate_crop-IsThumbnail_example :
    (text : String) × (generate_crop pillow 10 3 20 "a.jpg" (pos 1) (pos 5) (pos 2) (pos 3)
      ≡ some text)
    × (generate_crop_from_bytes pillow 10 3 20 (640, 480) (pos 1) (pos 5) (pos 2) (pos 3)
        ≡ some text)
    × IsThumbnail pillow (640, 480) text
generate_crop-IsThumbnail_example =
    generate_crop-IsThumbnail pillow 10 3 20 2 3 (640, 480) (pos 1) (pos 5) "a.jpg" (640, 480) sizes
      refl refl (omega arith) (omega arith) (inl (omega arith)) (omega arith)
