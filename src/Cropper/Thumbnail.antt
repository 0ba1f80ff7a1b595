-- ===== src/Cropper/Thumbnail.antt =====
-- The thumbnail that is made of a crop.
use lychee_facial_recognitio.Prelude.{
  ℕ, ◌+◌, ◌-◌, ◌*◌, ◌/◌, ◌≤◌, ◌<◌, ◌==◌, ◌≡◌, refl, ap, ◌∙◌, some, ◌⊎◌, inl, inr, String, arith,
  min, max, Bool-cases,
}
use lychee_facial_recognitio.Prelude.Int.{ℤ, pos}
use lychee_facial_recognitio.Cropper.{
  Pillow, pad_to_square, thumbnail, generate_crop, generate_crop_from_bytes, crop_size,
}
use lychee_facial_recognitio.Cropper.Region.{coords-IsCrop, coords-nonempty}

-- What Pillow documents of the sizes of images, for crops whose edges are in order.
pub record Sizes {I B : Type 0} (pillow : Pillow I B) : Type 0 where
  pub size-crop :
      (img : I) (x1 y1 x2 y2 : ℕ)
      → x1 ≤ x2
      → y1 ≤ y2
      → pillow.size (pillow.crop img (pos x1, pos y1, pos x2, pos y2)) ≡ (x2 - x1, y2 - y1)
  pub size-new :
      (width height : ℕ) → pillow.size (pillow.new_black (width, height)) ≡ (width, height)
  pub size-paste :
      (img part : I) (at : ℕ × ℕ) → pillow.size (pillow.paste img part at) ≡ pillow.size img

module _ {I B : Type 0} (pillow : Pillow I B) where
  -- A square made of a part of an image: the part itself, or the part with one black row or column more,
  -- at the bottom or on the right.
  abbrev pub IsSquared : I → I → Type 0
  IsSquared part square =
      (side : ℕ) × (pillow.size square ≡ (side, side))
      × ((square ≡ part) ⊎ (square ≡ pillow.paste (pillow.new_black (side, side)) part (0, 0)))

  pad_to_square-IsSquared :
      (part : I) (width height : ℕ)
      → Sizes pillow
      → pillow.size part ≡ (width, height)
      → width ≤ height + 1
      → height ≤ width + 1
      → IsSquared part (pad_to_square pillow part)
  unfolding pad_to_square
  pad_to_square-IsSquared part width height laws e h h' = elim (Bool-cases (width == height)) [
    | inl equal ↦ rw (e, equal) (width, ground (arith, e, equal), inl refl)
    | inr differ ↦
        let left : (max width height - width) / 2 ≡ 0 = omega arith in
        let top : (max width height - height) / 2 ≡ 0 = omega arith in
        rw (e, differ)
          (max width height, laws.size-paste _ part _ ∙ laws.size-new _ _, inr (rw (left, top)))
  ]

  -- A thumbnail shows a square, at least one pixel large.
  abbrev pub IsThumbnail : I → String → Type 0
  IsThumbnail img text =
      (x1 : ℕ) × (y1 : ℕ) × (x2 : ℕ) × (y2 : ℕ) × (square : I) × (x1 < x2)
      × (y1 < y2)
      × (x2 ≤ (pillow.size img).0)
      × (y2 ≤ (pillow.size img).1)
      × IsSquared (pillow.crop img (pos x1, pos y1, pos x2, pos y2)) square
      × (text ≡ pillow.jpeg (pillow.resize square (crop_size, crop_size)))

  thumbnail-IsThumbnail :
      (d p q w h : ℕ) (img : I) (x y : ℤ)
      → Sizes pillow
      → 0 < d
      → 0 < q
      → (d ≤ w * (pillow.size img).0) ⊎ (d ≤ h * (pillow.size img).1)
      → 1 ≤ min (pillow.size img).0 (pillow.size img).1
      → IsThumbnail img (thumbnail pillow d p q x y (pos w) (pos h) img)
  thumbnail-IsThumbnail d p q w h img x y laws d_pos q_pos box image =
      let img_w = (pillow.size img).0 in
      let img_h = (pillow.size img).1 in
      let (x1, y1, x2, y2, e, _, x_in, _, y_in, wide, high) =
        coords-IsCrop d p q w h img_w img_h x y d_pos q_pos in
      let (x_order, y_order) =
        coords-nonempty d p q w h img_w img_h x y x1 y1 x2 y2 d_pos q_pos box image e in
      let part = pillow.crop img (pos x1, pos y1, pos x2, pos y2) in
      let size = laws.size-crop img x1 y1 x2 y2 (omega arith) (omega arith) in
      (
        x1,
        y1,
        x2,
        y2,
        pad_to_square pillow part,
        x_order,
        y_order,
        x_in,
        y_in,
        pad_to_square-IsSquared part (x2 - x1) (y2 - y1) laws size wide high,
        ap
            (λ c.
              pillow.jpeg
                (pillow.resize (pad_to_square pillow (pillow.crop img c)) (crop_size, crop_size)))
            e,
      )

  -- If Pillow's sizes are as documented and it opens an image that is not empty from a file and from its
  -- bytes: for a box that is a pixel long or more, `generate_crop` and `generate_crop_from_bytes` return
  -- the same thumbnail. It is a square, scaled to 150 x 150 pixels, so that nothing is distorted; the
  -- square is a region of the image that is not empty, with one black row or column more at most.
  pub generate_crop-IsThumbnail :
      (d p q w h : ℕ) (img : I) (x y : ℤ) (image_path : String) (image_bytes : B)
      → Sizes pillow
      → pillow.open_file image_path ≡ some img
      → pillow.open_bytes image_bytes ≡ some img
      → 0 < d
      → 0 < q
      → (d ≤ w * (pillow.size img).0) ⊎ (d ≤ h * (pillow.size img).1)
      → 1 ≤ min (pillow.size img).0 (pillow.size img).1
      → (text : String) × (generate_crop pillow d p q image_path x y (pos w) (pos h) ≡ some text)
        × (generate_crop_from_bytes pillow d p q image_bytes x y (pos w) (pos h) ≡ some text)
        × IsThumbnail img text
  unfolding generate_crop generate_crop_from_bytes
  generate_crop-IsThumbnail d p q w h img x y image_path image_bytes laws file bytes d_pos q_pos box
        image =
      (
        thumbnail pillow d p q x y (pos w) (pos h) img,
        rw (file, generate_crop),
        rw (bytes, generate_crop_from_bytes),
        thumbnail-IsThumbnail d p q w h img x y laws d_pos q_pos box image,
      )
