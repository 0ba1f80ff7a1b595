-- ===== src/Detector.antt =====
-- app/detection/detector.py: `FaceDetector`. `F` is the type of floats, known by the operations that the
-- code uses; no law of arithmetic is assumed of it. `Image` is what OpenCV decodes, and DeepFace and
-- OpenCV are arguments: `represent` is `DeepFace.represent`, `laplacian_variance` the sharpness of a
-- region of an image, `decode` and `imread` give `none` where OpenCV gives `None`.
pub mod Sorting
pub mod Filters
pub mod Loading
use lychee_facial_recognitio.Prelude.{
  ℕ, ◌+◌, ltb, if◌then◌else◌, Bool, true, false, Option, none, some, List, [], ◌∷◌, ◌++◌, min,
}

-- The operations of floats: comparison, arithmetic, the conversion of a whole number, and `int`, with 0
-- where it is negative (`max(0, int(v))`; a negative lower right corner gives an empty region as well).
pub record Floats (F : Type 0) : Type 0 where
  pub lt : F → F → Bool
  pub le : F → F → Bool
  pub add : F → F → F
  pub sub : F → F → F
  pub div : F → F → F
  pub of_ℕ : ℕ → F
  pub to_ℕ : F → ℕ

module _ {F : Type 0} (fl : Floats F) where
  -- Python's `max(a, b)` and `min(a, b)`
  abbrev pub max_F : F → F → F
  max_F a b = if fl.lt a b then b else a

  abbrev pub min_F : F → F → F
  min_F a b = if fl.lt b a then b else a

  -- `max(0.0, min(1.0, v))`
  abbrev pub clamp : F → F
  clamp v = max_F (fl.of_ℕ 0) (min_F (fl.of_ℕ 1) v)

pub record DetectedFace (F E : Type 0) : Type 0 where
  pub x : F
  pub y : F
  pub width : F
  pub height : F
  pub confidence : F
  pub embedding : E
  pub laplacian_variance : F

-- What DeepFace returns for a face: its `face_confidence`, its `facial_area`, and its embedding.
pub record RawFace (F E : Type 0) : Type 0 where
  pub face_confidence : F
  pub area_x : F
  pub area_y : F
  pub area_w : F
  pub area_h : F
  pub embedding : E

pub record FaceDetector (F : Type 0) : Type 0 where
  pub detection_threshold : F
  pub blur_threshold : F
  pub min_face_size_pixels : ℕ
  pub loaded : Bool

-- A region in pixels: `img[py1:py2, px1:px2]`
pub record Region : Type 0 where
  pub px1 : ℕ
  pub py1 : ℕ
  pub px2 : ℕ
  pub py2 : ℕ

-- `px2 > px1 and py2 > py1`
abbrev pub has_area : Region → Bool
has_area r = if ltb r.px1 r.px2 then ltb r.py1 r.py2 else false

module _ {F E : Type 0} (fl : Floats F) where
  abbrev pub longest_side : RawFace F E → F
  longest_side face = max_F fl face.area_w face.area_h

  -- The pixels of a face, cut to an image of this width and height.
  abbrev pub region_of : ℕ → ℕ → RawFace F E → Region
  region_of w h face = record {
    px1 = fl.to_ℕ face.area_x;
    py1 = fl.to_ℕ face.area_y;
    px2 = min w (fl.to_ℕ (fl.add face.area_x face.area_w));
    py2 = min h (fl.to_ℕ (fl.add face.area_y face.area_h));
  }

  abbrev pub is_unsure : FaceDetector F → RawFace F E → Bool
  is_unsure self face = fl.lt face.face_confidence self.detection_threshold

  -- `longest_side <= min_face_size_pixels`, if the filter is on
  abbrev pub is_small : FaceDetector F → RawFace F E → Bool
  is_small self face =
      if ltb 0 self.min_face_size_pixels
      then fl.le (longest_side face) (fl.of_ℕ self.min_face_size_pixels)
      else false

-- An image as the detector uses it: its size, and the sharpness of its regions.
pub record Image (F : Type 0) : Type 0 where
  pub width : ℕ
  pub height : ℕ
  pub laplacian_variance : Region → F

module _ {F E : Type 0} (fl : Floats F) (img : Image F) where
  abbrev pub variance_of : RawFace F E → F
  variance_of face =
      let region = region_of fl img.width img.height face in
      if has_area region then img.laplacian_variance region else fl.of_ℕ 0

  abbrev pub detected : RawFace F E → DetectedFace F E
  detected face =
      let x2 = fl.add face.area_x face.area_w in
      let y2 = fl.add face.area_y face.area_h in
      let w = fl.of_ℕ img.width in
      let h = fl.of_ℕ img.height in
      record {
        x = clamp fl (fl.div face.area_x w);
        y = clamp fl (fl.div face.area_y h);
        width = clamp fl (fl.div (fl.sub x2 face.area_x) w);
        height = clamp fl (fl.div (fl.sub y2 face.area_y) h);
        confidence = face.face_confidence;
        embedding = face.embedding;
        laplacian_variance = variance_of face;
      }

module _ {F E : Type 0} (fl : Floats F) (self : FaceDetector F) (img : Image F) where
  -- `blur_threshold > 0.0 and variance < blur_threshold`, for a crop that has an area
  abbrev pub is_blurry : RawFace F E → Bool
  is_blurry face =
      let region = region_of fl img.width img.height face in
      if has_area region
      then (if fl.lt (fl.of_ℕ 0) self.blur_threshold
          then fl.lt (img.laplacian_variance region) self.blur_threshold
          else false)
      else false

  -- One round of `for face in raw_faces`, with its `continue`s. The counters for the log are left out.
  abbrev pub judge : List (DetectedFace F E) → RawFace F E → List (DetectedFace F E)
  judge results face =
      if is_unsure fl self face
      then results
      else if is_small fl self face
      then results
      else if is_blurry face
      then results
      else (results ++ detected fl img face ∷ [])

  unfoldable pub judge_all : List (DetectedFace F E) → List (RawFace F E) → List (DetectedFace F E)
  judge_all results [] = results
  judge_all results (face ∷ raw_faces) = judge_all (judge results face) raw_faces

-- `results.sort(key=lambda f: f.confidence, reverse=True)`: a stable sort, the highest first.
module _ {F E : Type 0} (fl : Floats F) where
  abbrev pub insert_by_confidence :
      DetectedFace F E → List (DetectedFace F E) → List (DetectedFace F E)
  insert_by_confidence f [] = f ∷ []
  insert_by_confidence f (g ∷ gs) =
      if fl.lt f.confidence g.confidence then g ∷ insert_by_confidence f gs else f ∷ g ∷ gs

  unfoldable pub sort_by_confidence : List (DetectedFace F E) → List (DetectedFace F E)
  sort_by_confidence [] = []
  sort_by_confidence (f ∷ fs) = insert_by_confidence f (sort_by_confidence fs)

-- How a detection ends: with faces, or with an exception. `backend_error` is one that DeepFace raises.
pub data Detection (F E : Type 0) : Type 0 where
  faces : List (DetectedFace F E) → Detection F E
  runtime_error value_error backend_error : Detection F E

module _ {F E : Type 0} (fl : Floats F) (represent : Image F → Option (List (RawFace F E))) where
  unfoldable pub detect_array : FaceDetector F → Image F → Detection F E
  unfolding judge_all sort_by_confidence
  detect_array self img =
      if self.loaded
      then (elim (represent img) [
        | none ↦ backend_error
        | some raw_faces ↦ faces (sort_by_confidence fl (judge_all fl self img [] raw_faces))
      ])
      else runtime_error

  -- `detect` and `detect_bytes`, with what `cv2.imread` or `cv2.imdecode` returned
  unfoldable pub detect : FaceDetector F → Option (Image F) → Detection F E
  unfolding detect_array
  detect self decoded = elim decoded [ none ↦ value_error | some img ↦ detect_array self img ]

  -- `load`: the warm-up may raise. The result says if it did not.
  unfoldable pub load : Image F → FaceDetector F → Bool × FaceDetector F
  load blank self = if self.loaded then (true, self) else (elim (represent blank) [
    | none ↦ (false, self)
    | some _ ↦ (true, record self { loaded = true })
  ])
