-- ===== src/Detector/Loading.antt =====
-- `load`, and detection before and after it.
use lychee_facial_recognitio.Prelude.{◌≡◌, ◌⊎◌, ◌↔◌, true, false, Option, none, some, List, arith}
use lychee_facial_recognitio.Detector.{
  Floats, RawFace, FaceDetector, Image, runtime_error, value_error, detect, load,
}

-- `load` leaves the detector loaded exactly if it succeeds; it fails, or a second `load` does nothing,
-- whatever the warm-up would do. After it, detection raises ValueError for an image that cannot be
-- read, and for one that can be read RuntimeError exactly if `load` failed.
pub load_lem :
    {F E : Type 0} (fl : Floats F) (represent : Image F → Option (List (RawFace F E)))
    (later : Image F → Option (List (RawFace F E))) (blank img : Image F) (self : FaceDetector F)
    → let (ready, self') = load fl represent blank self in
      (self'.loaded ≡ ready)
      × ((ready ≡ false) ⊎ (load fl later blank self' ≡ (true, self')))
      × (detect fl later self' none ≡ value_error)
      × ((detect fl later self' (some img) ≡ runtime_error) ↔ (ready ≡ false))
unfolding load detect
load_lem fl represent later blank img self = ground arith
