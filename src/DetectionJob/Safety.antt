-- ===== src/DetectionJob/Safety.antt =====
-- A detection job never raises.
use lychee_facial_recognitio.Prelude.{ℕ, ◌≢◌, String, Bool, arith}
use lychee_facial_recognitio.Async.{raised}
use lychee_facial_recognitio.DetectionJob.{Services, run_detection_job, send_error_callback}

-- Whatever the detector, the store, the disk and Lychee do, the job does not raise: it returns, or is
-- cancelled.
pub run_detection_job-ne-raised :
    {W V F : Type 0} (services : Services W V F) (in_unit : F → Bool) (max_faces_per_photo : ℕ)
    (photo_id image_path : String) (w : W)
    → (run_detection_job services in_unit max_faces_per_photo photo_id image_path w).0 ≢ raised
unfolding run_detection_job send_error_callback
run_detection_job-ne-raised services in_unit max_faces_per_photo photo_id image_path w =
    ground arith
