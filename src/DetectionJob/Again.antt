-- ===== src/DetectionJob/Again.antt =====
-- A detection job for a photo that has faces already.
use lychee_facial_recognitio.Prelude.{
  ℕ, ◌<◌, ◌≡◌, ◌⊎◌, String, Bool, [], ◌∷◌, ◌++◌, length, filter, arith, append_assoc,
}
use lychee_facial_recognitio.Async.{returned}
use lychee_facial_recognitio.DetectionJob.{
  detected, failed, CallbackPayload, run_detection_job, report_nothing, send_error_callback,
}
use lychee_facial_recognitio.DetectionJob.World.{World, Outside, services_of, is_of_photo}

module _ {V F : Type 0} (outside : Outside V F) (in_unit : F → Bool) (max_faces : ℕ)
    (photo_id image_path : String) where
  -- Where the store has a row of the photo and the count of its rows returns, the job runs no detector:
  -- it stores no row and no crop, sends Lychee a result with no face, and at most an error after it.
  pub run_detection_job-skips :
      (w : World V F)
      → 0 < length (filter (is_of_photo photo_id) w.rows)
      → outside.database w.clock ≡ returned tt
      → let w' =
          (run_detection_job (services_of outside) in_unit max_faces photo_id image_path w).1 in
        (w'.rows ≡ w.rows)
        × (w'.crops ≡ w.crops)
        × ((w'.sent ≡ w.sent ++ detected photo_id [] ∷ [])
            ⊎ (w'.sent
                ≡ w.sent
                  ++ detected photo_id []
                    ∷ failed photo_id "internal_error" "Detection pipeline failed"
                    ∷ []))
  unfolding run_detection_job report_nothing send_error_callback
  run_detection_job-skips w found counted =
      let empty : CallbackPayload F = detected photo_id [] in
      let error : CallbackPayload F =
        failed photo_id "internal_error" "Detection pipeline failed" in
      ground (arith, append_assoc w.sent (empty ∷ []) (error ∷ []))
