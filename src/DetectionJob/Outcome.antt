-- ===== src/DetectionJob/Outcome.antt =====
-- A whole detection job: what it leaves in the store, from the faces of the detector and Lychee's mappings.
use lychee_facial_recognitio.Prelude.{
  ℕ, ◌+◌, ◌<◌, ◌≡◌, ◌≢◌, ◌⊎◌, refl, ap, ◌∙◌, String, Bool, true, false, Option, none, some, List,
  [], ◌∷◌, ◌++◌, length, filter, take, arith, append_assoc, append-nil, sym, ltb, Bool-cases, inl,
  inr, subst,
}
use lychee_facial_recognitio.Async.{
  Signal, returned, raised, cancelled, ◌>>=◌, try_except-ends, bind-ends,
}
use lychee_facial_recognitio.Detector.{DetectedFace}
use lychee_facial_recognitio.DetectionJob.{
  FaceData, FaceMapping, CallbackPayload, detected, failed, Response, results_of, prepare,
  prepare_all, persist_all, report_nothing, after_answer, report, detect_and_report, attempt_job,
  send_error_callback, run_detection_job,
}
use lychee_facial_recognitio.DetectionJob.World.{
  World, Outside, log, answer, services_of, rows_for, put_all, is_of_photo,
}
use lychee_facial_recognitio.DetectionJob.Persistence.{Persisted, persist_all-Persisted}

-- What is sent and kept of a detected face is that face, under its transient id.
abbrev IsOf : {V F : Type 0} → DetectedFace F V → FaceData V F → Type 0
IsOf f (id, (vec, result)) =
    (result.embedding_id ≡ id)
    × (vec ≡ f.embedding)
    × (result.laplacian_variance ≡ f.laplacian_variance)
    × (result.x ≡ f.x)
    × (result.y ≡ f.y)
    × (result.width ≡ f.width)
    × (result.height ≡ f.height)
    × (result.confidence ≡ f.confidence)

-- One by one, in order.
abbrev pub AreOf : {V F : Type 0} → List (DetectedFace F V) → List (FaceData V F) → Type 0
AreOf [] [] = Unit
AreOf (f ∷ fs) (face ∷ face_data) = IsOf f face × AreOf fs face_data
AreOf _ _ = true ≡ false

module _ {V F : Type 0} (outside : Outside V F) (photo_id : String) (max_faces : ℕ) where
  -- The detector found these faces, they were sent to Lychee first of all, Lychee answered with these
  -- mappings, and a first part of their rows is stored, or all if nothing failed.
  pub record Stored (HasFailed : Type 0) (w w' : World V F) : Type 0 where
    pub raw_faces : List (DetectedFace F V)
    pub face_data : List (FaceData V F)
    pub asked : ℕ
    pub response : Response
    pub mappings : List FaceMapping
    pub stored : ℕ
    pub detected_eq : outside.detector (w.clock + 1) ≡ returned raw_faces
    pub matched : AreOf (take max_faces raw_faces) face_data
    pub answered : outside.lychee asked ≡ returned response
    pub accepted : response.is_success ≡ true
    pub mapped : response.faces ≡ some mappings
    pub rows_eq : w'.rows ≡ put_all (take stored (rows_for photo_id face_data mappings)) w.rows
    pub all : HasFailed ⊎ (w'.rows ≡ put_all (rows_for photo_id face_data mappings) w.rows)
    pub sent_eq :
        (more : List (CallbackPayload F)) × (w'.sent
          ≡ w.sent ++ detected photo_id (results_of face_data) ∷ more)

  -- The rows are as before, since the job has failed or the photo had some, or they are those of `Stored`.
  abbrev pub Leaves : Type 0 → World V F → World V F → Type 0
  Leaves HasFailed w w' =
      ((w'.rows ≡ w.rows) × (HasFailed ⊎ (0 < length (filter (is_of_photo photo_id) w.rows))))
      ⊎ Stored HasFailed w w'

  -- What a reader of the logs sees of a failure: the task was cancelled, or the last thing sent is an error.
  abbrev pub IsFailure : Signal (Unit {0}) × World V F → Type 0
  IsFailure end =
      (end.0 ≡ cancelled)
      ⊎ ((before : List (CallbackPayload F)) × (end.1.sent
            ≡ before ++ failed photo_id "internal_error" "Detection pipeline failed" ∷ []))

  -- The same before the handler of the exception.
  abbrev Ends : World V F → Signal (Unit {0}) × World V F → Type 0
  Ends w end = Leaves (end.0 ≢ returned tt) w end.1

  stops :
      (w w' : World V F) (s : Signal (Unit {0}))
      → ((u : Unit {0}) → s ≢ returned u)
      → w'.rows ≡ w.rows
      → Ends w (s, w')
  stops w w' s h e = inl (e, inl (h tt))

abbrev Prepared : {V F : Type 0} → List (DetectedFace F V) → Signal (List (FaceData V F)) → Type 0
Prepared fs (returned face_data) = AreOf fs face_data
Prepared fs _ = Unit

abbrev PreparedOne : {V F : Type 0} → DetectedFace F V → Signal (FaceData V F) → Type 0
PreparedOne f (returned face) = IsOf f face
PreparedOne f _ = Unit

abbrev Counted : {V F : Type 0} → String → World V F → Signal ℕ → Type 0
Counted photo_id w (returned n) = n ≡ length (filter (is_of_photo photo_id) w.rows)
Counted photo_id w _ = Unit

module _ {V F : Type 0} (outside : Outside V F) (in_unit : F → Bool) (image_path photo_id : String)
    (max_faces : ℕ) where
  prepare-quiet :
      (f : DetectedFace F V) (w : World V F)
      → let (r, w') = prepare (services_of outside) in_unit image_path f w in
        (w'.rows ≡ w.rows) × (w'.sent ≡ w.sent) × PreparedOne f r
  unfolding prepare
  prepare-quiet f w = ground arith

  prepare_all-quiet :
      (fs : List (DetectedFace F V)) (w : World V F)
      → let (r, w') = prepare_all (services_of outside) in_unit image_path fs w in
        (w'.rows ≡ w.rows) × (w'.sent ≡ w.sent) × Prepared fs r
  unfolding prepare_all
  prepare_all-quiet [] w = (refl, refl, tt)
  prepare_all-quiet (f ∷ fs) w = ground (
    arith,
    prepare-quiet f w,
    prepare_all-quiet fs (prepare (services_of outside) in_unit image_path f w).1,
  )

  answer-quiet :
      {A : Type 0} (f : ℕ → Signal A) (w : World V F)
      → let (r, w') = answer f (λ v. v) w in
        (w'.rows ≡ w.rows) × (w'.sent ≡ w.sent) × (r ≡ f w.clock)
  answer-quiet f w = ground arith

  count-quiet :
      (w : World V F)
      → let (r, w') = (services_of outside).count_by_photo_id photo_id w in
        (w'.rows ≡ w.rows) × (w'.sent ≡ w.sent) × (w'.clock ≡ w.clock + 1) × Counted photo_id w r
  count-quiet w = ground arith

  report_nothing-quiet :
      (w : World V F) → (report_nothing (services_of outside) photo_id w).1.rows ≡ w.rows
  unfolding report_nothing
  report_nothing-quiet w = ground arith

  Persisted-Stored :
      (raw_faces : List (DetectedFace F V)) (face_data : List (FaceData V F)) (asked : ℕ)
      (response : Response) (mappings : List FaceMapping) (w w0 : World V F)
      (end : Signal (Unit {0}) × World V F)
      → outside.detector (w0.clock + 1) ≡ returned raw_faces
      → AreOf (take max_faces raw_faces) face_data
      → outside.lychee asked ≡ returned response
      → response.is_success ≡ true
      → response.faces ≡ some mappings
      → w.rows ≡ w0.rows
      → w.sent ≡ w0.sent ++ detected photo_id (results_of face_data) ∷ []
      → Persisted (rows_for photo_id face_data mappings) w end
      → Ends outside photo_id max_faces w0 end
  Persisted-Stored raw_faces face_data asked response mappings w w0 end found matched answered
        accepted mapped rows sent p =
      inr record {
        raw_faces = raw_faces;
        face_data = face_data;
        asked = asked;
        response = response;
        mappings = mappings;
        stored = p.stored;
        detected_eq = found;
        matched = matched;
        answered = answered;
        accepted = accepted;
        mapped = mapped;
        rows_eq =
            p.rows_eq ∙ ap (put_all (take p.stored (rows_for photo_id face_data mappings))) rows;
        all = elim p.all [
          | inl stopped ↦ inl stopped
          | inr e ↦ inr (e ∙ ap (put_all (rows_for photo_id face_data mappings)) rows)
        ];
        sent_eq = ([], p.sent_eq ∙ sent);
      }

  after_answer-Ends :
      (raw_faces : List (DetectedFace F V)) (face_data : List (FaceData V F)) (asked : ℕ)
      (is_success : Bool) (faces : Option (List FaceMapping)) (w w0 : World V F)
      → let response : Response = record { is_success = is_success; faces = faces } in
        outside.detector (w0.clock + 1) ≡ returned raw_faces
        → AreOf (take max_faces raw_faces) face_data
        → outside.lychee asked ≡ returned response
        → w.rows ≡ w0.rows
        → w.sent ≡ w0.sent ++ detected photo_id (results_of face_data) ∷ []
        → Ends outside photo_id max_faces w0
            (after_answer (services_of outside) photo_id face_data response w)
  after_answer-Ends raw_faces face_data asked false faces w w0 found matched answered rows sent =
      stops outside photo_id max_faces w0 w raised (λ u e. cc) rows
  after_answer-Ends raw_faces face_data asked true none w w0 found matched answered rows sent =
      stops outside photo_id max_faces w0 w raised (λ u e. cc) rows
  after_answer-Ends raw_faces face_data asked true (some mappings) w w0 found matched answered rows
        sent =
      let quiet = answer-quiet outside.disk w in
      bind-ends (Ends outside photo_id max_faces w0)
        (λ _. persist_all (services_of outside) photo_id face_data mappings)
        (services_of outside).make_crop_dir w
        (λ s h. stops outside photo_id max_faces w0 _ s h (quiet.0 ∙ rows))
        (λ _ _.
          Persisted-Stored raw_faces face_data asked _ mappings _ w0 _ found matched answered refl
            refl (quiet.0 ∙ rows) (quiet.1 ∙ sent)
            (persist_all-Persisted outside photo_id face_data mappings _))

  report-Ends :
      (raw_faces : List (DetectedFace F V)) (face_data : List (FaceData V F)) (w w0 : World V F)
      → outside.detector (w0.clock + 1) ≡ returned raw_faces
      → AreOf (take max_faces raw_faces) face_data
      → w.rows ≡ w0.rows
      → w.sent ≡ w0.sent
      → Ends outside photo_id max_faces w0 (report (services_of outside) photo_id face_data w)
  unfolding report
  report-Ends raw_faces face_data w w0 found matched rows sent =
      let payload = detected photo_id (results_of face_data) in
      let quiet = answer-quiet outside.lychee (log payload w) in
      bind-ends (Ends outside photo_id max_faces w0)
        (after_answer (services_of outside) photo_id face_data) ((services_of outside).post payload)
        w (λ s h. stops outside photo_id max_faces w0 _ s h (quiet.0 ∙ rows))
        (λ response e.
          after_answer-Ends raw_faces face_data w.clock response.is_success response.faces _ w0
            found matched (sym quiet.2 ∙ e) (quiet.0 ∙ rows)
            (quiet.1 ∙ ap (λ l. l ++ payload ∷ []) sent))

  prepared-Ends :
      (raw_faces : List (DetectedFace F V)) (w w0 : World V F)
      → outside.detector (w0.clock + 1) ≡ returned raw_faces
      → w.rows ≡ w0.rows
      → w.sent ≡ w0.sent
      → Ends outside photo_id max_faces w0 (
          (prepare_all (services_of outside) in_unit image_path (take max_faces raw_faces)
              >>= report (services_of outside) photo_id)
            w)
  prepared-Ends raw_faces w w0 found rows sent =
      let fs = take max_faces raw_faces in
      let quiet = prepare_all-quiet fs w in
      bind-ends (Ends outside photo_id max_faces w0) (report (services_of outside) photo_id)
        (prepare_all (services_of outside) in_unit image_path fs) w
        (λ s h. stops outside photo_id max_faces w0 _ s h (quiet.0 ∙ rows))
        (λ face_data e.
          report-Ends raw_faces face_data _ w0 found (subst (Prepared fs) e quiet.2)
            (quiet.0 ∙ rows) (quiet.1 ∙ sent))

  detect_and_report-Ends :
      (w w0 : World V F)
      → w.rows ≡ w0.rows
      → w.sent ≡ w0.sent
      → w.clock ≡ w0.clock + 1
      → Ends outside photo_id max_faces w0
          (detect_and_report (services_of outside) in_unit max_faces photo_id image_path w)
  unfolding detect_and_report
  detect_and_report-Ends w w0 rows sent at =
      let quiet = answer-quiet outside.detector w in
      bind-ends (Ends outside photo_id max_faces w0)
        (λ raw_faces.
          prepare_all (services_of outside) in_unit image_path (take max_faces raw_faces)
          >>= report (services_of outside) photo_id)
        ((services_of outside).detect image_path) w
        (λ s h. stops outside photo_id max_faces w0 _ s h (quiet.0 ∙ rows))
        (λ raw_faces e.
          prepared-Ends raw_faces _ w0 (ap outside.detector (sym at) ∙ sym quiet.2 ∙ e)
            (quiet.0 ∙ rows) (quiet.1 ∙ sent))

  attempt_job-Ends :
      (existing_count : ℕ) (w w0 : World V F)
      → w.rows ≡ w0.rows
      → w.sent ≡ w0.sent
      → w.clock ≡ w0.clock + 1
      → existing_count ≡ length (filter (is_of_photo photo_id) w0.rows)
      → Ends outside photo_id max_faces w0
          (attempt_job (services_of outside) in_unit max_faces photo_id image_path existing_count w)
  attempt_job-Ends existing_count w w0 rows sent at n = elim (Bool-cases (ltb 0 existing_count)) [
    | inl e ↦ rw (e, attempt_job) (inl (report_nothing-quiet w ∙ rows, inr (ground (arith, e, n))))
    | inr e ↦ rw (e, attempt_job) (detect_and_report-Ends w w0 rows sent at)
  ]

  body-Ends :
      (w : World V F)
      → Ends outside photo_id max_faces w (
          ((services_of outside).count_by_photo_id photo_id
              >>= attempt_job (services_of outside) in_unit max_faces photo_id image_path)
            w)
  body-Ends w =
      let quiet = count-quiet w in
      bind-ends (Ends outside photo_id max_faces w)
        (attempt_job (services_of outside) in_unit max_faces photo_id image_path)
        ((services_of outside).count_by_photo_id photo_id) w
        (λ s h. stops outside photo_id max_faces w _ s h quiet.0)
        (λ n e.
          attempt_job-Ends n _ w quiet.0 quiet.1 quiet.2 (subst (Counted photo_id w) e quiet.3))

  callback-sent :
      (error_code message : String) (w : World V F)
      → let w' = (send_error_callback (services_of outside) photo_id error_code message w).1 in
        (w'.rows ≡ w.rows) × (w'.sent ≡ w.sent ++ failed photo_id error_code message ∷ [])
  unfolding send_error_callback
  callback-sent error_code message w = ground arith

  -- What is left stays when the failure is told otherwise, and when more is sent.
  Leaves-later :
      (Before After : Type 0) (extra : List (CallbackPayload F)) (w0 w w' : World V F)
      → (Before → After)
      → w'.rows ≡ w.rows
      → w'.sent ≡ w.sent ++ extra
      → Leaves outside photo_id max_faces Before w0 w
      → Leaves outside photo_id max_faces After w0 w'
  Leaves-later Before After extra w0 w w' weaken rows sent (inl (e, inl failure)) =
      inl (rows ∙ e, inl (weaken failure))
  Leaves-later Before After extra w0 w w' weaken rows sent (inl (e, inr seen)) =
      inl (rows ∙ e, inr seen)
  Leaves-later Before After extra w0 w w' weaken rows sent (inr h) = inr record {
    raw_faces = h.raw_faces;
    face_data = h.face_data;
    asked = h.asked;
    response = h.response;
    mappings = h.mappings;
    stored = h.stored;
    detected_eq = h.detected_eq;
    matched = h.matched;
    answered = h.answered;
    accepted = h.accepted;
    mapped = h.mapped;
    rows_eq = rows ∙ h.rows_eq;
    all = elim h.all [ inl failure ↦ inl (weaken failure) | inr e ↦ inr (rows ∙ e) ];
    sent_eq =
        (h.sent_eq.0 ++ extra, sent ∙ ap (λ l. l ++ extra) h.sent_eq.1 ∙ append_assoc w0.sent _ _);
  }

  -- An end that is no exception is told as it is.
  unhandled :
      (w : World V F) (end : Signal (Unit {0}) × World V F)
      → end.0 ≢ raised
      → Ends outside photo_id max_faces w end
      → Leaves outside photo_id max_faces (IsFailure outside photo_id max_faces end) w end.1
  unhandled w (returned tt, w') h k =
      Leaves-later _ _ [] w w' w' (λ f. elim (f refl) [ ]) refl (sym (append-nil w'.sent)) k
  unhandled w (raised, w') h k = elim (h refl) [ ]
  unhandled w (cancelled, w') h k =
      Leaves-later _ _ [] w w' w' (λ f. inl refl) refl (sym (append-nil w'.sent)) k

  -- However the detection job of a photo ends, and whatever the detector, the disk, the database and
  -- Lychee do, there are two ends. Either the rows of the store are as before, and then the store
  -- had a row of the photo, or the job failed: the task was cancelled or the last thing sent is the error.
  -- Or the detector found some faces, the first of them, at most the configured number, were
  -- sent to Lychee before anything else, each under its transient id, and Lychee answered
  -- with some mappings: the rows are then those before, with the row of each mapping of a face that was
  -- sent put in, in order (in place of a row of the same face id), with the embedding and
  -- the sharpness that the detector gave; all of these rows, or a first part of them if the job
  -- failed.
  pub run_detection_job-Leaves :
      (w : World V F)
      → let end = run_detection_job (services_of outside) in_unit max_faces photo_id image_path w in
        Leaves outside photo_id max_faces (IsFailure outside photo_id max_faces end) w end.1
  unfolding run_detection_job
  run_detection_job-Leaves w =
      let handler =
        send_error_callback (services_of outside) photo_id "internal_error"
          "Detection pipeline failed" in
      try_except-ends
        (λ end.
          Leaves outside photo_id max_faces (IsFailure outside photo_id max_faces end) w end.1)
        handler
        ((services_of outside).count_by_photo_id photo_id
          >>= attempt_job (services_of outside) in_unit max_faces photo_id image_path)
        w (λ h. unhandled w _ h (body-Ends w))
        (λ e.
          let w' =
            (((services_of outside).count_by_photo_id photo_id
                >>= attempt_job (services_of outside) in_unit max_faces photo_id image_path)
              w).1 in
          let called = callback-sent "internal_error" "Detection pipeline failed" w' in
          Leaves-later _ _ _ w w' _ (λ f. inr (w'.sent, called.1)) called.0 called.1 (body-Ends w))
