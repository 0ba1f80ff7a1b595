-- ===== src/Tests/Detection.antt =====
-- The theorems about the detector and the detection job at concrete inputs. A float stands as a number of
-- hundredths.
use mathlib.Core.List.{Perm}
use lychee_facial_recognitio.Prelude.{
  ℕ, ◌+◌, ◌-◌, ◌*◌, ◌/◌, ◌≡◌, ◌≢◌, ◌⊎◌, refl, Bool, true, false, Option, some, List, [], ◌∷◌, ◌==◌,
  if◌then◌else◌, ltb, leb, arith, map, filter, All,
}
use lychee_facial_recognitio.Async.{returned, raised}
use lychee_facial_recognitio.Detector.{
  Floats, DetectedFace, RawFace, FaceDetector, Image, faces, detected, detect,
}
use lychee_facial_recognitio.Detector.Sorting.{IsOrder, IsDescending}
use lychee_facial_recognitio.Detector.Filters.{passes, IsReportable, detect_lem}
use lychee_facial_recognitio.DetectionJob.{
  FaceMapping, FaceData, detected as sent_result, failed, run_detection_job,
}
use lychee_facial_recognitio.DetectionJob.World.{World, Outside, Row, services_of}
use lychee_facial_recognitio.DetectionJob.Safety.{run_detection_job-ne-raised}
use lychee_facial_recognitio.DetectionJob.Outcome.{Leaves, IsFailure, run_detection_job-Leaves}
use lychee_facial_recognitio.DetectionJob.Again.{run_detection_job-skips}

abbrev pub fl : Floats ℕ
fl = record {
  lt = ltb;
  le = leb;
  add = ◌+◌;
  sub = ◌-◌;
  div = λ a b. a * 100 / b;
  of_ℕ = λ n. n * 100;
  to_ℕ = λ v. v / 100;
}

pub order : IsOrder fl
order = record { asymm = λ a b h. ground arith; trans = λ a b c h k. ground arith }

abbrev raw_face : ℕ → ℕ → RawFace ℕ ℕ
raw_face face_confidence embedding = record {
  face_confidence = face_confidence;
  area_x = 1000;
  area_y = 1000;
  area_w = 5000;
  area_h = 4000;
  embedding = embedding;
}

abbrev pub raw_faces : List (RawFace ℕ ℕ)
raw_faces = raw_face 60 1 ∷ raw_face 20 2 ∷ raw_face 90 3 ∷ []

abbrev pub img : Image ℕ
img = record { width = 200; height = 100; laplacian_variance = λ region. 80 }

abbrev pub represent : Image ℕ → Option (List (RawFace ℕ ℕ))
represent _ = some raw_faces

abbrev pub detector : FaceDetector ℕ
detector = record {
  detection_threshold = 50;
  blur_threshold = 50;
  min_face_size_pixels = 10;
  loaded = true;
}

detect_lem_example :
    (fs : List (DetectedFace ℕ ℕ)) × (detect fl represent detector (some img) ≡ faces fs)
    × Perm fs (map (detected fl img) (filter (passes fl detector img) raw_faces))
    × IsDescending fl fs
    × All (IsReportable fl detector img) fs
detect_lem_example = detect_lem fl represent detector img raw_faces order refl refl refl

abbrev face_result : DetectedFace ℕ ℕ
face_result = detected fl img (raw_face 60 1)

abbrev mapping : FaceMapping
mapping = record { embedding_id = "uuid"; lychee_face_id = "face-1" }

-- Lychee maps the face whose transient id is "uuid"; the disk raises at tick 7.
abbrev outside : Outside ℕ ℕ
outside = record {
  database = λ t. returned tt;
  late = λ t. false;
  disk = λ t. if t == 7 then raised else returned tt;
  detector = λ t. returned (face_result ∷ []);
  cropper = λ t. returned "crop";
  search = λ t. returned [];
  lychee = λ t. returned record { is_success = true; faces = some (mapping ∷ []) };
  new_id = λ t. "uuid";
}

abbrev world : World ℕ ℕ
world = record { rows = []; crops = []; sent = []; clock = 0 }

abbrev pub in_unit : ℕ → Bool
in_unit v = leb v 100

run_detection_job-ne-raised_example :
    (run_detection_job (services_of outside) in_unit 10 "photo" "/photos/a.jpg" world).0 ≢ raised
run_detection_job-ne-raised_example =
    run_detection_job-ne-raised (services_of outside) in_unit 10 "photo" "/photos/a.jpg" world

run_detection_job-Leaves_example :
    let end = run_detection_job (services_of outside) in_unit 10 "photo" "/photos/a.jpg" world in
    Leaves outside "photo" 10 (IsFailure outside "photo" 10 end) world end.1
run_detection_job-Leaves_example =
    run_detection_job-Leaves outside in_unit "/photos/a.jpg" "photo" 10 world

abbrev face_data : List (FaceData ℕ ℕ)
face_data =
    (
      "uuid",
      (
        1,
        record {
          x = 5;
          y = 10;
          width = 25;
          height = 40;
          confidence = 60;
          embedding_id = "uuid";
          crop = "crop";
          laplacian_variance = 80;
          suggestions = [];
        },
      ),
    )
    ∷ []

-- The photo has a face already.
abbrev row : Row ℕ ℕ
row = record {
  lychee_face_id = "face-0";
  embedding = 9;
  photo_id = "photo";
  laplacian_variance = 80;
  crop_path = "faces/face-0.jpg";
}

abbrev seen_world : World ℕ ℕ
seen_world = record world { rows = row ∷ [] }

run_detection_job-skips_example :
    let w' =
      (run_detection_job (services_of outside) in_unit 10 "photo" "/photos/a.jpg" seen_world).1 in
    (w'.rows ≡ row ∷ [])
    × (w'.crops ≡ [])
    × ((w'.sent ≡ sent_result "photo" [] ∷ [])
        ⊎ (w'.sent
            ≡ sent_result "photo" []
              ∷ failed "photo" "internal_error" "Detection pipeline failed"
              ∷ []))
run_detection_job-skips_example =
    run_detection_job-skips outside in_unit 10 "photo" "/photos/a.jpg" seen_world (omega arith) refl
