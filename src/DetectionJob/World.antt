-- ===== src/DetectionJob/World.antt =====
-- The closed world in which a detection job is followed: the rows of the store, the crops on the disk, what
-- has been sent to Lychee, and a clock by which the outside world answers.
use lychee_facial_recognitio.Prelude.{
  ℕ, ◌+◌, String, str_eq, ◌<>◌, Bool, not, if◌then◌else◌, Option, none, some, List, [], ◌∷◌, ◌++◌,
  length, filter,
}
use lychee_facial_recognitio.Async.{Signal, returned, raised, cancelled, Step, pure, ◌>>=◌}
use lychee_facial_recognitio.Detector.{DetectedFace}
use lychee_facial_recognitio.Suggestions.{get}
use lychee_facial_recognitio.DetectionJob.{
  FaceResult, FaceData, FaceMapping, CallbackPayload, Response, Services,
}

-- A row of the store of embeddings.
pub record Row (V F : Type 0) : Type 0 where
  pub lychee_face_id : String
  pub embedding : V
  pub photo_id : String
  pub laplacian_variance : F
  pub crop_path : String

pub record World (V F : Type 0) : Type 0 where
  pub rows : List (Row V F)
  pub crops : List (String × String)
  pub sent : List (CallbackPayload F)
  pub clock : ℕ

-- How the outside world answers the call at each tick of the clock.
pub record Outside (V F : Type 0) : Type 0 where
  pub database : ℕ → Signal (Unit {0})
  pub late : ℕ → Bool
  pub disk : ℕ → Signal (Unit {0})
  pub detector : ℕ → Signal (List (DetectedFace F V))
  pub cropper : ℕ → Signal String
  pub search : ℕ → Signal (List (String × F))
  pub lychee : ℕ → Signal Response
  pub new_id : ℕ → String

module _ {V F : Type 0} where
  abbrev pub tick : World V F → World V F
  tick w = record w { clock = w.clock + 1 }

  -- The answer of this tick, and the change of the world if the call returns.
  abbrev pub answer : {A : Type 0} → (ℕ → Signal A) → (World V F → World V F) → Step (World V F) A
  answer f change w = elim (f w.clock) [
    | returned a ↦ (returned a, change (tick w))
    | raised ↦ (raised, tick w)
    | cancelled ↦ (cancelled, tick w)
  ]

  abbrev pub is_of_photo : String → Row V F → Bool
  is_of_photo photo_id r = str_eq r.photo_id photo_id

  -- The store replaces the row of a face id that it has.
  abbrev pub put : Row V F → List (Row V F) → List (Row V F)
  put r rows =
      filter (λ (old : Row V F). not (str_eq old.lychee_face_id r.lychee_face_id)) rows ++ r ∷ []

  abbrev pub put_all : List (Row V F) → List (Row V F) → List (Row V F)
  put_all [] rows = rows
  put_all (r ∷ target) rows = put_all target (put r rows)

  abbrev pub add_row : Row V F → World V F → World V F
  add_row r w = record w { rows = put r w.rows }

  -- A call of the store that raises may have had its effect all the same, if the connection was lost in
  -- the commit.
  abbrev pub answer_or_late :
      (ℕ → Signal (Unit {0})) → (ℕ → Bool) → (World V F → World V F) → Step (World V F) (Unit {0})
  answer_or_late f late change w = elim (f w.clock) [
    | returned a ↦ (returned a, change (tick w))
    | raised ↦ (raised, if late w.clock then change (tick w) else tick w)
    | cancelled ↦ (cancelled, tick w)
  ]

  -- What is sent counts as sent also if no answer comes.
  abbrev pub log : CallbackPayload F → World V F → World V F
  log payload w = record w { sent = w.sent ++ payload ∷ [] }

  abbrev pub services_of : Outside V F → Services (World V F) V F
  services_of outside = record {
    count_by_photo_id = λ photo_id w.
        (answer outside.database (λ v. v) >>= λ _.
        pure (length (filter (is_of_photo photo_id) w.rows)))
          w;
    detect = λ image_path. answer outside.detector (λ v. v);
    uuid4 = λ w. (returned (outside.new_id w.clock), tick w);
    generate_crop = λ image_path x y width height. answer outside.cropper (λ v. v);
    similarity_search = λ embedding limit. answer outside.search (λ v. v);
    post = λ payload w. answer outside.lychee (λ v. v) (log payload w);
    make_crop_dir = answer outside.disk (λ v. v);
    save_crop =
        λ name crop. answer outside.disk (λ v. record v { crops = v.crops ++ (name, crop) ∷ [] });
    add = λ lychee_face_id embedding photo_id variance crop_path.
        answer_or_late outside.database outside.late (
          add_row record {
            lychee_face_id = lychee_face_id;
            embedding = embedding;
            photo_id = photo_id;
            laplacian_variance = variance;
            crop_path = crop_path;
          });
  }

  -- The rows for Lychee's mappings: each mapping of a face that was sent, with that face's embedding.
  abbrev pub row_for : String → String → Option (V × FaceResult F) → List (Row V F)
  row_for photo_id lychee_face_id none = []
  row_for photo_id lychee_face_id (some (vec, result)) =
      record {
        lychee_face_id = lychee_face_id;
        embedding = vec;
        photo_id = photo_id;
        laplacian_variance = result.laplacian_variance;
        crop_path = "faces/" <> lychee_face_id <> ".jpg";
      }
      ∷ []

  abbrev pub rows_for : String → List (FaceData V F) → List FaceMapping → List (Row V F)
  rows_for photo_id face_data [] = []
  rows_for photo_id face_data (mapping ∷ mappings) =
      row_for photo_id mapping.lychee_face_id (get mapping.embedding_id face_data)
      ++ rows_for photo_id face_data mappings
