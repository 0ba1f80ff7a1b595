-- ===== src/DetectionJob/Persistence.antt =====
-- What a detection job leaves in the store.
use lychee_facial_recognitio.Prelude.{
  ℕ, suc, ◌≡◌, ◌≢◌, ◌⊎◌, refl, ap, ◌∙◌, String, ◌<>◌, Option, none, some, List, [], ◌∷◌, ◌++◌, take,
  arith, inl, inr,
}
use lychee_facial_recognitio.Async.{Signal, returned, raised, cancelled, Step, ◌>>◌}
use lychee_facial_recognitio.Suggestions.{get}
use lychee_facial_recognitio.DetectionJob.{
  FaceResult, FaceData, FaceMapping, persist_all, persist_found,
}
use lychee_facial_recognitio.DetectionJob.World.{
  Row, World, Outside, services_of, row_for, rows_for, put, put_all,
}

-- How a run of `persist_all` ends that is to store these rows: it has stored some first part of them,
-- and all of them if it returns; nothing is sent.
pub record Persisted {V F : Type 0} (target : List (Row V F)) (w : World V F)
    (end : Signal (Unit {0}) × World V F) : Type 0 where
  pub stored : ℕ
  pub rows_eq : end.1.rows ≡ put_all (take stored target) w.rows
  pub sent_eq : end.1.sent ≡ w.sent
  pub all : (end.0 ≢ returned tt) ⊎ (end.1.rows ≡ put_all target w.rows)

module _ {V F : Type 0} where
  -- A run that stopped before the next row.
  stopped :
      (target : List (Row V F)) (w w' : World V F) (s : Signal (Unit {0}))
      → w'.rows ≡ w.rows
      → w'.sent ≡ w.sent
      → s ≢ returned tt
      → Persisted target w (s, w')
  stopped target w w' s rows sent h = record {
    stored = 0;
    rows_eq = rows;
    sent_eq = sent;
    all = inl h;
  }

  -- A run that stopped with the next row.
  stopped_late :
      (r : Row V F) (target : List (Row V F)) (w w' : World V F) (s : Signal (Unit {0}))
      → w'.rows ≡ put r w.rows
      → w'.sent ≡ w.sent
      → s ≢ returned tt
      → Persisted (r ∷ target) w (s, w')
  stopped_late r target w w' s rows sent h = record {
    stored = 1;
    rows_eq = rows;
    sent_eq = sent;
    all = inl h;
  }

  -- A row that was stored, and then the others.
  one_more :
      (r : Row V F) (target : List (Row V F)) (w w' : World V F)
      (end : Signal (Unit {0}) × World V F)
      → w'.rows ≡ put r w.rows
      → w'.sent ≡ w.sent
      → Persisted target w' end
      → Persisted (r ∷ target) w end
  one_more r target w w' end rows sent p = record {
    stored = suc p.stored;
    rows_eq = p.rows_eq ∙ ap (put_all (take p.stored target)) rows;
    sent_eq = p.sent_eq ∙ sent;
    all = elim p.all [
      | inl stopped_later ↦ inl stopped_later
      | inr e ↦ inr (e ∙ ap (put_all target) rows)
    ];
  }

  -- The row is stored by the first step, or it stopped, and has stored it if it was late.
  abbrev Stores : Row V F → World V F → Signal (Unit {0}) × World V F → Type 0
  Stores r w (returned _, w') = (w'.rows ≡ put r w.rows) × (w'.sent ≡ w.sent)
  Stores r w (_, w') = ((w'.rows ≡ w.rows) ⊎ (w'.rows ≡ put r w.rows)) × (w'.sent ≡ w.sent)

  then_the_rest :
      (r : Row V F) (target : List (Row V F)) (w : World V F) (end : Signal (Unit {0}) × World V F)
      (rest : Step (World V F) (Unit {0}))
      → Stores r w end
      → ((w' : World V F) → Persisted target w' (rest w'))
      → Persisted (r ∷ target) w (((λ (v : World V F). end) >> rest) w)
  then_the_rest r target w (returned _, w') rest h p = one_more r target w w' _ h.0 h.1 (p w')
  then_the_rest r target w (raised, w') rest h p = elim h.0 [
    | inl none_stored ↦ stopped _ w w' _ none_stored h.1 (λ e. cc)
    | inr late ↦ stopped_late r target w w' _ late h.1 (λ e. cc)
  ]
  then_the_rest r target w (cancelled, w') rest h p = elim h.0 [
    | inl none_stored ↦ stopped _ w w' _ none_stored h.1 (λ e. cc)
    | inr late ↦ stopped_late r target w w' _ late h.1 (λ e. cc)
  ]

module _ {V F : Type 0} (outside : Outside V F) (photo_id : String) where
  abbrev row_of : String → V → FaceResult F → Row V F
  row_of lychee_face_id vec result = record {
    lychee_face_id = lychee_face_id;
    embedding = vec;
    photo_id = photo_id;
    laplacian_variance = result.laplacian_variance;
    crop_path = "faces/" <> lychee_face_id <> ".jpg";
  }

  persist_found-Stores :
      (lychee_face_id : String) (vec : V) (result : FaceResult F) (w : World V F)
      → Stores
          (row_of lychee_face_id vec result)
          w
          (persist_found (services_of outside) photo_id lychee_face_id (some (vec, result)) w)
  persist_found-Stores lychee_face_id vec result w = ground arith

  persist_one :
      (lychee_face_id : String) (found : Option (V × FaceResult F)) (target : List (Row V F))
      (w : World V F) (rest : Step (World V F) (Unit {0}))
      → ((w' : World V F) → Persisted target w' (rest w'))
      → Persisted
          (row_for photo_id lychee_face_id found ++ target)
          w
          ((persist_found (services_of outside) photo_id lychee_face_id found >> rest) w)
  persist_one lychee_face_id none target w rest p = p w
  persist_one lychee_face_id (some (vec, result)) target w rest p =
      then_the_rest _ target w _ rest (persist_found-Stores lychee_face_id vec result w) p

  -- Storing the faces that Lychee has mapped goes mapping by mapping: whatever the disk and the database
  -- do, the store has been given a first part of the rows for the mappings, in order, each with the
  -- embedding and the sharpness of the face that was sent under the mapping's id, and all of them
  -- unless a call failed. Nothing more is sent.
  pub persist_all-Persisted :
      (face_data : List (FaceData V F)) (mappings : List FaceMapping) (w : World V F)
      → Persisted
          (rows_for photo_id face_data mappings)
          w
          (persist_all (services_of outside) photo_id face_data mappings w)
  unfolding persist_all
  persist_all-Persisted face_data [] w = record {
    stored = 0;
    rows_eq = refl;
    sent_eq = refl;
    all = inr refl;
  }
  persist_all-Persisted face_data (mapping ∷ mappings) w =
      persist_one mapping.lychee_face_id (get mapping.embedding_id face_data) _ w
        (persist_all (services_of outside) photo_id face_data mappings)
        (persist_all-Persisted face_data mappings)
