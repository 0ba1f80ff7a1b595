-- ===== src/Tests/Jobs.antt =====
-- The theorems about the worker and the searches at concrete inputs.
use lychee_facial_recognitio.Prelude.{
  ℕ, ◌≡◌, String, true, false, Option, some, List, [], ◌∷◌, ◌++◌, arith, ◌≢◌, str_eq, if◌then◌else◌,
}
use lychee_facial_recognitio.JobQueue.{Job, Queue}
use lychee_facial_recognitio.Async.{returned, raised, cancelled, Step}
use lychee_facial_recognitio.Worker.{pass, run_worker}
use lychee_facial_recognitio.Worker.Drain.{
  services_of, run_job, IsIdle, run_worker_drains, pass_completes,
}

abbrev job : ℕ → String → String → Job
job id job_type payload = record { id = id; job_type = job_type; photo_id = "p"; payload = payload }

-- The detection of the photo "bad" raises; each run is logged.
abbrev detection : String → String → Step (List String) (Unit {0})
detection photo_id photo_path log =
    if str_eq photo_path "bad"
    then (raised, log ++ "failed" ∷ [])
    else (returned tt, log ++ photo_path ∷ [])

abbrev clustering : Step (List String) (Unit {0})
clustering log = (returned tt, log ++ "clustering" ∷ [])

abbrev path_of : String → Option String
path_of payload = some payload

abbrev jobs : List Job
jobs = job 1 "detect" "bad" ∷ job 2 "cluster" "" ∷ job 3 "detect" "good" ∷ []

never_cancelled :
    (j : Job) (log : List String) → (run_job detection clustering path_of j log).0 ≢ cancelled
never_cancelled j log = ground arith

run_worker_drains_example :
    let q : Queue = record { inflight = []; pending = jobs; next_id = 4 } in
    let (on, w) = run_worker (services_of detection clustering path_of) 3 true (q, []) in
    (on ≡ true) × (w.1 ≡ "failed" ∷ "clustering" ∷ "good" ∷ []) × IsIdle w.0
run_worker_drains_example =
    run_worker_drains detection clustering path_of true jobs 0 4 [] never_cancelled
      (omega arith, (omega arith, (omega arith, omega arith)))

-- A shutdown cancels the detection.
abbrev interrupted : String → String → Step (List String) (Unit {0})
interrupted photo_id photo_path log = (cancelled, log)

pass_completes_example :
    let q : Queue = record {
      inflight = job 4 "cluster" "" ∷ [];
      pending = job 5 "detect" "good" ∷ [];
      next_id = 6;
    } in
    let (on, w) = pass (services_of interrupted clustering path_of) true (q, []) in
    (on ≡ false) × (w.1 ≡ []) × (w.0.inflight ≡ job 4 "cluster" "" ∷ []) × (w.0.pending ≡ [])
pass_completes_example =
    pass_completes interrupted clustering path_of true (job 4 "cluster" "" ∷ [])
      (job 5 "detect" "good") [] 6 []
