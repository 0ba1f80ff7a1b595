-- ===== src/JobQueue/Occurrences.antt =====
-- How often an id stands in a list of jobs.
use lychee_facial_recognitio.Prelude.{
  ℕ, suc, ◌+◌, ◌≤◌, ◌<◌, ◌==◌, ◌≡◌, refl, if◌then◌else◌, ltb, List, [], ◌∷◌, ◌++◌, length, filter,
  arith,
}
use lychee_facial_recognitio.JobQueue.{Job, other_than}
use lychee_facial_recognitio.JobQueue.Fifo.{Rises}

-- The jobs with an id.
abbrev pub same : ℕ → Job → ℕ
same k j = if j.id == k then 1 else 0

abbrev pub occurrences : ℕ → List Job → ℕ
occurrences k [] = 0
occurrences k (j ∷ js) = same k j + occurrences k js

pub occurrences-append :
    (k : ℕ) (js more : List Job)
    → occurrences k (js ++ more) ≡ occurrences k js + occurrences k more
occurrences-append k [] more = omega arith
occurrences-append k (j ∷ js) more = omega (arith, occurrences-append k js more)

-- Ids below a bound stand once at most, others do not stand at all.
abbrev pub given : ℕ → ℕ → ℕ
given k bound = if ltb k bound then 1 else 0

pub Rises-le : (lo hi : ℕ) (js : List Job) → Rises lo js hi → lo ≤ hi
Rises-le lo hi [] h = h
Rises-le lo hi (j ∷ js) h = omega (arith, Rises-le (suc j.id) hi js h.1)

occurrences-below : (k lo hi : ℕ) (js : List Job) → Rises lo js hi → k < lo → occurrences k js ≡ 0
occurrences-below k lo hi [] h below = refl
occurrences-below k lo hi (j ∷ js) h below =
    ground (arith, occurrences-below k (suc j.id) hi js h.1)

-- In a list of rising ids every id stands once at most.
pub occurrences-given :
    (k lo hi : ℕ) (js : List Job) → Rises lo js hi → occurrences k js ≤ given k hi
occurrences-given k lo hi [] h = omega arith
occurrences-given k lo hi (j ∷ js) h = ground (
  arith,
  occurrences-given k (suc j.id) hi js h.1,
  occurrences-below k (suc j.id) hi js h.1,
  Rises-le (suc j.id) hi js h.1,
)

-- The jobs with another id.
pub occurrences-filter :
    (k job_id : ℕ) (js : List Job)
    → occurrences k (filter (other_than job_id) js) ≡ (if job_id == k then 0 else occurrences k js)
occurrences-filter k job_id [] = ground arith
occurrences-filter k job_id (j ∷ js) = ground (arith, occurrences-filter k job_id js)

pub length-other_than :
    (job_id : ℕ) (js : List Job)
    → length (filter (other_than job_id) js) + occurrences job_id js ≡ length js
length-other_than job_id [] = omega arith
length-other_than job_id (j ∷ js) = ground (arith, length-other_than job_id js)
