-- ===== src/RedisQueue/Interleaved/Safe.antt =====
-- What the interleavings keep.
use lychee_facial_recognitio.Prelude.{
  ℕ, zero, suc, ◌+◌, ◌≤◌, ◌<◌, ◌≡◌, refl, length-append, total, total-split, length-split, max,
  String, List, [], ◌∷◌, ◌++◌, length, arith, ap,
}
use lychee_facial_recognitio.JobQueue.{Job}
use lychee_facial_recognitio.JobQueue.Protocol.{Request}
use lychee_facial_recognitio.RedisQueue
use lychee_facial_recognitio.RedisQueue.{Redis, push, call}
use lychee_facial_recognitio.RedisQueue.Refinement.{IsValid}
use lychee_facial_recognitio.RedisQueue.Commands.{
  Progress, answered, to_number, to_push, to_track, to_scan, advance, lpop,
}
use lychee_facial_recognitio.RedisQueue.Interleaved.{
  System, Step, turn, crash, Reach, here, later, handed_by, idle, idle_processes, boot,
}
use lychee_facial_recognitio.RedisQueue.Interleaved.Counts.{reserved, reserved-le, holds}
use lychee_facial_recognitio.JobQueue.Occurrences.{
  occurrences, occurrences-append, given, occurrences-given,
}

-- The jobs in the list and those that a process is about to push.
abbrev load : Progress × Redis → ℕ
load (p, r) = length r.jobs + reserved p

-- The jobs with an id in the list, in the hands of a process, and handed out by its command.
abbrev count : ℕ → Progress × Redis → ℕ
count k (p, r) = occurrences k r.jobs + holds k p + occurrences k (handed_by p)

length-push :
    (job_type photo_id payload : String) (r : Redis)
    → length (push job_type photo_id payload r).jobs ≡ length r.jobs + 1
unfolding push
length-push job_type photo_id payload r = omega (arith, length-append r.jobs)

occurrences-push :
    (k : ℕ) (job_type photo_id payload : String) (r : Redis)
    → occurrences k (push job_type photo_id payload r).jobs + given k (r.counter + 1)
      ≡ occurrences k r.jobs + given k (r.counter + 1 + 1)
unfolding push
occurrences-push k job_type photo_id payload r =
    let j : Job = record {
      id = r.counter + 1;
      job_type = job_type;
      photo_id = photo_id;
      payload = payload;
    } in
    ground (arith, occurrences-append k r.jobs (j ∷ []))

lpop-load : (jobs : List Job) (r : Redis) → r.jobs ≡ jobs → load (lpop jobs r) ≤ length jobs
lpop-load [] r e = rw e (omega arith)
lpop-load (j ∷ rest) r e = omega arith

lpop-count :
    (k : ℕ) (jobs : List Job) (r : Redis)
    → r.jobs ≡ jobs
    → count k (lpop jobs r) ≤ occurrences k jobs
lpop-count k [] r e = rw e (omega arith)
lpop-count k (j ∷ rest) r e = omega arith

lpop-counter : (jobs : List Job) (r : Redis) → (lpop jobs r).1.counter ≡ r.counter
lpop-counter [] r = refl
lpop-counter (j ∷ rest) r = refl

module _ (max_size : ℕ) where
  -- A command loads the queue no more than it was, or no more than to its bound.
  advance-load :
      (request : Request) (p : Progress) (r : Redis)
      → 0 < max_size
      → load (advance max_size request p r) ≤ max (load (p, r)) max_size
  unfolding advance call push RedisQueue.enqueue_if_idle RedisQueue.complete RedisQueue.size
      RedisQueue.purge
  advance-load (Request.enqueue job_type photo_id payload) (answered reply) r h = ground arith
  advance-load (Request.enqueue_if_idle job_type photo_id payload) (answered reply) r h =
      ground (arith, length-push job_type photo_id payload r)
  advance-load Request.dequeue (answered reply) r h = omega (arith, lpop-load r.jobs r refl)
  advance-load (Request.complete job_id) (answered reply) r h = omega arith
  advance-load Request.size (answered reply) r h = omega arith
  advance-load Request.purge (answered reply) r h = omega arith
  advance-load (Request.position photo_id) (answered reply) r h = ground arith
  advance-load request (to_number job_type photo_id payload) r h = omega arith
  advance-load request (to_push j) r h = omega (arith, length-append r.jobs (j ∷ []))
  advance-load request (to_track j) r h = omega arith
  advance-load request (to_scan photo_id) r h = omega arith

  -- A command makes no job with an id, unless it gives the id.
  advance-count :
      (k : ℕ) (request : Request) (p : Progress) (r : Redis)
      → let end = advance max_size request p r in
        count k end + given k (r.counter + 1)
        ≤ occurrences k r.jobs + holds k p + given k (end.1.counter + 1)
  unfolding advance call push RedisQueue.enqueue_if_idle RedisQueue.complete RedisQueue.size
      RedisQueue.purge
  advance-count k (Request.enqueue job_type photo_id payload) (answered reply) r = ground arith
  advance-count k (Request.enqueue_if_idle job_type photo_id payload) (answered reply) r =
      ground (arith, occurrences-push k job_type photo_id payload r)
  advance-count k Request.dequeue (answered reply) r =
      omega (arith, lpop-count k r.jobs r refl, ap (λ n. given k (n + 1)) (lpop-counter r.jobs r))
  advance-count k (Request.complete job_id) (answered reply) r = omega arith
  advance-count k Request.size (answered reply) r = omega arith
  advance-count k Request.purge (answered reply) r = omega arith
  advance-count k (Request.position photo_id) (answered reply) r = ground arith
  advance-count k request (to_number job_type photo_id payload) r = ground arith
  advance-count k request (to_push j) r = omega (arith, occurrences-append k r.jobs (j ∷ []))
  advance-count k request (to_track j) r = omega arith
  advance-count k request (to_scan photo_id) r = omega arith

  -- With `n` further processes, the queue holds at most `n` jobs more than its bound, the jobs that are
  -- about to be pushed counted in.
  abbrev IsBounded : ℕ → System → Type 0
  IsBounded n s =
      (length s.processes ≡ suc n)
      × (length s.redis.jobs + total reserved s.processes ≤ max_size + n)

  -- A job that was given the id `k` is in one place at most.
  abbrev IsOnce : ℕ → System → Type 0
  IsOnce k s =
      occurrences k s.redis.jobs + total (holds k) s.processes + occurrences k s.handed
      ≤ given k (s.redis.counter + 1)

  Step-IsBounded :
      {s t : System} (n : ℕ) → 0 < max_size → Step max_size s t → IsBounded n s → IsBounded n t
  Step-IsBounded {s} n pos_size (turn request before after p e) (few, fits) =
      let (p', r') = advance max_size request p s.redis in
      let rest = reserved-le (before ++ after) in
      let old = total-split reserved before after p e in
      (
        omega (arith, length-split before after p e, length-split before after p' refl),
        omega (
          arith,
          length-split before after p e,
          total-split reserved before after p' refl,
          advance-load request p s.redis pos_size,
        ),
      )
  Step-IsBounded n pos_size (crash before after p e) (few, fits) =
      let old = total-split reserved before after p e in
      (
        omega (arith, length-split before after p e, length-split before after idle refl),
        omega (arith, total-split reserved before after idle refl),
      )

  Step-IsOnce : {s t : System} (k : ℕ) → Step max_size s t → IsOnce k s → IsOnce k t
  Step-IsOnce {s} k (turn request before after p e) once =
      let (p', r') = advance max_size request p s.redis in
      omega (
        arith,
        total-split (holds k) before after p e,
        total-split (holds k) before after p' refl,
        occurrences-append k s.handed (handed_by p'),
        advance-count k request p s.redis,
      )
  Step-IsOnce k (crash before after p e) once =
      omega (
        arith,
        total-split (holds k) before after p e,
        total-split (holds k) before after idle refl,
      )

  Reach-IsBounded :
      {s t : System} (n : ℕ) → 0 < max_size → IsBounded n s → Reach max_size s t → IsBounded n t
  Reach-IsBounded n pos_size h here = h
  Reach-IsBounded n pos_size h (later reach step) =
      Step-IsBounded n pos_size step (Reach-IsBounded n pos_size h reach)

  Reach-IsOnce : {s t : System} (k : ℕ) → IsOnce k s → Reach max_size s t → IsOnce k t
  Reach-IsOnce k h here = h
  Reach-IsOnce k h (later reach step) = Step-IsOnce k step (Reach-IsOnce k h reach)

idle_lem :
    (weight : Progress → ℕ) (n : ℕ)
    → weight idle ≡ 0
    → (length (idle_processes n) ≡ n) × (total weight (idle_processes n) ≡ 0)
idle_lem weight zero e = (refl, refl)
idle_lem weight (suc n) e = let rest = idle_lem weight n e in (omega arith, omega arith)

-- From valid keys within the bound, whatever commands the processes interleave and whichever processes die
-- in the middle of a method: with `n` processes besides the first the queue never has more than `n` jobs
-- above its bound, and no job id is handed out twice.
pub interleaved-IsSafe :
    {s : System} (max_size n k : ℕ) (r : Redis)
    → 0 < max_size
    → IsValid r
    → length r.jobs ≤ max_size
    → Reach max_size (boot (suc n) r) s
    → (length s.redis.jobs ≤ max_size + n) × (occurrences k s.handed ≤ 1)
interleaved-IsSafe max_size n k r pos_size valid fits reach =
    let (few, none_reserved) = idle_lem reserved (suc n) refl in
    let none_held = (idle_lem (holds k) (suc n) refl).1 in
    let start_once = occurrences-given k valid.below (r.counter + 1) r.jobs valid.rises in
    let bounded = Reach-IsBounded max_size n pos_size (few, omega arith) reach in
    let once = Reach-IsOnce max_size k (omega arith) reach in (omega arith, ground arith)
