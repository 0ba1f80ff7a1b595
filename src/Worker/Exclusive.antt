-- ===== src/Worker/Exclusive.antt =====
-- Workers share the jobs out: what every step of a team keeps.
use lychee_facial_recognitio.Prelude.{
  ℕ, zero, suc, ◌≤◌, ◌≡◌, refl, String, Bool, true, false, List, ◌++◌, length, total, total-split,
  arith,
}
use lychee_facial_recognitio.JobQueue
use lychee_facial_recognitio.JobQueue.{Job, Queue, other_than, new_job}
use lychee_facial_recognitio.JobQueue.Fifo.{Rises}
use lychee_facial_recognitio.JobQueue.Occurrences.{
  occurrences, occurrences-append, occurrences-given,
}
use lychee_facial_recognitio.Worker.Team.{
  Stage, waiting, advance, Team, Step, work, ask, Reach, here, later, waiting_workers,
}
use lychee_facial_recognitio.Worker.Shares.{
  busy, handles, IsOnce, Shares, advance-Shares, serve-Shares,
}

-- What every team keeps.
pub record IsShared (t : Team) : Type 0 where
  pub once : (k : ℕ) → IsOnce k t.queue
  pub in_flight : (k : ℕ) → total (handles k) t.stages ≤ occurrences k t.queue.inflight
  pub in_all : total busy t.stages ≤ length t.queue.inflight

module _ (max_size : ℕ) (auto : Bool) where
  Step-Shares :
      {t u : Team} (k : ℕ)
      → Step max_size auto t u
      → IsShared t
      → Shares k (total (handles k) u.stages) (total busy u.stages) (waiting, u.queue)
  Step-Shares {t} k (work end fate before after stage e) h =
      let (stage', q') = advance auto end fate stage t.queue in
      let old = total-split (handles k) before after stage e in
      let old_busy = total-split busy before after stage e in
      let new = total-split (handles k) before after stage' refl in
      let new_busy = total-split busy before after stage' refl in
      let mine = h.in_flight k in
      let all = h.in_all in
      let shares =
        advance-Shares k (total (handles k) (before ++ after)) (total busy (before ++ after)) auto
          end fate stage t.queue h.once (h.once k, omega arith, omega arith) in
      (shares.0, omega (arith, shares.1), omega (arith, shares.2))
  Step-Shares {t} k (ask request c) h =
      serve-Shares k (total (handles k) t.stages) (total busy t.stages) max_size request t.queue c
        (h.once k, omega (arith, h.in_flight k), omega (arith, h.in_all))

  Step-IsShared : {t u : Team} → Step max_size auto t u → IsShared t → IsShared u
  Step-IsShared step h = record {
    once = λ k. (Step-Shares k step h).0;
    in_flight = λ k. omega (arith, (Step-Shares k step h).1);
    in_all = omega (arith, (Step-Shares 0 step h).2);
  }

  Reach-IsShared : {t u : Team} → IsShared t → Reach max_size auto t u → IsShared u
  Reach-IsShared h here = h
  Reach-IsShared h (later reach step) = Step-IsShared step (Reach-IsShared h reach)

waiting_lem :
    (weight : Stage → ℕ) (n : ℕ) → weight waiting ≡ 0 → total weight (waiting_workers n) ≡ 0
waiting_lem weight zero e = refl
waiting_lem weight (suc n) e = omega (arith, waiting_lem weight n e)

start-IsShared :
    (n lo : ℕ) (q : Queue)
    → Rises lo (q.inflight ++ q.pending) q.next_id
    → IsShared (record { queue = q; stages = waiting_workers n })
start-IsShared n lo q rises = record {
  once = λ k.
      let count = occurrences-append k q.inflight q.pending in
      omega (arith, occurrences-given k lo q.next_id (q.inflight ++ q.pending) rises);
  in_flight = λ k. omega (arith, waiting_lem (handles k) n refl);
  in_all = omega (arith, waiting_lem busy n refl);
}

-- If the automatic dispatch lets clustering in, nobody handles a job.
abbrev pub IsQuiet : Bool → List Stage → Type 0
IsQuiet true stages = total busy stages ≡ 0
IsQuiet false stages = Unit

accepted-IsQuiet :
    (job_type photo_id payload : String) (t : Team)
    → IsShared t
    → IsQuiet (JobQueue.enqueue_if_idle job_type photo_id payload t.queue).0 t.stages
unfolding JobQueue.enqueue_if_idle
accepted-IsQuiet job_type photo_id payload t h = let all = h.in_all in ground arith

-- However the workers of a service and its requests interleave, whatever handlers raise or are cancelled,
-- and whatever calls of the queue raise or are cancelled, with or without effect: from a queue with rising
-- ids, no job is handled by two workers at once, a job that is handled is in flight, and if
-- `enqueue_if_idle` lets a job in then no worker handles one.
pub workers-AreExclusive :
    {t : Team} (max_size : ℕ) (auto : Bool) (n lo k : ℕ) (q : Queue)
    (job_type photo_id payload : String)
    → Rises lo (q.inflight ++ q.pending) q.next_id
    → Reach max_size auto (record { queue = q; stages = waiting_workers n }) t
    → (total (handles k) t.stages ≤ 1)
      × (total (handles k) t.stages ≤ occurrences k t.queue.inflight)
      × IsQuiet (JobQueue.enqueue_if_idle job_type photo_id payload t.queue).0 t.stages
workers-AreExclusive {t} max_size auto n lo k q job_type photo_id payload rises reach =
    let shared = Reach-IsShared max_size auto (start-IsShared n lo q rises) reach in
    let once = shared.once k in
    let mine = shared.in_flight k in
    (ground arith, mine, accepted-IsQuiet job_type photo_id payload t shared)
