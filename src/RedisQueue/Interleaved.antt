-- ===== src/RedisQueue/Interleaved.antt =====
-- Several processes on one Redis: their commands in any order, and processes that die between two of them.
pub mod Counts
pub mod Safe
use lychee_facial_recognitio.Prelude.{ℕ, zero, suc, ◌≡◌, some, List, [], ◌∷◌, ◌++◌}
use lychee_facial_recognitio.JobQueue.{Job}
use lychee_facial_recognitio.JobQueue.Protocol.{Request, Reply}
use lychee_facial_recognitio.RedisQueue.{Redis}
use lychee_facial_recognitio.RedisQueue.Commands.{Progress, answered, advance}

-- `handed` are the jobs that some `dequeue` has returned, in order.
pub record System : Type 0 where
  pub redis : Redis
  pub processes : List Progress
  pub handed : List Job

-- The job that a method answers with.
abbrev pub handed_by : Progress → List Job
handed_by (answered (Reply.job (some j))) = j ∷ []
handed_by _ = []

-- A process that has nothing to do.
abbrev pub idle : Progress
idle = answered Reply.done

-- A process sends a command: the first one of the request, if its last method has answered, or the next one
-- of the method that it runs.
abbrev pub after_command : System → List Progress → List Progress → Progress × Redis → System
after_command s before after (p, r) = record {
  redis = r;
  processes = before ++ p ∷ after;
  handed = s.handed ++ handed_by p;
}

pub data Step (max_size : ℕ) (s : System) : System → Type 0 where
  turn :
      (request : Request) (before after : List Progress) (p : Progress)
      → s.processes ≡ before ++ p ∷ after
      → Step max_size s (after_command s before after (advance max_size request p s.redis))
  crash :
      (before after : List Progress) (p : Progress)
      → s.processes ≡ before ++ p ∷ after
      → Step max_size s (record s { processes = before ++ idle ∷ after })

pub data Reach (max_size : ℕ) (s : System) : System → Type 0 where
  here : Reach max_size s s
  later : {t u : System} → Reach max_size s t → Step max_size t u → Reach max_size s u

-- `n` processes that have nothing to do.
abbrev pub idle_processes : ℕ → List Progress
idle_processes zero = []
idle_processes (suc n) = idle ∷ idle_processes n

abbrev pub boot : ℕ → Redis → System
boot n r = record { redis = r; processes = idle_processes n; handed = [] }
