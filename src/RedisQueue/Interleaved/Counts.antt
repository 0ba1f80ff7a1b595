-- ===== src/RedisQueue/Interleaved/Counts.antt =====
-- What is counted over the processes of a system.
use lychee_facial_recognitio.Prelude.{ℕ, ◌≤◌, List, [], ◌∷◌, length, total, arith}
use lychee_facial_recognitio.JobQueue.Occurrences.{same}
use lychee_facial_recognitio.RedisQueue.Commands.{
  Progress, answered, to_number, to_push, to_track, to_scan,
}

-- A process that has found room in the queue and has not yet pushed its job.
abbrev pub reserved : Progress → ℕ
reserved (to_number _ _ _) = 1
reserved (to_push _) = 1
reserved _ = 0

pub reserved-le : (processes : List Progress) → total reserved processes ≤ length processes
reserved-le [] = omega arith
reserved-le (answered reply ∷ processes) = omega (arith, reserved-le processes)
reserved-le (to_number _ _ _ ∷ processes) = omega (arith, reserved-le processes)
reserved-le (to_push j ∷ processes) = omega (arith, reserved-le processes)
reserved-le (to_track j ∷ processes) = omega (arith, reserved-le processes)
reserved-le (to_scan _ ∷ processes) = omega (arith, reserved-le processes)

-- The job that a process holds and that is in no list.
abbrev pub holds : ℕ → Progress → ℕ
holds k (to_push j) = same k j
holds k (to_track j) = same k j
holds k _ = 0
