-- ===== src/DbQueue/Postgres/Refinement.antt =====
-- `PgJobQueue` implements the protocol, whatever statements fail, but for ids that are skipped and for
-- calls that have an effect without an answer.
use lychee_facial_recognitio.Prelude.{ℕ, ◌+◌, ◌≡◌, ◌⊎◌, List, [], ◌∷◌}
use lychee_facial_recognitio.Sql.{Result, ok, err, Session}
use lychee_facial_recognitio.Sql.Postgres.{IsHealthy}
use lychee_facial_recognitio.JobQueue.{Queue}
use lychee_facial_recognitio.JobQueue.Protocol.{Request, Reply, serve}
use lychee_facial_recognitio.DbQueue.{Table, view}
use lychee_facial_recognitio.DbQueue.Layout.{IsValid}

-- Some ids are never given.
abbrev pub skip : ℕ → Queue → Queue
skip n q = record q { next_id = q.next_id + n }

abbrev skip_ids : ℕ → Table → Table
skip_ids n t = record t { next_id = t.next_id + n }

-- The replies to a list of requests lead from one queue to another by the protocol, where each request may
-- first skip some ids. A request that raised has had no effect, or its whole effect.
abbrev pub Explains : ℕ → List Request → List (Result Reply) → Queue → Queue → Type 0
Explains max_size [] [] q q' = q ≡ q'
Explains max_size (request ∷ requests) (ok reply ∷ replies) q q' =
    (n : ℕ) × (reply ≡ (serve max_size request (skip n q)).0)
    × Explains max_size requests replies (serve max_size request (skip n q)).1 q'
Explains max_size (request ∷ requests) (err e ∷ replies) q q' =
    Explains max_size requests replies q q'
    ⊎ ((n : ℕ) × Explains max_size requests replies (serve max_size request (skip n q)).1 q')
Explains max_size _ _ q q' = ⊥

-- The same for one request.
abbrev Answers : ℕ → Request → Queue → Result Reply → Queue → Type 0
Answers max_size request q (ok reply) q' =
    (n : ℕ) × (reply ≡ (serve max_size request (skip n q)).0)
    × (q' ≡ (serve max_size request (skip n q)).1)
Answers max_size request q (err e) q' =
    (q' ≡ q) ⊎ ((n : ℕ) × (q' ≡ (serve max_size request (skip n q)).1))

pub record IsReady (s : Session Table) : Type 0 where
  pub valid : IsValid s.committed
  pub healthy : IsHealthy s

module _ (max_size : ℕ) where
  -- What a step does is what the protocol does, some ids skipped.
  abbrev Serves : Request → Table → Reply × Table → Type 0
  Serves request t (reply, t') =
      ((n : ℕ) × (reply ≡ (serve max_size request (skip n (view t))).0)
        × (view t' ≡ (serve max_size request (skip n (view t))).1))
      × IsValid t'
