-- ===== src/Tests/Lives.antt =====
-- The theorems about start-up and shut-down at concrete inputs.
use lychee_facial_recognitio.Prelude.{false}
use lychee_facial_recognitio.Async.{returned, cancelled}
use lychee_facial_recognitio.Lifespan.{lifespan}
use lychee_facial_recognitio.Lifespan.World.{Outside, services_of}
use lychee_facial_recognitio.Lifespan.Shutdown.{down, Ends, lifespan-Ends}

-- Lychee answers with a redirection, and the requests end with a cancellation.
abbrev outside : Outside
outside = record {
  lychee = λ n. returned 307;
  detector = λ n. returned tt;
  database = λ n. returned 0;
  requests = λ n. cancelled;
  tasks = λ n. returned tt;
}

lifespan-Ends_example : Ends outside false 2 0 (lifespan (services_of outside) false 2 (down 0))
lifespan-Ends_example = lifespan-Ends outside false 2 0
