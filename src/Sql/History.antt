-- ===== src/Sql/History.antt =====
-- Sequences of calls of a store or a queue, any of which may raise, against what an abstract object serves.
use lychee_facial_recognitio.Prelude.{◌<◌, ◌≡◌, refl, ap, subst, List, [], ◌∷◌}
use lychee_facial_recognitio.Sql.{Result, ok, err, Session, Tx}

-- One call after the other; a call that raises does not stop the next.
abbrev pub perform :
    {T Request Reply : Type 0}
    → (Request → Tx T Reply)
    → List Request
    → Session T
    → List (Result Reply) × Session T
perform call [] s = ([], s)
perform call (request ∷ requests) s =
    let (reply, s') = call request s in
    let (replies, s'') = perform call requests s' in (reply ∷ replies, s'')

module _ {Request Reply Object : Type 0} (serve : Request → Object → Reply × Object) where
  -- The replies to a list of requests lead from `o` to `o'` by what the object serves; a request that
  -- raised has no effect.
  abbrev pub Explains : List Request → List (Result Reply) → Object → Object → Type 0
  Explains [] [] o o' = o ≡ o'
  Explains (request ∷ requests) (ok reply ∷ replies) o o' =
      (reply ≡ (serve request o).0) × Explains requests replies (serve request o).1 o'
  Explains (request ∷ requests) (err e ∷ replies) o o' = Explains requests replies o o'
  Explains _ _ o o' = ⊥

  module _ {T : Type 0} (view : T → Object) where
    -- The answer and the new object are those that are served, or the call raised, some call of the driver
    -- failed, and nothing has changed.
    abbrev pub Answers : Request → Session T → Result Reply × Session T → Type 0
    Answers request s (ok reply, s') =
        (reply ≡ (serve request (view s.committed)).0)
        × (view s'.committed ≡ (serve request (view s.committed)).1)
        × (s'.faults ≡ s.faults)
    Answers request s (err e, s') = (s'.committed ≡ s.committed) × (s.faults < s'.faults)

    module _ (call : Request → Tx T Reply) (Inv : Session T → Type 0)
        (step : (request : Request) (s : Session T)
          → Inv s
          → Answers request s (call request s) × Inv (call request s).1) where
      one_more :
          (request : Request) (requests : List Request) (s : Session T)
          (end : Result Reply × Session T)
          → Answers request s end
          → Explains requests
              (perform call requests end.1).0
              (view end.1.committed)
              (view (perform call requests end.1).1.committed)
          → Explains
              (request ∷ requests)
              (end.0 ∷ (perform call requests end.1).0)
              (view s.committed)
              (view (perform call requests end.1).1.committed)
      one_more request requests s (ok reply, s') h rest = (h.0, rw h.1 at rest)
      one_more request requests s (err e, s') h rest =
          subst
            (λ o.
              Explains requests (perform call requests s').0 o
                (view (perform call requests s').1.committed))
            (ap view h.0) rest

      pub perform-Explains :
          (requests : List Request) (s : Session T)
          → Inv s
          → Explains requests
              (perform call requests s).0
              (view s.committed)
              (view (perform call requests s).1.committed)
      perform-Explains [] s h = refl
      perform-Explains (request ∷ requests) s h =
          let (answers, inv) = step request s h in
          one_more request requests s (call request s) answers
            (perform-Explains requests (call request s).1 inv)
