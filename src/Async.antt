-- ===== src/Async.antt =====
-- Coroutines of the service: every `await` ends in one of three ways, it returns, it raises an
-- exception, or the task is cancelled. `W` is the world that the calls change.
use lychee_facial_recognitio.Prelude.{◌≡◌, ◌≢◌, refl, ap, ◌⊎◌, inl, inr, arith}

pub data Signal (A : Type 0) : Type 0 where
  returned : A → Signal A
  raised cancelled : Signal A

abbrev pub Step : Type 0 → Type 0 → Type 0
Step W A = W → Signal A × W

module _ {W A : Type 0} where
  abbrev pub pure : A → Step W A
  pure a w = (returned a, w)

module _ {W A B : Type 0} where
  infixl 5 ◌>>=◌ ◌>>◌
  abbrev pub ◌>>=◌ : Step W A → (A → Step W B) → Step W B
  ◌>>=◌ m f w =
      let (r, w') = m w in
      elim r [ returned a ↦ f a w' | raised ↦ (raised, w') | cancelled ↦ (cancelled, w') ]

  abbrev pub ◌>>◌ : Step W A → Step W B → Step W B
  m >> k = m >>= λ _. k

  -- try: body finally: cleanup, where what the cleanup raises replaces what the body raised
  abbrev pub try_finally : Step W A → Step W B → Step W A
  try_finally body cleanup w =
      let (r, w') = body w in
      let (c, w'') = cleanup w' in
      elim c [ returned _ ↦ (r, w'') | raised ↦ (raised, w'') | cancelled ↦ (cancelled, w'') ]

module _ {W A : Type 0} where
  abbrev pub fail : Step W A
  fail w = (raised, w)

  -- try: body except Exception: handler. A cancellation is no `Exception`.
  abbrev pub try_except : Step W A → Step W A → Step W A
  try_except body handler w =
      let (r, w') = body w in
      elim r [ returned a ↦ (returned a, w') | raised ↦ handler w' | cancelled ↦ (cancelled, w') ]

-- A property of the ends of a sequence: the first step stops it, or the rest goes on from its value.
module _ {W A B : Type 0} (P : Signal B × W → Type 0) (f : A → Step W B) where
  bind_cases :
      (end : Signal A × W)
      → ((s : Signal B) → ((b : B) → s ≢ returned b) → P (s, end.1))
      → ((a : A) → end.0 ≡ returned a → P (f a end.1))
      → P (elim end.0 as (λ _. Signal B × W) [
        | returned a ↦ f a end.1
        | raised ↦ (raised, end.1)
        | cancelled ↦ (cancelled, end.1)
      ])
  bind_cases (returned a, w) stop go = go a refl
  bind_cases (raised, w) stop go = stop raised (λ b e. cc)
  bind_cases (cancelled, w) stop go = stop cancelled (λ b e. cc)

  pub bind-ends :
      (m : Step W A) (w : W)
      → ((s : Signal B) → ((b : B) → s ≢ returned b) → P (s, (m w).1))
      → ((a : A) → (m w).0 ≡ returned a → P (f a (m w).1))
      → P ((m >>= f) w)
  bind-ends m w = bind_cases (m w)

module _ {W A : Type 0} (P : Signal A × W → Type 0) (handler : Step W A) where
  except_cases :
      (end : Signal A × W)
      → (end.0 ≢ raised → P end)
      → (end.0 ≡ raised → P (handler end.1))
      → P (elim end.0 as (λ _. Signal A × W) [
        | returned a ↦ (returned a, end.1)
        | raised ↦ handler end.1
        | cancelled ↦ (cancelled, end.1)
      ])
  except_cases (returned a, w) stop go = stop (λ e. cc)
  except_cases (raised, w) stop go = go refl
  except_cases (cancelled, w) stop go = stop (λ e. cc)

  pub try_except-ends :
      (body : Step W A) (w : W)
      → ((body w).0 ≢ raised → P (body w))
      → ((body w).0 ≡ raised → P (handler (body w).1))
      → P (try_except body handler w)
  try_except-ends body w = except_cases (body w)

-- To split on how a call ended.
pub Signal-cases :
    {A : Type 0} (s : Signal A) → ((a : A) × (s ≡ returned a)) ⊎ (s ≡ raised) ⊎ (s ≡ cancelled)
Signal-cases (returned a) = inl (a, refl)
Signal-cases raised = inr (inl refl)
Signal-cases cancelled = inr (inr refl)

-- How a sequence goes on, from how its first step ends.
module _ {W A B : Type 0} (f : A → Step W B) (m : Step W A) (w w' : W) where
  pub bind-returned : (a : A) → m w ≡ (returned a, w') → (m >>= f) w ≡ f a w'
  bind-returned a e = rw (e, ◌>>=◌) (ap (λ end. f a end.1) e)

  pub bind-raised : m w ≡ (raised, w') → (m >>= f) w ≡ (raised, w')
  bind-raised e = rw (e, ◌>>=◌) (ap (λ end. (raised, end.1)) e)

module _ {W A : Type 0} (body handler : Step W A) (w w' : W) where
  pub except-returned :
      (a : A) → body w ≡ (returned a, w') → try_except body handler w ≡ (returned a, w')
  except-returned a e = rw (e, try_except) (ap (λ end. (returned a, end.1)) e)

  pub except-raised : body w ≡ (raised, w') → try_except body handler w ≡ handler w'
  except-raised e = rw (e, try_except) (ap (λ end. handler end.1) e)

-- The cleanup runs however the body ends, and last.
module _ {W A B : Type 0} (body : Step W A) (cleanup : Step W B) (w : W) where
  pub try_finally-ends : (try_finally body cleanup w).1 ≡ (cleanup (body w).1).1
  try_finally-ends = ground arith
