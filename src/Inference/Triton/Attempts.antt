-- ===== src/Inference/Triton/Attempts.antt =====
-- The connection attempts of triton_client.py over any calls.
use ai_intelligence_theft_de.Base.{
  ℕ, ◌+◌, ◌≤◌, String, Bool, true, false, List, [], ◌∷◌, Option, none, some, ltb, if◌then◌else◌,
  ◌≡◌, refl, sym, subst, arith, if_elim,
}
use ai_intelligence_theft_de.Base.Calls.{Reply, failed, done}
use ai_intelligence_theft_de.Inference.Triton.{
  Cause, Error, caused, unavailable, Triton, connect_locked, liveness, backs_off, ensure_connected,
  close, reset_client, is_connection_error, infer,
}

-- Attempts, the last one first, that keep an interval between them.
abbrev pub Spaced : ℕ → List ℕ → Type 0
Spaced d [] = Unit
Spaced d (a ∷ []) = Unit
Spaced d (a ∷ b ∷ rest) = (b + d ≤ a) × Spaced d (b ∷ rest)

abbrev pub latest : List ℕ → Option ℕ
latest [] = none
latest (a ∷ rest) = some a

abbrev Within : ℕ → Option ℕ → Type 0
Within t none = Unit
Within t (some a) = a ≤ t

-- The attempts keep the interval, and the last one is the one that is noted.
pub record IsPaced (d t : ℕ) (c : Triton) : Type 0 where
  pub interval : c.interval ≡ d
  pub spaced : Spaced d c.attempts
  pub noted : c.last_attempt_at ≡ latest c.attempts
  pub within : Within t (latest c.attempts)

-- The state after a call.
abbrev Paced : (E A : Type 0) → ℕ → ℕ → Reply E A × Triton → Type 0
Paced E A d t r = IsPaced d t r.1

Spaced-next :
    (d now started : ℕ) (attempts : List ℕ) (c : Triton)
    → c.interval ≡ d
    → c.last_attempt_at ≡ latest attempts
    → backs_off c now ≡ false
    → now ≤ started
    → Spaced d attempts
    → Spaced d (started ∷ attempts)
unfolding backs_off
Spaced-next d now started [] c i n b le s = tt
Spaced-next d now started (a ∷ rest) c i n b le s = (ground (arith, i, n, b), s)

connect_locked-IsPaced :
    (d t now started : ℕ) (live : Reply Cause Bool) (c : Triton)
    → now ≤ started
    → started ≤ t
    → backs_off c now ≡ false
    → IsPaced d t c
    → IsPaced d t (connect_locked started live c).1
unfolding connect_locked
connect_locked-IsPaced d t now started live c le lt b p = go (liveness live)
  where
    spaced : Spaced d (started ∷ c.attempts)
    spaced = Spaced-next d now started c.attempts c p.interval p.noted b le p.spaced

    tried : Triton
    tried = record c { last_attempt_at = some started; attempts = started ∷ c.attempts }

    go :
        (r : Reply Cause Unit)
        → Paced Cause Unit d t (elim r [
          | failed e ↦ (failed e, record tried { has_client = false; last_error = some e })
          | done _ ↦ (done tt, record tried { has_client = true; last_error = none })
        ])
    go (failed e) = record { interval = p.interval; spaced = spaced; noted = refl; within = lt }
    go (done u) = record { interval = p.interval; spaced = spaced; noted = refl; within = lt }

pub ensure_connected-IsPaced :
    (d t now started : ℕ) (live : Reply Cause Bool) (c : Triton)
    → now ≤ started
    → started ≤ t
    → IsPaced d t c
    → IsPaced d t (ensure_connected now started live c).1
unfolding ensure_connected
ensure_connected-IsPaced d t now started live c le lt p =
    if_elim (λ (r : Bool × Triton). IsPaced d t r.1) c.has_client _ _ (λ _. p)
      (λ _.
        if_elim (λ (r : Bool × Triton). IsPaced d t r.1) (backs_off c now) _ _ (λ _. p)
          (λ b. connect_locked-IsPaced d t now started live c le lt b p))

reset_client-IsPaced : (d t : ℕ) (c : Triton) → IsPaced d t c → IsPaced d t (reset_client c)
unfolding reset_client
reset_client-IsPaced d t c p = record {
  interval = p.interval;
  spaced = p.spaced;
  noted = p.noted;
  within = p.within;
}

pub close-IsPaced :
    (d t : ℕ) (answer : Reply Cause Unit) (c : Triton)
    → IsPaced d t c
    → IsPaced d t (close answer c).1
unfolding close reset_client
close-IsPaced d t (failed e) c p =
    if_elim (λ (r : Reply Cause Unit × Triton). IsPaced d t r.1) c.has_client _ _ (λ _. p) (λ _. p)
close-IsPaced d t (done u) c p =
    if_elim (λ (r : Reply Cause Unit × Triton). IsPaced d t r.1) c.has_client _ _
      (λ _. reset_client-IsPaced d t c p) (λ _. p)

-- Once the interval has passed, the next request tries to connect.
pub backs_off-recovers :
    (d t now : ℕ) (c : Triton) → IsPaced d t c → t + d ≤ now → backs_off c now ≡ false
unfolding backs_off
backs_off-recovers d t now c p h = go c.last_attempt_at (subst (Within t) (sym p.noted) p.within)
  where
    go :
        (o : Option ℕ)
        → Within t o
        → (elim o as (λ _. Bool) [ none ↦ false | some last ↦ ltb now (last + c.interval) ]) ≡ false
    go none w = refl
    go (some last) w = ground (arith, p.interval)

module _ (occurs : String → String → Bool) (lower : String → String) (text : Cause → String) where
  pub infer-IsPaced :
      {Output : Type 0} (d t now started : ℕ) (live : Reply Cause Bool)
      (answer : Reply Cause Output) (c : Triton)
      → now ≤ started
      → started ≤ t
      → IsPaced d t c
      → IsPaced d t (infer occurs lower text now started live answer c).1
  unfolding infer
  infer-IsPaced {Output = Output} d t now started live answer c le lt p = go answer
    where
      connected : Bool
      connected = (ensure_connected now started live c).0

      c' : Triton
      c' = (ensure_connected now started live c).1

      p' : IsPaced d t c'
      p' = ensure_connected-IsPaced d t now started live c le lt p

      go :
          (a : Reply Cause Output)
          → Paced Error Output d t (
              if connected
              then (elim a [
                | failed e ↦ (
                  failed (caused e),
                  if is_connection_error occurs lower text e then reset_client c' else c',
                )
                | done output ↦ (done output, c')
              ])
              else (failed (unavailable c'.last_error), c'))
      go (failed e) =
          if_elim (λ (r : Reply Error Output × Triton). IsPaced d t r.1) connected _ _
            (λ _.
              if_elim (IsPaced d t) (is_connection_error occurs lower text e) (reset_client c') c'
                (λ _. reset_client-IsPaced d t c' p') (λ _. p'))
            (λ _. p')
      go (done output) =
          if_elim (λ (r : Reply Error Output × Triton). IsPaced d t r.1) connected _ _ (λ _. p')
            (λ _. p')
