-- ===== src/Inference/Triton/Runs.antt =====
-- Any calls of the client in triton_client.py.
use ai_intelligence_theft_de.Base.{
  ℕ, ◌+◌, ◌≤◌, max, String, Bool, true, List, [], ◌∷◌, ◌≡◌, refl, arith,
}
use ai_intelligence_theft_de.Base.Calls.{Reply, done}
use ai_intelligence_theft_de.Inference.Triton.{
  Cause, Triton, init, connect_locked, liveness, backs_off, succeeded, ensure_connected, close,
  infer,
}
use ai_intelligence_theft_de.Inference.Triton.Attempts.{
  IsPaced, ensure_connected-IsPaced, close-IsPaced, infer-IsPaced, backs_off-recovers,
}

pub data ClientCall (Output : Type 0) : Type 0 where
  ensures : ℕ → ℕ → Reply Cause Bool → ClientCall Output
  infers : ℕ → ℕ → Reply Cause Bool → Reply Cause Output → ClientCall Output
  closes : Reply Cause Unit → ClientCall Output

-- No clock reading of the calls is later than `t`, and an attempt starts no earlier than it is decided.
abbrev pub IsUntil : {Output : Type 0} → ℕ → List (ClientCall Output) → Type 0
IsUntil t [] = Unit
IsUntil t (ensures now started live ∷ cs) = (now ≤ started) × (started ≤ t) × IsUntil t cs
IsUntil t (infers now started live answer ∷ cs) = (now ≤ started) × (started ≤ t) × IsUntil t cs
IsUntil t (closes answer ∷ cs) = IsUntil t cs

module _ (occurs : String → String → Bool) (lower : String → String) (text : Cause → String) where
  unfoldable pub step : {Output : Type 0} → Triton → ClientCall Output → Triton
  step c (ensures now started live) = (ensure_connected now started live c).1
  step c (infers now started live answer) = (infer occurs lower text now started live answer c).1
  step c (closes answer) = (close answer c).1

  unfoldable pub run : {Output : Type 0} → Triton → List (ClientCall Output) → Triton
  run c [] = c
  run c (r ∷ rs) = run (step c r) rs

  run_from-IsPaced :
      {Output : Type 0} (d t : ℕ) (rs : List (ClientCall Output)) (c : Triton)
      → IsUntil t rs
      → IsPaced d t c
      → IsPaced d t (run c rs)
  unfolding run step
  run_from-IsPaced d t [] c u p = p
  run_from-IsPaced d t (ensures now started live ∷ rs) c u p =
      run_from-IsPaced d t rs _ u.2 (ensure_connected-IsPaced d t now started live c u.0 u.1 p)
  run_from-IsPaced d t (infers now started live answer ∷ rs) c u p =
      run_from-IsPaced d t rs _ u.2
        (infer-IsPaced occurs lower text d t now started live answer c u.0 u.1 p)
  run_from-IsPaced d t (closes answer ∷ rs) c u p =
      run_from-IsPaced d t rs _ u (close-IsPaced d t answer c p)

  -- From a new client on, whatever the server answers: two connection attempts that `ensure_connected`
  -- and `infer` make never start less than the reconnect interval apart. An attempt starts no earlier than it is decided, and no call is after `t`.
  pub run-IsPaced :
      {Output : Type 0} (reconnect t : ℕ) (rs : List (ClientCall Output))
      → IsUntil t rs
      → IsPaced (max 500_000 reconnect) t (run (init reconnect) rs)
  unfolding init
  run-IsPaced reconnect t rs u =
      run_from-IsPaced (max 500_000 reconnect) t rs (init reconnect) u
        (record { interval = refl; spaced = tt; noted = refl; within = tt })

  -- However the calls up to `t` ended, a request that is made once the reconnect interval has passed
  -- since `t` is answered, if the server is live and answers it.
  pub infer_recovers :
      {Output : Type 0} (reconnect t now started : ℕ) (rs : List (ClientCall Output))
      (output : Output)
      → IsUntil t rs
      → t + max 500_000 reconnect ≤ now
      → (infer occurs lower text now started (done true) (done output) (run (init reconnect) rs)).0
        ≡ done output
  unfolding infer ensure_connected connect_locked backs_off liveness succeeded
  infer_recovers reconnect t now started rs output u h =
      let c = run (init reconnect) rs in
      let p = run-IsPaced reconnect t rs u in
      ground (arith, backs_off-recovers (max 500_000 reconnect) t now c p h)
