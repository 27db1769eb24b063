-- ===== src/Tests/Server.antt =====
-- The theorems on the model server's client at concrete inputs.
use ai_intelligence_theft_de.Base.{ℕ, max, true, List, [], ◌∷◌, ◌≡◌, arith}
use ai_intelligence_theft_de.Base.Calls.{Reply, failed, done}
use ai_intelligence_theft_de.Inference.Triton.{Cause, from_server, init, infer}
use ai_intelligence_theft_de.Inference.Triton.Attempts.{IsPaced}
use ai_intelligence_theft_de.Inference.Triton.Runs.{
  ClientCall, ensures, infers, IsUntil, run, run-IsPaced, infer_recovers,
}

-- A connection that is refused, and one that is made a second later.
abbrev requests : List (ClientCall ℕ)
requests =
    infers 1_000_000 1_000_001 (failed (from_server "connection refused")) (done 7)
    ∷ ensures 1_200_000 1_200_000 (done true)
    ∷ []

requests-IsUntil : IsUntil 2_000_000 requests
requests-IsUntil = (omega arith, omega arith, (omega arith, omega arith, tt))

run-IsPaced_example :
    IsPaced
      (max 500_000 400_000)
      2_000_000
      (run (λ _ _. true) (λ s. s) (λ _. "") (init 400_000) requests)
run-IsPaced_example =
    run-IsPaced (λ _ _. true) (λ s. s) (λ _. "") 400_000 2_000_000 requests requests-IsUntil

abbrev nine : ℕ
nine = 9

abbrev answer : Reply Cause ℕ
answer = done nine

infer_recovers_example :
    (infer
      (λ _ _. true)
      (λ s. s)
      (λ _. "")
      2_500_000
      2_500_000
      (done true)
      answer
      (run (λ _ _. true) (λ s. s) (λ _. "") (init 400_000) requests)).0
    ≡ done nine
infer_recovers_example =
    infer_recovers (λ _ _. true) (λ s. s) (λ _. "") 400_000 2_000_000 2_500_000 2_500_000 requests
      nine requests-IsUntil (omega arith)
