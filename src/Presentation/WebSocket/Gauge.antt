-- ===== src/Presentation/WebSocket/Gauge.antt =====
-- The connection gauge against the number of connections.
use ai_intelligence_theft_de.Base.{
  ℕ, ◌+◌, ◌≡◌, List, [], ◌∷◌, none, some, arith, ℕ_discrete, length, Option-cases, inl, inr,
}
use ai_intelligence_theft_de.Base.Dict.{
  lookup, Distinct, length-remove, remove_absent, length-insert_absent,
}
use ai_intelligence_theft_de.Presentation.WebSocket.Targets.{
  Call, connects, disconnects, evicts, step, run, disconnect-Distinct, step-Distinct,
}
use ai_intelligence_theft_de.Presentation.WebSocket.{Manager, init, connect, disconnect, evict}

-- Connections that are taken off by `disconnect` and have no camera filter.
unfoldable pub leak : Manager → ℕ → ℕ
leak m ws = elim (lookup ℕ_discrete ws m.connections) [
  | none ↦ 0
  | some sub ↦ elim sub [ none ↦ 1 | some camera ↦ 0 ]
]

unfoldable pub evict_leak : Manager → List ℕ → ℕ
unfolding leak
evict_leak m [] = 0
evict_leak m (ws ∷ stale) = leak m ws + evict_leak (disconnect m ws) stale

unfoldable pub step_leak : Manager → Call → ℕ
step_leak m (connects ws camera_id) = 0
step_leak m (disconnects ws) = leak m ws
step_leak m (evicts stale) = evict_leak m stale

unfoldable pub run_leak : Manager → List Call → ℕ
run_leak m [] = 0
run_leak m (c ∷ cs) = step_leak m c + run_leak (step m c) cs

-- Each socket connects at most once while it is connected, as the routes do.
abbrev pub IsFresh : Manager → Call → Type 0
IsFresh m (connects ws camera_id) = lookup ℕ_discrete ws m.connections ≡ none
IsFresh m (disconnects ws) = Unit
IsFresh m (evicts stale) = Unit

abbrev pub AreFresh : Manager → List Call → Type 0
AreFresh m [] = Unit
AreFresh m (c ∷ cs) = IsFresh m c × AreFresh (step m c) cs

disconnect_count :
    (m : Manager) (ws : ℕ)
    → Distinct ℕ_discrete m.connections
    → (disconnect m ws).increments + m.decrements + length m.connections
      ≡ m.increments
        + (disconnect m ws).decrements
        + length (disconnect m ws).connections
        + leak m ws
unfolding disconnect leak
disconnect_count m ws d = elim (Option-cases (lookup ℕ_discrete ws m.connections)) [
  | inl e ↦ ground (arith, remove_absent ℕ_discrete ws m.connections e)
  | inr (sub, e) ↦ ground (arith, length-remove ℕ_discrete ws sub m.connections d e)
]

disconnect-increments : (m : Manager) (ws : ℕ) → (disconnect m ws).increments ≡ m.increments
unfolding disconnect
disconnect-increments m ws = ground arith

-- Connections counted by the gauge, and those that left it uncounted.
abbrev Balanced : Manager → ℕ → Type 0
Balanced m leaked = m.increments ≡ m.decrements + length m.connections + leaked

disconnect-Balanced :
    (m : Manager) (ws n : ℕ)
    → Distinct ℕ_discrete m.connections
    → Balanced m n
    → Balanced (disconnect m ws) (n + leak m ws)
disconnect-Balanced m ws n d b = omega (arith, disconnect_count m ws d, disconnect-increments m ws)

evict-Balanced :
    (m : Manager) (stale : List ℕ) (n : ℕ)
    → Distinct ℕ_discrete m.connections
    → Balanced m n
    → Balanced (evict m stale) (n + evict_leak m stale)
unfolding evict evict_leak
evict-Balanced m [] n d b = omega arith
evict-Balanced m (ws ∷ stale) n d b =
    let rest =
      evict-Balanced (disconnect m ws) stale (n + leak m ws) (disconnect-Distinct m ws d)
        (disconnect-Balanced m ws n d b) in
    omega arith

step-Balanced :
    (m : Manager) (c : Call) (n : ℕ)
    → Distinct ℕ_discrete m.connections
    → IsFresh m c
    → Balanced m n
    → Balanced (step m c) (n + step_leak m c)
unfolding step step_leak connect
step-Balanced m (connects ws camera_id) n d f b =
    omega (arith, length-insert_absent ℕ_discrete ws camera_id m.connections f)
step-Balanced m (disconnects ws) n d f b = disconnect-Balanced m ws n d b
step-Balanced m (evicts stale) n d f b = evict-Balanced m stale n d b

run-Balanced :
    (m : Manager) (cs : List Call) (n : ℕ)
    → Distinct ℕ_discrete m.connections
    → AreFresh m cs
    → Balanced m n
    → Balanced (run m cs) (n + run_leak m cs)
unfolding run run_leak
run-Balanced m [] n d f b = omega arith
run-Balanced m (c ∷ cs) n d f b =
    let rest =
      run-Balanced (step m c) cs (n + step_leak m c) (step-Distinct m c d) f.1
        (step-Balanced m c n d f.0 b) in
    omega arith

-- The gauge is the number of open connections plus the number of connections without a camera
-- filter that have been closed: closing such a one never takes it off the gauge.
pub gauge-run :
    (cs : List Call)
    → AreFresh init cs
    → (run init cs).increments
      ≡ (run init cs).decrements + length (run init cs).connections + run_leak init cs
unfolding init
gauge-run cs f = omega (arith, run-Balanced init cs 0 tt f (omega arith))
