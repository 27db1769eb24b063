-- ===== src/Presentation/WebSocket/Targets.antt =====
-- Who gets a broadcast, and who is dropped after it.
use ai_intelligence_theft_de.Base.{
  ℕ, ◌≡◌, refl, String, Bool, true, ◌&&◌, List, [], ◌∷◌, Option, none, some, arith, ℕ_discrete,
  if◌then◌else◌, keep, ◌⊎◌, ◌↔◌,
}
use ai_intelligence_theft_de.Base.Dict.{
  lookup, remove, holds, Distinct, lookup-remove, holds-keys_where, insert-Distinct,
  remove-Distinct,
}
use ai_intelligence_theft_de.Presentation.WebSocket.{
  Manager, init, connect, disconnect, matches, targets, evict, stale_of, broadcast,
}

-- The calls that reach the manager, in the order in which they take the lock.
pub data Call : Type 0 where
  connects : ℕ → Option String → Call
  disconnects : ℕ → Call
  evicts : List ℕ → Call

unfoldable pub step : Manager → Call → Manager
step m (connects ws camera_id) = connect m ws camera_id
step m (disconnects ws) = disconnect m ws
step m (evicts stale) = evict m stale

unfoldable pub run : Manager → List Call → Manager
run m [] = m
run m (c ∷ cs) = run (step m c) cs

disconnect-connections :
    (m : Manager) (ws : ℕ) → (disconnect m ws).connections ≡ remove ℕ_discrete ws m.connections
unfolding disconnect
disconnect-connections m ws = ground arith

pub disconnect-Distinct :
    (m : Manager) (ws : ℕ)
    → Distinct ℕ_discrete m.connections
    → Distinct ℕ_discrete (disconnect m ws).connections
disconnect-Distinct m ws d =
    rw (disconnect-connections m ws) (remove-Distinct ℕ_discrete ws m.connections d)

evict-Distinct :
    (m : Manager) (stale : List ℕ)
    → Distinct ℕ_discrete m.connections
    → Distinct ℕ_discrete (evict m stale).connections
unfolding evict
evict-Distinct m [] d = d
evict-Distinct m (ws ∷ stale) d =
    evict-Distinct (disconnect m ws) stale (disconnect-Distinct m ws d)

pub step-Distinct :
    (m : Manager) (c : Call)
    → Distinct ℕ_discrete m.connections
    → Distinct ℕ_discrete (step m c).connections
unfolding step connect
step-Distinct m (connects ws camera_id) d = insert-Distinct ℕ_discrete ws camera_id m.connections d
step-Distinct m (disconnects ws) d = disconnect-Distinct m ws d
step-Distinct m (evicts stale) d = evict-Distinct m stale d

pub run-Distinct :
    (m : Manager) (cs : List Call)
    → Distinct ℕ_discrete m.connections
    → Distinct ℕ_discrete (run m cs).connections
unfolding run
run-Distinct m [] d = d
run-Distinct m (c ∷ cs) d = run-Distinct (step m c) cs (step-Distinct m c d)

pub lookup-evict :
    (m : Manager) (stale : List ℕ) (q : ℕ)
    → lookup ℕ_discrete q (evict m stale).connections
      ≡ (if holds ℕ_discrete q stale then none else lookup ℕ_discrete q m.connections)
unfolding evict
lookup-evict m [] q = refl
lookup-evict m (ws ∷ stale) q = ground (
  arith,
  lookup-evict (disconnect m ws) stale q,
  disconnect-connections m ws,
  lookup-remove ℕ_discrete ws q m.connections,
)

holds-keep :
    (p : ℕ → Bool) (q : ℕ) (xs : List ℕ)
    → holds ℕ_discrete q (keep p xs) ≡ (holds ℕ_discrete q xs && p q)
holds-keep p q [] = refl
holds-keep p q (x ∷ xs) = ground (arith, holds-keep p q xs)

-- What a subscription admits: everything if it names no camera, else the events of its camera.
abbrev pub Admits : Option String → Option String → Type 0
Admits message none = Unit
Admits message (some camera) = (camera ≡ "") ⊎ (message ≡ some camera)

matches-Admits : (message sub : Option String) → (matches message sub ≡ true) ↔ Admits message sub
unfolding matches
matches-Admits message none = (λ _. tt, λ _. refl)
matches-Admits none (some camera) = (λ h. ground arith, λ h. ground arith)
matches-Admits (some c) (some camera) = (λ h. ground arith, λ h. ground arith)

-- A broadcast after any history drops exactly the sockets that it was sent to and that failed;
-- every other subscription stays as it is.
pub lookup-broadcast :
    (cs : List Call) (message : Option String) (fails : ℕ → Bool) (q : ℕ) (sub : Option String)
    → lookup ℕ_discrete q (run init cs).connections ≡ some sub
    → lookup ℕ_discrete q (broadcast (run init cs) message fails).connections
      ≡ (if matches message sub && fails q then none else some sub)
unfolding broadcast init targets
lookup-broadcast cs message fails q sub h =
    let m = run init cs in
    let d : Distinct ℕ_discrete m.connections = run-Distinct init cs tt in
    ground (
      arith,
      lookup-evict m (stale_of fails (targets m message)) q,
      holds-keep fails q (targets m message),
      holds-keys_where ℕ_discrete (matches message) q sub m.connections d h,
    )
