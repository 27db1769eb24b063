-- ===== src/Presentation/WebSocket.antt =====
-- websocket_manager.py: `WebSocketManager`. A websocket is an object, here a number. A broadcast
-- releases the lock while it sends, so it is two steps, and other calls may come between them.
pub mod Targets
pub mod Gauge
use ai_intelligence_theft_de.Base.{
  ℕ, suc, ◌+◌, ◌≡◌, String, Bool, true, false, List, [], ◌∷◌, ◌++◌, Option, none, some, str_dec,
  same, ℕ_discrete, if◌then◌else◌, keep,
}
use ai_intelligence_theft_de.Base.Dict.{lookup, insert, remove, keys_where}

-- `increments` and `decrements` count the calls on the connection gauge.
pub record Manager : Type 0 where
  pub connections : List (ℕ × Option String)
  pub increments : ℕ
  pub decrements : ℕ

unfoldable pub init : Manager
init = record { connections = []; increments = 0; decrements = 0 }

-- `connect`, after `accept` has returned.
unfoldable pub connect : Manager → ℕ → Option String → Manager
connect m ws camera_id = record m {
  connections = insert ℕ_discrete ws camera_id m.connections;
  increments = suc m.increments;
}

-- `self._connections.pop(websocket, None) is not None`: the value that is popped is the camera of
-- the subscription, and that is `None` for one without a filter.
unfoldable pub pops_some : Manager → ℕ → Bool
pops_some m ws = elim (lookup ℕ_discrete ws m.connections) [
  | none ↦ false
  | some sub ↦ elim sub [ none ↦ false | some camera ↦ true ]
]

unfoldable pub disconnect : Manager → ℕ → Manager
unfolding pops_some
disconnect m ws =
    let m' = record m { connections = remove ℕ_discrete ws m.connections } in
    if pops_some m ws then record m' { decrements = suc m.decrements } else m'

-- `not subscribed_camera_id or subscribed_camera_id == message.camera_id`
unfoldable pub matches : Option String → Option String → Bool
matches message none = true
matches none (some camera) = same camera ""
matches (some c) (some camera) = if same camera "" then true else same camera c

-- The snapshot at the start of `broadcast`.
unfoldable pub targets : Manager → Option String → List ℕ
unfolding matches
targets m message = keys_where (matches message) m.connections

-- The end of `broadcast`: the sockets whose send failed or timed out are dropped.
unfoldable pub evict : Manager → List ℕ → Manager
evict m [] = m
evict m (ws ∷ stale) = evict (disconnect m ws) stale

-- The sockets to which `send_json` failed; the websockets themselves are the environment's.
abbrev pub stale_of : (ℕ → Bool) → List ℕ → List ℕ
stale_of fails = keep fails

-- A broadcast with no other call in between.
unfoldable pub broadcast : Manager → Option String → (ℕ → Bool) → Manager
unfolding targets evict
broadcast m message fails = evict m (stale_of fails (targets m message))
