-- ===== src/Tests/Presentation.antt =====
-- The theorems on websockets and WebRTC viewers at concrete inputs.
use ai_intelligence_theft_de.Base.{
  ℕ, ◌+◌, ◌≡◌, refl, String, Bool, true, false, List, [], ◌∷◌, Option, none, some, ℕ_discrete,
  length, ◌==◌, or_else,
}
use ai_intelligence_theft_de.Base.Dict.{lookup}
use ai_intelligence_theft_de.Presentation.WebSocket
use ai_intelligence_theft_de.Presentation.WebSocket.Targets
use ai_intelligence_theft_de.Presentation.WebSocket.Targets.{
  connects, disconnects, lookup-broadcast,
}
use ai_intelligence_theft_de.Presentation.WebSocket.Gauge.{AreFresh, gauge-run}
use ai_intelligence_theft_de.Presentation.WebRtc
use ai_intelligence_theft_de.Presentation.WebRtc.Latest
use ai_intelligence_theft_de.Presentation.WebRtc.Latest.{creates, pushes, recv-run}

abbrev sockets : List Targets.Call
sockets = connects 1 none ∷ connects 2 (some "a") ∷ connects 3 (some "b") ∷ []

abbrev all_fail : ℕ → Bool
all_fail ws = true

second_connected :
    lookup ℕ_discrete 2 (Targets.run WebSocket.init sockets).connections ≡ some (some "a")
unfolding lookup Targets.run Targets.step WebSocket.connect
    ai_intelligence_theft_de.Base.Dict.insert WebSocket.init ℕ_discrete
second_connected = refl

-- An event of camera a that no socket takes drops the first two.
lookup-broadcast_example :
    lookup ℕ_discrete 2
      (WebSocket.broadcast (Targets.run WebSocket.init sockets) (some "a") all_fail).connections
    ≡ none
unfolding WebSocket.matches ai_intelligence_theft_de.Base.str_dec
lookup-broadcast_example =
    lookup-broadcast sockets (some "a") all_fail 2 (some "a") second_connected

abbrev calls : List Targets.Call
calls = connects 1 none ∷ connects 2 (some "a") ∷ disconnects 1 ∷ disconnects 2 ∷ []

calls-AreFresh : AreFresh WebSocket.init calls
unfolding lookup WebSocket.init Targets.step WebSocket.connect
    ai_intelligence_theft_de.Base.Dict.insert ℕ_discrete
calls-AreFresh = (refl, (refl, (tt, (tt, tt))))

-- Both sockets are closed, and the gauge still counts one.
gauge-run_example :
    (Targets.run WebSocket.init calls).increments
    ≡ (Targets.run WebSocket.init calls).decrements
      + length (Targets.run WebSocket.init calls).connections
      + 1
unfolding ai_intelligence_theft_de.Presentation.WebSocket.Gauge.run_leak
    ai_intelligence_theft_de.Presentation.WebSocket.Gauge.step_leak
    ai_intelligence_theft_de.Presentation.WebSocket.Gauge.leak lookup Targets.step WebSocket.connect
    ai_intelligence_theft_de.Base.Dict.insert WebSocket.init ℕ_discrete WebSocket.disconnect
    ai_intelligence_theft_de.Base.Dict.remove
gauge-run_example = gauge-run calls calls-AreFresh

abbrev viewers : List (Latest.Call ℕ)
viewers = pushes "a" 5 ∷ creates "a" ∷ pushes "b" 7 ∷ []

first-Views : Latest.Views (Latest.run WebRtc.init viewers) "a" 0
unfolding lookup Latest.run Latest.step WebRtc.push_frame WebRtc.create_track
    ai_intelligence_theft_de.Base.Dict.insert WebRtc.init ai_intelligence_theft_de.Base.str_dec
    ℕ_discrete
first-Views = refl

recv-run_example : WebRtc.recv (Latest.run WebRtc.init viewers) 0 0 ≡ 5
unfolding lookup Latest.run Latest.step WebRtc.push_frame WebRtc.create_track
    ai_intelligence_theft_de.Base.Dict.insert WebRtc.init ai_intelligence_theft_de.Base.str_dec
    ℕ_discrete Latest.newest_frame
recv-run_example = recv-run viewers 0 "a" 0 first-Views
