-- ===== src/Inference/Delivery.antt =====
-- orchestrator.py: `_deliver_payload` and its three sinks. `asyncio.gather` runs the sinks of a payload
-- at once; the effects stand here in the order of the tasks. Latencies are not modelled.
pub mod Sinks
use ai_intelligence_theft_de.Base.{ℕ, String, Bool, true, false, List, [], ◌∷◌, ◌++◌, if◌then◌else◌}
use ai_intelligence_theft_de.Inference.Decision.{Level, normal, warning, alert}

-- `InferenceKafkaEventPayload`
pub record Payload (Score : Type 0) : Type 0 where
  pub emitted_at : ℕ
  pub camera_id : String
  pub stream_name : String
  pub persistent_id : String
  pub local_track_id : String
  pub strategy : String
  pub score : Score
  pub alert_level : Level
  pub label : Level
  pub model_name : String
  pub sampled_at : ℕ

-- The calls that leave the orchestrator for one payload.
pub data Effect {ℓ} (P : Type ℓ) : Type ℓ where
  sends_result sends_alert publishes saves : P → Effect P

pub data Sink : Type 0 where
  websocket kafka persistence : Sink

unfoldable pub is_normal : Level → Bool
is_normal normal = true
is_normal warning = false
is_normal alert = false

module _ {Score : Type 0} (raises : Effect (Payload Score) → Bool) where
  -- Each sink gives the calls it makes and whether it raises.
  unfoldable pub broadcast_ws : Payload Score → List (Effect (Payload Score)) × Bool
  broadcast_ws p =
      if raises (sends_result p)
      then (sends_result p ∷ [], true)
      else if is_normal p.alert_level
      then (sends_result p ∷ [], false)
      else (sends_result p ∷ sends_alert p ∷ [], raises (sends_alert p))

  -- `has_kafka`: a publisher is given. Its exceptions are logged and dropped.
  unfoldable pub publish_kafka : Bool → Payload Score → List (Effect (Payload Score)) × Bool
  publish_kafka has_kafka p = if has_kafka then (publishes p ∷ [], false) else ([], false)

  unfoldable pub persist : Payload Score → List (Effect (Payload Score)) × Bool
  persist p = (saves p ∷ [], raises (saves p))

abbrev pub failure : Sink → Bool → List Sink
failure sink failed = if failed then sink ∷ [] else []

module _ {Score : Type 0} (raises : Effect (Payload Score) → Bool) where
  unfoldable pub deliver_payload : Bool → Payload Score → List (Effect (Payload Score)) × List Sink
  deliver_payload has_kafka p =
      let ws = broadcast_ws raises p in
      let ka = publish_kafka raises has_kafka p in
      let pe = if is_normal p.alert_level then ([], false) else persist raises p in
      (
        ws.0 ++ (ka.0 ++ pe.0),
        failure websocket ws.1 ++ (failure kafka ka.1 ++ failure persistence pe.1),
      )

  -- `_deliver_payload` collects what its sinks raise, so it raises nothing itself.
  unfoldable pub deliver_all :
      Bool → List (Payload Score) → List (Effect (Payload Score)) × List Sink
  deliver_all has_kafka [] = ([], [])
  deliver_all has_kafka (p ∷ ps) =
      let one = deliver_payload has_kafka p in
      let rest = deliver_all has_kafka ps in (one.0 ++ rest.0, one.1 ++ rest.1)
