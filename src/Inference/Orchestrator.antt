-- ===== src/Inference/Orchestrator.antt =====
-- orchestrator.py: `InferenceOrchestrator`, the consumer of one camera's batches. Clock readings are
-- arguments; log lines and latencies are not modelled. The model server is `connected` and `infer`.
pub mod Emission
pub mod Health
use ai_intelligence_theft_de.Base.{
  ℕ, ◌+◌, ◌-◌, ◌≤◌, String, Bool, true, false, not, List, [], ◌∷◌, ◌++◌, map, Option, none, some,
  str_dec, length, leb, if◌then◌else◌,
}
use ai_intelligence_theft_de.Base.Dict.{holds}
use ai_intelligence_theft_de.Inference.Contracts.{Sample, Result, returned, raised}
use ai_intelligence_theft_de.Inference.TemporalBuffer.{deque_append}
use ai_intelligence_theft_de.Inference.Decision.{DecisionEngine, Level, classify}
use ai_intelligence_theft_de.Inference.BatchBuilder.{Built, build, newest}
use ai_intelligence_theft_de.Inference.Scores.{
  Floats, resolve_model_name, score_attributions, smooth_score, score_key, join,
}
use ai_intelligence_theft_de.Inference.Delivery.{Payload, Effect, Sink, deliver_all}

pub record Orchestrator (Score : Type 0) : Type 0 where
  pub strategy : String
  pub healthy : Bool
  pub last_error : Option String
  pub active_tracks : List String
  pub last_result_at : Option ℕ
  pub completion_times : List ℕ
  pub ema_scores : List (String × Score)
  -- The calls on the metrics recorder: strategy, model and status, or level.
  pub requests : List (String × String × String)
  pub levels : List (String × String × Level)
  -- The calls of the result callback.
  pub callbacks : List (Payload Score)
  pub effects : List (Effect (Payload Score))

-- What the orchestrator is given: the model server, numpy, and the sinks.
pub record Services (Crop Row Tensor Score : Type 0) : Type 0 where
  pub triton_url : String
  pub connected : Bool
  pub resize : ℕ → ℕ → Crop → Result Row
  pub stack : List Row → Tensor
  pub infer : String → Built Tensor → Result (List (String × List Score))
  pub floats : Floats Score
  pub decision : DecisionEngine Score
  pub has_callback : Bool
  pub has_kafka : Bool
  pub raises : Effect (Payload Score) → Bool

-- How `_process_batch` ends.
pub data Ended (Score : Type 0) : Type 0 where
  empty_batch triton_unavailable : Ended Score
  failed : String → Ended Score
  completed : List (Payload Score) → List Sink → Ended Score

module _ {Score : Type 0} where
  unfoldable pub init : String → Orchestrator Score
  init strategy = record {
    strategy = strategy;
    healthy = true;
    last_error = none;
    active_tracks = [];
    last_result_at = none;
    completion_times = [];
    ema_scores = [];
    requests = [];
    levels = [];
    callbacks = [];
    effects = [];
  }

  unfoldable pub configure : Orchestrator Score → Option String → Orchestrator Score
  configure o none = o
  configure o (some strategy) = record o { strategy = strategy }

  unfoldable pub increment_request : Orchestrator Score → String → String → Orchestrator Score
  increment_request o strategy status = record o {
    requests = o.requests ++ (strategy, resolve_model_name strategy, status) ∷ [];
  }

abbrev pub status_of_delivery :
    {Score : Type 0} → Orchestrator Score → String → List Sink → Orchestrator Score
status_of_delivery o strategy [] = o
status_of_delivery o strategy (s ∷ ss) = increment_request o strategy "delivery_partial_failure"

-- `set.add`
abbrev pub add : String → List String → List String
add p ps = if holds str_dec p ps then ps else ps ++ p ∷ []

-- `_record_completion`: the times that are kept, and the rate as completions over the ticks elapsed;
-- `none` is 0.0.
unfoldable pub record_completion : List ℕ → ℕ → List ℕ × Option (ℕ × ℕ)
record_completion times completed_at =
    let times' = deque_append 32 times completed_at in
    (
      times',
      elim times' [
        | [] ↦ none
        | first ∷ [] ↦ none
        | first ∷ second ∷ rest ↦
            if leb (newest second rest) first
            then none
            else some (length (second ∷ rest), newest second rest - first)
      ],
    )

-- The key of a sample's running score.
abbrev pub key_of : {Crop : Type 0} → Sample Crop → String → String
key_of s strategy = score_key s.camera_id s.persistent_id (resolve_model_name strategy)

module _ {Crop Score : Type 0} where
  -- The payload of one sample, from its smoothed score.
  unfoldable pub payload_of : Sample Crop → String → Score → Level → ℕ → Payload Score
  payload_of s strategy smoothed_score alert_level emitted_at = record {
    emitted_at = emitted_at;
    camera_id = s.camera_id;
    stream_name = s.stream_name;
    persistent_id = s.persistent_id;
    local_track_id = s.local_track_id;
    strategy = strategy;
    score = smoothed_score;
    alert_level = alert_level;
    label = alert_level;
    model_name = resolve_model_name strategy;
    sampled_at = s.sampled_at;
  }

  -- The loop over the attributions.
  unfoldable pub emit :
      Floats Score
      → DecisionEngine Score
      → String
      → ℕ
      → List (String × Score)
      → List String
      → List (Sample Crop × Score)
      → List (String × Score) × List String × List (Payload Score)
  emit floats engine strategy emitted_at ema_scores active_tracks [] =
      (ema_scores, active_tracks, [])
  emit floats engine strategy emitted_at ema_scores active_tracks ((s, raw_score) ∷ attributions) =
      let (smoothed_score, ema_scores') =
        smooth_score floats ema_scores (key_of s strategy) raw_score in
      let alert_level = classify floats.ge engine smoothed_score in
      let (ema_scores'', active_tracks'', payloads) =
        emit floats engine strategy emitted_at ema_scores' (add s.persistent_id active_tracks)
          attributions in
      (
        ema_scores'',
        active_tracks'',
        payload_of s strategy smoothed_score alert_level emitted_at ∷ payloads,
      )

module _ {Crop Row Tensor Score : Type 0} (services : Services Crop Row Tensor Score) where
  -- From the attributions to the end: results, callbacks, delivery and the completion. The callback
  -- returns.
  unfoldable pub complete :
      Orchestrator Score
      → String
      → List (Sample Crop × Score)
      → ℕ
      → ℕ
      → Orchestrator Score × Ended Score
  complete o strategy attributions emitted_at completed_at =
      let (ema_scores, active_tracks, payloads) =
        emit services.floats services.decision strategy emitted_at o.ema_scores o.active_tracks
          attributions in
      let (effects, sink_failures) = deliver_all services.raises services.has_kafka payloads in
      let delivered = record o {
        ema_scores = ema_scores;
        active_tracks = active_tracks;
        levels =
            o.levels ++ map (λ p. (strategy, resolve_model_name strategy, p.alert_level)) payloads;
        last_result_at = some emitted_at;
        healthy = true;
        callbacks = o.callbacks ++ (if services.has_callback then payloads else []);
        effects = o.effects ++ effects;
        completion_times = (record_completion o.completion_times completed_at).0;
      } in
      (
        increment_request (status_of_delivery delivered strategy sink_failures) strategy "success",
        completed payloads sink_failures,
      )

  -- After `infer` has returned. An output that cannot be read is raised, and no request is counted.
  unfoldable pub score_outputs :
      Orchestrator Score
      → String
      → Sample Crop
      → List (Sample Crop)
      → ℕ
      → ℕ
      → List (String × List Score)
      → Orchestrator Score × Ended Score
  score_outputs o strategy first rest emitted_at completed_at outputs =
      elim (score_attributions services.floats first rest outputs strategy) [
        | raised e ↦ (o, failed e)
        | returned attributions ↦ complete o strategy attributions emitted_at completed_at
      ]

  unfoldable pub execute :
      Orchestrator Score
      → String
      → Sample Crop
      → List (Sample Crop)
      → ℕ
      → ℕ
      → Built Tensor
      → Orchestrator Score × Ended Score
  execute o strategy first rest emitted_at completed_at tensors =
      elim (services.infer (resolve_model_name strategy) tensors) [
        | raised e ↦ (increment_request o strategy "execution_failed", failed e)
        | returned outputs ↦ score_outputs o strategy first rest emitted_at completed_at outputs
      ]

  -- `_process_batch`
  unfoldable pub process_batch :
      Orchestrator Score → List (Sample Crop) → ℕ → ℕ → Orchestrator Score × Ended Score
  process_batch o [] emitted_at completed_at = (o, empty_batch)
  process_batch o (first ∷ rest) emitted_at completed_at =
      if not services.connected
      then (
        increment_request
            (record o {
              healthy = false;
              last_error =
                  some (join "Triton server at " (join services.triton_url " is not reachable."));
            })
            o.strategy "triton_unavailable",
        triton_unavailable,
      )
      else elim (build services.resize services.stack (map (λ s. s.crop) (first ∷ rest))
          o.strategy) [
            | raised e ↦ (increment_request o o.strategy "preprocessing_failed", failed e)
            | returned tensors ↦ execute o o.strategy first rest emitted_at completed_at tensors
          ]

  -- The handler of `_run`.
  abbrev pub handled : Orchestrator Score × Ended Score → Orchestrator Score × Ended Score
  handled (o, failed e) = (record o { healthy = false; last_error = some e }, failed e)
  handled (o, empty_batch) = (o, empty_batch)
  handled (o, triton_unavailable) = (o, triton_unavailable)
  handled (o, completed payloads failures) = (o, completed payloads failures)

  -- One round of the loop of `_run`, on the batch that `queue.get` gives.
  unfoldable pub run_once :
      Orchestrator Score → List (Sample Crop) → ℕ → ℕ → Orchestrator Score × Ended Score
  run_once o batch emitted_at completed_at = handled (process_batch o batch emitted_at completed_at)
