-- ===== src/Inference/Orchestrator/Health.antt =====
-- How one round of the loop of orchestrator.py leaves the orchestrator.
use ai_intelligence_theft_de.Base.{
  ℕ, ◌≡◌, ◌≢◌, refl, String, Bool, true, false, List, [], ◌∷◌, ◌++◌, none, some, arith, map,
  if◌then◌else◌, not,
}
use ai_intelligence_theft_de.Inference.Contracts.{Sample, Result, returned, raised}
use ai_intelligence_theft_de.Inference.BatchBuilder.{build, Built}
use ai_intelligence_theft_de.Inference.Scores.{resolve_model_name, score_attributions, join}
use ai_intelligence_theft_de.Inference.Scores.Attribution.{score_attributions-samples}
use ai_intelligence_theft_de.Inference.Delivery.{Sink, deliver_all}
use ai_intelligence_theft_de.Inference.Orchestrator.{
  Orchestrator, Services, Ended, empty_batch, triton_unavailable, failed, completed,
  increment_request, status_of_delivery, emit, complete, score_outputs, execute, process_batch,
  handled, run_once,
}

-- The results, and all that a later result depends on, are as before.
abbrev pub IsKept : {Score : Type 0} → Orchestrator Score → Orchestrator Score → Type 0
IsKept o o' =
    (o'.strategy ≡ o.strategy)
    × (o'.ema_scores ≡ o.ema_scores)
    × (o'.active_tracks ≡ o.active_tracks)
    × (o'.last_result_at ≡ o.last_result_at)
    × (o'.completion_times ≡ o.completion_times)
    × (o'.levels ≡ o.levels)
    × (o'.callbacks ≡ o.callbacks)
    × (o'.effects ≡ o.effects)

cons_not_nil : {A : Type 0} (x : A) (xs : List A) → x ∷ xs ≢ []
cons_not_nil x xs e = ground arith

some_not_none : {A : Type 0} (x : A) → some x ≢ none
some_not_none x e = ground arith

status_of_delivery-keeps :
    {Score : Type 0} (d : Orchestrator Score) (s : String) (ss : List Sink)
    → ((status_of_delivery d s ss).strategy ≡ d.strategy)
      × ((status_of_delivery d s ss).healthy ≡ d.healthy)
      × ((status_of_delivery d s ss).last_result_at ≡ d.last_result_at)
      × ((status_of_delivery d s ss).callbacks ≡ d.callbacks)
      × ((status_of_delivery d s ss).effects ≡ d.effects)
unfolding increment_request
status_of_delivery-keeps d s [] = (refl, refl, refl, refl, refl)
status_of_delivery-keeps d s (x ∷ ss) = (refl, refl, refl, refl, refl)

module _ {Crop Row Tensor Score : Type 0} (services : Services Crop Row Tensor Score) where
  -- What a round shows by the way it ends.
  abbrev pub Settles : Orchestrator Score → ℕ → Orchestrator Score × Ended Score → Type 0
  Settles o emitted_at (o', empty_batch) = o' ≡ o
  Settles o emitted_at (o', triton_unavailable) =
      IsKept o o' × (services.connected ≡ false) × (o'.healthy ≡ false) × (o'.last_error ≢ none)
  Settles o emitted_at (o', failed e) =
      IsKept o o' × (o'.healthy ≡ false) × (o'.last_error ≡ some e)
  Settles o emitted_at (o', completed payloads failures) =
      (payloads ≢ [])
      × (o'.strategy ≡ o.strategy)
      × (o'.healthy ≡ true)
      × (o'.last_result_at ≡ some emitted_at)
      × (o'.callbacks ≡ o.callbacks ++ (if services.has_callback then payloads else []))
      × (o'.effects ≡ o.effects ++ (deliver_all services.raises services.has_kafka payloads).0)
      × (failures ≡ (deliver_all services.raises services.has_kafka payloads).1)

  complete-Settles :
      (o : Orchestrator Score) (s : String) (a : Sample Crop × Score)
      (rest : List (Sample Crop × Score)) (emitted_at completed_at : ℕ)
      → Settles o emitted_at
          (handled services (complete services o s (a ∷ rest) emitted_at completed_at))
  unfolding complete emit increment_request
  complete-Settles o s a rest emitted_at completed_at =
      let kept = status_of_delivery-keeps _ s _ in
      ((λ e. cons_not_nil _ _ e), kept.0, kept.1, kept.2, kept.3, kept.4, refl)

  score_outputs-Settles :
      (o : Orchestrator Score) (first : Sample Crop) (rest : List (Sample Crop))
      (emitted_at completed_at : ℕ) (outputs : List (String × List Score))
      → Settles o emitted_at (
          handled services
            (score_outputs services o o.strategy first rest emitted_at completed_at outputs))
  unfolding score_outputs
  score_outputs-Settles o first rest emitted_at completed_at outputs =
      go (score_attributions services.floats first rest outputs o.strategy) refl
    where
      go :
          (read : Result (List (Sample Crop × Score)))
          → score_attributions services.floats first rest outputs o.strategy ≡ read
          → Settles o emitted_at (
              handled services (elim read as (λ x. Orchestrator Score × Ended Score) [
                | raised e ↦ (o, failed e)
                | returned attributions ↦
                    complete services o o.strategy attributions emitted_at completed_at
              ]))
      go (raised e) r = ((refl, refl, refl, refl, refl, refl, refl, refl), refl, refl)
      go (returned []) r = absurd (
          ground
            (arith, score_attributions-samples services.floats first rest outputs o.strategy []))
      go (returned (a ∷ attributions)) r =
          complete-Settles o o.strategy a attributions emitted_at completed_at

  execute-Settles :
      (o : Orchestrator Score) (first : Sample Crop) (rest : List (Sample Crop))
      (emitted_at completed_at : ℕ) (tensors : Built Tensor)
      → Settles o emitted_at (
          handled services
            (execute services o o.strategy first rest emitted_at completed_at tensors))
  unfolding execute increment_request
  execute-Settles o first rest emitted_at completed_at tensors =
      go (services.infer (resolve_model_name o.strategy) tensors)
    where
      go :
          (answer : Result (List (String × List Score)))
          → Settles o emitted_at (
              handled services (elim answer as (λ x. Orchestrator Score × Ended Score) [
                | raised e ↦ (increment_request o o.strategy "execution_failed", failed e)
                | returned outputs ↦
                    score_outputs services o o.strategy first rest emitted_at completed_at outputs
              ]))
      go (raised e) = ((refl, refl, refl, refl, refl, refl, refl, refl), refl, refl)
      go (returned outputs) = score_outputs-Settles o first rest emitted_at completed_at outputs

  -- Every round settles. An empty batch changes nothing. A round that does not complete leaves the
  -- scores, tracks, times, callbacks and deliveries as they were, and the camera unhealthy with an
  -- error; it can find the server unavailable only if it is not connected. A round that completes has
  -- at least one payload, is healthy, calls back with every payload if there is a callback, and
  -- delivers all of them, with the failures that it reports.
  pub run_once-Settles :
      (o : Orchestrator Score) (batch : List (Sample Crop)) (emitted_at completed_at : ℕ)
      → Settles o emitted_at (run_once services o batch emitted_at completed_at)
  unfolding run_once process_batch increment_request
  run_once-Settles o [] emitted_at completed_at = refl
  run_once-Settles o (first ∷ rest) emitted_at completed_at = connected_or services.connected refl
    where
      built :
          (b : Result (Built Tensor))
          → Settles o emitted_at (
              handled services (elim b as (λ x. Orchestrator Score × Ended Score) [
                | raised e ↦ (increment_request o o.strategy "preprocessing_failed", failed e)
                | returned tensors ↦
                    execute services o o.strategy first rest emitted_at completed_at tensors
              ]))
      built (raised e) = ((refl, refl, refl, refl, refl, refl, refl, refl), refl, refl)
      built (returned tensors) = execute-Settles o first rest emitted_at completed_at tensors

      connected_or :
          (c : Bool)
          → services.connected ≡ c
          → Settles o emitted_at (
              handled services (
                if not c
                then (
                  increment_request
                      (record o {
                        healthy = false;
                        last_error = some (
                            join "Triton server at "
                              (join services.triton_url " is not reachable."));
                      })
                      o.strategy
                      "triton_unavailable",
                  triton_unavailable,
                )
                else elim (build services.resize services.stack
                      (map (λ s. s.crop) (first ∷ rest))
                      o.strategy)
                    as (λ x. Orchestrator Score × Ended Score) [
                      | raised e ↦ (increment_request o o.strategy "preprocessing_failed", failed e)
                      | returned tensors ↦
                          execute services o o.strategy first rest emitted_at completed_at tensors
                    ]))
      connected_or true r =
          built (build services.resize services.stack (map (λ s. s.crop) (first ∷ rest)) o.strategy)
      connected_or false r =
          ((refl, refl, refl, refl, refl, refl, refl, refl), r, refl, some_not_none _)
