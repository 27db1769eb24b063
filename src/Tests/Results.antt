-- ===== src/Tests/Results.antt =====
-- The theorems on scores, results and cameras at concrete inputs. Scores are numbers, and the
-- smoothing is a mean.
use ai_intelligence_theft_de.Base.{
  arith, Option, ℕ, ◌+◌, ◌/◌, ◌≡◌, refl, String, Bool, true, false, List, [], ◌∷◌, ◌++◌, none, some,
  str_dec, leb, length, replicate, take_right, all,
}
use ai_intelligence_theft_de.Base.Int.{pos}
use ai_intelligence_theft_de.Base.Dict.{lookup}
use ai_intelligence_theft_de.Inference.Contracts.{Sample, returned}
use ai_intelligence_theft_de.Inference.Decision.{DecisionEngine, Level, normal, alert}
use ai_intelligence_theft_de.Inference.BatchBuilder.{
  prepare_temporal_window, prepare_temporal_window_lem,
}
use ai_intelligence_theft_de.Inference.Scores.{
  Floats, score_attributions, resolve_output_tensor_name,
}
use ai_intelligence_theft_de.Inference.Delivery.{Payload, Effect, is_normal, deliver_all}
use ai_intelligence_theft_de.Inference.Delivery.Sinks.{
  results, publications, rows, is_reported, deliver_all-reaches,
}
use ai_intelligence_theft_de.Inference.Orchestrator
use ai_intelligence_theft_de.Inference.Orchestrator.{Orchestrator, Services, emit, run_once}
use ai_intelligence_theft_de.Inference.Orchestrator.Emission.{
  Describes, lookup-emit, emit-Describes,
}
use ai_intelligence_theft_de.Inference.Orchestrator.Health.{Settles, run_once-Settles}
use ai_intelligence_theft_de.Inference.Manager
use ai_intelligence_theft_de.Inference.Ingress
use ai_intelligence_theft_de.Inference.Ingress.Routing
use ai_intelligence_theft_de.Inference.Manager.{Manager, is_camera_enabled}
use ai_intelligence_theft_de.Inference.Manager.Cameras
use ai_intelligence_theft_de.Inference.Manager.Cameras.{configures, ingests, closes, run-follows}

abbrev crop_sample : String → ℕ → Sample ℕ
crop_sample pid t = record {
  camera_id = "cam";
  stream_name = "door";
  local_track_id = pid;
  persistent_id = pid;
  sampled_at = t;
  left = pos 0;
  top = pos 0;
  width = pos 40;
  height = pos 80;
  crop = t;
  age_frames = 3;
  consecutive_hits = 3;
  frames_since_update = 0;
  persistent_id_state = "assigned";
}

abbrev floats : Floats ℕ
floats = record {
  zero_score = 0;
  mix = λ raw previous. (raw + previous) / 2;
  softmax = λ a b. b;
  ge = λ a b. leb b a;
}

abbrev engine : DecisionEngine ℕ
engine = record { warning_threshold = 50; alert_threshold = 65 }

prepare_temporal_window_lem_example :
    (window : List ℕ) × (pads : ℕ) × (prepare_temporal_window (7 ∷ 8 ∷ []) 4 ≡ some (window, pads))
    × (length window ≡ 4)
    × (pads ≡ 2)
    × (window ≡ take_right 4 (7 ∷ 8 ∷ []) ++ replicate pads 8)
prepare_temporal_window_lem_example = prepare_temporal_window_lem 7 (8 ∷ []) 4 (omega arith)

abbrev outputs : List (String × List ℕ)
outputs = ("output", 60 ∷ 70 ∷ []) ∷ []

abbrev payload_at : Level → ℕ → Payload ℕ
payload_at level t = record {
  emitted_at = t;
  camera_id = "cam";
  stream_name = "door";
  persistent_id = "p";
  local_track_id = "p";
  strategy = "vjepa_probe";
  score = 70;
  alert_level = level;
  label = level;
  model_name = "vjepa_finetune";
  sampled_at = t;
}

abbrev all_raise : Effect (Payload ℕ) → Bool
all_raise e = true

abbrev payloads : List (Payload ℕ)
payloads = payload_at alert 1 ∷ payload_at normal 2 ∷ []

deliver_all-reaches_example :
    (results (deliver_all all_raise true payloads).0 ≡ payloads)
    × (publications (deliver_all all_raise true payloads).0 ≡ payloads)
    × (rows (deliver_all all_raise true payloads).0 ≡ payload_at alert 1 ∷ [])
    × (all is_reported (deliver_all all_raise true payloads).1 ≡ true)
unfolding is_normal
deliver_all-reaches_example = deliver_all-reaches all_raise true payloads

abbrev attributions : List (Sample ℕ × ℕ)
attributions = (crop_sample "p" 1, 60) ∷ (crop_sample "q" 2, 70) ∷ (crop_sample "p" 3, 80) ∷ []

-- The scores 60 and 80 of one person give their mean.
lookup-emit_example :
    lookup str_dec "cam:p:cnn" (emit floats engine "cnn" 9 [] [] attributions).0 ≡ some 70
unfolding str_dec ai_intelligence_theft_de.Inference.Scores.resolve_model_name lookup
lookup-emit_example = lookup-emit floats "cnn" engine 9 [] [] attributions "cam:p:cnn"

emit-Describes_example :
    Describes floats "cnn" engine 9
      (λ k. lookup str_dec k [])
      attributions
      (emit floats engine "cnn" 9 [] [] attributions).2
emit-Describes_example = emit-Describes floats "cnn" engine 9 [] [] attributions

abbrev services : Services ℕ ℕ ℕ ℕ
services = record {
  triton_url = "localhost:8001";
  connected = true;
  resize = λ h w crop. returned crop;
  stack = λ rows. length rows;
  infer = λ model tensors. returned (("output", 60 ∷ 70 ∷ []) ∷ []);
  floats = floats;
  decision = engine;
  has_callback = true;
  has_kafka = true;
  raises = all_raise;
}

run_once-Settles_example :
    Settles services (Orchestrator.init "cnn") 9 (
      run_once services (Orchestrator.init "cnn") (crop_sample "p" 1 ∷ crop_sample "q" 2 ∷ []) 9 10)
run_once-Settles_example =
    run_once-Settles services (Orchestrator.init "cnn") (crop_sample "p" 1 ∷ crop_sample "q" 2 ∷ [])
      9 10

abbrev no_cameras : Manager ℕ ℕ
no_cameras = Manager.init

no_cameras-IsPaired : Cameras.IsPaired no_cameras
unfolding lookup is_camera_enabled str_dec Manager.init
no_cameras-IsPaired q = refl

abbrev camera_calls : List (Cameras.Call ℕ)
camera_calls =
    configures "a" (some true) none
    ∷ configures "b" (some true) none
    ∷ ingests (crop_sample "p" 1) 1 2
    ∷ configures "a" (some false) none
    ∷ []

run-follows_example :
    (Cameras.runs (Cameras.run no_cameras camera_calls) "b" ≡ true)
    × (is_camera_enabled (Cameras.run no_cameras camera_calls) "b" ≡ true)
unfolding str_dec
run-follows_example = run-follows no_cameras camera_calls "b" no_cameras-IsPaired

abbrev person : Ingress.Track
person = record {
  track_id = "7";
  persistent_id = none;
  box = record { left = pos 0; top = pos 0; width = pos 1; height = pos 1 };
  age_frames = 3;
  consecutive_hits = 3;
  frames_since_update = 0;
  persistent_id_state = "assigned";
}

abbrev watched : Manager (Option (List (List ℕ))) ℕ
watched = Manager.configure_stream Manager.init "a" (some true) none

-- The person of camera a reaches the scheduler of camera a.
lookup-publish_example :
    lookup str_dec "a"
      (Ingress.publish Ingress.init watched "a" "door"
        ((person, 5, 6) ∷ [])
        (some ((1 ∷ []) ∷ []))
        4
        7).1.schedulers
    ≡ Routing.given
        (lookup str_dec "a" watched.schedulers)
        (Routing.samples "a" "door" (some ((1 ∷ []) ∷ [])) 4 ((person, 5, 6) ∷ []))
unfolding lookup str_dec
lookup-publish_example =
    Routing.lookup-publish "a" "door" 4 Ingress.init watched ((person, 5, 6) ∷ [])
      (some ((1 ∷ []) ∷ [])) 7 "a"
