-- ===== src/Tests/Runtime.antt =====
-- The theorems on the runtime at concrete inputs.
use ai_intelligence_theft_de.Base.{
  ℕ, ◌++◌, String, true, false, List, [], ◌∷◌, str_dec, ◌≡◌, refl, same, arith, ℕ_discrete,
}
use ai_intelligence_theft_de.Base.Dict.{lookup, Distinct}
use ai_intelligence_theft_de.Inference.Orchestrator
use ai_intelligence_theft_de.Pipeline.FrameBuffer
use ai_intelligence_theft_de.Pipeline.Packets.{drop_oldest}
use ai_intelligence_theft_de.Pipeline.Synchronizer.{Packet}
use ai_intelligence_theft_de.Pipeline.Runtime.{Settings, Runtime, new_synchronizer}
use ai_intelligence_theft_de.Pipeline.Runtime.Controls.{
  CameraRecord, absent, flag, text, sync_controls,
}
use ai_intelligence_theft_de.Pipeline.Runtime.Refresh.{refresh_cameras}
use ai_intelligence_theft_de.Pipeline.Runtime.Group.{IsSort, IsGrouped}
use ai_intelligence_theft_de.Pipeline.Runtime.Runs.{
  refreshes, handles, syncs, stops, run, run-IsGrouped,
}
use ai_intelligence_theft_de.Pipeline.Runtime.Targets.{target, stale, lookup-refresh_cameras}
use ai_intelligence_theft_de.Pipeline.Runtime.Strategies.{running_strategy}
use ai_intelligence_theft_de.Pipeline.Runtime.Agreement.{
  Agrees, controlled, wanted, runs_after, sync_controls-agree,
}

abbrev settings : Settings
settings = record {
  enable_behavior_inference = true;
  inference_strategy = "vjepa_probe";
  sync_tolerance = 100;
  healthy_window = 2_000_000;
}

-- The cameras of the examples stand in order.
abbrev in_order : List String → List String
in_order cameras = cameras

in_order-IsSort : IsSort in_order
in_order-IsSort cameras q = refl

abbrev runtime : Runtime ℕ ℕ ℕ ℕ ℕ ℕ
runtime = record {
  active = ("a", 1) ∷ ("b", 2) ∷ [];
  controls = ("a", (true, "vjepa_probe")) ∷ [];
  last_frame_seen_at = ("a", 10) ∷ [];
  last_active_tracks = [];
  last_queue_latency = [];
  last_decode_time = [];
  last_stream_fps = [];
  last_reconnect_attempts = [];
  sync_camera_ids = "a" ∷ [];
  synchronizer = new_synchronizer ("a" ∷ []) 100;
  frame_buffer = FrameBuffer.init 4 drop_oldest false 0;
  assignments = [];
  manager = record {
    orchestrators = ("a", Orchestrator.init "vjepa_probe") ∷ [];
    schedulers = [];
    queue_depths = [];
    closed = [];
  };
  forgotten = [];
  published = [];
  running = true;
}

abbrev recorded : List (CameraRecord ℕ)
recorded =
    record { id = "a"; source = 1; enabled = absent; strategy = text "cnn_transformer" }
    ∷ record { id = "b"; source = 3; enabled = flag false; strategy = absent }
    ∷ []

packet : Packet
packet = record { object = 0; camera_id = "b"; sequence_number = 1; monotonic_ns = 50 }

runtime-IsGrouped : IsGrouped runtime
unfolding new_synchronizer lookup
runtime-IsGrouped = record { agrees = refl; live = λ q h. ground (arith, h) }

run-IsGrouped_example : IsGrouped (
    run in_order ℕ_discrete settings runtime
      (handles packet 20 60 ∷ refreshes recorded 30 ∷ syncs recorded ∷ stops 40 ∷ []))
run-IsGrouped_example =
    run-IsGrouped in_order ℕ_discrete settings in_order-IsSort
      (handles packet 20 60 ∷ refreshes recorded 30 ∷ syncs recorded ∷ stops 40 ∷ []) runtime
      runtime-IsGrouped

runtime-Distinct : Distinct str_dec runtime.active
unfolding lookup str_dec
runtime-Distinct = (refl, (refl, tt))

lookup-refresh_cameras_example :
    (lookup str_dec "b" (refresh_cameras in_order ℕ_discrete settings recorded 30 runtime).active
      ≡ target "b" recorded)
    × ((refresh_cameras in_order ℕ_discrete settings recorded 30 runtime).forgotten
        ≡ [] ++ stale ℕ_discrete (λ c. target c recorded) runtime.active)
lookup-refresh_cameras_example =
    lookup-refresh_cameras in_order ℕ_discrete settings recorded 30 runtime "b" runtime-Distinct

all_agree : (q : String) → Agrees q runtime
unfolding lookup ai_intelligence_theft_de.Inference.Orchestrator.init
all_agree q = ground arith

named : same settings.inference_strategy "" ≡ false
unfolding str_dec
named = refl

sync_controls-agree_example :
    (controlled "a" (sync_controls settings recorded runtime)
      ≡ wanted settings recorded runtime "a")
    × (running_strategy "a" (sync_controls settings recorded runtime).manager
        ≡ runs_after settings recorded runtime "a")
sync_controls-agree_example =
    sync_controls-agree settings recorded runtime named (λ q i. all_agree q) "a"
