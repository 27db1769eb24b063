-- ===== src/Inference/Manager.antt =====
-- manager.py: `InferenceManager`, the cameras that inference runs for. A call is one step: no other call
-- comes in while a camera waits for its connection to the model server. That connection may fail, and
-- the code goes on either way, so its result is not in the model, nor are the orchestrators' tasks.
pub mod Cameras
use ai_intelligence_theft_de.Base.{
  ℕ, String, Bool, true, false, List, [], ◌∷◌, ◌++◌, Option, none, some, str_dec, same, is_some,
  length, if◌then◌else◌,
}
use ai_intelligence_theft_de.Base.Int.{pos}
use ai_intelligence_theft_de.Base.Dict.{lookup, insert, remove}
use ai_intelligence_theft_de.Inference.Contracts.{Sample, WorkerConfig}
use ai_intelligence_theft_de.Inference.LatestQueue.{qsize}
use ai_intelligence_theft_de.Inference.Scheduler.{Scheduler, ingest}
use ai_intelligence_theft_de.Inference.Scheduler
use ai_intelligence_theft_de.Inference.Orchestrator.{Orchestrator, configure}
use ai_intelligence_theft_de.Inference.Orchestrator

pub record Manager (Crop Score : Type 0) : Type 0 where
  pub orchestrators : List (String × Orchestrator Score)
  pub schedulers : List (String × Scheduler Crop)
  -- `set_inference_queue_depth`
  pub queue_depths : List (String × ℕ)
  -- The cameras whose orchestrator was closed, in order.
  pub closed : List String

-- `InferenceSnapshot`
pub record Snapshot : Type 0 where
  pub camera_id : String
  pub strategy : String
  pub healthy : Bool
  pub last_error_message : Option String
  pub queue_depth : ℕ
  pub active_tracks : ℕ
  pub last_result_at : Option ℕ

-- The configuration that `_start_camera` makes: the defaults of `InferenceWorkerConfig`.
unfoldable pub config_of : String → String → WorkerConfig
config_of camera_id strategy = record {
  camera_id = camera_id;
  strategy = strategy;
  temporal_buffer_size = 16;
  dispatch_min_temporal_frames = 1;
  dispatch_min_consecutive_hits = 0;
  dispatch_min_crop_width = pos 32;
  dispatch_min_crop_height = pos 64;
  identity_gap_reset = 2_000_000;
  ingress_queue_maxsize = 64;
  dispatch_cooldown = 750_000;
}

abbrev pub depth_of : {Crop : Type 0} → Option (Scheduler Crop) → ℕ
depth_of none = 0
depth_of (some scheduler) = qsize scheduler.queue

-- `strategy or "vjepa_probe"`
abbrev pub or_default : Option String → String
or_default none = "vjepa_probe"
or_default (some strategy) = if same strategy "" then "vjepa_probe" else strategy

module _ {Crop Score : Type 0} where
  unfoldable pub init : Manager Crop Score
  init = record { orchestrators = []; schedulers = []; queue_depths = []; closed = [] }

  unfoldable pub start_camera : Manager Crop Score → String → String → Manager Crop Score
  start_camera m camera_id strategy = record m {
    schedulers =
        insert str_dec camera_id (Scheduler.init (config_of camera_id strategy)) m.schedulers;
    orchestrators = insert str_dec camera_id (Orchestrator.init strategy) m.orchestrators;
    queue_depths = m.queue_depths ++ (camera_id, 0) ∷ [];
  }

  unfoldable pub stop_camera : Manager Crop Score → String → Manager Crop Score
  stop_camera m camera_id = record m {
    orchestrators = remove str_dec camera_id m.orchestrators;
    schedulers = remove str_dec camera_id m.schedulers;
    closed =
        if is_some (lookup str_dec camera_id m.orchestrators)
        then m.closed ++ camera_id ∷ []
        else m.closed;
    queue_depths = m.queue_depths ++ (camera_id, 0) ∷ [];
  }

  -- `remove_camera` is `_stop_camera`.
  abbrev pub remove_camera : Manager Crop Score → String → Manager Crop Score
  remove_camera = stop_camera

  -- The last branch of `configure_stream`: a live switch.
  unfoldable pub switch_strategy : Manager Crop Score → String → Option String → Manager Crop Score
  switch_strategy m camera_id none = m
  switch_strategy m camera_id (some strategy) = elim (lookup str_dec camera_id m.orchestrators) [
    | none ↦ m
    | some o ↦ record m {
      orchestrators = insert str_dec camera_id (configure o (some strategy)) m.orchestrators;
    }
  ]

  unfoldable pub configure_stream :
      Manager Crop Score → String → Option Bool → Option String → Manager Crop Score
  configure_stream m camera_id none strategy = switch_strategy m camera_id strategy
  configure_stream m camera_id (some false) strategy = remove_camera m camera_id
  configure_stream m camera_id (some true) strategy =
      if is_some (lookup str_dec camera_id m.orchestrators)
      then switch_strategy m camera_id strategy
      else start_camera m camera_id (or_default strategy)

  -- The clock readings are those of the scheduler's `ingest`.
  unfoldable pub ingest_sample : Manager Crop Score → Sample Crop → ℕ → ℕ → Manager Crop Score
  ingest_sample m s now later = elim (lookup str_dec s.camera_id m.schedulers) [
    | none ↦ m
    | some scheduler ↦ record m {
      schedulers = insert str_dec s.camera_id (ingest scheduler s now later).0 m.schedulers;
    }
  ]

  unfoldable pub is_camera_enabled : Manager Crop Score → String → Bool
  is_camera_enabled m camera_id = is_some (lookup str_dec camera_id m.schedulers)

  -- The orchestrator reads the queue of the scheduler that it was made with.
  unfoldable pub get_snapshot : Manager Crop Score → String → Option Snapshot
  get_snapshot m camera_id = elim (lookup str_dec camera_id m.orchestrators) [
    | none ↦ none
    | some o ↦ some (record {
      camera_id = camera_id;
      strategy = o.strategy;
      healthy = o.healthy;
      last_error_message = o.last_error;
      queue_depth = depth_of (lookup str_dec camera_id m.schedulers);
      active_tracks = length o.active_tracks;
      last_result_at = o.last_result_at;
    })
  ]

  abbrev pub stop_each :
      List (String × Orchestrator Score) → Manager Crop Score → Manager Crop Score
  stop_each [] m = m
  stop_each (e ∷ es) m = stop_each es (stop_camera m e.0)

  -- The cameras are listed before the first one stops.
  unfoldable pub close : Manager Crop Score → Manager Crop Score
  close m = stop_each m.orchestrators m
