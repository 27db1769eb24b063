-- ===== src/Pipeline/Runtime.antt =====
-- runtime.py: `OpenCvPipelineRuntime`, the cameras that the pipeline runs and what it keeps of each. A
-- call is one step; clock readings, in microseconds, are arguments. `Source` stands for the capture
-- configuration, `Float` for Python's floats. `sort` is Python's `sorted` on strings.
pub mod Controls
pub mod Refresh
pub mod Kept
pub mod Group
pub mod Runs
pub mod Targets
pub mod Strategies
pub mod Agreement
pub mod Removal
use ai_intelligence_theft_de.Base.{
  ℕ, ◌+◌, String, Bool, true, false, not, ◌&&◌, ◌||◌, List, [], ◌∷◌, ◌++◌, Option, none, some,
  str_dec, same, is_some, leb, if◌then◌else◌,
}
use ai_intelligence_theft_de.Base.Dict.{lookup, remove}
use ai_intelligence_theft_de.Inference.Manager.{Manager}
use ai_intelligence_theft_de.Inference.Manager
use ai_intelligence_theft_de.Pipeline.FrameBuffer.{FrameBuffer, discard_camera}
use ai_intelligence_theft_de.Pipeline.Identity.{Assignments, Event}
use ai_intelligence_theft_de.Pipeline.Identity
use ai_intelligence_theft_de.Pipeline.Synchronizer.{Synchronizer}
use ai_intelligence_theft_de.Pipeline.Synchronizer

-- The settings that are read: whether inference is on, its strategy, the tolerance of a sync group,
-- and how old the last frame of a healthy camera may be.
pub record Settings : Type 0 where
  pub enable_behavior_inference : Bool
  pub inference_strategy : String
  pub sync_tolerance : ℕ
  pub healthy_window : ℕ

-- `forgotten` lists the cameras whose state the stages (tracker, stabilizer, overlay cache, annotator,
-- motion, calibration) were told to drop, and `published` the cleanup events that were handed on.
pub record Runtime (Source Frame Coord Crop Score Float : Type 0) : Type 0 where
  pub active : List (String × Source)
  pub controls : List (String × (Bool × String))
  pub last_frame_seen_at : List (String × ℕ)
  pub last_active_tracks : List (String × ℕ)
  pub last_queue_latency : List (String × ℕ)
  pub last_decode_time : List (String × Float)
  pub last_stream_fps : List (String × Float)
  pub last_reconnect_attempts : List (String × ℕ)
  pub sync_camera_ids : List String
  pub synchronizer : Synchronizer
  pub frame_buffer : FrameBuffer Frame
  pub assignments : Assignments Coord
  pub manager : Manager Crop Score
  pub forgotten : List String
  pub published : List (Event Coord Score)
  pub running : Bool

-- `tuple == tuple`
abbrev pub same_all : List String → List String → Bool
same_all [] [] = true
same_all [] (d ∷ ds) = false
same_all (c ∷ cs) [] = false
same_all (c ∷ cs) (d ∷ ds) = same c d && same_all cs ds

abbrev pub is_current : Option String → String → Bool
is_current none camera_id = false
is_current (some current) camera_id = same current camera_id

-- Whether a frame of the camera came in lately; clocks that run back count as lately.
abbrev pub is_fresh : ℕ → ℕ → Option ℕ → Bool
is_fresh window now none = false
is_fresh window now (some seen) = leb now (seen + window)

module _ {Source : Type 0} where
  unfoldable pub healthy_cameras :
      ℕ → ℕ → Option String → List (String × ℕ) → List (String × Source) → List String
  healthy_cameras window now current seen [] = []
  healthy_cameras window now current seen (e ∷ active) =
      let rest = healthy_cameras window now current seen active in
      if is_current current e.0 || is_fresh window now (lookup str_dec e.0 seen)
      then e.0 ∷ rest
      else rest

-- `[current_camera_id]` where no camera is healthy.
abbrev pub or_current : Option String → List String → List String
or_current (some current) [] = current ∷ []
or_current current healthy = healthy

-- `MultiCameraSynchronizer(...)`
unfoldable pub new_synchronizer : List String → ℕ → Synchronizer
new_synchronizer camera_ids tolerance = record {
  camera_ids = camera_ids;
  tolerance = tolerance;
  latest = [];
  bundle_id = 0;
}

module _ {Source Frame Coord Crop Score Float : Type 0} where
  -- All that `_remove_camera` drops before the sync group is refreshed.
  unfoldable pub drop_camera :
      Runtime Source Frame Coord Crop Score Float
      → String
      → ℕ
      → Runtime Source Frame Coord Crop Score Float
  drop_camera r camera_id now =
      let (assignments, events) = Identity.remove_camera camera_id now r.assignments in
      record r {
        active = remove str_dec camera_id r.active;
        frame_buffer = (discard_camera r.frame_buffer camera_id).0;
        forgotten = r.forgotten ++ camera_id ∷ [];
        synchronizer = (Synchronizer.remove_camera r.synchronizer camera_id).0;
        last_frame_seen_at = remove str_dec camera_id r.last_frame_seen_at;
        controls = remove str_dec camera_id r.controls;
        last_active_tracks = remove str_dec camera_id r.last_active_tracks;
        last_queue_latency = remove str_dec camera_id r.last_queue_latency;
        last_decode_time = remove str_dec camera_id r.last_decode_time;
        last_stream_fps = remove str_dec camera_id r.last_stream_fps;
        last_reconnect_attempts = remove str_dec camera_id r.last_reconnect_attempts;
        assignments = assignments;
        published = r.published ++ events;
        manager = Manager.remove_camera r.manager camera_id;
      }

module _ {Source Frame Coord Crop Score Float : Type 0} (sort : List String → List String)
    (K : Settings) where
  -- The closed synchronizer is replaced, so that only the packets it releases would be left of it.
  unfoldable pub refresh_sync_group :
      Runtime Source Frame Coord Crop Score Float
      → ℕ
      → Option String
      → Runtime Source Frame Coord Crop Score Float
  refresh_sync_group r now current =
      let healthy =
        or_current current
          (sort (healthy_cameras K.healthy_window now current r.last_frame_seen_at r.active)) in
      if same_all healthy r.sync_camera_ids then r else record r {
        sync_camera_ids = healthy;
        synchronizer = new_synchronizer healthy K.sync_tolerance;
      }

  unfoldable pub remove_camera :
      Runtime Source Frame Coord Crop Score Float
      → String
      → ℕ
      → Runtime Source Frame Coord Crop Score Float
  remove_camera r camera_id now =
      if is_some (lookup str_dec camera_id r.active)
      then refresh_sync_group (drop_camera r camera_id now) now none
      else r
