-- ===== src/Inference/Ingress.antt =====
-- services/tracking/updates.py: `InferenceIngressPublisher`, from the tracks of a frame to the samples
-- of the manager. A track comes with the clock readings of its sample's `ingest`. Log lines are not
-- modelled, but for the state that limits the visible ones.
pub mod Routing
use ai_intelligence_theft_de.Base.{
  ℕ, ◌+◌, String, Bool, true, false, not, List, [], ◌∷◌, ◌&&◌, Option, none, some, str_dec, same,
  ltb, if◌then◌else◌,
}
use ai_intelligence_theft_de.Base.Int.{ℤ}
use ai_intelligence_theft_de.Base.Dict.{lookup, insert}
use ai_intelligence_theft_de.Inference.Contracts.{Sample}
use ai_intelligence_theft_de.Inference.Manager.{Manager, ingest_sample, is_camera_enabled}
use ai_intelligence_theft_de.Pipeline.Boxes.{Box, crop_ltwh}

-- What is read of a `TrackingTrackSnapshot`.
pub record Track : Type 0 where
  pub track_id : String
  pub persistent_id : Option String
  pub box : Box
  pub age_frames : ℕ
  pub consecutive_hits : ℕ
  pub frames_since_update : ℕ
  pub persistent_id_state : String

-- The state that was last logged for each camera, and when.
pub record Publisher : Type 0 where
  pub last_visible_state : List (String × (String × ℕ))

unfoldable pub init : Publisher
init = record { last_visible_state = [] }

-- 30 seconds, in microseconds.
abbrev pub state_log_interval : ℕ
state_log_interval = 30_000_000

abbrev pub is_repeated : Option (String × ℕ) → String → ℕ → Bool
is_repeated none state now = false
is_repeated (some (previous, logged_at)) state now =
    same previous state && ltb now (logged_at + state_log_interval)

unfoldable pub log_state : Publisher → String → String → ℕ → Publisher
log_state p camera_id state now =
    if is_repeated (lookup str_dec camera_id p.last_visible_state) state now then p else record p {
      last_visible_state = insert str_dec camera_id (state, now) p.last_visible_state;
    }

-- `track.persistent_id or track.track_id`
unfoldable pub inference_id : Track → String
inference_id t = elim t.persistent_id [
  | none ↦ t.track_id
  | some id ↦ if same id "" then t.track_id else id
]

module _ {Pixel : Type 0} where
  -- The sample of a track; the crop is missing where the box and the frame do not meet.
  unfoldable pub sample_of :
      String → String → List (List Pixel) → ℕ → Track → Sample (Option (List (List Pixel)))
  sample_of camera_id stream_name frame now t = record {
    camera_id = camera_id;
    stream_name = stream_name;
    local_track_id = t.track_id;
    persistent_id = inference_id t;
    sampled_at = now;
    left = t.box.left;
    top = t.box.top;
    width = t.box.width;
    height = t.box.height;
    crop = crop_ltwh frame t.box;
    age_frames = t.age_frames;
    consecutive_hits = t.consecutive_hits;
    frames_since_update = t.frames_since_update;
    persistent_id_state = t.persistent_id_state;
  }

module _ {Pixel Score : Type 0} where
  -- The loop over the tracks.
  unfoldable pub ingest_each :
      String
      → String
      → List (List Pixel)
      → ℕ
      → Manager (Option (List (List Pixel))) Score
      → List (Track × ℕ × ℕ)
      → Manager (Option (List (List Pixel))) Score
  ingest_each camera_id stream_name frame now m [] = m
  ingest_each camera_id stream_name frame now m ((t, clock, later) ∷ tracks) =
      ingest_each camera_id stream_name frame now
        (ingest_sample m (sample_of camera_id stream_name frame now t) clock later) tracks

  -- `publish`: `now` is the wall clock of the samples, `logged` that of the visible log.
  unfoldable pub publish :
      Publisher
      → Manager (Option (List (List Pixel))) Score
      → String
      → String
      → List (Track × ℕ × ℕ)
      → Option (List (List Pixel))
      → ℕ
      → ℕ
      → Publisher × Manager (Option (List (List Pixel))) Score
  publish p m camera_id stream_name tracks frame now logged =
      if not (is_camera_enabled m camera_id)
      then (log_state p camera_id "skip:camera_inference_disabled" logged, m)
      else elim frame [
        | none ↦ (log_state p camera_id "skip:missing_frame" logged, m)
        | some pixels ↦ elim tracks [
          | [] ↦ (log_state p camera_id "skip:no_tracks" logged, m)
          | t ∷ ts ↦ (
            log_state p camera_id "dispatch" logged,
            ingest_each camera_id stream_name pixels now m (t ∷ ts),
          )
        ]
      ]
