-- ===== src/Pipeline/Runtime/Removal.antt =====
-- What `_remove_camera` of runtime.py leaves of a camera.
use ai_intelligence_theft_de.Base.{
  ℕ, String, false, not, List, [], ◌∷◌, ◌⊎◌, ◌++◌, map, none, str_dec, ite, ◌≡◌, keep,
}
use ai_intelligence_theft_de.Base.Dict.{lookup, holds}
use ai_intelligence_theft_de.Pipeline.FrameBuffer.{FrameBuffer, of_camera}
use ai_intelligence_theft_de.Pipeline.Identity.{is_of_camera, expiry}
use ai_intelligence_theft_de.Pipeline.Synchronizer
use ai_intelligence_theft_de.Pipeline.Runtime.{Runtime, new_synchronizer}
use ai_intelligence_theft_de.Pipeline.Runtime.Strategies.{running_strategy}

-- A table lost one key.
abbrev pub Lacks : {V : Type 0} → String → List (String × V) → List (String × V) → Type 0
Lacks c before after =
    (q : String) → lookup str_dec q after ≡ ite (str_dec q c) none (lookup str_dec q before)

-- Of the tables, the queue, the identities and the manager nothing is left of a camera, nothing else is
-- lost, and the stages are told.
module _ {Source Frame Coord Crop Score Float : Type 0} where
  pub record Forgets (c : String) (now : ℕ) (r r' : Runtime Source Frame Coord Crop Score Float)
      : Type 0 where
    pub active : Lacks c r.active r'.active
    pub controls : Lacks c r.controls r'.controls
    pub frames_seen : Lacks c r.last_frame_seen_at r'.last_frame_seen_at
    pub tracks : Lacks c r.last_active_tracks r'.last_active_tracks
    pub latencies : Lacks c r.last_queue_latency r'.last_queue_latency
    pub decode_times : Lacks c r.last_decode_time r'.last_decode_time
    pub rates : Lacks c r.last_stream_fps r'.last_stream_fps
    pub reconnects : Lacks c r.last_reconnect_attempts r'.last_reconnect_attempts
    pub stages : r'.forgotten ≡ r.forgotten ++ c ∷ []
    pub inference :
        (q : String)
        → running_strategy q r'.manager ≡ ite (str_dec q c) none (running_strategy q r.manager)
    pub frames : r'.frame_buffer.queue ≡ keep (λ p. not (of_camera c p)) r.frame_buffer.queue
    pub identities : r'.assignments ≡ keep (λ e. not (is_of_camera c e)) r.assignments
    pub events :
        r'.published ≡ r.published ++ map (λ e. expiry e now) (keep (is_of_camera c) r.assignments)

module _ {Source Frame Coord Crop Score Float : Type 0} where
  -- What the synchronizer and its group keep once a camera is gone.
  pub record Leaves (tolerance : ℕ) (c : String)
      (r r' : Runtime Source Frame Coord Crop Score Float) : Type 0 where
    pub group : holds str_dec c r'.sync_camera_ids ≡ false
    pub waits : holds str_dec c r'.synchronizer.camera_ids ≡ false
    pub clocks : lookup str_dec c r'.synchronizer.latest ≡ none
    pub others :
        ((r'.sync_camera_ids ≡ r.sync_camera_ids)
          × Lacks c r.synchronizer.latest r'.synchronizer.latest)
        ⊎ (r'.synchronizer ≡ new_synchronizer r'.sync_camera_ids tolerance)
