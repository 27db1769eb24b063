-- ===== src/Pipeline/Runtime/Refresh.antt =====
-- runtime.py: `refresh_cameras`, `start`, `stop` and `close`, and a packet that the main loop takes.
use ai_intelligence_theft_de.Base.{
  ℕ, ◌-◌, String, Bool, true, false, not, ◌||◌, List, [], ◌∷◌, Option, none, some, str_dec,
  if◌then◌else◌, ite,
}
use ai_intelligence_theft_de.Base.Dict.{lookup, insert}
use ai_intelligence_theft_de.Pipeline.Synchronizer.{Packet, Submitted, submit, Synchronizer}
use ai_intelligence_theft_de.Pipeline.Synchronizer
use ai_intelligence_theft_de.Pipeline.FrameBuffer
use ai_intelligence_theft_de.Pipeline.Runtime.{Settings, Runtime, refresh_sync_group, remove_camera}
use ai_intelligence_theft_de.Pipeline.Runtime.Controls.{CameraRecord, sync_controls}

module _ {Source : Type 0} where
  -- `target_sources`
  unfoldable pub targets_of :
      List (CameraRecord Source) → List (String × Source) → List (String × Source)
  targets_of [] m = m
  targets_of (c ∷ cs) m = targets_of cs (insert str_dec c.id c.source m)

  -- `active.source == target_sources[camera_id]`, where the camera is a target.
  unfoldable pub is_kept : Discrete Source → Option Source → Source → Bool
  is_kept dec none source = false
  is_kept dec (some target) source = ite (dec source target) true false

module _ {Source Frame Coord Crop Score Float : Type 0} where
  unfoldable pub start_missing :
      List (String × Source)
      → Bool
      → Runtime Source Frame Coord Crop Score Float
      → Bool × Runtime Source Frame Coord Crop Score Float
  start_missing [] changed r = (changed, r)
  start_missing (e ∷ es) changed r = elim (lookup str_dec e.0 r.active) [
    | some running ↦ start_missing es changed r
    | none ↦ start_missing es true (record r { active = insert str_dec e.0 e.1 r.active })
  ]

  unfoldable pub close_group :
      Runtime Source Frame Coord Crop Score Float → Runtime Source Frame Coord Crop Score Float
  close_group r = record r {
    synchronizer = (Synchronizer.close r.synchronizer).0;
    sync_camera_ids = [];
  }

  unfoldable pub close :
      Runtime Source Frame Coord Crop Score Float → Runtime Source Frame Coord Crop Score Float
  close r = record (close_group r) { frame_buffer = (FrameBuffer.close r.frame_buffer).0 }

module _ {Source Frame Coord Crop Score Float : Type 0} (sort : List String → List String)
    (dec : Discrete Source) (K : Settings) where
  -- The cameras that are no targets, or have another source now; the first list is the copy that is
  -- walked. The Boolean is `topology_changed`.
  unfoldable pub remove_stale :
      List (String × Source)
      → List (String × Source)
      → ℕ
      → Bool
      → Runtime Source Frame Coord Crop Score Float
      → Bool × Runtime Source Frame Coord Crop Score Float
  remove_stale [] target now changed r = (changed, r)
  remove_stale (e ∷ es) target now changed r = elim (is_kept dec (lookup str_dec e.0 target) e.1) [
    | true ↦ remove_stale es target now changed r
    | false ↦ remove_stale es target now true (remove_camera sort K r e.0 now)
  ]

  unfoldable pub refresh_cameras :
      List (CameraRecord Source)
      → ℕ
      → Runtime Source Frame Coord Crop Score Float
      → Runtime Source Frame Coord Crop Score Float
  refresh_cameras cameras now r =
      let target = targets_of cameras [] in
      let (stale, cleared) = remove_stale r.active target now false r in
      let (changed, started) = start_missing target stale cleared in
      let synced = sync_controls K cameras started in
      if changed then refresh_sync_group sort K synced now none else synced

  -- `start`; `ensure_ready` of the identity store has returned.
  unfoldable pub start :
      Bool
      → List (CameraRecord Source)
      → ℕ
      → Runtime Source Frame Coord Crop Score Float
      → Runtime Source Frame Coord Crop Score Float
  start enabled cameras now r =
      if not enabled || r.running
      then r
      else record (refresh_cameras cameras now r) { running = true }

-- One packet of the main loop: a packet of an inactive camera is released, any other is submitted to
-- the sync group of its moment.
pub data Handled : Type 0 where
  releases : Handled
  submits : Submitted → Option Packet → Handled

module _ {Source Frame Coord Crop Score Float : Type 0} (sort : List String → List String)
    (K : Settings) where
  unfoldable pub remove_each :
      List (String × Source)
      → ℕ
      → Runtime Source Frame Coord Crop Score Float
      → Runtime Source Frame Coord Crop Score Float
  remove_each [] now r = r
  remove_each (e ∷ es) now r = remove_each es now (remove_camera sort K r e.0 now)

  unfoldable pub stop :
      ℕ → Runtime Source Frame Coord Crop Score Float → Runtime Source Frame Coord Crop Score Float
  stop now r = elim r.active [
    | [] ↦ if r.running then close_group (record r { running = false }) else r
    | e ∷ es ↦ close_group (remove_each (e ∷ es) now (record r { running = false }))
  ]

  unfoldable pub handle_packet :
      Runtime Source Frame Coord Crop Score Float
      → Packet
      → ℕ
      → ℕ
      → Runtime Source Frame Coord Crop Score Float × Handled
  handle_packet r p captured_at now_ns = elim (lookup str_dec p.camera_id r.active) [
    | none ↦ (r, releases)
    | some source ↦
        let noted =
          refresh_sync_group sort K
            (record r {
              last_queue_latency =
                  insert str_dec p.camera_id (now_ns - p.monotonic_ns) r.last_queue_latency;
              last_frame_seen_at = insert str_dec p.camera_id captured_at r.last_frame_seen_at;
            })
            captured_at (some p.camera_id) in
        let (synchronizer, answer, replaced) = submit noted.synchronizer p in
        (record noted { synchronizer = synchronizer }, submits answer replaced)
  ]
