-- ===== src/Pipeline/Runtime/Runs.antt =====
-- The sync group of runtime.py over the calls of its main loop.
use ai_intelligence_theft_de.Base.{
  ℕ, String, Bool, true, false, not, ◌||◌, List, [], ◌∷◌, none, some, str_dec, is_some,
  if◌then◌else◌, ◌≡◌, refl, sym, ap, ◌∙◌, arith, if_elim, Bool_elim, Option_elim, List_elim, ◌-◌,
}
use ai_intelligence_theft_de.Base.Dict.{lookup, insert, holds, lookup-insert}
use ai_intelligence_theft_de.Pipeline.Synchronizer.{
  Packet, Synchronizer, submit, bundle_up, emit, store, states_of, ClockState, Submitted,
}
use ai_intelligence_theft_de.Pipeline.Runtime.{Settings, Runtime, refresh_sync_group, remove_camera}
use ai_intelligence_theft_de.Pipeline.Runtime.Controls.{
  CameraRecord, sync_controls, sync_inference_controls,
}
use ai_intelligence_theft_de.Pipeline.Runtime.Refresh.{
  targets_of, is_kept, remove_stale, start_missing, refresh_cameras, start, remove_each,
  close_group, stop, close, handle_packet, Handled,
}
use ai_intelligence_theft_de.Pipeline.Runtime.Kept.{core, core-sync_controls}
use ai_intelligence_theft_de.Pipeline.Runtime.Group.{
  IsSort, IsGrouped, remove_camera-IsGrouped, refresh-IsGrouped, refresh_current-IsGrouped,
}

module _ {Source Frame Coord Crop Score Float : Type 0} where
  IsGrouped-core :
      (r r' : Runtime Source Frame Coord Crop Score Float)
      → core r' ≡ core r
      → IsGrouped r
      → IsGrouped r'
  IsGrouped-core r r' e g = record {
    agrees = ap (λ c. c.1.0.camera_ids) e ∙ g.agrees ∙ sym (ap (λ c. c.1.1.0) e);
    live = λ q h.
        ap (λ c. is_some (lookup str_dec q c.0)) e
        ∙ g.live q (sym (ap (λ c. holds str_dec q c.1.1.0) e) ∙ h);
  }

  start_missing-IsGrouped :
      (es : List (String × Source)) (b : Bool) (r : Runtime Source Frame Coord Crop Score Float)
      → IsGrouped r
      → IsGrouped (start_missing es b r).1
  unfolding start_missing
  start_missing-IsGrouped [] b r g = g
  start_missing-IsGrouped (e ∷ es) b r g =
      let more = record r { active = insert str_dec e.0 e.1 r.active } in
      Option_elim (λ s. IsGrouped s.1) (lookup str_dec e.0 r.active) (start_missing es true more)
        (λ _. start_missing es b r)
        (λ n. start_missing-IsGrouped es true more (record {
          agrees = g.agrees;
          live = λ q h. ground (arith, g.live q h, lookup-insert str_dec e.0 q e.1 r.active);
        }))
        (λ _ _. start_missing-IsGrouped es b r g)

  sync_controls-IsGrouped :
      (K : Settings) (cs : List (CameraRecord Source))
      (r : Runtime Source Frame Coord Crop Score Float)
      → IsGrouped r
      → IsGrouped (sync_controls K cs r)
  sync_controls-IsGrouped K cs r =
      IsGrouped-core r (sync_controls K cs r) (core-sync_controls K cs r)

  close_group-IsGrouped :
      (r : Runtime Source Frame Coord Crop Score Float) → IsGrouped (close_group r)
  unfolding close_group ai_intelligence_theft_de.Pipeline.Synchronizer.close
  close_group-IsGrouped r = record { agrees = refl; live = λ q h. cc }

camera_ids-emit :
    (s : Synchronizer) (states : List ClockState) → (emit s states).0.camera_ids ≡ s.camera_ids
unfolding emit
camera_ids-emit s [] = refl
camera_ids-emit s (first ∷ rest) = ground arith

camera_ids-submit : (s : Synchronizer) (p : Packet) → (submit s p).0.camera_ids ≡ s.camera_ids
unfolding submit bundle_up store
camera_ids-submit s p =
    Option_elim (λ (x : Synchronizer × Submitted). x.0.camera_ids ≡ s.camera_ids)
      (states_of s.camera_ids (store s p).latest) _ _ (λ _. refl)
      (λ states _. camera_ids-emit (store s p) states)

module _ {Source Frame Coord Crop Score Float : Type 0} (sort : List String → List String)
    (dec : Discrete Source) (K : Settings) (sorts : IsSort sort) where
  remove_stale-IsGrouped :
      (es targets : List (String × Source)) (now : ℕ) (b : Bool)
      (r : Runtime Source Frame Coord Crop Score Float)
      → IsGrouped r
      → IsGrouped (remove_stale sort dec K es targets now b r).1
  unfolding remove_stale
  remove_stale-IsGrouped [] targets now b r g = g
  remove_stale-IsGrouped (e ∷ es) targets now b r g =
      Bool_elim (λ s. IsGrouped s.1) (is_kept dec (lookup str_dec e.0 targets) e.1)
        (remove_stale sort dec K es targets now b r)
        (remove_stale sort dec K es targets now true (remove_camera sort K r e.0 now))
        (λ _. remove_stale-IsGrouped es targets now b r g)
        (λ _.
          remove_stale-IsGrouped es targets now true (remove_camera sort K r e.0 now)
            (remove_camera-IsGrouped sort K sorts r e.0 now g))

  refresh_cameras-IsGrouped :
      (cs : List (CameraRecord Source)) (now : ℕ) (r : Runtime Source Frame Coord Crop Score Float)
      → IsGrouped r
      → IsGrouped (refresh_cameras sort dec K cs now r)
  unfolding refresh_cameras
  refresh_cameras-IsGrouped cs now r g =
      let (b, cleared) = remove_stale sort dec K r.active (targets_of cs []) now false r in
      let (changed, started) = start_missing (targets_of cs []) b cleared in
      let synced = sync_controls K cs started in
      let h : IsGrouped synced = sync_controls-IsGrouped K cs started (
        start_missing-IsGrouped (targets_of cs []) b cleared
          (remove_stale-IsGrouped r.active (targets_of cs []) now false r g)) in
      if_elim IsGrouped changed (refresh_sync_group sort K synced now none) synced
        (λ _. refresh-IsGrouped sort K sorts synced now h) (λ _. h)

  handle_packet-IsGrouped :
      (r : Runtime Source Frame Coord Crop Score Float) (p : Packet) (captured now : ℕ)
      → IsGrouped r
      → IsGrouped (handle_packet sort K r p captured now).0
  unfolding handle_packet
  handle_packet-IsGrouped r p captured now g =
      let noted = record r {
        last_queue_latency = insert str_dec p.camera_id (now - p.monotonic_ns) r.last_queue_latency;
        last_frame_seen_at = insert str_dec p.camera_id captured r.last_frame_seen_at;
      } in
      let grouped = refresh_sync_group sort K noted captured (some p.camera_id) in
      Option_elim (λ (x : Runtime Source Frame Coord Crop Score Float × Handled). IsGrouped x.0)
        (lookup str_dec p.camera_id r.active) _ _ (λ _. g)
        (λ source e.
          let h : IsGrouped grouped =
            refresh_current-IsGrouped sort K sorts noted captured p.camera_id (ap is_some e)
              g.agrees in
          record { agrees = camera_ids-submit grouped.synchronizer p ∙ h.agrees; live = h.live })

-- The calls of the runtime, with what the database and the clock say.
pub data Call (Source : Type 0) : Type 0 where
  starts : Bool → List (CameraRecord Source) → ℕ → Call Source
  refreshes : List (CameraRecord Source) → ℕ → Call Source
  syncs : List (CameraRecord Source) → Call Source
  handles : Packet → ℕ → ℕ → Call Source
  stops : ℕ → Call Source
  closes : Call Source

module _ {Source Frame Coord Crop Score Float : Type 0} (sort : List String → List String)
    (dec : Discrete Source) (K : Settings) where
  unfoldable pub step :
      Runtime Source Frame Coord Crop Score Float
      → Call Source
      → Runtime Source Frame Coord Crop Score Float
  step r (starts enabled cs now) = start sort dec K enabled cs now r
  step r (refreshes cs now) = refresh_cameras sort dec K cs now r
  step r (syncs cs) = sync_inference_controls K cs r
  step r (handles p captured now) = (handle_packet sort K r p captured now).0
  step r (stops now) = stop sort K now r
  step r closes = close r

  unfoldable pub run :
      Runtime Source Frame Coord Crop Score Float
      → List (Call Source)
      → Runtime Source Frame Coord Crop Score Float
  run r [] = r
  run r (c ∷ cs) = run (step r c) cs

module _ {Source Frame Coord Crop Score Float : Type 0} (sort : List String → List String)
    (dec : Discrete Source) (K : Settings) (sorts : IsSort sort) where
  stop-IsGrouped :
      (now : ℕ) (r : Runtime Source Frame Coord Crop Score Float)
      → IsGrouped r
      → IsGrouped (stop sort K now r)
  unfolding stop
  stop-IsGrouped now r g =
      List_elim IsGrouped r.active
        (if r.running then close_group (record r { running = false }) else r)
        (λ e es. close_group (remove_each sort K (e ∷ es) now (record r { running = false })))
        (λ _.
          if_elim IsGrouped r.running (close_group (record r { running = false })) r
            (λ _. close_group-IsGrouped (record r { running = false })) (λ _. g))
        (λ e es _.
          close_group-IsGrouped (remove_each sort K (e ∷ es) now (record r { running = false })))

  step-IsGrouped :
      (r : Runtime Source Frame Coord Crop Score Float) (c : Call Source)
      → IsGrouped r
      → IsGrouped (step sort dec K r c)
  unfolding step start sync_inference_controls close
  step-IsGrouped r (starts enabled cs now) g =
      if_elim IsGrouped (not enabled || r.running) r
        (record (refresh_cameras sort dec K cs now r) { running = true }) (λ _. g)
        (λ _.
          let h = refresh_cameras-IsGrouped sort dec K sorts cs now r g in
          record { agrees = h.agrees; live = h.live })
  step-IsGrouped r (refreshes cs now) g = refresh_cameras-IsGrouped sort dec K sorts cs now r g
  step-IsGrouped r (syncs cs) g =
      List_elim IsGrouped r.active r (λ _ _. sync_controls K cs r) (λ _. g)
        (λ _ _ _. sync_controls-IsGrouped K cs r g)
  step-IsGrouped r (handles p captured now) g =
      handle_packet-IsGrouped sort dec K sorts r p captured now g
  step-IsGrouped r (stops now) g = stop-IsGrouped now r g
  step-IsGrouped r closes g =
      let h = close_group-IsGrouped r in record { agrees = h.agrees; live = h.live }

  -- After any calls the synchronizer waits for exactly the cameras of the sync group, and every one of
  -- them is active, if both held before. The sorting function only has to hold what it is given.
  pub run-IsGrouped :
      (cs : List (Call Source)) (r : Runtime Source Frame Coord Crop Score Float)
      → IsGrouped r
      → IsGrouped (run sort dec K r cs)
  unfolding run
  run-IsGrouped [] r g = g
  run-IsGrouped (c ∷ cs) r g = run-IsGrouped cs (step sort dec K r c) (step-IsGrouped r c g)
