-- ===== src/Pipeline/Runtime/Kept.antt =====
-- What `_sync_inference_controls` of runtime.py leaves alone.
use ai_intelligence_theft_de.Base.{
  String, Bool, List, [], ◌∷◌, Option, none, some, str_dec, same, is_some, ◌≡◌, refl, ◌∙◌, if_elim,
}
use ai_intelligence_theft_de.Base.Dict.{lookup}
use ai_intelligence_theft_de.Pipeline.Synchronizer.{Synchronizer}
use ai_intelligence_theft_de.Pipeline.Runtime.{Settings, Runtime}
use ai_intelligence_theft_de.Pipeline.Runtime.Controls.{
  CameraRecord, sync_controls, apply_records, apply_record, enable_camera, disable_camera,
  drop_unrecorded, disable_all, records_by_id, resolve_camera_inference_enabled,
  resolve_camera_inference_strategy,
}

module _ {Source Frame Coord Crop Score Float : Type 0} where
  -- The cameras, the sync group and the log of stopped cameras.
  abbrev pub core :
      Runtime Source Frame Coord Crop Score Float
      → List (String × Source) × (Synchronizer × (List String × List String))
  core r = (r.active, (r.synchronizer, (r.sync_camera_ids, r.forgotten)))

  core-enable_camera :
      (c s : String) (o : Option (Bool × String)) (r : Runtime Source Frame Coord Crop Score Float)
      → core (enable_camera c s o r) ≡ core r
  unfolding enable_camera
  core-enable_camera c s none r = refl
  core-enable_camera c s (some current) r =
      if_elim (λ x. core x ≡ core r) (same current.1 s) _ _ (λ _. refl) (λ _. refl)

  core-disable_camera :
      (c : String) (o : Option (Bool × String)) (r : Runtime Source Frame Coord Crop Score Float)
      → core (disable_camera c o r) ≡ core r
  unfolding disable_camera
  core-disable_camera c none r = refl
  core-disable_camera c (some current) r = refl

  core-apply_record :
      (K : Settings) (e : String × CameraRecord Source)
      (r : Runtime Source Frame Coord Crop Score Float)
      → core (apply_record K e r) ≡ core r
  unfolding apply_record
  core-apply_record K e r =
      let current = lookup str_dec e.0 r.controls in
      let strategy = resolve_camera_inference_strategy K e.1.strategy in
      if_elim (λ x. core x ≡ core r) (resolve_camera_inference_enabled e.1.enabled)
        (enable_camera e.0 strategy current r) (disable_camera e.0 current r)
        (λ _. core-enable_camera e.0 strategy current r) (λ _. core-disable_camera e.0 current r)

  core-apply_records :
      (K : Settings) (es : List (String × CameraRecord Source))
      (r : Runtime Source Frame Coord Crop Score Float)
      → core (apply_records K es r) ≡ core r
  unfolding apply_records
  core-apply_records K [] r = refl
  core-apply_records K (e ∷ es) r =
      core-apply_records K es (apply_record K e r) ∙ core-apply_record K e r

  core-drop_unrecorded :
      (es : List (String × (Bool × String))) (records : List (String × CameraRecord Source))
      (r : Runtime Source Frame Coord Crop Score Float)
      → core (drop_unrecorded es records r) ≡ core r
  unfolding drop_unrecorded
  core-drop_unrecorded [] records r = refl
  core-drop_unrecorded (e ∷ es) records r =
      core-drop_unrecorded es records _
      ∙ if_elim (λ x. core x ≡ core r) (is_some (lookup str_dec e.0 records)) _ _ (λ _. refl)
          (λ _. refl)

  core-disable_all :
      (es : List (String × (Bool × String))) (r : Runtime Source Frame Coord Crop Score Float)
      → core (disable_all es r) ≡ core r
  unfolding disable_all
  core-disable_all [] r = refl
  core-disable_all (e ∷ es) r = core-disable_all es _

  pub core-sync_controls :
      (K : Settings) (cs : List (CameraRecord Source))
      (r : Runtime Source Frame Coord Crop Score Float)
      → core (sync_controls K cs r) ≡ core r
  unfolding sync_controls
  core-sync_controls K cs r =
      let records = records_by_id r.active cs [] in
      if_elim (λ x. core x ≡ core r) K.enable_behavior_inference _ _
        (λ _. core-apply_records K records _ ∙ core-drop_unrecorded r.controls records r)
        (λ _. core-disable_all r.controls r)
