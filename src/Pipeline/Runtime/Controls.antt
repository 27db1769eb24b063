-- ===== src/Pipeline/Runtime/Controls.antt =====
-- runtime.py: `_sync_inference_controls`, from the cameras' records to the inference manager.
use ai_intelligence_theft_de.Base.{
  String, Bool, true, List, [], ◌∷◌, ◌||◌, Option, none, some, str_dec, same, is_some,
  if◌then◌else◌,
}
use ai_intelligence_theft_de.Base.Dict.{lookup, insert, remove}
use ai_intelligence_theft_de.Inference.Manager.{Manager, configure_stream}
use ai_intelligence_theft_de.Inference.Manager
use ai_intelligence_theft_de.Pipeline.Runtime.{Settings, Runtime}

-- A value of the metadata: JSON's null or a missing key, a Boolean, a text, or any other that can be
-- hashed. A list or an object as a strategy raises a TypeError, and is not in the model.
pub data Raw : Type 0 where
  absent other : Raw
  flag : Bool → Raw
  text : String → Raw

-- `CameraRecord`, as the runtime reads it: the source that `_build_source_config` makes of it, and the
-- "enabled" and "strategy" of its inference metadata.
pub record CameraRecord (Source : Type 0) : Type 0 where
  pub id : String
  pub source : Source
  pub enabled : Raw
  pub strategy : Raw

unfoldable pub resolve_camera_inference_enabled : Raw → Bool
resolve_camera_inference_enabled (flag b) = b
resolve_camera_inference_enabled _ = true

unfoldable pub resolve_camera_inference_strategy : Settings → Raw → String
resolve_camera_inference_strategy K (text t) =
    if same t "vjepa_probe" || same t "cnn_transformer" then t else K.inference_strategy
resolve_camera_inference_strategy K _ = K.inference_strategy

module _ {Source : Type 0} where
  -- `records_by_camera_id`
  unfoldable pub records_by_id :
      List (String × Source)
      → List (CameraRecord Source)
      → List (String × CameraRecord Source)
      → List (String × CameraRecord Source)
  records_by_id active [] m = m
  records_by_id active (c ∷ cs) m =
      records_by_id active cs
        (if is_some (lookup str_dec c.id active) then insert str_dec c.id c m else m)

module _ {Source Frame Coord Crop Score Float : Type 0} where
  -- Inference is off: every camera with controls leaves the manager.
  unfoldable pub disable_all :
      List (String × (Bool × String))
      → Runtime Source Frame Coord Crop Score Float
      → Runtime Source Frame Coord Crop Score Float
  disable_all [] r = r
  disable_all (e ∷ es) r = disable_all es (record r {
    manager = Manager.remove_camera r.manager e.0;
    controls = remove str_dec e.0 r.controls;
  })

  -- The controls of cameras without a record.
  unfoldable pub drop_unrecorded :
      List (String × (Bool × String))
      → List (String × CameraRecord Source)
      → Runtime Source Frame Coord Crop Score Float
      → Runtime Source Frame Coord Crop Score Float
  drop_unrecorded [] records r = r
  drop_unrecorded (e ∷ es) records r = drop_unrecorded es records (
      if is_some (lookup str_dec e.0 records)
      then r
      else record r { controls = remove str_dec e.0 r.controls })

  -- A camera that runs under `current`, or not at all, is to run under `strategy`.
  unfoldable pub enable_camera :
      String
      → String
      → Option (Bool × String)
      → Runtime Source Frame Coord Crop Score Float
      → Runtime Source Frame Coord Crop Score Float
  enable_camera camera_id strategy none r = record r {
    manager = configure_stream r.manager camera_id (some true) (some strategy);
    controls = insert str_dec camera_id (true, strategy) r.controls;
  }
  enable_camera camera_id strategy (some current) r =
      if same current.1 strategy then r else record r {
        manager = configure_stream r.manager camera_id none (some strategy);
        controls = insert str_dec camera_id (true, strategy) r.controls;
      }

  unfoldable pub disable_camera :
      String
      → Option (Bool × String)
      → Runtime Source Frame Coord Crop Score Float
      → Runtime Source Frame Coord Crop Score Float
  disable_camera camera_id none r = r
  disable_camera camera_id (some current) r = record r {
    manager = Manager.remove_camera r.manager camera_id;
    controls = remove str_dec camera_id r.controls;
  }

  unfoldable pub apply_record :
      Settings
      → String × CameraRecord Source
      → Runtime Source Frame Coord Crop Score Float
      → Runtime Source Frame Coord Crop Score Float
  apply_record K (camera_id, c) r =
      let current = lookup str_dec camera_id r.controls in
      if resolve_camera_inference_enabled c.enabled
      then enable_camera camera_id (resolve_camera_inference_strategy K c.strategy) current r
      else disable_camera camera_id current r

  unfoldable pub apply_records :
      Settings
      → List (String × CameraRecord Source)
      → Runtime Source Frame Coord Crop Score Float
      → Runtime Source Frame Coord Crop Score Float
  apply_records K [] r = r
  apply_records K (e ∷ es) r = apply_records K es (apply_record K e r)

  -- `_sync_inference_controls`
  unfoldable pub sync_controls :
      Settings
      → List (CameraRecord Source)
      → Runtime Source Frame Coord Crop Score Float
      → Runtime Source Frame Coord Crop Score Float
  sync_controls K cameras r =
      let records = records_by_id r.active cameras [] in
      if K.enable_behavior_inference
      then apply_records K records (drop_unrecorded r.controls records r)
      else disable_all r.controls r

  -- The periodic call.
  unfoldable pub sync_inference_controls :
      Settings
      → List (CameraRecord Source)
      → Runtime Source Frame Coord Crop Score Float
      → Runtime Source Frame Coord Crop Score Float
  sync_inference_controls K cameras r = elim r.active [
    | [] ↦ r
    | e ∷ es ↦ sync_controls K cameras r
  ]
