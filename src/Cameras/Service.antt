-- ===== src/Cameras/Service.antt =====
-- camera_service.py: `CameraService`, the changes of cameras, over the table `cameras` that the
-- statements of scripts/sql/camera change. `arrange` is the order in which the table is listed and
-- `fetch` the listing's query. What PostgreSQL refuses, whether the configuration of MediaMTX is
-- written, and the result of a validation are answers. Times and the state of streams are left out.
pub mod Changes
pub mod Addresses
use ai_intelligence_theft_de.Base.{
  ℕ, suc, String, Bool, true, false, not, ◌&&◌, ◌||◌, List, [], ◌∷◌, Option, none, some, length,
  if◌then◌else◌, or_else, is_some, str_dec,
}
use ai_intelligence_theft_de.Base.Calls.{Reply, failed, done, Call, pure, raise, lift, ◌>>=◌, ◌>>◌}
use ai_intelligence_theft_de.Base.Dict.{lookup, insert, remove}
use ai_intelligence_theft_de.Cameras.Listing.{list_camera_records}
use ai_intelligence_theft_de.Cameras.Urls.{Text, Address, is_blank, build_rtsp_url}

-- The columns that a request sets; `none` is NULL.
pub record Fields (Meta : Type 0) : Type 0 where
  pub name : Option Text
  pub location : Option Text
  pub address : Address
  pub transport : Option Text
  pub status : Option Text
  pub metadata : Option Meta
  pub tags : Option (List Text)

pub data ValidationStatus : Type 0 where
  unknown reachable unreachable : ValidationStatus

pub record Camera (Meta : Type 0) : Type 0 where
  pub fields : Fields Meta
  pub validation_status : ValidationStatus
  pub validation_message : Option Text

-- The fields of an UpdateCameraRequest; `none` is a field that is not set.
pub record Updates (Meta : Type 0) : Type 0 where
  pub name : Option (Option Text)
  pub location : Option (Option Text)
  pub host : Option (Option Text)
  pub port : Option (Option ℕ)
  pub username : Option (Option Text)
  pub password : Option (Option Text)
  pub path : Option (Option Text)
  pub direct_rtsp_url : Option (Option Text)
  pub transport : Option (Option Text)
  pub status : Option (Option Text)
  pub metadata : Option (Option Meta)
  pub tags : Option (Option (List Text))

pub record Validation : Type 0 where
  pub is_reachable : Bool
  pub message : Text

pub data Error : Type 0 where
  not_found : String → Error
  no_source : Error
  refused : String → Error
  source_unavailable : Text → Error

-- The table, and the cameras that the configuration of MediaMTX was last written for.
pub record Site (Meta : Type 0) : Type 0 where
  pub cameras : List (String × Camera Meta)
  pub config : List (String × Camera Meta)

-- `password.get_secret_value() if password else None`
unfoldable pub secret : Option Text → Option Text
secret none = none
secret (some []) = none
secret (some (x ∷ xs)) = some (x ∷ xs)

unfoldable pub secret_update : Option (Option Text) → Option (Option Text)
secret_update none = none
secret_update (some password) = some (secret password)

-- `merged` of `update_camera`
unfoldable pub merged : {Meta : Type 0} → Fields Meta → Updates Meta → Fields Meta
merged existing updates = record {
  name = or_else updates.name existing.name;
  location = or_else updates.location existing.location;
  address = record {
    host = or_else updates.host existing.address.host;
    port = or_else updates.port existing.address.port;
    username = or_else updates.username existing.address.username;
    password = or_else (secret_update updates.password) existing.address.password;
    path = or_else updates.path existing.address.path;
    direct_rtsp_url = or_else updates.direct_rtsp_url existing.address.direct_rtsp_url;
  };
  transport = or_else updates.transport existing.transport;
  status = or_else updates.status existing.status;
  metadata = or_else updates.metadata existing.metadata;
  tags = or_else updates.tags existing.tags;
}

-- The guard of `update_camera`.
unfoldable pub keeps_source : Address → Bool
keeps_source a =
    not (is_blank a.direct_rtsp_url) || (not (is_blank a.host) && not (is_blank a.path))

-- `validate_source` of CreateCameraRequest
unfoldable pub validate_source : Address → Bool
validate_source a = not (is_blank a.direct_rtsp_url) || (is_some a.host && is_some a.path)

module _ {Meta : Type 0} where
  -- A statement that PostgreSQL refuses changes nothing.
  unfoldable pub admitted : Option String → Call (Site Meta) Error Unit
  admitted none = pure tt
  admitted (some cause) = raise (refused cause)

  unfoldable pub set_row : String → Camera Meta → Site Meta → Site Meta
  set_row camera_id camera s = record s { cameras = insert str_dec camera_id camera s.cameras }

  -- The defaults of the table.
  unfoldable pub new_camera : Fields Meta → Camera Meta
  new_camera fields = record {
    fields = fields;
    validation_status = unknown;
    validation_message = none;
  }

  -- The insertion of a row: an id that exists is refused.
  unfoldable pub insert_row : String → Fields Meta → Call (Site Meta) Error (Camera Meta)
  insert_row camera_id fields s =
      let camera = new_camera fields in
      elim (lookup str_dec camera_id s.cameras) [
        | none ↦ (done camera, set_row camera_id camera s)
        | some old ↦ (failed (refused "cameras_pkey"), s)
      ]

  -- The update of a row by `f`, with the row after it, if there is one.
  unfoldable pub update_row :
      String → (Camera Meta → Camera Meta) → Call (Site Meta) Error (Option (Camera Meta))
  update_row camera_id f s = elim (lookup str_dec camera_id s.cameras) [
    | none ↦ (done none, s)
    | some old ↦ (done (some (f old)), set_row camera_id (f old) s)
  ]

  unfoldable pub delete_row : String → Call (Site Meta) Error Bool
  delete_row camera_id s = elim (lookup str_dec camera_id s.cameras) [
    | none ↦ (done false, s)
    | some old ↦ (done true, record s { cameras = remove str_dec camera_id s.cameras })
  ]

  unfoldable pub found : String → Option (Camera Meta) → Call (Site Meta) Error (Camera Meta)
  found camera_id none = raise (not_found camera_id)
  found camera_id (some camera) = pure camera

  unfoldable pub get_camera_record : Option String → String → Call (Site Meta) Error (Camera Meta)
  get_camera_record answer camera_id s =
      (admitted answer >> λ t. found camera_id (lookup str_dec camera_id t.cameras) t) s

  -- `_validate_and_persist`, with the validator's result.
  unfoldable pub validate_and_persist :
      Option String
      → String
      → Validation
      → Camera Meta
      → Call (Site Meta) Error (Camera Meta × Validation)
  validate_and_persist writes camera_id validation camera =
      admitted writes
      >> (update_row camera_id (λ old. record old {
        validation_status = if validation.is_reachable then reachable else unreachable;
        validation_message = some validation.message;
      })
          >>= λ updated. pure (or_else updated camera, validation))

  unfoldable pub validate_camera :
      Option String
      → Option String
      → String
      → Validation
      → Call (Site Meta) Error (Camera Meta × Validation)
  validate_camera reads writes camera_id validation =
      get_camera_record reads camera_id >>= λ camera.
      validate_and_persist writes camera_id validation camera

  unfoldable pub ensure_camera_reachable :
      Option String → Option String → String → Validation → Call (Site Meta) Error (Camera Meta)
  ensure_camera_reachable reads writes camera_id validation =
      validate_camera reads writes camera_id validation >>= λ p.
      if p.1.is_reachable then pure p.0 else raise (source_unavailable p.1.message)

module _ {Meta : Type 0}
    (fetch : List (String × Camera Meta) → ℕ → ℕ → List ((String × Camera Meta) × ℕ)) where
  -- `_sync_mediamtx_config`: nothing is raised if the configuration is not written, or if there is no
  -- service that writes it. A page holds at least one camera, which bounds the listing.
  unfoldable pub sync_mediamtx_config : Bool → Call (Site Meta) Error Unit
  sync_mediamtx_config false s = (done tt, s)
  sync_mediamtx_config true s =
      elim (list_camera_records (fetch s.cameras) (suc (length s.cameras))) [
        | none ↦ (done tt, s)
        | some cameras ↦ (done tt, record s { config = cameras })
      ]

  -- The id is a new one; the request has passed `validate_source`.
  unfoldable pub create_camera :
      Option String → Bool → String → Fields Meta → Call (Site Meta) Error (Camera Meta)
  create_camera writes synced camera_id fields =
      admitted writes >> insert_row camera_id fields >>= λ camera.
      sync_mediamtx_config synced >> pure camera

  -- `update_camera` from the merge on: `existing` was read before, and other calls may have come in
  -- between.
  unfoldable pub write_merged :
      Option String
      → Bool
      → String
      → Updates Meta
      → Fields Meta
      → Call (Site Meta) Error (Camera Meta)
  write_merged writes synced camera_id updates existing =
      let fields = merged existing updates in
      if not (keeps_source fields.address)
      then raise no_source
      else (admitted writes
          >> update_row camera_id (λ old. record old { fields = fields })
          >>= λ updated.
              found camera_id updated >>= λ camera. sync_mediamtx_config synced >> pure camera)

  -- `update_camera`, with the other calls of that time.
  unfoldable pub update_camera :
      Option String
      → Option String
      → Bool
      → (Site Meta → Site Meta)
      → String
      → Updates Meta
      → Call (Site Meta) Error (Camera Meta)
  update_camera reads writes synced between camera_id updates =
      get_camera_record reads camera_id >>= λ existing s.
      write_merged writes synced camera_id updates existing.fields (between s)

  unfoldable pub delete_camera : Option String → Bool → String → Call (Site Meta) Error Unit
  delete_camera writes synced camera_id = admitted writes >> delete_row camera_id >>= λ deleted.
      if deleted then sync_mediamtx_config synced else raise (not_found camera_id)
