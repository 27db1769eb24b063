-- ===== src/Cameras/Service/Addresses.antt =====
-- Which parts of a call of camera_service.py keep the addresses of the stored cameras usable.
pub mod Runs
use ai_intelligence_theft_de.Base.{
  ℕ, suc, String, Bool, true, false, not, ◌&&◌, ◌||◌, List, [], ◌∷◌, Option, none, some, length,
  ◌≡◌, refl, sym, subst, inl, inr, ite, arith, if◌then◌else◌, str_dec, is_some, Option_elim,
  if_elim,
}
use ai_intelligence_theft_de.Base.Calls.{Reply, failed, done, Call, pure, raise, ◌>>=◌, ◌>>◌}
use ai_intelligence_theft_de.Base.Dict.{lookup, insert, remove, lookup-insert, lookup-remove}
use ai_intelligence_theft_de.Cameras.Listing.{list_camera_records}
use ai_intelligence_theft_de.Cameras.Urls.{Text, Address, is_blank, build_rtsp_url}
use ai_intelligence_theft_de.Cameras.Service.{
  Fields, Camera, Updates, Validation, Error, refused, Site, merged, keeps_source, validate_source,
  admitted, new_camera, set_row, insert_row, update_row, delete_row, found, get_camera_record,
  validate_camera, ensure_camera_reachable, sync_mediamtx_config, create_camera, write_merged,
  delete_camera,
}

module _ (quote : Text → Text) (digits : ℕ → Text) where
  -- An address that the service can connect to.
  abbrev pub builds : Address → Bool
  builds a = is_some (build_rtsp_url quote digits a)

  pub builds-validate_source : (a : Address) → validate_source a ≡ true → builds a ≡ true
  unfolding validate_source build_rtsp_url
  builds-validate_source a h = ground arith

  pub builds-keeps_source : (a : Address) → keeps_source a ≡ true → builds a ≡ true
  unfolding keeps_source build_rtsp_url
  builds-keeps_source a h = ground arith

  module _ {Meta : Type 0} where
    abbrev pub AllBuild : List (String × Camera Meta) → Type 0
    AllBuild cameras =
        (camera_id : String) (camera : Camera Meta)
        → lookup str_dec camera_id cameras ≡ some camera
        → builds camera.fields.address ≡ true

    insert-AllBuild :
        (camera_id : String) (camera : Camera Meta) (cameras : List (String × Camera Meta))
        → builds camera.fields.address ≡ true
        → AllBuild cameras
        → AllBuild (insert str_dec camera_id camera cameras)
    insert-AllBuild camera_id camera cameras b p q c h = elim (str_dec q camera_id) [
      | yes e ↦ ground (arith, lookup-insert str_dec camera_id q camera cameras, e)
      | no n ↦ p q c (ground (arith, lookup-insert str_dec camera_id q camera cameras, n))
    ]

    remove-AllBuild :
        (camera_id : String) (cameras : List (String × Camera Meta))
        → AllBuild cameras
        → AllBuild (remove str_dec camera_id cameras)
    remove-AllBuild camera_id cameras p q c h = elim (str_dec q camera_id) [
      | yes e ↦ absurd (ground (arith, lookup-remove str_dec camera_id q cameras, e))
      | no n ↦ p q c (ground (arith, lookup-remove str_dec camera_id q cameras, n))
    ]

    pub update_row-AllBuild :
        (camera_id : String) (f : Camera Meta → Camera Meta) (s : Site Meta)
        → ((c : Camera Meta) → builds c.fields.address ≡ true → builds (f c).fields.address ≡ true)
        → AllBuild s.cameras
        → AllBuild (update_row camera_id f s).1.cameras
    unfolding update_row set_row
    update_row-AllBuild camera_id f s keep p =
        Option_elim (λ (x : Reply Error (Option (Camera Meta)) × Site Meta). AllBuild x.1.cameras)
          (lookup str_dec camera_id s.cameras) (done none, s)
          (λ old. (done (some (f old)), set_row camera_id (f old) s)) (λ n. p)
          (λ old e. insert-AllBuild camera_id (f old) s.cameras (keep old (p camera_id old e)) p)

    -- A call after which all addresses build if they did before.
    abbrev pub Keeps : {A : Type 0} → Call (Site Meta) Error A → Type 0
    Keeps m = (s : Site Meta) → AllBuild s.cameras → AllBuild (m s).1.cameras

    pub bind-Keeps :
        {A B : Type 0} (m : Call (Site Meta) Error A) (f : A → Call (Site Meta) Error B)
        → Keeps m
        → ((a : A) → Keeps (f a))
        → Keeps (m >>= f)
    bind-Keeps {A = A} {B = B} m f k l s p = go (m s) (k s p)
      where
        go :
            (r : Reply Error A × Site Meta)
            → AllBuild r.1.cameras
            → AllBuild
                (elim r.0 as (λ x. Reply Error B × Site Meta) [
                  | failed e ↦ (failed e, r.1)
                  | done a ↦ f a r.1
                ]).1.cameras
        go (failed e, t) q = q
        go (done a, t) q = l a t q

    pub admitted-Keeps : (answer : Option String) → Keeps (admitted answer)
    unfolding admitted
    admitted-Keeps none s p = p
    admitted-Keeps (some cause) s p = p

    pub found-Keeps : (camera_id : String) (o : Option (Camera Meta)) → Keeps (found camera_id o)
    unfolding found
    found-Keeps camera_id none s p = p
    found-Keeps camera_id (some camera) s p = p

    pub get_camera_record-Keeps :
        (answer : Option String) (camera_id : String) → Keeps (get_camera_record answer camera_id)
    unfolding get_camera_record
    get_camera_record-Keeps answer camera_id =
        bind-Keeps (admitted answer) (λ _ t. found camera_id (lookup str_dec camera_id t.cameras) t)
          (admitted-Keeps answer)
          (λ _ t. found-Keeps camera_id (lookup str_dec camera_id t.cameras) t)

    pub insert_row-Keeps :
        (camera_id : String) (fields : Fields Meta)
        → builds fields.address ≡ true
        → Keeps (insert_row camera_id fields)
    unfolding insert_row set_row new_camera
    insert_row-Keeps camera_id fields b s p =
        Option_elim (λ (x : Reply Error (Camera Meta) × Site Meta). AllBuild x.1.cameras)
          (lookup str_dec camera_id s.cameras)
          (done (new_camera fields), set_row camera_id (new_camera fields) s)
          (λ old. (failed (refused "cameras_pkey"), s))
          (λ n. insert-AllBuild camera_id (new_camera fields) s.cameras b p) (λ old e. p)

    pub delete_row-Keeps : (camera_id : String) → Keeps (delete_row camera_id)
    unfolding delete_row
    delete_row-Keeps camera_id s p =
        Option_elim (λ (x : Reply Error Bool × Site Meta). AllBuild x.1.cameras)
          (lookup str_dec camera_id s.cameras) (done false, s)
          (λ old. (done true, record s { cameras = remove str_dec camera_id s.cameras })) (λ n. p)
          (λ old e. remove-AllBuild camera_id s.cameras p)
