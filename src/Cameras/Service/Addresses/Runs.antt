-- ===== src/Cameras/Service/Addresses/Runs.antt =====
-- The addresses of the stored cameras over any calls of camera_service.py.
use ai_intelligence_theft_de.Base.{
  ℕ, String, Bool, true, false, not, List, [], ◌∷◌, Option, some, suc, length, ◌≡◌, arith,
  if◌then◌else◌, or_else, Option_elim, if_elim,
}
use ai_intelligence_theft_de.Base.Calls.{Reply, done, Call, pure, raise, ◌>>=◌, ◌>>◌}
use ai_intelligence_theft_de.Base.Dict.{lookup}
use ai_intelligence_theft_de.Cameras.Listing.{list_camera_records}
use ai_intelligence_theft_de.Cameras.Urls.{Text}
use ai_intelligence_theft_de.Cameras.Service.{
  Fields, Camera, Updates, Validation, reachable, unreachable, Error, no_source, not_found,
  source_unavailable, Site, merged, keeps_source, validate_source, admitted, insert_row, update_row,
  delete_row, found, get_camera_record, validate_camera, validate_and_persist,
  ensure_camera_reachable, sync_mediamtx_config, create_camera, write_merged, delete_camera,
}
use ai_intelligence_theft_de.Cameras.Service.Addresses.{
  builds-validate_source, builds-keeps_source, AllBuild, Keeps, bind-Keeps, admitted-Keeps,
  found-Keeps, get_camera_record-Keeps, insert_row-Keeps, delete_row-Keeps, update_row-AllBuild,
}

-- A call, or the part of an update that writes what was read before.
pub data Change (Meta : Type 0) : Type 0 where
  creates : Option String → Bool → String → Fields Meta → Change Meta
  updates : Option String → Bool → String → Updates Meta → Fields Meta → Change Meta
  validates : Option String → Option String → String → Validation → Change Meta
  ensures : Option String → Option String → String → Validation → Change Meta
  deletes : Option String → Bool → String → Change Meta

-- A request that creates a camera has passed its validator.
abbrev pub Accepted : {Meta : Type 0} → Change Meta → Type 0
Accepted (creates w b i fields) = validate_source fields.address ≡ true
Accepted r = Unit

abbrev pub AllAccepted : {Meta : Type 0} → List (Change Meta) → Type 0
AllAccepted [] = Unit
AllAccepted (r ∷ rs) = Accepted r × AllAccepted rs

module _ {Meta : Type 0}
    (fetch : List (String × Camera Meta) → ℕ → ℕ → List ((String × Camera Meta) × ℕ)) where
  unfoldable pub step : Site Meta → Change Meta → Site Meta
  step s (creates writes synced camera_id fields) =
      (create_camera fetch writes synced camera_id fields s).1
  step s (updates writes synced camera_id u existing) =
      (write_merged fetch writes synced camera_id u existing s).1
  step s (validates reads writes camera_id validation) =
      (validate_camera reads writes camera_id validation s).1
  step s (ensures reads writes camera_id validation) =
      (ensure_camera_reachable reads writes camera_id validation s).1
  step s (deletes writes synced camera_id) = (delete_camera fetch writes synced camera_id s).1

  unfoldable pub run : Site Meta → List (Change Meta) → Site Meta
  run s [] = s
  run s (r ∷ rs) = run (step s r) rs

  module _ (quote : Text → Text) (digits : ℕ → Text) where
    sync-Keeps : (synced : Bool) → Keeps quote digits (sync_mediamtx_config fetch synced)
    unfolding sync_mediamtx_config
    sync-Keeps false s p = p
    sync-Keeps true s p =
        Option_elim (λ (x : Reply Error Unit × Site Meta). AllBuild quote digits x.1.cameras)
          (list_camera_records (fetch s.cameras) (suc (length s.cameras))) (done tt, s)
          (λ cameras. (done tt, record s { config = cameras })) (λ n. p) (λ cameras e. p)

    synced-Keeps :
        (synced : Bool) (camera : Camera Meta)
        → Keeps quote digits (sync_mediamtx_config fetch synced >> pure camera)
    synced-Keeps synced camera =
        bind-Keeps quote digits (sync_mediamtx_config fetch synced) (λ _. pure camera)
          (sync-Keeps synced) (λ _ s p. p)

    create_camera-Keeps :
        (writes : Option String) (synced : Bool) (camera_id : String) (fields : Fields Meta)
        → validate_source fields.address ≡ true
        → Keeps quote digits (create_camera fetch writes synced camera_id fields)
    unfolding create_camera
    create_camera-Keeps writes synced camera_id fields v =
        bind-Keeps quote digits (admitted writes >> insert_row camera_id fields)
          (λ camera. sync_mediamtx_config fetch synced >> pure camera)
          (bind-Keeps quote digits (admitted writes) (λ _. insert_row camera_id fields)
            (admitted-Keeps quote digits writes)
            (λ _.
              insert_row-Keeps quote digits camera_id fields
                (builds-validate_source quote digits fields.address v)))
          (synced-Keeps synced)

    delete_camera-Keeps :
        (writes : Option String) (synced : Bool) (camera_id : String)
        → Keeps quote digits (delete_camera fetch writes synced camera_id)
    unfolding delete_camera
    delete_camera-Keeps writes synced camera_id =
        bind-Keeps quote digits (admitted writes >> delete_row camera_id)
          (λ deleted.
            if deleted then sync_mediamtx_config fetch synced else raise (not_found camera_id))
          (bind-Keeps quote digits (admitted writes) (λ _. delete_row camera_id)
            (admitted-Keeps quote digits writes) (λ _. delete_row-Keeps quote digits camera_id))
          (λ deleted.
            if_elim (λ (m : Call (Site Meta) Error Unit). Keeps quote digits m) deleted
              (sync_mediamtx_config fetch synced) (raise (not_found camera_id))
              (λ _. sync-Keeps synced) (λ _ s p. p))

    write_merged-Keeps :
        (writes : Option String) (synced : Bool) (camera_id : String) (u : Updates Meta)
        (existing : Fields Meta)
        → Keeps quote digits (write_merged fetch writes synced camera_id u existing)
    unfolding write_merged
    write_merged-Keeps writes synced camera_id u existing =
        let fields = merged existing u in
        let stores =
          admitted writes >> update_row camera_id (λ old. record old { fields = fields }) in
        let shows = λ (camera : Camera Meta). sync_mediamtx_config fetch synced >> pure camera in
        if_elim (λ (m : Call (Site Meta) Error (Camera Meta)). Keeps quote digits m)
          (not (keeps_source fields.address)) (raise no_source)
          (stores >>= λ updated. found camera_id updated >>= shows) (λ _ s p. p)
          (λ k.
            bind-Keeps quote digits stores (λ updated. found camera_id updated >>= shows)
              (bind-Keeps quote digits (admitted writes)
                (λ _. update_row camera_id (λ old. record old { fields = fields }))
                (admitted-Keeps quote digits writes)
                (λ _ s.
                  update_row-AllBuild quote digits camera_id (λ old. record old { fields = fields })
                    s (λ c b. builds-keeps_source quote digits fields.address (ground (arith, k)))))
              (λ updated.
                bind-Keeps quote digits (found camera_id updated) shows
                  (found-Keeps quote digits camera_id updated) (synced-Keeps synced)))

    validate_camera-Keeps :
        (reads writes : Option String) (camera_id : String) (validation : Validation)
        → Keeps quote digits (validate_camera {Meta = Meta} reads writes camera_id validation)
    unfolding validate_camera validate_and_persist
    validate_camera-Keeps reads writes camera_id validation =
        let marks = λ (old : Camera Meta). record old {
          validation_status = if validation.is_reachable then reachable else unreachable;
          validation_message = some validation.message;
        } in
        bind-Keeps quote digits (get_camera_record reads camera_id)
          (λ camera.
            admitted writes
            >> (update_row camera_id marks >>= λ updated.
                pure (or_else updated camera, validation)))
          (get_camera_record-Keeps quote digits reads camera_id)
          (λ camera.
            bind-Keeps quote digits (admitted writes)
              (λ _.
                update_row camera_id marks >>= λ updated. pure (or_else updated camera, validation))
              (admitted-Keeps quote digits writes)
              (λ _.
                bind-Keeps quote digits (update_row camera_id marks)
                  (λ updated. pure (or_else updated camera, validation))
                  (λ s. update_row-AllBuild quote digits camera_id marks s (λ c b. b))
                  (λ _ s p. p)))

    ensure_camera_reachable-Keeps :
        (reads writes : Option String) (camera_id : String) (validation : Validation)
        → Keeps quote digits
            (ensure_camera_reachable {Meta = Meta} reads writes camera_id validation)
    unfolding ensure_camera_reachable
    ensure_camera_reachable-Keeps reads writes camera_id validation =
        bind-Keeps quote digits (validate_camera reads writes camera_id validation)
          (λ p. if p.1.is_reachable then pure p.0 else raise (source_unavailable p.1.message))
          (validate_camera-Keeps reads writes camera_id validation)
          (λ p.
            if_elim (λ (m : Call (Site Meta) Error (Camera Meta)). Keeps quote digits m)
              p.1.is_reachable (pure p.0) (raise (source_unavailable p.1.message)) (λ _ s q. q)
              (λ _ s q. q))

    run_from-AllBuild :
        (rs : List (Change Meta)) (s : Site Meta)
        → AllAccepted rs
        → AllBuild quote digits s.cameras
        → AllBuild quote digits (run s rs).cameras
    unfolding run step
    run_from-AllBuild [] s a p = p
    run_from-AllBuild (creates w b i fields ∷ rs) s a p =
        run_from-AllBuild rs _ a.1 (create_camera-Keeps w b i fields a.0 s p)
    run_from-AllBuild (updates w b i u existing ∷ rs) s a p =
        run_from-AllBuild rs _ a.1 (write_merged-Keeps w b i u existing s p)
    run_from-AllBuild (validates r w i v ∷ rs) s a p =
        run_from-AllBuild rs _ a.1 (validate_camera-Keeps r w i v s p)
    run_from-AllBuild (ensures r w i v ∷ rs) s a p =
        run_from-AllBuild rs _ a.1 (ensure_camera_reachable-Keeps r w i v s p)
    run_from-AllBuild (deletes w b i ∷ rs) s a p =
        run_from-AllBuild rs _ a.1 (delete_camera-Keeps w b i s p)

    -- From an empty table on, after any calls that create cameras with valid requests, update, validate
    -- and delete them, whatever was refused and whichever earlier read an update writes: an RTSP
    -- address can be built for every stored camera.
    pub run-AllBuild :
        (rs : List (Change Meta))
        → AllAccepted rs
        → AllBuild quote digits (run (record { cameras = []; config = [] }) rs).cameras
    unfolding lookup
    run-AllBuild rs a =
        run_from-AllBuild rs (record { cameras = []; config = [] }) a
          (λ camera_id camera h. absurd (ground arith))
