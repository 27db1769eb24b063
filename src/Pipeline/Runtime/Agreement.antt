-- ===== src/Pipeline/Runtime/Agreement.antt =====
-- `_sync_inference_controls` of runtime.py against the inference manager.
use ai_intelligence_theft_de.Base.{
  subst, String, Bool, true, false, not, List, [], ◌∷◌, ◌&&◌, Option, none, some, str_dec, same,
  is_some, if◌then◌else◌, ite, ◌≡◌, refl, sym, ap, ◌∙◌, arith, Bool-cases, inl, inr, if_elim,
  map_some,
}
use ai_intelligence_theft_de.Base.Dict.{
  lookup, insert, remove, Distinct, lookup-insert, lookup-remove,
}
use ai_intelligence_theft_de.Inference.Manager.{stop_camera, configure_stream}
use ai_intelligence_theft_de.Pipeline.Runtime.{Settings, Runtime}
use ai_intelligence_theft_de.Pipeline.Runtime.Controls.{
  CameraRecord, resolve_camera_inference_enabled, resolve_camera_inference_strategy, records_by_id,
  disable_all, drop_unrecorded, enable_camera, disable_camera, apply_record, apply_records,
  sync_controls,
}
use ai_intelligence_theft_de.Pipeline.Runtime.Strategies.{
  running_strategy, running-switch, running-configure, running-stop, resolved, last_record,
  lookup-records_by_id, records_by_id-Distinct, asked_of, asked_of-resolve,
}

controlled-insert :
    (c s q : String) (m : List (String × (Bool × String)))
    → map_some (λ v. v.1) (lookup str_dec q (insert str_dec c (true, s) m))
      ≡ ite (str_dec q c) (some s) (map_some (λ v. v.1) (lookup str_dec q m))
controlled-insert c s q m = ground (arith, lookup-insert str_dec c q (true, s) m)

controlled-remove :
    (c q : String) (m : List (String × (Bool × String)))
    → map_some (λ v. v.1) (lookup str_dec q (remove str_dec c m))
      ≡ ite (str_dec q c) none (map_some (λ v. v.1) (lookup str_dec q m))
controlled-remove c q m = ground (arith, lookup-remove str_dec c q m)

module _ {Source : Type 0} where
  -- What the records that are left to apply ask of a camera, or what it runs.
  abbrev asked_in : Settings → Option (CameraRecord Source) → Option String → Option String
  asked_in K none before = before
  asked_in K (some c) before = asked_of K c

module _ {Source Frame Coord Crop Score Float : Type 0} where
  -- The strategy that the controls keep for a camera.
  abbrev pub controlled : String → Runtime Source Frame Coord Crop Score Float → Option String
  controlled q r = map_some (λ v. v.1) (lookup str_dec q r.controls)

  -- The manager runs what the controls say of a camera.
  abbrev pub Agrees : String → Runtime Source Frame Coord Crop Score Float → Type 0
  Agrees q r = running_strategy q r.manager ≡ controlled q r

  -- After a step at one camera it runs as `wanted`, every other one as before.
  abbrev Sets :
      String
      → Option String
      → Runtime Source Frame Coord Crop Score Float
      → Runtime Source Frame Coord Crop Score Float
      → Type 0
  Sets c wanted r r' =
      ((q : String)
        → running_strategy q r'.manager ≡ ite (str_dec q c) wanted (running_strategy q r.manager))
      × ((q : String) → controlled q r' ≡ ite (str_dec q c) wanted (controlled q r))

  enable_camera-Sets :
      (c s : String) (o : Option (Bool × String)) (r : Runtime Source Frame Coord Crop Score Float)
      → lookup str_dec c r.controls ≡ o
      → same s "" ≡ false
      → Agrees c r
      → Sets c (some s) r (enable_camera c s o r)
  unfolding enable_camera configure_stream
  enable_camera-Sets c s none r e h a =
      (λ q. running-configure r.manager c s q h, λ q. controlled-insert c s q r.controls)
  enable_camera-Sets c s (some current) r e h a =
      if_elim (Sets c (some s) r) (same current.1 s) r _
        (λ t. (λ q. ground (arith, e, t, a), λ q. ground (arith, e, t)))
        (λ _. (
          λ q. running-switch r.manager c s q (ground (arith, a, e)),
          λ q. controlled-insert c s q r.controls,
        ))

  disable_camera-Sets :
      (c : String) (o : Option (Bool × String)) (r : Runtime Source Frame Coord Crop Score Float)
      → lookup str_dec c r.controls ≡ o
      → Agrees c r
      → Sets c none r (disable_camera c o r)
  unfolding disable_camera
  disable_camera-Sets c none r e a = (λ q. ground (arith, e, a), λ q. ground (arith, e))
  disable_camera-Sets c (some current) r e a =
      (λ q. running-stop r.manager c q, λ q. controlled-remove c q r.controls)

  apply_record-Sets :
      (K : Settings) (e : String × CameraRecord Source)
      (r : Runtime Source Frame Coord Crop Score Float)
      → same K.inference_strategy "" ≡ false
      → Agrees e.0 r
      → Sets e.0 (asked_of K e.1) r (apply_record K e r)
  unfolding apply_record
  apply_record-Sets K (c, rec) r h a =
      let s = resolve_camera_inference_strategy K rec.strategy in
      let o = lookup str_dec c r.controls in
      let step : Sets c (if resolve_camera_inference_enabled rec.enabled then some s else none) r
          (apply_record K (c, rec) r) =
        elim (Bool-cases (resolve_camera_inference_enabled rec.enabled)) [
          | inl t ↦ rw t (enable_camera-Sets c s o r refl (resolved K rec.strategy h) a)
          | inr f ↦ rw f (disable_camera-Sets c o r refl a)
        ] in
      subst (λ w. Sets c w r (apply_record K (c, rec) r)) (sym (asked_of-resolve K rec)) step

  -- The cameras of some records agree.
  abbrev AllAgree :
      List (String × CameraRecord Source) → Runtime Source Frame Coord Crop Score Float → Type 0
  AllAgree es r = (q : String) → is_some (lookup str_dec q es) ≡ true → Agrees q r

  apply_records-agree :
      (K : Settings) (es : List (String × CameraRecord Source))
      (r : Runtime Source Frame Coord Crop Score Float)
      → same K.inference_strategy "" ≡ false
      → Distinct str_dec es
      → AllAgree es r
      → (q : String)
      → (running_strategy q (apply_records K es r).manager
          ≡ asked_in K (lookup str_dec q es) (running_strategy q r.manager))
        × (controlled q (apply_records K es r) ≡ asked_in K (lookup str_dec q es) (controlled q r))
  unfolding apply_records lookup
  apply_records-agree K [] r h d a q = (refl, refl)
  apply_records-agree K (e ∷ es) r h d a q =
      let first = apply_record-Sets K e r h (a e.0 (ground arith)) in
      let rest =
        apply_records-agree K es (apply_record K e r) h d.1
          (λ p i. ground (arith, first.0 p, first.1 p, a p, i, d.0)) q in
      (ground (arith, d.0, rest.0, first.0 q), ground (arith, d.0, rest.1, first.1 q))

  disable_all-stops :
      (es : List (String × (Bool × String))) (r : Runtime Source Frame Coord Crop Score Float)
      (q : String)
      → (running_strategy q (disable_all es r).manager
          ≡ (if is_some (lookup str_dec q es) then none else running_strategy q r.manager))
        × (controlled q (disable_all es r)
            ≡ (if is_some (lookup str_dec q es) then none else controlled q r))
  unfolding disable_all lookup
  disable_all-stops [] r q = (refl, refl)
  disable_all-stops (e ∷ es) r q =
      let fewer = record r {
        manager = stop_camera r.manager e.0;
        controls = remove str_dec e.0 r.controls;
      } in
      let rest = disable_all-stops es fewer q in
      (
        ground (arith, rest.0, running-stop r.manager e.0 q),
        ground (arith, rest.1, controlled-remove e.0 q r.controls),
      )

  -- The controls that are listed go, unless their camera has a record, and no other ones.
  drop_unrecorded-drops :
      (es : List (String × (Bool × String))) (records : List (String × CameraRecord Source))
      (r : Runtime Source Frame Coord Crop Score Float) (q : String)
      → ((drop_unrecorded es records r).manager ≡ r.manager)
        × (lookup str_dec q (drop_unrecorded es records r).controls ≡ (
            if is_some (lookup str_dec q es) && not (is_some (lookup str_dec q records))
            then none
            else lookup str_dec q r.controls))
  unfolding drop_unrecorded lookup
  drop_unrecorded-drops [] records r q = (refl, refl)
  drop_unrecorded-drops (e ∷ es) records r q =
      let fewer = record r { controls = remove str_dec e.0 r.controls } in
      elim (Bool-cases (is_some (lookup str_dec e.0 records))) [
        | inl t ↦
            let rest = drop_unrecorded-drops es records r q in
            (ground (arith, t, rest.0), ground (arith, t, rest.1))
        | inr f ↦
            let rest = drop_unrecorded-drops es records fewer q in
            (
              ground (arith, f, rest.0),
              ground (arith, f, rest.1, lookup-remove str_dec e.0 q r.controls),
            )
      ]

  -- The last record of a camera that is active.
  abbrev pub recorded :
      List (CameraRecord Source)
      → Runtime Source Frame Coord Crop Score Float
      → String
      → Option (CameraRecord Source)
  recorded cs r q = if is_some (lookup str_dec q r.active) then last_record q cs else none

  -- The controls that a camera is to have: what its record asks for, if inference is on.
  abbrev pub wanted :
      Settings
      → List (CameraRecord Source)
      → Runtime Source Frame Coord Crop Score Float
      → String
      → Option String
  wanted K cs r q = if K.enable_behavior_inference then asked_in K (recorded cs r q) none else none

  -- What then runs: the same for a camera with a record; one without it runs on as before. With
  -- inference off, a camera that has controls is stopped, and no other one.
  abbrev pub runs_after :
      Settings
      → List (CameraRecord Source)
      → Runtime Source Frame Coord Crop Score Float
      → String
      → Option String
  runs_after K cs r q =
      let before = running_strategy q r.manager in
      if K.enable_behavior_inference
      then asked_in K (recorded cs r q) before
      else if is_some (lookup str_dec q r.controls)
      then none
      else before

  -- A reconciliation gives every camera the controls that its record asks for, and none to a camera
  -- that is not active or has no record, or to any if inference is off. The manager runs the same for
  -- each active camera with a record. One without a record, whose controls are dropped, it runs on as
  -- before; with inference off it stops exactly the cameras that have controls. The controls of
  -- active cameras with records were what the manager ran before, and the strategy of the settings is
  -- not empty.
  pub sync_controls-agree :
      (K : Settings) (cs : List (CameraRecord Source))
      (r : Runtime Source Frame Coord Crop Score Float)
      → same K.inference_strategy "" ≡ false
      → ((q : String) → is_some (recorded cs r q) ≡ true → Agrees q r)
      → (q : String)
      → (controlled q (sync_controls K cs r) ≡ wanted K cs r q)
        × (running_strategy q (sync_controls K cs r).manager ≡ runs_after K cs r q)
  unfolding sync_controls lookup
  sync_controls-agree K cs r h a q =
      if_elim
        (λ x.
          (controlled q x ≡ wanted K cs r q) × (running_strategy q x.manager ≡ runs_after K cs r q))
        K.enable_behavior_inference (apply_records K records dropped) (disable_all r.controls r)
        (λ t.
          let after =
            apply_records-agree K records dropped h (records_by_id-Distinct r.active cs [] tt) kept
              q in
          (
            after.1 ∙ ground (arith, t, found q, (drops q).1),
            after.0 ∙ ground (arith, t, found q, (drops q).0),
          ))
        (λ f.
          let after = disable_all-stops r.controls r q in
          (after.1 ∙ ground (arith, f), after.0 ∙ ground (arith, f)))
    where
      records : List (String × CameraRecord Source)
      records = records_by_id r.active cs []

      dropped : Runtime Source Frame Coord Crop Score Float
      dropped = drop_unrecorded r.controls records r

      drops :
          (p : String)
          → (dropped.manager ≡ r.manager)
            × (lookup str_dec p dropped.controls ≡ (
                if is_some (lookup str_dec p r.controls) && not (is_some (lookup str_dec p records))
                then none
                else lookup str_dec p r.controls))
      drops p = drop_unrecorded-drops r.controls records r p

      found : (p : String) → lookup str_dec p records ≡ recorded cs r p
      found p = lookup-records_by_id p r.active cs [] ∙ ground arith

      kept : AllAgree records dropped
      kept p i =
          ap (running_strategy p) (drops p).0
          ∙ a p (ap is_some (sym (found p)) ∙ i)
          ∙ sym (ap (map_some (λ v. v.1)) ((drops p).1 ∙ ground (arith, i)))
