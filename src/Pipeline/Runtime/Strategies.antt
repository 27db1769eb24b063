-- ===== src/Pipeline/Runtime/Strategies.antt =====
-- The strategies that runtime.py resolves, and those that the inference manager runs.
use ai_intelligence_theft_de.Base.{
  String, true, false, List, [], ◌∷◌, ◌||◌, Option, none, some, str_dec, same, is_some,
  if◌then◌else◌, ite, ◌≡◌, refl, ap, sym, subst, arith, Option-cases, inl, inr, if_elim, first_some,
  map_some,
}
use ai_intelligence_theft_de.Base.Dict.{
  lookup, insert, Distinct, lookup-insert, lookup-remove, insert-Distinct,
}
use ai_intelligence_theft_de.Inference.Orchestrator.{Orchestrator, configure}
use ai_intelligence_theft_de.Inference.Orchestrator
use ai_intelligence_theft_de.Inference.Manager.{
  Manager, start_camera, stop_camera, switch_strategy, configure_stream,
}
use ai_intelligence_theft_de.Pipeline.Runtime.{Settings}
use ai_intelligence_theft_de.Pipeline.Runtime.Controls.{
  CameraRecord, flag, text, absent, other, Raw, resolve_camera_inference_enabled,
  resolve_camera_inference_strategy, records_by_id,
}

module _ {Crop Score : Type 0} where
  -- The strategy that the manager runs for a camera.
  abbrev pub running_strategy : String → Manager Crop Score → Option String
  running_strategy q m = map_some (λ o. o.strategy) (lookup str_dec q m.orchestrators)

  pub running-switch :
      (m : Manager Crop Score) (c s q : String)
      → is_some (running_strategy c m) ≡ true
      → running_strategy q (switch_strategy m c (some s))
        ≡ ite (str_dec q c) (some s) (running_strategy q m)
  unfolding switch_strategy configure
  running-switch m c s q h = elim (Option-cases (lookup str_dec c m.orchestrators)) [
    | inl n ↦ absurd (ground arith)
    | inr found ↦
        ground
          (arith, found.1, lookup-insert str_dec c q (configure found.0 (some s)) m.orchestrators)
  ]

  running-start :
      (m : Manager Crop Score) (c s q : String)
      → running_strategy q (start_camera m c s) ≡ ite (str_dec q c) (some s) (running_strategy q m)
  unfolding start_camera ai_intelligence_theft_de.Inference.Orchestrator.init
  running-start m c s q =
      ground (arith, lookup-insert str_dec c q (Orchestrator.init s) m.orchestrators)

  pub running-configure :
      (m : Manager Crop Score) (c s q : String)
      → same s "" ≡ false
      → running_strategy q (configure_stream m c (some true) (some s))
        ≡ ite (str_dec q c) (some s) (running_strategy q m)
  unfolding configure_stream
  running-configure m c s q h = ground (arith, running-start m c s q, running-switch m c s q)

  pub running-stop :
      (m : Manager Crop Score) (c q : String)
      → running_strategy q (stop_camera m c) ≡ ite (str_dec q c) none (running_strategy q m)
  unfolding stop_camera
  running-stop m c q = ground (arith, lookup-remove str_dec c q m.orchestrators)

named : (t : String) → (same t "vjepa_probe" || same t "cnn_transformer") ≡ true → same t "" ≡ false
unfolding str_dec
named t h = elim (str_dec t "vjepa_probe") [
  | yes p ↦ subst (λ x. same x "" ≡ false) (sym p) vjepa_probe_named
  | no n ↦ elim (str_dec t "cnn_transformer") [
    | yes p ↦ subst (λ x. same x "" ≡ false) (sym p) cnn_transformer_named
    | no m ↦ absurd (ground arith)
  ]
]
  where
    vjepa_probe_named : same "vjepa_probe" "" ≡ false
    vjepa_probe_named = refl

    cnn_transformer_named : same "cnn_transformer" "" ≡ false
    cnn_transformer_named = refl

pub resolved :
    (K : Settings) (raw : Raw)
    → same K.inference_strategy "" ≡ false
    → same (resolve_camera_inference_strategy K raw) "" ≡ false
unfolding resolve_camera_inference_strategy
resolved K (text t) h =
    if_elim (λ x. same x "" ≡ false) (same t "vjepa_probe" || same t "cnn_transformer") t
      K.inference_strategy (named t) (λ _. h)
resolved K absent h = h
resolved K other h = h
resolved K (flag b) h = h

-- The strategy for a value of the metadata.
abbrev chosen : Settings → Raw → String
chosen K (text t) =
    ite (str_dec t "vjepa_probe") t (ite (str_dec t "cnn_transformer") t K.inference_strategy)
chosen K raw = K.inference_strategy

chosen-resolve : (K : Settings) (raw : Raw) → resolve_camera_inference_strategy K raw ≡ chosen K raw
unfolding resolve_camera_inference_strategy
chosen-resolve K absent = refl
chosen-resolve K other = refl
chosen-resolve K (flag b) = refl
chosen-resolve K (text t) = ground arith

module _ {Source : Type 0} where
  -- The last record of a camera.
  unfoldable pub last_record : String → List (CameraRecord Source) → Option (CameraRecord Source)
  last_record q [] = none
  last_record q (c ∷ cs) = first_some (last_record q cs) (ite (str_dec q c.id) (some c) none)

  pub lookup-records_by_id :
      (q : String) (active : List (String × Source)) (cs : List (CameraRecord Source))
      (m : List (String × CameraRecord Source))
      → lookup str_dec q (records_by_id active cs m) ≡ (
          if is_some (lookup str_dec q active)
          then first_some (last_record q cs) (lookup str_dec q m)
          else lookup str_dec q m)
  unfolding records_by_id last_record
  lookup-records_by_id q active [] m = ground arith
  lookup-records_by_id q active (c ∷ cs) m = ground (
    arith,
    lookup-records_by_id q active cs m,
    lookup-records_by_id q active cs (insert str_dec c.id c m),
    lookup-insert str_dec c.id q c m,
  )

  pub records_by_id-Distinct :
      (active : List (String × Source)) (cs : List (CameraRecord Source))
      (m : List (String × CameraRecord Source))
      → Distinct str_dec m
      → Distinct str_dec (records_by_id active cs m)
  unfolding records_by_id
  records_by_id-Distinct active [] m d = d
  records_by_id-Distinct active (c ∷ cs) m d = records_by_id-Distinct active cs _ (
      if_elim (Distinct str_dec) (is_some (lookup str_dec c.id active)) (insert str_dec c.id c m) m
        (λ _. insert-Distinct str_dec c.id c m d) (λ _. d))

  -- The strategy that a record asks for: none if inference is switched off for the camera, one of the
  -- two that are known if it names it, and else that of the settings.
  unfoldable pub asked_of : Settings → CameraRecord Source → Option String
  asked_of K c = elim c.enabled [
    | flag b ↦ if b then some (chosen K c.strategy) else none
    | absent ↦ some (chosen K c.strategy)
    | other ↦ some (chosen K c.strategy)
    | text t ↦ some (chosen K c.strategy)
  ]

  pub asked_of-resolve :
      (K : Settings) (c : CameraRecord Source)
      → asked_of K c ≡ (
          if resolve_camera_inference_enabled c.enabled
          then some (resolve_camera_inference_strategy K c.strategy)
          else none)
  unfolding asked_of resolve_camera_inference_enabled
  asked_of-resolve K c = go c.enabled
    where
      known : some (chosen K c.strategy) ≡ some (resolve_camera_inference_strategy K c.strategy)
      known = ap some (sym (chosen-resolve K c.strategy))

      go :
          (e : Raw)
          → elim e as (λ x. Option String) [
            | flag b ↦ if b then some (chosen K c.strategy) else none
            | absent ↦ some (chosen K c.strategy)
            | other ↦ some (chosen K c.strategy)
            | text t ↦ some (chosen K c.strategy)
          ]
            ≡ (if resolve_camera_inference_enabled e
                then some (resolve_camera_inference_strategy K c.strategy)
                else none)
      go absent = known
      go other = known
      go (flag true) = known
      go (flag false) = refl
      go (text t) = known
