-- ===== src/Inference/Manager/Cameras.antt =====
-- The cameras of manager.py: which ones run, after any calls.
use ai_intelligence_theft_de.Base.{
  if_elim, Bool-cases, Option-cases, inl, inr, ℕ, String, Bool, true, false, List, [], ◌∷◌, Option,
  none, some, str_dec, is_some, if◌then◌else◌, ite, ◌≡◌, refl, sym, ap, ◌∙◌, arith, same,
}
use ai_intelligence_theft_de.Base.Dict.{lookup, insert, remove, lookup-insert, lookup-remove}
use ai_intelligence_theft_de.Inference.Contracts.{Sample}
use ai_intelligence_theft_de.Inference.Scheduler.{ingest}
use ai_intelligence_theft_de.Inference.Orchestrator.{Orchestrator, configure}
use ai_intelligence_theft_de.Inference.Manager.{
  Manager, start_camera, stop_camera, switch_strategy, configure_stream, ingest_sample,
  is_camera_enabled, stop_each, close, or_default,
}

pub data Call (Crop : Type 0) : Type 0 where
  configures : String → Option Bool → Option String → Call Crop
  ingests : Sample Crop → ℕ → ℕ → Call Crop
  closes : Call Crop

-- Whether the calls ask that a camera runs: the last call that enables, disables or closes says.
abbrev pub asked : {Crop : Type 0} → String → Bool → List (Call Crop) → Bool
asked q b [] = b
asked q b (configures camera_id none strategy ∷ cs) = asked q b cs
asked q b (configures camera_id (some enabled) strategy ∷ cs) =
    asked q (if same q camera_id then enabled else b) cs
asked q b (ingests s now later ∷ cs) = asked q b cs
asked q b (closes ∷ cs) = asked q false cs

module _ {V : Type 0} where
  is_some-insert :
      (k q : String) (v : V) (m : List (String × V))
      → is_some (lookup str_dec q (insert str_dec k v m))
        ≡ ite (str_dec q k) true (is_some (lookup str_dec q m))
  is_some-insert k q v m = ground (arith, lookup-insert str_dec k q v m)

  is_some-remove :
      (k q : String) (m : List (String × V))
      → is_some (lookup str_dec q (remove str_dec k m))
        ≡ ite (str_dec q k) false (is_some (lookup str_dec q m))
  is_some-remove k q m = ground (arith, lookup-remove str_dec k q m)

module _ {Crop Score : Type 0} where
  unfoldable pub step : Manager Crop Score → Call Crop → Manager Crop Score
  step m (configures camera_id enabled strategy) = configure_stream m camera_id enabled strategy
  step m (ingests s now later) = ingest_sample m s now later
  step m closes = close m

  unfoldable pub run : Manager Crop Score → List (Call Crop) → Manager Crop Score
  run m [] = m
  run m (c ∷ cs) = run (step m c) cs

  -- A camera runs: it has an orchestrator.
  abbrev pub runs : Manager Crop Score → String → Bool
  runs m camera_id = is_some (lookup str_dec camera_id m.orchestrators)

  -- Both tables have the same cameras.
  abbrev pub IsPaired : Manager Crop Score → Type 0
  IsPaired m = (q : String) → is_camera_enabled m q ≡ runs m q

  runs-start :
      (m : Manager Crop Score) (c s q : String)
      → runs (start_camera m c s) q ≡ ite (str_dec q c) true (runs m q)
  unfolding start_camera
  runs-start m c s q = is_some-insert c q _ m.orchestrators

  runs-stop :
      (m : Manager Crop Score) (c q : String)
      → runs (stop_camera m c) q ≡ ite (str_dec q c) false (runs m q)
  unfolding stop_camera
  runs-stop m c q = is_some-remove c q m.orchestrators

  runs-switch :
      (m : Manager Crop Score) (c : String) (s : Option String) (q : String)
      → runs (switch_strategy m c s) q ≡ runs m q
  unfolding switch_strategy
  runs-switch m c none q = refl
  runs-switch m c (some s) q = elim (Option-cases (lookup str_dec c m.orchestrators)) [
    | inl n ↦ ground arith
    | inr found ↦ ground (arith, is_some-insert c q (configure found.0 (some s)) m.orchestrators)
  ]

  schedulers-switch :
      (m : Manager Crop Score) (c : String) (s : Option String)
      → (switch_strategy m c s).schedulers ≡ m.schedulers
  unfolding switch_strategy
  schedulers-switch m c none = refl
  schedulers-switch m c (some s) = ground arith

  start-IsPaired :
      (m : Manager Crop Score) (c s : String) → IsPaired m → IsPaired (start_camera m c s)
  unfolding start_camera is_camera_enabled
  start-IsPaired m c s h q =
      is_some-insert c q _ m.schedulers
      ∙ ap (ite (str_dec q c) true) (h q)
      ∙ sym (runs-start m c s q)

  stop-IsPaired : (m : Manager Crop Score) (c : String) → IsPaired m → IsPaired (stop_camera m c)
  unfolding stop_camera is_camera_enabled
  stop-IsPaired m c h q =
      is_some-remove c q m.schedulers ∙ ap (ite (str_dec q c) false) (h q) ∙ sym (runs-stop m c q)

  switch-IsPaired :
      (m : Manager Crop Score) (c : String) (s : Option String)
      → IsPaired m
      → IsPaired (switch_strategy m c s)
  unfolding is_camera_enabled
  switch-IsPaired m c s h q =
      ap (λ t. is_some (lookup str_dec q t)) (schedulers-switch m c s)
      ∙ h q
      ∙ sym (runs-switch m c s q)

  stop_each-stopped :
      (es : List (String × Orchestrator Score)) (m : Manager Crop Score) (q : String)
      → runs m q ≡ false
      → runs (stop_each es m) q ≡ false
  stop_each-stopped [] m q h = h
  stop_each-stopped (e ∷ es) m q h =
      stop_each-stopped es (stop_camera m e.0) q (ground (arith, runs-stop m e.0 q))

  stop_each-listed :
      (es : List (String × Orchestrator Score)) (m : Manager Crop Score) (q : String)
      → is_some (lookup str_dec q es) ≡ true
      → runs (stop_each es m) q ≡ false
  unfolding lookup
  stop_each-listed [] m q h = absurd (ground arith)
  stop_each-listed (e ∷ es) m q h = elim (str_dec q e.0) [
    | yes p ↦ stop_each-stopped es (stop_camera m e.0) q (ground (arith, runs-stop m e.0 q))
    | no n ↦ stop_each-listed es (stop_camera m e.0) q (ground arith)
  ]

  stop_each-IsPaired :
      (es : List (String × Orchestrator Score)) (m : Manager Crop Score)
      → IsPaired m
      → IsPaired (stop_each es m)
  stop_each-IsPaired [] m h = h
  stop_each-IsPaired (e ∷ es) m h =
      stop_each-IsPaired es (stop_camera m e.0) (stop-IsPaired m e.0 h)

  runs-close : (m : Manager Crop Score) (q : String) → runs (close m) q ≡ false
  unfolding close
  runs-close m q = elim (Bool-cases (runs m q)) [
    | inl t ↦ stop_each-listed m.orchestrators m q t
    | inr f ↦ stop_each-stopped m.orchestrators m q f
  ]

  ingest-IsPaired :
      (m : Manager Crop Score) (s : Sample Crop) (now later : ℕ)
      → IsPaired m
      → IsPaired (ingest_sample m s now later)
  unfolding ingest_sample is_camera_enabled
  ingest-IsPaired m s now later h q =
      elim (Option-cases (lookup str_dec s.camera_id m.schedulers)) [
        | inl n ↦ ground (arith, h q)
        | inr found ↦
            ground
              (arith, h q, is_some-insert s.camera_id q (ingest found.0 s now later).0 m.schedulers)
      ]

  runs-ingest :
      (m : Manager Crop Score) (s : Sample Crop) (now later : ℕ) (q : String)
      → runs (ingest_sample m s now later) q ≡ runs m q
  unfolding ingest_sample
  runs-ingest m s now later q = ground arith

  configure-IsPaired :
      (m : Manager Crop Score) (c : String) (e : Option Bool) (s : Option String)
      → IsPaired m
      → IsPaired (configure_stream m c e s)
  unfolding configure_stream
  configure-IsPaired m c none s h = switch-IsPaired m c s h
  configure-IsPaired m c (some false) s h = stop-IsPaired m c h
  configure-IsPaired m c (some true) s h =
      if_elim IsPaired (runs m c) (switch_strategy m c s) (start_camera m c (or_default s))
        (λ t. switch-IsPaired m c s h) (λ f. start-IsPaired m c (or_default s) h)

  runs-configure :
      (m : Manager Crop Score) (c : String) (e : Bool) (s : Option String) (q : String)
      → runs (configure_stream m c (some e) s) q ≡ (if same q c then e else runs m q)
  unfolding configure_stream
  runs-configure m c false s q = ground (arith, runs-stop m c q)
  runs-configure m c true s q = ground (arith, runs-switch m c s q, runs-start m c (or_default s) q)

  -- From a manager whose two tables have the same cameras, after any calls: a camera has an
  -- orchestrator, and a scheduler, exactly if the last call that enabled it, disabled it or closed the
  -- manager was one that enabled it, or it ran before and there was no such call. Strategy switches and
  -- samples neither start nor stop a camera.
  pub run-follows :
      (m : Manager Crop Score) (cs : List (Call Crop)) (q : String)
      → IsPaired m
      → (runs (run m cs) q ≡ asked q (runs m q) cs)
        × (is_camera_enabled (run m cs) q ≡ asked q (runs m q) cs)
  unfolding run step configure_stream close
  run-follows m [] q h = (refl, h q)
  run-follows m (configures c none s ∷ cs) q h =
      rw (← runs-switch m c s q)
        (run-follows (switch_strategy m c s) cs q (switch-IsPaired m c s h))
  run-follows m (configures c (some e) s ∷ cs) q h =
      rw (← runs-configure m c e s q)
        (run-follows (configure_stream m c (some e) s) cs q (configure-IsPaired m c (some e) s h))
  run-follows m (ingests s now later ∷ cs) q h =
      rw (← runs-ingest m s now later q)
        (run-follows (ingest_sample m s now later) cs q (ingest-IsPaired m s now later h))
  run-follows m (closes ∷ cs) q h =
      rw (← runs-close m q) (run-follows (close m) cs q (stop_each-IsPaired m.orchestrators m h))
