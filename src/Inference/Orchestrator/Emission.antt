-- ===== src/Inference/Orchestrator/Emission.antt =====
-- The running scores of orchestrator.py and the payloads made of them.
use ai_intelligence_theft_de.Base.{
  Option-cases, inl, inr, ℕ, ◌≡◌, refl, String, List, [], ◌∷◌, Option, none, some, str_dec, ite,
  arith, ap, ◌∙◌, subst, Bool, true, false, if◌then◌else◌, if_elim,
}
use ai_intelligence_theft_de.Base.Dict.{lookup, lookup-insert}
use ai_intelligence_theft_de.Inference.Contracts.{Sample}
use ai_intelligence_theft_de.Inference.Decision.{
  DecisionEngine, Level, normal, warning, alert, classify,
}
use ai_intelligence_theft_de.Inference.Scores.{Floats, smooth_score}
use ai_intelligence_theft_de.Inference.Delivery.{Payload}
use ai_intelligence_theft_de.Inference.Orchestrator.{
  emit, key_of, payload_of, resolve_model_name, add,
}

module _ {Score : Type 0} (floats : Floats Score) where
  -- A new score, mixed into the one before.
  abbrev pub mixed : Option Score → Score → Score
  mixed none raw = raw
  mixed (some previous) raw = floats.mix raw previous

  smooth_score-mixed :
      (ema : List (String × Score)) (key : String) (raw : Score)
      → (smooth_score floats ema key raw).0 ≡ mixed (lookup str_dec key ema) raw
  unfolding smooth_score
  smooth_score-mixed ema key raw = go (lookup str_dec key ema)
    where
      go :
          (o : Option Score)
          → elim o as (λ x. Score) [ none ↦ raw | some prev ↦ floats.mix raw prev ] ≡ mixed o raw
      go none = refl
      go (some prev) = refl

  lookup-smooth_score :
      (ema : List (String × Score)) (key k : String) (raw : Score)
      → lookup str_dec k (smooth_score floats ema key raw).1
        ≡ ite (str_dec k key) (some (mixed (lookup str_dec k ema) raw)) (lookup str_dec k ema)
  unfolding smooth_score
  lookup-smooth_score ema key k raw = elim (Option-cases (lookup str_dec key ema)) [
    | inl n ↦ rw n (ground (arith, lookup-insert str_dec key k raw ema))
    | inr found ↦
        rw found.1 (ground (arith, lookup-insert str_dec key k (floats.mix raw found.0) ema))
  ]

-- The level of a score: an alert from the alert threshold on, whatever the other one is, below it a
-- warning from the warning threshold on, and else normal.
abbrev pub IsLevel :
    {Score : Type 0} → (Score → Score → Bool) → DecisionEngine Score → Score → Level → Type 0
IsLevel ge engine score alert = ge score engine.alert_threshold ≡ true
IsLevel ge engine score warning =
    (ge score engine.alert_threshold ≡ false) × (ge score engine.warning_threshold ≡ true)
IsLevel ge engine score normal =
    (ge score engine.alert_threshold ≡ false) × (ge score engine.warning_threshold ≡ false)

classify-IsLevel :
    {Score : Type 0} (ge : Score → Score → Bool) (engine : DecisionEngine Score) (score : Score)
    → IsLevel ge engine score (classify ge engine score)
unfolding classify
classify-IsLevel ge engine score =
    if_elim (IsLevel ge engine score) (ge score engine.alert_threshold) alert
      (if ge score engine.warning_threshold then warning else normal) (λ a. a)
      (λ a.
        if_elim (IsLevel ge engine score) (ge score engine.warning_threshold) warning normal
          (λ w. (a, w)) (λ w. (a, w)))

-- What a payload says of a sample with this score.
pub record IsPayload {Crop Score : Type 0} (floats : Floats Score) (strategy : String)
    (engine : DecisionEngine Score) (emitted_at : ℕ) (s : Sample Crop) (score : Score)
    (p : Payload Score) : Type 0 where
  pub emitted : p.emitted_at ≡ emitted_at
  pub camera : p.camera_id ≡ s.camera_id
  pub stream : p.stream_name ≡ s.stream_name
  pub person : p.persistent_id ≡ s.persistent_id
  pub track : p.local_track_id ≡ s.local_track_id
  pub sampled : p.sampled_at ≡ s.sampled_at
  pub planned : p.strategy ≡ strategy
  pub model : p.model_name ≡ resolve_model_name strategy
  pub scored : p.score ≡ score
  pub level : IsLevel floats.ge engine score p.alert_level
  pub label : p.label ≡ p.alert_level

payload_of-IsPayload :
    {Crop Score : Type 0} (floats : Floats Score) (strategy : String)
    (engine : DecisionEngine Score) (emitted_at : ℕ) (s : Sample Crop) (score : Score)
    → IsPayload floats strategy engine emitted_at s score
        (payload_of s strategy score (classify floats.ge engine score) emitted_at)
unfolding payload_of
payload_of-IsPayload floats strategy engine emitted_at s score = record {
  emitted = refl;
  camera = refl;
  stream = refl;
  person = refl;
  track = refl;
  sampled = refl;
  planned = refl;
  model = refl;
  scored = refl;
  level = classify-IsLevel floats.ge engine score;
  label = refl;
}

module _ {Crop Score : Type 0} (floats : Floats Score) (strategy : String) where
  -- The running score of one key over the attributions, in order.
  abbrev pub running : String → Option Score → List (Sample Crop × Score) → Option Score
  running k o [] = o
  running k o (a ∷ rest) =
      running k (ite (str_dec k (key_of a.0 strategy)) (some (mixed floats o a.1)) o) rest

  -- The payloads that the attributions call for, each with the score its key then has.
  abbrev pub Describes :
      DecisionEngine Score
      → ℕ
      → (String → Option Score)
      → List (Sample Crop × Score)
      → List (Payload Score)
      → Type 0
  Describes engine emitted_at before [] ps = ps ≡ []
  Describes engine emitted_at before (a ∷ rest) [] = ⊥
  Describes engine emitted_at before (a ∷ rest) (p ∷ ps) =
      let score = mixed floats (before (key_of a.0 strategy)) a.1 in
      IsPayload floats strategy engine emitted_at a.0 score p
      × Describes engine emitted_at
          (λ k. ite (str_dec k (key_of a.0 strategy)) (some score) (before k)) rest ps

  -- After the attributions of a batch, every key holds its running score: the first raw score of a track
  -- unchanged, each later one mixed into the one before, untouched by the scores of other keys.
  pub lookup-emit :
      (engine : DecisionEngine Score) (emitted_at : ℕ) (ema : List (String × Score))
      (active : List String) (attributions : List (Sample Crop × Score)) (k : String)
      → lookup str_dec k (emit floats engine strategy emitted_at ema active attributions).0
        ≡ running k (lookup str_dec k ema) attributions
  unfolding emit
  lookup-emit engine emitted_at ema active [] k = refl
  lookup-emit engine emitted_at ema active ((s, raw) ∷ rest) k =
      lookup-emit engine emitted_at ((smooth_score floats ema (key_of s strategy) raw).1)
        (add s.persistent_id active) rest k
      ∙ ap (λ o. running k o rest) (lookup-smooth_score floats ema (key_of s strategy) k raw)

  smoothed-before :
      (ema : List (String × Score)) (before : String → Option Score) (s : Sample Crop) (raw : Score)
      → ((k : String) → lookup str_dec k ema ≡ before k)
      → (smooth_score floats ema (key_of s strategy) raw).0
        ≡ mixed floats (before (key_of s strategy)) raw
  smoothed-before ema before s raw h =
      smooth_score-mixed floats ema (key_of s strategy) raw
      ∙ ap (λ o. mixed floats o raw) (h (key_of s strategy))

  emit-Describes_from :
      (engine : DecisionEngine Score) (emitted_at : ℕ) (ema : List (String × Score))
      (active : List String) (attributions : List (Sample Crop × Score))
      (before : String → Option Score)
      → ((k : String) → lookup str_dec k ema ≡ before k)
      → Describes engine emitted_at before attributions
          (emit floats engine strategy emitted_at ema active attributions).2
  unfolding emit smooth_score
  emit-Describes_from engine emitted_at ema active [] before h = refl
  emit-Describes_from engine emitted_at ema active ((s, raw) ∷ rest) before h = (
    subst
        (λ sc. IsPayload floats strategy engine emitted_at s sc (
          payload_of s strategy (smooth_score floats ema (key_of s strategy) raw).0
            (classify floats.ge engine (smooth_score floats ema (key_of s strategy) raw).0)
            emitted_at))
        (smoothed-before ema before s raw h)
        (payload_of-IsPayload floats strategy engine emitted_at s
          (smooth_score floats ema (key_of s strategy) raw).0),
    emit-Describes_from engine emitted_at ((smooth_score floats ema (key_of s strategy) raw).1)
        (add s.persistent_id active) rest _
        (λ k.
          lookup-insert str_dec (key_of s strategy) k
            (smooth_score floats ema (key_of s strategy) raw).0 ema
          ∙ ap (λ sc. ite (str_dec k (key_of s strategy)) (some sc) (lookup str_dec k ema))
              (smoothed-before ema before s raw h)
          ∙ ap
              (ite (str_dec k (key_of s strategy))
                (some (mixed floats (before (key_of s strategy)) raw)))
              (h k)),
  )

  -- A batch gives one payload for each attribution, in order. It has the sample's identifiers and time
  -- and the running score of its key at that point; it is an alert if that score reaches the alert
  -- threshold, else a warning if it reaches the warning threshold, and else normal.
  pub emit-Describes :
      (engine : DecisionEngine Score) (emitted_at : ℕ) (ema : List (String × Score))
      (active : List String) (attributions : List (Sample Crop × Score))
      → Describes engine emitted_at
          (λ k. lookup str_dec k ema)
          attributions
          (emit floats engine strategy emitted_at ema active attributions).2
  emit-Describes engine emitted_at ema active attributions =
      emit-Describes_from engine emitted_at ema active attributions _ (λ k. refl)
