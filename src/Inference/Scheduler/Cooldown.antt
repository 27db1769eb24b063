-- ===== src/Inference/Scheduler/Cooldown.antt =====
-- The cooldown of one person, over any history of calls.
use ai_intelligence_theft_de.Base.{
  ℕ, ◌+◌, ◌≤◌, ◌<◌, ◌≡◌, refl, subst, ◌≢◌, ◌∙◌, ◌⊎◌, inl, inr, false, String, List, [], ◌∷◌, some,
  arith, str_dec,
}
use ai_intelligence_theft_de.Base.Dict.{lookup, insert, lookup-insert}
use ai_intelligence_theft_de.Inference.Contracts.{Sample, WorkerConfig}
use ai_intelligence_theft_de.Inference.TemporalBuffer.{push}
use ai_intelligence_theft_de.Inference.Scheduler.{
  Scheduler, dispatched, dropped, log_visible_state, reject, enqueue, pass_gate, ingest, is_cooling,
}

module _ {Crop : Type 0} where
  unfoldable pub ingest_all : Scheduler Crop → List (Sample Crop × ℕ × ℕ) → Scheduler Crop
  ingest_all sch [] = sch
  ingest_all sch ((s, now, later) ∷ rest) = ingest_all (ingest sch s now later).0 rest

  -- The person was last passed on at `t` or later.
  abbrev PassedBy : Scheduler Crop → String → ℕ → Type 0
  PassedBy sch pid t = (u : ℕ) × (lookup str_dec pid sch.last_enqueued_at ≡ some u) × (t ≤ u)

  enqueue-frame :
      (sch : Scheduler Crop) (s : Sample Crop) (now : ℕ)
      → ((enqueue sch s now).0.last_enqueued_at ≡ sch.last_enqueued_at)
        × ((enqueue sch s now).0.config ≡ sch.config)
  unfolding enqueue log_visible_state
  enqueue-frame sch s now = ground arith

  abbrev marked : Scheduler Crop → String → ℕ → Scheduler Crop
  marked sch pid now = record sch { last_enqueued_at = insert str_dec pid now sch.last_enqueued_at }

  abbrev fed : Scheduler Crop → Sample Crop → Scheduler Crop
  fed sch s = record sch { buffer = push sch.buffer s }

  ingest-config :
      (sch : Scheduler Crop) (s : Sample Crop) (now later : ℕ)
      → (ingest sch s now later).0.config ≡ sch.config
  unfolding ingest reject pass_gate log_visible_state
  ingest-config sch s now later = ground (
    arith,
    enqueue-frame (fed sch s) s later,
    enqueue-frame (marked (fed sch s) s.persistent_id now) s later,
  )

  ingest_last :
      (sch : Scheduler Crop) (s : Sample Crop) (now later : ℕ) (pid : String)
      → 0 < sch.config.dispatch_cooldown
      → (lookup str_dec pid (ingest sch s now later).0.last_enqueued_at
          ≡ lookup str_dec pid sch.last_enqueued_at)
        ⊎ ((lookup str_dec pid (ingest sch s now later).0.last_enqueued_at ≡ some now)
            × (is_cooling sch pid now ≡ false))
  unfolding ingest reject pass_gate log_visible_state
  ingest_last sch s now later pid c = ground (
    arith,
    enqueue-frame (marked (fed sch s) s.persistent_id now) s later,
    lookup-insert str_dec s.persistent_id pid now sch.last_enqueued_at,
  )

  ingest-PassedBy :
      (sch : Scheduler Crop) (s : Sample Crop) (now later t : ℕ) (pid : String)
      → 0 < sch.config.dispatch_cooldown
      → PassedBy sch pid t
      → PassedBy (ingest sch s now later).0 pid t
  ingest-PassedBy sch s now later t pid c h = elim (ingest_last sch s now later pid c) [
    | inl same ↦ (h.0, same ∙ h.1, h.2)
    | inr (passed, cold) ↦ (now, passed, ground arith)
  ]

  ingest-passes :
      (sch : Scheduler Crop) (s : Sample Crop) (now later : ℕ)
      → 0 < sch.config.dispatch_cooldown
      → (ingest sch s now later).1 ≡ dispatched
      → (lookup str_dec s.persistent_id (ingest sch s now later).0.last_enqueued_at ≡ some now)
        × (is_cooling sch s.persistent_id now ≡ false)
  unfolding ingest reject pass_gate
  ingest-passes sch s now later c h = ground (
    arith,
    enqueue-frame (marked (fed sch s) s.persistent_id now) s later,
    lookup-insert str_dec s.persistent_id s.persistent_id now sch.last_enqueued_at,
  )

  ingest_all-PassedBy :
      (sch : Scheduler Crop) (calls : List (Sample Crop × ℕ × ℕ)) (t : ℕ) (pid : String)
      → 0 < sch.config.dispatch_cooldown
      → PassedBy sch pid t
      → PassedBy (ingest_all sch calls) pid t × ((ingest_all sch calls).config ≡ sch.config)
  unfolding ingest_all
  ingest_all-PassedBy sch [] t pid c h = (h, refl)
  ingest_all-PassedBy sch ((s, now, later) ∷ calls) t pid c h =
      let e : (ingest sch s now later).0.config ≡ sch.config = ingest-config sch s now later in
      let (p, q) =
        ingest_all-PassedBy (ingest sch s now later).0 calls t pid (rw e c)
          (ingest-PassedBy sch s now later t pid c h) in
      (p, q ∙ e)

  cold-le :
      (sch : Scheduler Crop) (pid : String) (now t : ℕ)
      → is_cooling sch pid now ≡ false
      → PassedBy sch pid t
      → t + sch.config.dispatch_cooldown ≤ now
  cold-le sch pid now t cold (u, e, le) = ground arith

  -- Two samples of one person are never dispatched less than the cooldown apart, whatever arrives
  -- in between and whatever the clock reads.
  pub dispatch_spacing :
      (sch : Scheduler Crop) (s s' : Sample Crop) (now later now' later' : ℕ)
      (between : List (Sample Crop × ℕ × ℕ))
      → 0 < sch.config.dispatch_cooldown
      → s.persistent_id ≡ s'.persistent_id
      → (ingest sch s now later).1 ≡ dispatched
      → (ingest (ingest_all (ingest sch s now later).0 between) s' now' later').1 ≡ dispatched
      → now + sch.config.dispatch_cooldown ≤ now'
  dispatch_spacing sch s s' now later now' later' between c same h h' =
      let sch1 = (ingest sch s now later).0 in
      let sch2 = ingest_all sch1 between in
      let e : sch1.config ≡ sch.config = ingest-config sch s now later in
      let first = ingest-passes sch s now later c h in
      let (kept, e2) =
        ingest_all-PassedBy sch1 between now s.persistent_id (rw e c) (now, first.0, omega arith) in
      let second = ingest-passes sch2 s' now' later' (rw (e2, e) c) h' in
      let past : now + sch2.config.dispatch_cooldown ≤ now' =
        cold-le sch2 s'.persistent_id now' now second.1
          (subst (λ p. PassedBy sch2 p now) same kept) in
      subst (λ (f : WorkerConfig). now + f.dispatch_cooldown ≤ now') (e2 ∙ e) past

  ingest-drops :
      (sch : Scheduler Crop) (s : Sample Crop) (now later : ℕ)
      → 0 < sch.config.dispatch_cooldown
      → (ingest sch s now later).1 ≡ dropped
      → lookup str_dec s.persistent_id (ingest sch s now later).0.last_enqueued_at ≡ some now
  unfolding ingest reject pass_gate
  ingest-drops sch s now later c h = ground (
    arith,
    enqueue-frame (marked (fed sch s) s.persistent_id now) s later,
    lookup-insert str_dec s.persistent_id s.persistent_id now sch.last_enqueued_at,
  )

  -- A sample that is dropped because the queue is full starts the cooldown of its person all the
  -- same: nothing was enqueued, and yet no sample of the person within the cooldown is dispatched,
  -- whatever arrives in between.
  pub dropped_cools :
      (sch : Scheduler Crop) (s s' : Sample Crop) (now later now' later' : ℕ)
      (between : List (Sample Crop × ℕ × ℕ))
      → (ingest sch s now later).1 ≡ dropped
      → s.persistent_id ≡ s'.persistent_id
      → now' < now + sch.config.dispatch_cooldown
      → 0 < sch.config.dispatch_cooldown
      → (ingest (ingest_all (ingest sch s now later).0 between) s' now' later').1 ≢ dispatched
  dropped_cools sch s s' now later now' later' between drop same soon c h' =
      let sch1 = (ingest sch s now later).0 in
      let sch2 = ingest_all sch1 between in
      let e : sch1.config ≡ sch.config = ingest-config sch s now later in
      let (kept, e2) =
        ingest_all-PassedBy sch1 between now s.persistent_id (rw e c)
          (now, ingest-drops sch s now later c drop, omega arith) in
      let second = ingest-passes sch2 s' now' later' (rw (e2, e) c) h' in
      let past : now + sch2.config.dispatch_cooldown ≤ now' =
        cold-le sch2 s'.persistent_id now' now second.1
          (subst (λ p. PassedBy sch2 p now) same kept) in
      let past' : now + sch.config.dispatch_cooldown ≤ now' =
        subst (λ (f : WorkerConfig). now + f.dispatch_cooldown ≤ now') (e2 ∙ e) past in
      absurd (omega arith)
