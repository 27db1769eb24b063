-- ===== src/Inference/Scheduler.antt =====
-- ingress_scheduler.py: `InferenceIngressScheduler`, the gate before the model. Clock readings are
-- arguments; log lines are not modelled, but for the state that limits the visible ones.
pub mod Gate
pub mod Dispatch
pub mod Cooldown
use ai_intelligence_theft_de.Base.{
  ℕ, ◌+◌, String, Bool, false, not, List, [], ◌∷◌, ◌++◌, map, Option, none, some, str_dec, ltb,
  ◌==◌, length, if◌then◌else◌, same, ◌&&◌,
}
use ai_intelligence_theft_de.Base.Int.{ltb_ℤ}
use ai_intelligence_theft_de.Base.Dict.{lookup, insert}
use ai_intelligence_theft_de.Inference.Contracts.{Sample, WorkerConfig}
use ai_intelligence_theft_de.Inference.TemporalBuffer.{TemporalBuffer}
use ai_intelligence_theft_de.Inference.TemporalBuffer
use ai_intelligence_theft_de.Inference.LatestQueue
use ai_intelligence_theft_de.Inference.LatestQueue.{
  LatestQueue, Put, stored, queue_full, put_latest, qsize,
}

pub data Reason : Type 0 where
  temporal_buffer_not_ready insufficient_consecutive_hits stale_track_frame : Reason
  crop_width_below_threshold crop_height_below_threshold : Reason

-- What `_log_visible_state` compares: `"enqueued"` or `"gate:…"`.
pub data VisibleState : Type 0 where
  gate : List Reason → VisibleState
  enqueued : VisibleState

-- The calls on the metrics recorder.
pub data Metric : Type 0 where
  gate_rejection : Reason → Metric
  queue_depth : ℕ → Metric
  queue_full_hit frame_drop : Metric

pub record Scheduler (Crop : Type 0) : Type 0 where
  pub config : WorkerConfig
  pub buffer : TemporalBuffer Crop
  pub queue : LatestQueue (List (Sample Crop))
  pub last_enqueued_at : List (String × ℕ)
  pub last_visible_state : Option (VisibleState × ℕ)
  pub metrics : List Metric

-- How a call of `ingest` ends.
pub data Outcome : Type 0 where
  rejected : List Reason → Outcome
  cooling dropped dispatched : Outcome

-- 30 seconds, in microseconds.
abbrev pub visible_log_interval : ℕ
visible_log_interval = 30_000_000

unfoldable pub reason_when : Bool → Reason → List Reason
reason_when b r = if b then r ∷ [] else []

unfoldable pub VisibleState-discrete : Discrete VisibleState
VisibleState-discrete = hlevel

-- A state that was logged less than 30 seconds ago is not logged again.
abbrev pub is_recent : Option (VisibleState × ℕ) → VisibleState → ℕ → Bool
is_recent none state now = false
is_recent (some (previous, logged_at)) state now = elim (VisibleState-discrete previous state) [
  | yes e ↦ ltb now (logged_at + visible_log_interval)
  | no n ↦ false
]

-- `_gate_failure_reasons`
unfoldable pub gate_failure_reasons : {Crop : Type 0} → WorkerConfig → Sample Crop → ℕ → List Reason
unfolding reason_when
gate_failure_reasons cfg s depth =
    reason_when (ltb depth cfg.dispatch_min_temporal_frames) temporal_buffer_not_ready
    ++ (reason_when (ltb s.consecutive_hits cfg.dispatch_min_consecutive_hits)
          insufficient_consecutive_hits
        ++ (reason_when (not (s.frames_since_update == 0)) stale_track_frame
            ++ (reason_when (ltb_ℤ s.width cfg.dispatch_min_crop_width) crop_width_below_threshold
                ++ reason_when (ltb_ℤ s.height cfg.dispatch_min_crop_height)
                    crop_height_below_threshold)))

module _ {Crop : Type 0} where
  unfoldable pub init : WorkerConfig → Scheduler Crop
  init config = record {
    config = config;
    buffer = TemporalBuffer.init config.temporal_buffer_size config.identity_gap_reset;
    queue = LatestQueue.init config.ingress_queue_maxsize;
    last_enqueued_at = [];
    last_visible_state = none;
    metrics = [];
  }

  abbrev pub record_metrics : Scheduler Crop → List Metric → Scheduler Crop
  record_metrics sch ms = record sch { metrics = sch.metrics ++ ms }

  unfoldable pub log_visible_state : Scheduler Crop → VisibleState → ℕ → Scheduler Crop
  log_visible_state sch state now =
      if is_recent sch.last_visible_state state now
      then sch
      else record sch { last_visible_state = some (state, now) }

  unfoldable pub reject : Scheduler Crop → List Reason → ℕ → Scheduler Crop × Outcome
  reject sch reasons now =
      let logged = log_visible_state sch (gate reasons) now in
      (
        record_metrics logged (map gate_rejection reasons ++ queue_depth (qsize logged.queue) ∷ []),
        rejected reasons,
      )

  -- `put_latest` and what follows it.
  unfoldable pub enqueue : Scheduler Crop → Sample Crop → ℕ → Scheduler Crop × Outcome
  enqueue sch s now =
      let batch = TemporalBuffer.get sch.buffer s.persistent_id in
      let (queue, put) = put_latest sch.queue s.persistent_id batch in
      let sch' = record sch { queue = queue } in
      elim put [
        | queue_full ↦ (
          record_metrics sch' (queue_full_hit ∷ frame_drop ∷ queue_depth (qsize queue) ∷ []),
          dropped,
        )
        | stored ↦ (
          log_visible_state (record_metrics sch' (queue_depth (qsize queue) ∷ [])) enqueued now,
          dispatched,
        )
      ]

  abbrev pub is_cooling : Scheduler Crop → String → ℕ → Bool
  is_cooling sch pid now = elim (lookup str_dec pid sch.last_enqueued_at) [
    | none ↦ false
    | some last ↦ ltb now (last + sch.config.dispatch_cooldown)
  ]

  -- The cooldown of one person, before the batch is taken.
  unfoldable pub pass_gate : Scheduler Crop → Sample Crop → ℕ → ℕ → Scheduler Crop × Outcome
  pass_gate sch s now later =
      if not (ltb 0 sch.config.dispatch_cooldown)
      then enqueue sch s later
      else if is_cooling sch s.persistent_id now
      then (record_metrics sch (queue_depth (qsize sch.queue) ∷ []), cooling)
      else enqueue
          (record sch {
            last_enqueued_at = insert str_dec s.persistent_id now sch.last_enqueued_at;
          })
          s later

  -- `now` is the clock at the cooldown test, `later` at the visible log.
  unfoldable pub ingest : Scheduler Crop → Sample Crop → ℕ → ℕ → Scheduler Crop × Outcome
  ingest sch s now later =
      let sch' = record sch { buffer = TemporalBuffer.push sch.buffer s } in
      elim (gate_failure_reasons sch.config s (TemporalBuffer.depth sch'.buffer s.persistent_id)) [
        | [] ↦ pass_gate sch' s now later
        | r ∷ rs ↦ reject sch' (r ∷ rs) later
      ]
