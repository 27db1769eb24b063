-- ===== src/Inference/Scheduler/Gate.antt =====
-- The dispatch gate against the conditions of its documentation.
use ai_intelligence_theft_de.Base.{ℕ, ◌≤◌, ◌≡◌, ◌↔◌, [], arith}
use ai_intelligence_theft_de.Base.Int.{◌≤ℤ◌}
use ai_intelligence_theft_de.Inference.Contracts.{Sample, WorkerConfig}
use ai_intelligence_theft_de.Inference.Scheduler.{gate_failure_reasons}

-- What the gate asks of a sample, with `depth` samples of its track in the buffer.
pub record IsReady {Crop : Type 0} (cfg : WorkerConfig) (s : Sample Crop) (depth : ℕ) : Type 0 where
  pub deep : cfg.dispatch_min_temporal_frames ≤ depth
  pub confirmed : cfg.dispatch_min_consecutive_hits ≤ s.consecutive_hits
  pub current : s.frames_since_update ≡ 0
  pub wide : cfg.dispatch_min_crop_width ≤ℤ s.width
  pub high : cfg.dispatch_min_crop_height ≤ℤ s.height

module _ {Crop : Type 0} where
  -- No reason is given exactly when the sample meets all five conditions.
  pub gate_failure_reasons-IsReady :
      (cfg : WorkerConfig) (s : Sample Crop) (depth : ℕ)
      → (gate_failure_reasons cfg s depth ≡ []) ↔ IsReady cfg s depth
  unfolding gate_failure_reasons
  gate_failure_reasons-IsReady cfg s depth = (λ h. ground arith, λ r. ground arith)
