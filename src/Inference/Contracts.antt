-- ===== src/Inference/Contracts.antt =====
-- contracts.py: the samples and the configuration that the inference plane shares. Times are
-- microseconds. `Crop` stands for the pixels, which only the model server reads.
use ai_intelligence_theft_de.Base.{ℕ, String}
use ai_intelligence_theft_de.Base.Int.{ℤ}

pub record Sample (Crop : Type 0) : Type 0 where
  pub camera_id : String
  pub stream_name : String
  pub local_track_id : String
  pub persistent_id : String
  pub sampled_at : ℕ
  pub left : ℤ
  pub top : ℤ
  pub width : ℤ
  pub height : ℤ
  pub crop : Crop
  pub age_frames : ℕ
  pub consecutive_hits : ℕ
  pub frames_since_update : ℕ
  pub persistent_id_state : String

-- `InferenceWorkerConfig`, less the fields that only open connections and the thresholds of the scores.
pub record WorkerConfig : Type 0 where
  pub camera_id : String
  pub strategy : String
  pub temporal_buffer_size : ℕ
  pub dispatch_min_temporal_frames : ℕ
  pub dispatch_min_consecutive_hits : ℕ
  pub dispatch_min_crop_width : ℤ
  pub dispatch_min_crop_height : ℤ
  pub identity_gap_reset : ℕ
  pub ingress_queue_maxsize : ℕ
  pub dispatch_cooldown : ℕ

-- A call that returns, or raises an exception with a message.
pub data Result {ℓ} (A : Type ℓ) : Type ℓ where
  returned : A → Result A
  raised : String → Result A
