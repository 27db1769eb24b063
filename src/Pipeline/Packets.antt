-- ===== src/Pipeline/Packets.antt =====
-- contracts.py: `FramePacket`. `Frame` stands for the pixels of numpy. The cleanup hook of a packet
-- gives a slot of the shared store back, so `slot` is what it gives back, if there is a hook.
use ai_intelligence_theft_de.Base.{ℕ, String, Bool, true, false, Option, none, some}

pub data DropPolicy : Type 0 where
  drop_oldest drop_newest block : DropPolicy

pub record FramePacket (Frame : Type 0) : Type 0 where
  pub camera_id : String
  pub stream_name : String
  pub sequence_number : ℕ
  pub captured_at : ℕ
  pub monotonic_ns : ℕ
  pub frame_bgr : Frame
  pub width : ℕ
  pub height : ℕ
  pub slot : Option ℕ
  pub released : Bool

module _ {Frame : Type 0} where
  -- `with_frame(frame, width=…, height=…, release=…)`: a new packet, not yet released.
  unfoldable pub with_frame : FramePacket Frame → Frame → ℕ → FramePacket Frame
  with_frame p frame slot = record p { frame_bgr = frame; slot = some slot; released = false }

  -- The slot that a call of `release` gives back now.
  unfoldable pub gives_back : FramePacket Frame → Option ℕ
  gives_back p = elim p.released [ true ↦ none | false ↦ p.slot ]
