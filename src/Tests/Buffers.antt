-- ===== src/Tests/Buffers.antt =====
-- The theorems on slots and the frame buffer at concrete inputs. A frame is a number.
use ai_intelligence_theft_de.Base.{
  ℕ, ◌+◌, ◌≡◌, refl, String, Bool, true, false, not, List, [], ◌∷◌, none, some, arith, length, keep,
}
use ai_intelligence_theft_de.Base.Dict.{lookup}
use ai_intelligence_theft_de.Pipeline.Packets.{FramePacket, DropPolicy, drop_oldest, gives_back}
use ai_intelligence_theft_de.Pipeline.SlotStore
use ai_intelligence_theft_de.Pipeline.SlotStore.{SlotStore}
use ai_intelligence_theft_de.Pipeline.SlotStore.Ownership.{Serves, count}
use ai_intelligence_theft_de.Pipeline.FrameBuffer
use ai_intelligence_theft_de.Pipeline.FrameBuffer.{
  FrameBuffer, Outcome, returns, publish, discard_camera, of_camera,
}
use ai_intelligence_theft_de.Pipeline.FrameBuffer.Policies.{publish-expected}
use ai_intelligence_theft_de.Pipeline.FrameBuffer.Conservation.{
  IsValid, held_after, publish-IsValid,
}
use ai_intelligence_theft_de.Pipeline.FrameBuffer.Consumers.{get-IsValid}
use ai_intelligence_theft_de.Pipeline.FrameBuffer.Discarding.{discard_camera-IsValid}

abbrev packet_of : String → ℕ → FramePacket ℕ
packet_of camera n = record {
  camera_id = camera;
  stream_name = "door";
  sequence_number = n;
  captured_at = n;
  monotonic_ns = n;
  frame_bgr = n;
  width = 1;
  height = 1;
  slot = none;
  released = false;
}

abbrev fits : ℕ → Bool
fits f = true

abbrev convert : ℕ → ℕ
convert f = f

-- One slot, which one client holds.
abbrev no_slots : SlotStore ℕ
no_slots = SlotStore.init 1

abbrev one_slot : SlotStore ℕ
one_slot = (SlotStore.acquire no_slots).0

-- A full queue of one packet that drops its oldest.
abbrev full_buffer : FrameBuffer ℕ
full_buffer = record {
  queue = packet_of "a" 1 ∷ [];
  maxsize = 1;
  policy = drop_oldest;
  store = none;
}

abbrev after_full : List (FramePacket ℕ) × Outcome ℕ
after_full = let r = publish fits convert full_buffer (packet_of "b" 2) in (r.0.queue, r.1)

publish-expected_example : after_full ≡ (packet_of "b" 2 ∷ [], returns true)
unfolding ai_intelligence_theft_de.Pipeline.FrameBuffer.Policies.expected
publish-expected_example =
    publish-expected fits convert full_buffer (packet_of "b" 2) refl (omega arith) (omega arith)

abbrev shared_buffer : FrameBuffer ℕ
shared_buffer = FrameBuffer.init 2 drop_oldest true 2

no_two-Serves : Serves (SlotStore.init {Frame = ℕ} 2) []
unfolding SlotStore.init count lookup
no_two-Serves = record {
  owned = λ s. refl;
  split = λ s. ground arith;
  known = λ s. ground arith;
  sized = refl;
  bounded = omega arith;
}

shared_buffer-IsValid : IsValid shared_buffer []
unfolding FrameBuffer.init ai_intelligence_theft_de.Pipeline.FrameBuffer.Leases.slots_of
shared_buffer-IsValid = record {
  backed = (no_two-Serves, tt);
  bounded = omega arith;
  positive = omega arith;
}

abbrev after_publish : FrameBuffer ℕ
after_publish = (publish fits convert shared_buffer (packet_of "a" 1)).0

publish-IsValid_example :
    IsValid after_publish (held_after (publish fits convert shared_buffer (packet_of "a" 1)).1 [])
unfolding gives_back
publish-IsValid_example =
    publish-IsValid fits convert shared_buffer (packet_of "a" 1) [] refl shared_buffer-IsValid

published : IsValid after_publish []
unfolding publish FrameBuffer.prepare FrameBuffer.init SlotStore.acquire SlotStore.init
    FrameBuffer.fill FrameBuffer.enqueue FrameBuffer.full
published = publish-IsValid_example

abbrev stored_packet : FramePacket ℕ
stored_packet = record (packet_of "a" 1) { slot = some 0 }

taken : (FrameBuffer.get after_publish).1 ≡ some stored_packet
unfolding FrameBuffer.get publish FrameBuffer.prepare FrameBuffer.init SlotStore.acquire
    SlotStore.init FrameBuffer.fill FrameBuffer.enqueue FrameBuffer.full
    ai_intelligence_theft_de.Pipeline.Packets.with_frame
taken = refl

get-IsValid_example : IsValid (FrameBuffer.get after_publish).0 (stored_packet ∷ [])
get-IsValid_example = get-IsValid after_publish [] stored_packet published taken

discard_camera-IsValid_example :
    IsValid (discard_camera after_publish "a").0 []
    × ((discard_camera after_publish "a").0.queue
        ≡ keep (λ p. not (of_camera "a" p)) after_publish.queue)
    × ((discard_camera after_publish "a").1 + length (discard_camera after_publish "a").0.queue
        ≡ length after_publish.queue)
discard_camera-IsValid_example = discard_camera-IsValid after_publish "a" [] published
