-- ===== src/Pipeline/FrameBuffer/Policies.antt =====
-- What each drop policy does to the queue, without shared memory.
use ai_intelligence_theft_de.Base.{
  ℕ, ◌≤◌, ◌<◌, ◌≡◌, Bool, true, false, List, [], ◌∷◌, ◌++◌, none, arith, ltb, length, drop,
  if◌then◌else◌,
}
use ai_intelligence_theft_de.Pipeline.Packets.{
  DropPolicy, drop_oldest, drop_newest, block, FramePacket,
}
use ai_intelligence_theft_de.Pipeline.FrameBuffer.{
  FrameBuffer, Outcome, returns, waits_room, full, release, drop_first, prepare, enqueue, publish,
}

module _ {Frame : Type 0} (fits : Frame → Bool) (convert : Frame → Frame) where
  -- The queue and the answer after `publish`, by policy.
  unfoldable pub expected :
      DropPolicy
      → ℕ
      → List (FramePacket Frame)
      → FramePacket Frame
      → List (FramePacket Frame) × Outcome Frame
  expected policy maxsize queue p =
      if ltb (length queue) maxsize then (queue ++ p ∷ [], returns true) else elim policy [
        | drop_oldest ↦ (drop 1 (queue ++ p ∷ []), returns true)
        | drop_newest ↦ (queue, returns false)
        | block ↦ (queue, waits_room p)
      ]

  -- Without shared memory a packet that fits is appended. On a full queue the policy decides:
  -- `drop_oldest` makes room by the oldest packet and still succeeds, `drop_newest` refuses the new
  -- packet, and `block` waits with nothing changed.
  pub publish-expected :
      (b : FrameBuffer Frame) (p : FramePacket Frame)
      → b.store ≡ none
      → 0 < b.maxsize
      → length b.queue ≤ b.maxsize
      → ((publish fits convert b p).0.queue, (publish fits convert b p).1)
        ≡ expected b.policy b.maxsize b.queue p
  unfolding expected publish prepare enqueue drop_first release full
  publish-expected b p e pos le = ground arith
