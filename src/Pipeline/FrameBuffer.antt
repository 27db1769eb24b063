-- ===== src/Pipeline/FrameBuffer.antt =====
-- buffering/frame_buffer.py: `FrameBuffer`, the bounded queue between capture and processing. A call
-- is one step; where the source blocks, the call returns `waits_…` and is made again later.
-- `fits` is the test of a frame's shape and `convert` the numpy conversion before the copy.
pub mod Policies
pub mod Leases
pub mod Conservation
pub mod Consumers
pub mod Discarding
use ai_intelligence_theft_de.Base.{
  ℕ, suc, max, String, Bool, true, false, not, List, [], ◌∷◌, ◌++◌, Option, none, some, ltb, same,
  length, keep, if◌then◌else◌,
}
use ai_intelligence_theft_de.Pipeline.Packets.{
  DropPolicy, drop_oldest, drop_newest, block, FramePacket, with_frame, gives_back,
}
use ai_intelligence_theft_de.Pipeline.SlotStore.{SlotStore}
use ai_intelligence_theft_de.Pipeline.SlotStore
use mathlib.Core.Option

pub record FrameBuffer (Frame : Type 0) : Type 0 where
  pub queue : List (FramePacket Frame)
  pub maxsize : ℕ
  pub policy : DropPolicy
  pub store : Option (SlotStore Frame)

pub data Outcome (Frame : Type 0) : Type 0 where
  returns : Bool → Outcome Frame
  waits_slot : Outcome Frame
  waits_room : FramePacket Frame → Outcome Frame

pub data Prepared (Frame : Type 0) : Type 0 where
  ready : FramePacket Frame → Prepared Frame
  refused waits : Prepared Frame

module _ {Frame : Type 0} where
  -- `shared_memory_slots` is `none` or 0 where the queue's size is to be taken.
  unfoldable pub init : ℕ → DropPolicy → Bool → ℕ → FrameBuffer Frame
  init maxsize policy use_shared_memory slots = record {
    queue = [];
    maxsize = max maxsize 1;
    policy = policy;
    store =
        if use_shared_memory
        then some (SlotStore.init (if ltb 0 slots then slots else maxsize))
        else none;
  }

  -- `packet.release()`
  unfoldable pub give_back : Option (SlotStore Frame) → Option ℕ → Option (SlotStore Frame)
  give_back store none = store
  give_back none (some s) = none
  give_back (some st) (some s) = some (SlotStore.release st s)

  unfoldable pub release : FrameBuffer Frame → FramePacket Frame → FrameBuffer Frame
  release b p = record b { store = give_back b.store (gives_back p) }

  unfoldable pub full : FrameBuffer Frame → Bool
  full b = not (ltb (length b.queue) b.maxsize)

  abbrev pub put : FrameBuffer Frame → FramePacket Frame → FrameBuffer Frame
  put b p = record b { queue = b.queue ++ p ∷ [] }

  -- `get_nowait` and the release of what it took.
  unfoldable pub drop_first : FrameBuffer Frame → FrameBuffer Frame
  unfolding release
  drop_first b = elim b.queue [ [] ↦ b | p ∷ rest ↦ release (record b { queue = rest }) p ]

  -- The copy into a slot that was acquired.
  unfoldable pub fill :
      (Frame → Frame)
      → FrameBuffer Frame
      → SlotStore Frame
      → FramePacket Frame
      → ℕ
      → FrameBuffer Frame × Prepared Frame
  fill convert b st p s = (
    record b { store = some (SlotStore.write st s (convert p.frame_bgr)) },
    ready (with_frame p (convert p.frame_bgr) s),
  )

  -- The second `acquire`, after the oldest packet was dropped for its slot.
  unfoldable pub retry :
      (Frame → Frame) → FrameBuffer Frame → FramePacket Frame → FrameBuffer Frame × Prepared Frame
  retry convert b p = elim b.store [
    | none ↦ (b, refused)
    | some st ↦ elim (SlotStore.acquire st).1 [
      | some s ↦ fill convert b (SlotStore.acquire st).0 p s
      | none ↦ (b, refused)
    ]
  ]

  -- What `_prepare_packet` does where the first `acquire` found no slot.
  unfoldable pub no_slot :
      DropPolicy
      → (Frame → Frame)
      → FrameBuffer Frame
      → FramePacket Frame
      → FrameBuffer Frame × Prepared Frame
  no_slot drop_oldest convert b p = elim b.queue [
    | [] ↦ (b, refused)
    | q ∷ qs ↦ retry convert (drop_first b) p
  ]
  no_slot drop_newest convert b p = (b, refused)
  no_slot block convert b p = (b, waits)

  -- `_prepare_packet`
  unfoldable pub prepare :
      (Frame → Bool)
      → (Frame → Frame)
      → FrameBuffer Frame
      → FramePacket Frame
      → FrameBuffer Frame × Prepared Frame
  prepare fits convert b p = elim b.store [
    | none ↦ (b, ready p)
    | some st ↦ if not (fits p.frame_bgr) then (b, refused) else elim (SlotStore.acquire st).1 [
      | some s ↦ fill convert b (SlotStore.acquire st).0 p s
      | none ↦ no_slot b.policy convert b p
    ]
  ]

  -- What `publish` does with a prepared packet after `Full`.
  unfoldable pub on_full :
      DropPolicy → FrameBuffer Frame → FramePacket Frame → FrameBuffer Frame × Outcome Frame
  on_full drop_newest b p = (release b p, returns false)
  on_full block b p = (b, waits_room p)
  on_full drop_oldest b p =
      let dropped = drop_first b in
      if full dropped then (release dropped p, returns false) else (put dropped p, returns true)

  -- `put_nowait` of a prepared packet, and what follows it.
  unfoldable pub enqueue : FrameBuffer Frame → FramePacket Frame → FrameBuffer Frame × Outcome Frame
  unfolding on_full
  enqueue b p = if full b then on_full b.policy b p else (put b p, returns true)

  unfoldable pub publish_prepared :
      FrameBuffer Frame → Prepared Frame → FrameBuffer Frame × Outcome Frame
  publish_prepared b (ready p) = enqueue b p
  publish_prepared b refused = (b, returns false)
  publish_prepared b waits = (b, waits_slot)

  unfoldable pub publish :
      (Frame → Bool)
      → (Frame → Frame)
      → FrameBuffer Frame
      → FramePacket Frame
      → FrameBuffer Frame × Outcome Frame
  unfolding publish_prepared
  publish fits convert b p = let (b', r) = prepare fits convert b p in publish_prepared b' r

  -- `get`: `none` where it waits.
  unfoldable pub get : FrameBuffer Frame → FrameBuffer Frame × Option (FramePacket Frame)
  get b = elim b.queue [ [] ↦ (b, none) | p ∷ rest ↦ (record b { queue = rest }, some p) ]

  unfoldable pub qsize : FrameBuffer Frame → ℕ
  qsize b = length b.queue

  unfoldable pub release_all : FrameBuffer Frame → List (FramePacket Frame) → FrameBuffer Frame
  unfolding release
  release_all b [] = b
  release_all b (p ∷ ps) = release_all (release b p) ps

  abbrev pub of_camera : String → FramePacket Frame → Bool
  of_camera camera p = same p.camera_id camera

  unfoldable pub discard_camera : FrameBuffer Frame → String → FrameBuffer Frame × ℕ
  discard_camera b camera =
      let removed = keep (of_camera camera) b.queue in
      let retained = keep (λ p. not (of_camera camera p)) b.queue in
      (release_all (record b { queue = retained }) removed, length removed)

  -- The buffer forgets its store, which is closed; packets that consumers still hold refer to it.
  unfoldable pub close : FrameBuffer Frame → FrameBuffer Frame × Option (SlotStore Frame)
  close b =
      let b' = release_all (record b { queue = [] }) b.queue in
      (record b' { store = none }, Option.map SlotStore.close b'.store)
