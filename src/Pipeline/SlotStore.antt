-- ===== src/Pipeline/SlotStore.antt =====
-- buffering/frame_buffer.py: `_SharedMemoryFrameStore`, reusable slots of shared memory. A slot that
-- was created and never written holds `none`. A blocking `acquire` that finds no slot waits.
pub mod Ownership
use ai_intelligence_theft_de.Base.{
  ℕ, suc, max, ◌≡◌, Bool, true, false, List, [], ◌∷◌, ◌++◌, Option, none, some, ℕ_discrete, ltb,
  ◌==◌, ite, length, if◌then◌else◌, ◌+◌,
}
use ai_intelligence_theft_de.Base.Dict.{lookup, insert, holds}

pub record SlotStore (Frame : Type 0) : Type 0 where
  pub max_slots : ℕ
  pub slots : List (ℕ × Option Frame)
  pub available : List ℕ
  pub in_use : List ℕ
  pub next_slot_id : ℕ

-- `set.add` and `set.remove`.
unfoldable pub add : ℕ → List ℕ → List ℕ
add s xs = if holds ℕ_discrete s xs then xs else s ∷ xs

unfoldable pub discard : ℕ → List ℕ → List ℕ
discard s [] = []
discard s (x ∷ xs) = if s == x then xs else x ∷ discard s xs

module _ {Frame : Type 0} where
  unfoldable pub init : ℕ → SlotStore Frame
  init max_slots = record {
    max_slots = max 1 max_slots;
    slots = [];
    available = [];
    in_use = [];
    next_slot_id = 0;
  }

  unfoldable pub create_slot : SlotStore Frame → SlotStore Frame × ℕ
  create_slot st = (
    record st {
      slots = insert ℕ_discrete st.next_slot_id none st.slots;
      next_slot_id = suc st.next_slot_id;
    },
    st.next_slot_id,
  )

  -- `none` when no slot is free: a call that may block waits there and tries again.
  unfoldable pub acquire : SlotStore Frame → SlotStore Frame × Option ℕ
  unfolding create_slot
  acquire st = elim st.available [
    | s ∷ rest ↦ (record st { available = rest; in_use = add s st.in_use }, some s)
    | [] ↦
        let (st', s) = create_slot st in
        if ltb (length st.slots) st.max_slots
        then (record st' { in_use = add s st'.in_use }, some s)
        else (st, none)
  ]

  unfoldable pub write : SlotStore Frame → ℕ → Frame → SlotStore Frame
  write st s frame = record st { slots = insert ℕ_discrete s (some frame) st.slots }

  unfoldable pub release : SlotStore Frame → ℕ → SlotStore Frame
  release st s =
      if holds ℕ_discrete s st.in_use
      then record st { in_use = discard s st.in_use; available = st.available ++ s ∷ [] }
      else st

  unfoldable pub close : SlotStore Frame → SlotStore Frame
  close st = record st { slots = []; available = []; in_use = [] }
