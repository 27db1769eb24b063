-- ===== src/Pipeline/FrameBuffer/Conservation.antt =====
-- The invariant of `FrameBuffer` and its slots, and `publish`.
use mathlib.Core.List.{append_assoc}
use ai_intelligence_theft_de.Base.{
  ℕ, ◌≤◌, ◌<◌, ◌≡◌, refl, sym, subst, Bool, List, [], ◌∷◌, ◌++◌, none, some, arith, length,
  length-append, if_elim, Bool-cases, Option-cases, inl, inr,
}
use ai_intelligence_theft_de.Pipeline.Packets.{
  DropPolicy, drop_oldest, drop_newest, block, FramePacket, gives_back,
}
use ai_intelligence_theft_de.Pipeline.SlotStore
use ai_intelligence_theft_de.Pipeline.SlotStore.{SlotStore}
use ai_intelligence_theft_de.Pipeline.FrameBuffer.Leases.{
  Backed, Backed-move, Backed-release, Backed-fill, slots_of,
}
use ai_intelligence_theft_de.Pipeline.FrameBuffer.{
  FrameBuffer, Outcome, returns, waits_slot, waits_room, Prepared, ready, refused, waits, release,
  full, put, on_full, drop_first, fill, retry, no_slot, prepare, enqueue, publish_prepared, publish,
}

module _ {Frame : Type 0} where
  pub record IsValid (b : FrameBuffer Frame) (held : List (FramePacket Frame)) : Type 0 where
    pub backed : Backed b.store (b.queue ++ held)
    pub bounded : length b.queue ≤ b.maxsize
    pub positive : 0 < b.maxsize

  -- A packet that waits for room keeps its slot.
  abbrev pub held_after : Outcome Frame → List (FramePacket Frame) → List (FramePacket Frame)
  held_after (returns done) held = held
  held_after waits_slot held = held
  held_after (waits_room p) held = p ∷ held

  -- The buffer with one more packet on its way into the queue.
  record IsPending (b : FrameBuffer Frame) (p : FramePacket Frame) (held : List (FramePacket Frame))
      : Type 0 where
    backed : Backed b.store (p ∷ (b.queue ++ held))
    bounded : length b.queue ≤ b.maxsize
    positive : 0 < b.maxsize

  put-IsValid :
      (b : FrameBuffer Frame) (p : FramePacket Frame) (held : List (FramePacket Frame))
      → IsPending b p held
      → length b.queue < b.maxsize
      → IsValid (put b p) held
  put-IsValid b p held v lt = record {
    backed =
        subst (Backed b.store) (sym (append_assoc b.queue (p ∷ []) held))
          (Backed-move b.store b.queue p held v.backed);
    bounded = omega (arith, length-append b.queue (p ∷ []));
    positive = v.positive;
  }

  release-IsValid :
      (b : FrameBuffer Frame) (p : FramePacket Frame) (held : List (FramePacket Frame))
      → IsPending b p held
      → IsValid (release b p) held
  unfolding release
  release-IsValid b p held v = record {
    backed = Backed-release b.store p (b.queue ++ held) v.backed;
    bounded = v.bounded;
    positive = v.positive;
  }

  drop_first-IsPending :
      (b : FrameBuffer Frame) (p : FramePacket Frame) (held : List (FramePacket Frame))
      → IsPending b p held
      → IsPending (drop_first b) p held
  unfolding drop_first
  drop_first-IsPending b p held v = go b.queue refl
    where
      go : (queue : List (FramePacket Frame)) → b.queue ≡ queue → IsPending (drop_first b) p held
      go [] e = rw (e, drop_first) v
      go (q ∷ qs) e =
          let moved : Backed b.store (q ∷ (p ∷ (qs ++ held))) =
            Backed-move b.store (q ∷ []) p (qs ++ held) (
              subst (λ (l : List (FramePacket Frame)). Backed b.store (p ∷ (l ++ held))) e
                v.backed) in
          rw (e, drop_first)
            (record {
              backed = Backed-release b.store q (p ∷ (qs ++ held)) moved;
              bounded = ground arith;
              positive = v.positive;
            })

  -- What is kept by a call with this result.
  abbrev Keeps : List (FramePacket Frame) → FrameBuffer Frame × Outcome Frame → Type 0
  Keeps held r = IsValid r.0 (held_after r.1 held)

  on_full-IsValid :
      (policy : DropPolicy) (b : FrameBuffer Frame) (p : FramePacket Frame)
      (held : List (FramePacket Frame))
      → IsPending b p held
      → Keeps held (on_full policy b p)
  unfolding on_full full
  on_full-IsValid drop_newest b p held v = release-IsValid b p held v
  on_full-IsValid block b p held v = record {
    backed = Backed-move b.store b.queue p held v.backed;
    bounded = v.bounded;
    positive = v.positive;
  }
  on_full-IsValid drop_oldest b p held v =
      let v' = drop_first-IsPending b p held v in
      if_elim (Keeps held) (full (drop_first b)) _ _ (λ _. release-IsValid (drop_first b) p held v')
        (λ room. put-IsValid (drop_first b) p held v' (ground arith))

  enqueue-IsValid :
      (b : FrameBuffer Frame) (p : FramePacket Frame) (held : List (FramePacket Frame))
      → IsPending b p held
      → Keeps held (enqueue b p)
  unfolding enqueue full
  enqueue-IsValid b p held v =
      if_elim (Keeps held) (full b) _ _ (λ _. on_full-IsValid b.policy b p held v)
        (λ room. put-IsValid b p held v (ground arith))

  -- What is kept by a preparation with this result.
  abbrev Prepares : List (FramePacket Frame) → FrameBuffer Frame → Prepared Frame → Type 0
  Prepares held b (ready p) = IsPending b p held
  Prepares held b refused = IsValid b held
  Prepares held b waits = IsValid b held

  fill-Prepares :
      (convert : Frame → Frame) (b : FrameBuffer Frame) (st : SlotStore Frame)
      (p : FramePacket Frame) (s : ℕ) (held : List (FramePacket Frame))
      → b.store ≡ some st
      → (SlotStore.acquire st).1 ≡ some s
      → IsValid b held
      → let r = fill convert b (SlotStore.acquire st).0 p s in Prepares held r.0 r.1
  unfolding fill
  fill-Prepares convert b st p s held e a v = record {
    backed =
        Backed-fill st p s (convert p.frame_bgr) (b.queue ++ held)
          (subst (λ o. Backed o (b.queue ++ held)) e v.backed) a;
    bounded = v.bounded;
    positive = v.positive;
  }

  retry-Prepares :
      (convert : Frame → Frame) (b : FrameBuffer Frame) (p : FramePacket Frame)
      (held : List (FramePacket Frame))
      → IsValid b held
      → let r = retry convert b p in Prepares held r.0 r.1
  unfolding retry
  retry-Prepares convert b p held v = elim (Option-cases b.store) [
    | inl e ↦ rw (e, retry) v
    | inr (st, e) ↦ elim (Option-cases (SlotStore.acquire st).1) [
      | inl a ↦ rw (e, a, retry) v
      | inr (s, a) ↦ rw (e, a, retry) (fill-Prepares convert b st p s held e a v)
    ]
  ]

  drop_first-IsValid :
      (b : FrameBuffer Frame) (held : List (FramePacket Frame))
      → IsValid b held
      → IsValid (drop_first b) held
  unfolding drop_first release
  drop_first-IsValid b held v = go b.queue refl
    where
      go : (queue : List (FramePacket Frame)) → b.queue ≡ queue → IsValid (drop_first b) held
      go [] e = rw (e, drop_first) v
      go (q ∷ qs) e =
          rw (e, drop_first)
            (record {
              backed =
                  Backed-release b.store q (qs ++ held) (
                    subst (λ (l : List (FramePacket Frame)). Backed b.store (l ++ held)) e
                      v.backed);
              bounded = ground arith;
              positive = v.positive;
            })

  no_slot-Prepares :
      (policy : DropPolicy) (convert : Frame → Frame) (b : FrameBuffer Frame)
      (p : FramePacket Frame) (held : List (FramePacket Frame))
      → IsValid b held
      → let r = no_slot policy convert b p in Prepares held r.0 r.1
  unfolding no_slot
  no_slot-Prepares drop_newest convert b p held v = v
  no_slot-Prepares block convert b p held v = v
  no_slot-Prepares drop_oldest convert b p held v = go b.queue refl
    where
      go :
          (queue : List (FramePacket Frame))
          → b.queue ≡ queue
          → let r = no_slot drop_oldest convert b p in Prepares held r.0 r.1
      go [] e = rw (e, no_slot) v
      go (q ∷ qs) e =
          rw (e, no_slot)
            (retry-Prepares convert (drop_first b) p held (drop_first-IsValid b held v))

  prepare-Prepares :
      (fits : Frame → Bool) (convert : Frame → Frame) (b : FrameBuffer Frame)
      (p : FramePacket Frame) (held : List (FramePacket Frame))
      → gives_back p ≡ none
      → IsValid b held
      → let r = prepare fits convert b p in Prepares held r.0 r.1
  unfolding prepare slots_of
  prepare-Prepares fits convert b p held bare v = elim (Option-cases b.store) [
    | inl e ↦
        rw (e, prepare)
          (record {
            backed =
                subst (λ o. Backed o (p ∷ (b.queue ++ held))) (sym e)
                  (rw (bare, slots_of) (subst (λ o. Backed o (b.queue ++ held)) e v.backed));
            bounded = v.bounded;
            positive = v.positive;
          })
    | inr (st, e) ↦ elim (Bool-cases (fits p.frame_bgr)) [
      | inl f ↦ elim (Option-cases (SlotStore.acquire st).1) [
        | inl a ↦ rw (e, f, a, prepare) (no_slot-Prepares b.policy convert b p held v)
        | inr (s, a) ↦ rw (e, f, a, prepare) (fill-Prepares convert b st p s held e a v)
      ]
      | inr f ↦ rw (e, f, prepare) v
    ]
  ]

  publish_prepared-IsValid :
      (b : FrameBuffer Frame) (r : Prepared Frame) (held : List (FramePacket Frame))
      → Prepares held b r
      → Keeps held (publish_prepared b r)
  unfolding publish_prepared
  publish_prepared-IsValid b (ready q) held v = enqueue-IsValid b q held v
  publish_prepared-IsValid b refused held v = v
  publish_prepared-IsValid b waits held v = v

  -- `publish` of a packet with no hook of its own keeps the buffer valid: the queue stays within
  -- its bound, every slot in use belongs to exactly one packet that is queued, held by a consumer or
  -- waiting for room, and the pixels in it are that packet's.
  pub publish-IsValid :
      (fits : Frame → Bool) (convert : Frame → Frame) (b : FrameBuffer Frame)
      (p : FramePacket Frame) (held : List (FramePacket Frame))
      → gives_back p ≡ none
      → IsValid b held
      → let r = publish fits convert b p in IsValid r.0 (held_after r.1 held)
  unfolding publish
  publish-IsValid fits convert b p held bare v =
      publish_prepared-IsValid (prepare fits convert b p).0 (prepare fits convert b p).1 held
        (prepare-Prepares fits convert b p held bare v)
