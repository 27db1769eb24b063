-- ===== src/Pipeline/FrameBuffer/Leases.antt =====
-- The slots of shared memory that the packets of the queue hold.
-- `held` are the packets that consumers took and have not released.
use ai_intelligence_theft_de.Base.{
  ℕ, ◌≤◌, ◌<◌, ◌≡◌, refl, sym, ◌∙◌, List, [], ◌∷◌, ◌++◌, Option, none, some, arith, ℕ_discrete,
  Option-cases, inl, inr,
}
use ai_intelligence_theft_de.Base.Dict.{lookup, lookup-insert}
use ai_intelligence_theft_de.Pipeline.Packets.{FramePacket, with_frame, gives_back}
use ai_intelligence_theft_de.Pipeline.SlotStore
use ai_intelligence_theft_de.Pipeline.SlotStore.{SlotStore, create_slot}
use ai_intelligence_theft_de.Pipeline.SlotStore.Ownership.{
  count, Serves, acquire-Serves, release-Serves, write-Serves,
}
use ai_intelligence_theft_de.Pipeline.FrameBuffer.{give_back}

module _ {Frame : Type 0} where
  -- The slots that unreleased packets hold.
  unfoldable pub slots_of : List (FramePacket Frame) → List ℕ
  slots_of [] = []
  slots_of (p ∷ ps) =
      let rest = slots_of ps in elim (gives_back p) [ none ↦ rest | some s ↦ s ∷ rest ]

  -- A packet's slot still holds the packet's own pixels.
  abbrev pub ShowsAt : SlotStore Frame → Option ℕ → Frame → Type 0
  ShowsAt st none f = Unit
  ShowsAt st (some s) f = lookup ℕ_discrete s st.slots ≡ some (some f)

  abbrev pub Intact : SlotStore Frame → List (FramePacket Frame) → Type 0
  Intact st [] = Unit
  Intact st (p ∷ ps) = ShowsAt st (gives_back p) p.frame_bgr × Intact st ps

  -- Exactly the packets `ps` hold slots of the store, and their pixels are intact.
  abbrev pub Backed : Option (SlotStore Frame) → List (FramePacket Frame) → Type 0
  Backed none ps = slots_of ps ≡ []
  Backed (some st) ps = Serves st (slots_of ps) × Intact st ps

  Serves-count :
      (st : SlotStore Frame) (us vs : List ℕ)
      → ((s : ℕ) → count s us ≡ count s vs)
      → Serves st us
      → Serves st vs
  Serves-count st us vs e v = record {
    owned = λ s. v.owned s ∙ e s;
    split = v.split;
    known = v.known;
    sized = v.sized;
    bounded = v.bounded;
  }

  count-slots_of-move :
      (s : ℕ) (xs : List (FramePacket Frame)) (p : FramePacket Frame)
      (ys : List (FramePacket Frame))
      → count s (slots_of (p ∷ (xs ++ ys))) ≡ count s (slots_of (xs ++ (p ∷ ys)))
  unfolding count slots_of
  count-slots_of-move s [] p ys = refl
  count-slots_of-move s (x ∷ xs) p ys = ground (arith, count-slots_of-move s xs p ys)

  Intact-move :
      (st : SlotStore Frame) (xs : List (FramePacket Frame)) (p : FramePacket Frame)
      (ys : List (FramePacket Frame))
      → Intact st (p ∷ (xs ++ ys))
      → Intact st (xs ++ (p ∷ ys))
  Intact-move st [] p ys h = h
  Intact-move st (x ∷ xs) p ys h = (h.1.0, Intact-move st xs p ys (h.0, h.1.1))

  slots_of-move_nil :
      (xs : List (FramePacket Frame)) (p : FramePacket Frame) (ys : List (FramePacket Frame))
      → slots_of (p ∷ (xs ++ ys)) ≡ []
      → slots_of (xs ++ (p ∷ ys)) ≡ []
  unfolding slots_of
  slots_of-move_nil [] p ys h = h
  slots_of-move_nil (x ∷ xs) p ys h = ground (arith, slots_of-move_nil xs p ys)

  -- A packet may stand anywhere in the queue.
  pub Backed-move :
      (store : Option (SlotStore Frame)) (xs : List (FramePacket Frame)) (p : FramePacket Frame)
      (ys : List (FramePacket Frame))
      → Backed store (p ∷ (xs ++ ys))
      → Backed store (xs ++ (p ∷ ys))
  Backed-move none xs p ys h = slots_of-move_nil xs p ys h
  Backed-move (some st) xs p ys h =
      (Serves-count st _ _ (λ s. count-slots_of-move s xs p ys) h.0, Intact-move st xs p ys h.1)

  Intact-unmove :
      (st : SlotStore Frame) (xs : List (FramePacket Frame)) (p : FramePacket Frame)
      (ys : List (FramePacket Frame))
      → Intact st (xs ++ (p ∷ ys))
      → Intact st (p ∷ (xs ++ ys))
  Intact-unmove st [] p ys h = h
  Intact-unmove st (x ∷ xs) p ys h = let (a, b) = Intact-unmove st xs p ys h.1 in (a, (h.0, b))

  slots_of-unmove_nil :
      (xs : List (FramePacket Frame)) (p : FramePacket Frame) (ys : List (FramePacket Frame))
      → slots_of (xs ++ (p ∷ ys)) ≡ []
      → slots_of (p ∷ (xs ++ ys)) ≡ []
  unfolding slots_of
  slots_of-unmove_nil [] p ys h = h
  slots_of-unmove_nil (x ∷ xs) p ys h = ground (arith, slots_of-unmove_nil xs p ys)

  pub Backed-unmove :
      (store : Option (SlotStore Frame)) (xs : List (FramePacket Frame)) (p : FramePacket Frame)
      (ys : List (FramePacket Frame))
      → Backed store (xs ++ (p ∷ ys))
      → Backed store (p ∷ (xs ++ ys))
  Backed-unmove none xs p ys h = slots_of-unmove_nil xs p ys h
  Backed-unmove (some st) xs p ys h = (
    Serves-count st _ _ (λ s. sym (count-slots_of-move s xs p ys)) h.0,
    Intact-unmove st xs p ys h.1,
  )

  ShowsAt-release :
      (st : SlotStore Frame) (s : ℕ) (o : Option ℕ) (f : Frame)
      → ShowsAt st o f
      → ShowsAt (SlotStore.release st s) o f
  unfolding SlotStore.release
  ShowsAt-release st s none f h = tt
  ShowsAt-release st s (some t) f h = ground arith

  Intact-release :
      (st : SlotStore Frame) (s : ℕ) (ps : List (FramePacket Frame))
      → Intact st ps
      → Intact (SlotStore.release st s) ps
  Intact-release st s [] h = tt
  Intact-release st s (p ∷ ps) h =
      (ShowsAt-release st s (gives_back p) p.frame_bgr h.0, Intact-release st s ps h.1)

  -- To release a packet gives back its slot and no other.
  pub Backed-release :
      (store : Option (SlotStore Frame)) (p : FramePacket Frame) (ps : List (FramePacket Frame))
      → Backed store (p ∷ ps)
      → Backed (give_back store (gives_back p)) ps
  unfolding slots_of give_back
  Backed-release none p ps h = elim (Option-cases (gives_back p)) [
    | inl e ↦ rw (e, give_back) (ground arith)
    | inr (s, e) ↦ absurd (ground arith)
  ]
  Backed-release (some st) p ps h = elim (Option-cases (gives_back p)) [
    | inl e ↦ rw (e, give_back) (rw (e, slots_of) at h.0, h.1.1)
    | inr (s, e) ↦
        rw (e, give_back)
          (
            release-Serves st (slots_of ps) s (rw (e, slots_of) at h.0),
            Intact-release st s ps h.1.1,
          )
  ]

  -- Slots that are in use keep their contents while another slot is taken and written.
  ShowsAt-fill :
      (st : SlotStore Frame) (users : List ℕ) (s : ℕ) (f g : Frame) (o : Option ℕ)
      → Serves st users
      → (SlotStore.acquire st).1 ≡ some s
      → ((t : ℕ) → o ≡ some t → 0 < count t users)
      → ShowsAt st o g
      → ShowsAt (SlotStore.write (SlotStore.acquire st).0 s f) o g
  unfolding SlotStore.write SlotStore.acquire
  ShowsAt-fill st users s f g none v e h k = tt
  ShowsAt-fill st users s f g (some t) v e h k = ground (
    arith,
    h t refl,
    v.owned t,
    v.split t,
    acquire-Serves st users s v e,
    lookup-insert ℕ_discrete s t (some f) (SlotStore.acquire st).0.slots,
    lookup-insert {V = Option Frame} ℕ_discrete st.next_slot_id t none st.slots,
  )

  Intact-fill :
      (st : SlotStore Frame) (users : List ℕ) (s : ℕ) (f : Frame) (ps : List (FramePacket Frame))
      → Serves st users
      → (SlotStore.acquire st).1 ≡ some s
      → ((t : ℕ) → count t (slots_of ps) ≤ count t users)
      → Intact st ps
      → Intact (SlotStore.write (SlotStore.acquire st).0 s f) ps
  unfolding slots_of count
  Intact-fill st users s f [] v e h k = tt
  Intact-fill st users s f (p ∷ ps) v e h k = (
    ShowsAt-fill st users s f p.frame_bgr (gives_back p) v e (λ t g. ground (arith, h t)) k.0,
    Intact-fill st users s f ps v e (λ t. ground (arith, h t)) k.1,
  )

  -- A packet whose pixels were copied into a slot that was acquired joins the others.
  pub Backed-fill :
      (st : SlotStore Frame) (p : FramePacket Frame) (s : ℕ) (f : Frame)
      (ps : List (FramePacket Frame))
      → Backed (some st) ps
      → (SlotStore.acquire st).1 ≡ some s
      → Backed (some (SlotStore.write (SlotStore.acquire st).0 s f)) (with_frame p f s ∷ ps)
  unfolding slots_of with_frame gives_back count SlotStore.write
  Backed-fill st p s f ps (v, k) e =
      let (v', unused) = acquire-Serves st (slots_of ps) s v e in
      (
        write-Serves (SlotStore.acquire st).0 (s ∷ slots_of ps) s f v' (ground arith),
        (
          ground (arith, lookup-insert ℕ_discrete s s (some f) (SlotStore.acquire st).0.slots),
          Intact-fill st (slots_of ps) s f ps v e (λ t. omega arith) k,
        ),
      )
