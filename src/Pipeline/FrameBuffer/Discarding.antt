-- ===== src/Pipeline/FrameBuffer/Discarding.antt =====
-- `discard_camera` of `FrameBuffer`.
use mathlib.Core.List.{append_assoc}
use ai_intelligence_theft_de.Base.{
  ◌+◌, ◌≡◌, refl, sym, subst, String, Bool, not, List, [], ◌∷◌, ◌++◌, Option, arith, length, keep,
  length-keep-le, length-keep-not, keep-true, keep-false, ap, Bool-cases, inl, inr,
}
use ai_intelligence_theft_de.Pipeline.Packets.{FramePacket}
use ai_intelligence_theft_de.Pipeline.SlotStore.{SlotStore}
use ai_intelligence_theft_de.Pipeline.FrameBuffer.Leases.{
  Backed, Backed-move, Backed-unmove, Backed-release,
}
use ai_intelligence_theft_de.Pipeline.FrameBuffer.{
  FrameBuffer, release, release_all, of_camera, discard_camera,
}
use ai_intelligence_theft_de.Pipeline.FrameBuffer.Conservation.{IsValid}

module _ {Frame : Type 0} where
  -- The packets of a queue, parted by a test.
  Backed-part :
      (store : Option (SlotStore Frame)) (f : FramePacket Frame → Bool)
      (qs ys : List (FramePacket Frame))
      → Backed store (qs ++ ys)
      → Backed store (keep f qs ++ (keep (λ p. not (f p)) qs ++ ys))
  Backed-part store f [] ys h = h
  Backed-part store f (q ∷ qs) ys h =
      let out = keep f qs in
      let stay = keep (λ p. not (f p)) qs in
      let rest = Backed-part store f qs (q ∷ ys) (Backed-move store qs q ys h) in
      let front : Backed store (q ∷ (out ++ (stay ++ ys))) =
        subst (λ (l : List (FramePacket Frame)). Backed store (q ∷ l)) (append_assoc out stay ys)
          (Backed-unmove store (out ++ stay) q ys
            (subst (Backed store) (sym (append_assoc out stay (q ∷ ys))) rest)) in
      elim (Bool-cases (f q)) [
        | inl e ↦ rw (keep-true f q qs e, keep-false (λ p. not (f p)) q qs (ap not e)) front
        | inr e ↦
            rw (keep-false f q qs e, keep-true (λ p. not (f p)) q qs (ap not e))
              (Backed-move store out q (stay ++ ys) front)
      ]

  release_all-Backed :
      (ps : List (FramePacket Frame)) (b : FrameBuffer Frame) (rest : List (FramePacket Frame))
      → Backed b.store (ps ++ rest)
      → Backed (release_all b ps).store rest
  unfolding release_all
  release_all-Backed [] b rest h = h
  release_all-Backed (p ∷ ps) b rest h =
      release_all-Backed ps (release b p) rest (Backed-release b.store p (ps ++ rest) h)

  pub release_all-frame :
      (ps : List (FramePacket Frame)) (b : FrameBuffer Frame)
      → ((release_all b ps).queue ≡ b.queue) × ((release_all b ps).maxsize ≡ b.maxsize)
  unfolding release_all
  release_all-frame [] b = (refl, refl)
  release_all-frame (p ∷ ps) b = release_all-frame ps (release b p)

  -- `discard_camera` takes out exactly the packets of the camera, keeps the others in order, returns
  -- how many left, and gives back exactly their slots.
  pub discard_camera-IsValid :
      (b : FrameBuffer Frame) (camera : String) (held : List (FramePacket Frame))
      → IsValid b held
      → IsValid (discard_camera b camera).0 held
        × ((discard_camera b camera).0.queue ≡ keep (λ p. not (of_camera camera p)) b.queue)
        × ((discard_camera b camera).1 + length (discard_camera b camera).0.queue ≡ length b.queue)
  unfolding discard_camera
  discard_camera-IsValid b camera held v =
      let removed = keep (of_camera camera) b.queue in
      let retained = keep (λ p. not (of_camera camera p)) b.queue in
      let b' = record b { queue = retained } in
      let frame = release_all-frame removed b' in
      (
        record {
          backed =
              subst
                (λ (l : List (FramePacket Frame)).
                  Backed (release_all b' removed).store (l ++ held))
                (sym frame.0)
                (release_all-Backed removed b' (retained ++ held)
                  (Backed-part b.store (of_camera camera) b.queue held v.backed));
          bounded =
              rw (frame.0, frame.1)
                (omega (arith, length-keep-le (λ p. not (of_camera camera p)) b.queue));
          positive = rw frame.1 v.positive;
        },
        frame.0,
        rw frame.0 (length-keep-not (of_camera camera) b.queue),
      )
