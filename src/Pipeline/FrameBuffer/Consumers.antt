-- ===== src/Pipeline/FrameBuffer/Consumers.antt =====
-- The packets that consumers of `FrameBuffer` take and release.
use ai_intelligence_theft_de.Base.{◌≡◌, refl, subst, List, [], ◌∷◌, ◌++◌, some, arith}
use ai_intelligence_theft_de.Pipeline.Packets.{FramePacket}
use ai_intelligence_theft_de.Pipeline.FrameBuffer.Leases.{
  Backed, Backed-move, Backed-unmove, Backed-release,
}
use ai_intelligence_theft_de.Pipeline.FrameBuffer.{FrameBuffer, release, get}
use ai_intelligence_theft_de.Pipeline.FrameBuffer.Conservation.{IsValid}

module _ {Frame : Type 0} where
  -- A packet that a consumer takes from a valid buffer keeps its slot and its pixels: the buffer is valid
  -- with the packet among those that are held.
  pub get-IsValid :
      (b : FrameBuffer Frame) (held : List (FramePacket Frame)) (p : FramePacket Frame)
      → IsValid b held
      → (get b).1 ≡ some p
      → IsValid (get b).0 (p ∷ held)
  unfolding get
  get-IsValid b held p v h = go b.queue refl
    where
      go : (queue : List (FramePacket Frame)) → b.queue ≡ queue → IsValid (get b).0 (p ∷ held)
      go [] e = absurd (ground arith)
      go (q ∷ qs) e =
          let same : q ≡ p = ground arith in
          rw (e, get)
            (record {
              backed = Backed-move b.store qs p held (
                  subst (λ x. Backed b.store (x ∷ (qs ++ held))) same
                    (subst (λ (l : List (FramePacket Frame)). Backed b.store (l ++ held)) e
                      v.backed));
              bounded = ground arith;
              positive = v.positive;
            })

  -- When a consumer releases a packet that it holds, the packet's slot is given back and the buffer is
  -- valid with the other packets.
  release_held-IsValid :
      (b : FrameBuffer Frame) (held : List (FramePacket Frame)) (p : FramePacket Frame)
      → IsValid b (p ∷ held)
      → IsValid (release b p) held
  unfolding release
  release_held-IsValid b held p v = record {
    backed =
        Backed-release b.store p (b.queue ++ held) (Backed-unmove b.store b.queue p held v.backed);
    bounded = v.bounded;
    positive = v.positive;
  }
