-- ===== src/Pipeline/Synchronizer/Bundles.antt =====
-- When `submit` emits a bundle, and what stands in it.
use ai_intelligence_theft_de.Base.{
  ◌-◌, ◌≡◌, ◌↔◌, subst, refl, String, false, List, [], ◌∷◌, some, arith, str_dec, Option-cases, inl,
  inr,
}
use ai_intelligence_theft_de.Base.Dict.{lookup}
use ai_intelligence_theft_de.Pipeline.Synchronizer.{
  Packet, ClockState, Bundle, Synchronizer, emits, states_of, packets_of, newest, oldest,
  all_emitted, emit, store, bundle_up, submit,
}
use ai_intelligence_theft_de.Pipeline.Synchronizer.Spread.{
  IsAligned, IsAligned-of_span, span_of_aligned,
}

-- The packets are the latest ones of the cameras, in the order of the cameras.
abbrev pub AreLatest : List (String × ClockState) → List String → List Packet → Type 0
AreLatest latest [] [] = Unit
AreLatest latest [] (p ∷ ps) = ⊥
AreLatest latest (c ∷ cs) [] = ⊥
AreLatest latest (c ∷ cs) (p ∷ ps) =
    ((s : ClockState) × (lookup str_dec c latest ≡ some s) × (s.packet ≡ p))
    × AreLatest latest cs ps

states_of-AreLatest :
    (cs : List String) (latest : List (String × ClockState)) (ss : List ClockState)
    → states_of cs latest ≡ some ss
    → AreLatest latest cs (packets_of ss)
unfolding states_of
states_of-AreLatest [] latest [] h = tt
states_of-AreLatest [] latest (s ∷ ss) h = absurd (ground arith)
states_of-AreLatest (c ∷ cs) latest [] h = absurd (ground arith)
states_of-AreLatest (c ∷ cs) latest (s ∷ ss) h =
    ((s, ground arith, refl), states_of-AreLatest cs latest ss (ground arith))

-- What a bundle `b` is that is emitted in a state `s`: it takes the next number and holds the latest
-- packet of every camera, in the order of the cameras; these lie within the tolerance of each
-- other, the span is the distance of the outermost, and not all of them were emitted before.
pub record Emission (s : Synchronizer) (b : Bundle) : Type 0 where
  pub first : ClockState
  pub rest : List ClockState
  pub present : states_of s.camera_ids s.latest ≡ some (first ∷ rest)
  pub latest : AreLatest s.latest s.camera_ids b.packets
  pub packets : b.packets ≡ packets_of (first ∷ rest)
  pub span :
      let t = first.packet.monotonic_ns in
      b.span ≡ newest t (packets_of rest) - oldest t (packets_of rest)
  pub number : b.bundle_id ≡ s.bundle_id
  pub aligned : IsAligned s.tolerance first.packet (packets_of rest)
  pub news : all_emitted (first ∷ rest) ≡ false

emit_emits :
    (s : Synchronizer) (ss : List ClockState) (b : Bundle)
    → states_of s.camera_ids s.latest ≡ some ss
    → (emit s ss).1 ≡ emits b
    → Emission s b
unfolding emit
emit_emits s [] b e h = absurd (ground arith)
emit_emits s (first ∷ rest) b e h = record {
  first = first;
  rest = rest;
  present = e;
  latest =
      subst (AreLatest s.latest s.camera_ids) (ground arith)
        (states_of-AreLatest s.camera_ids s.latest (first ∷ rest) e);
  packets = ground arith;
  span = ground arith;
  number = ground arith;
  aligned = IsAligned-of_span s.tolerance first.packet (packets_of rest) (ground arith);
  news = ground arith;
}

emits_of_Emission : (s : Synchronizer) (b : Bundle) → Emission s b → (bundle_up s).1 ≡ emits b
unfolding emit bundle_up
emits_of_Emission s b m =
    let fits = span_of_aligned s.tolerance m.first.packet (packets_of m.rest) m.aligned in
    rw (m.present, bundle_up) (ground arith)

Emission-of_emits : (s : Synchronizer) (b : Bundle) → (bundle_up s).1 ≡ emits b → Emission s b
unfolding bundle_up
Emission-of_emits s b h = elim (Option-cases (states_of s.camera_ids s.latest)) [
  | inl e ↦ absurd (ground arith)
  | inr (ss, e) ↦ emit_emits s ss b e (rw (e, bundle_up) at h)
]

-- `submit` emits a bundle exactly when the packet, once stored, completes such an emission; so
-- with a camera missing, packets too far apart or nothing new it emits none.
pub submit_iff :
    (s : Synchronizer) (p : Packet) (b : Bundle)
    → ((submit s p).1 ≡ emits b) ↔ Emission (store s p) b
unfolding submit
submit_iff s p b = (Emission-of_emits (store s p) b, emits_of_Emission (store s p) b)
