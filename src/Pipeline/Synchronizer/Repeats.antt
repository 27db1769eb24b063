-- ===== src/Pipeline/Synchronizer/Repeats.antt =====
-- Synchronizer: a packet that is submitted again.
use ai_intelligence_theft_de.Base.{
  suc, ◌≡◌, ◌≢◌, refl, ap, ◌∙◌, String, true, List, [], ◌∷◌, Option, none, some, arith, all,
  str_dec, sym, subst, ◌⊎◌, Option-cases, inl, inr, if◌then◌else◌,
}
use ai_intelligence_theft_de.Base.Dict.{lookup, insert, lookup-insert, holds}
use ai_intelligence_theft_de.Pipeline.Synchronizer.{
  Packet, ClockState, Bundle, Synchronizer, Submitted, nothing, emits, states_of, packets_of,
  all_emitted, mark, emit, emitted_before, bundle_up, store, submit,
}

abbrev marked : ClockState → ClockState
marked s = record s { emitted_sequence = some s.packet.sequence_number }

abbrev marked? : Option ClockState → Option ClockState
marked? none = none
marked? (some s) = some (marked s)

abbrev marked_all : List ClockState → List ClockState
marked_all [] = []
marked_all (s ∷ ss) = marked s ∷ marked_all ss

lookup-mark :
    (cs : List String) (latest : List (String × ClockState)) (q : String)
    → lookup str_dec q (mark cs latest)
      ≡ (if holds str_dec q cs then marked? (lookup str_dec q latest) else lookup str_dec q latest)
unfolding mark
lookup-mark [] latest q = refl
lookup-mark (c ∷ cs) latest q = elim (Option-cases (lookup str_dec c latest)) [
  | inl n ↦ ground (arith, lookup-mark cs latest q)
  | inr found ↦ ground (
    arith,
    lookup-mark cs (insert str_dec c (marked found.0) latest) q,
    lookup-insert str_dec c q (marked found.0) latest,
  )
]

all-holds-cons :
    (c : String) (cs ds : List String)
    → all (λ d. holds str_dec d cs) ds ≡ true
    → all (λ d. holds str_dec d (c ∷ cs)) ds ≡ true
all-holds-cons c cs [] h = refl
all-holds-cons c cs (d ∷ ds) h = ground (arith, all-holds-cons c cs ds)

all-holds : (cs : List String) → all (λ d. holds str_dec d cs) cs ≡ true
all-holds [] = refl
all-holds (c ∷ cs) = ground (arith, all-holds-cons c cs cs (all-holds cs))

states_of-mark :
    (cs ds : List String) (latest : List (String × ClockState)) (ss : List ClockState)
    → all (λ d. holds str_dec d cs) ds ≡ true
    → states_of ds latest ≡ some ss
    → states_of ds (mark cs latest) ≡ some (marked_all ss)
unfolding states_of
states_of-mark cs [] latest [] h e = refl
states_of-mark cs [] latest (s ∷ ss) h e = absurd (ground arith)
states_of-mark cs (d ∷ ds) latest [] h e = absurd (ground arith)
states_of-mark cs (d ∷ ds) latest (s ∷ ss) h e =
    ground (arith, states_of-mark cs ds latest ss, lookup-mark cs latest d)

packets_of-marked_all : (ss : List ClockState) → packets_of (marked_all ss) ≡ packets_of ss
packets_of-marked_all [] = refl
packets_of-marked_all (s ∷ ss) = ap (λ ps. s.packet ∷ ps) (packets_of-marked_all ss)

all_emitted-marked_all : (ss : List ClockState) → all_emitted (marked_all ss) ≡ true
all_emitted-marked_all [] = refl
all_emitted-marked_all (s ∷ ss) = ground (arith, all_emitted-marked_all ss)

after_emission : Synchronizer → Synchronizer
after_emission s = record s { latest = mark s.camera_ids s.latest; bundle_id = suc s.bundle_id }

emit-after_emission :
    (s : Synchronizer) (first : ClockState) (rest : List ClockState) (b : Bundle)
    → (emit s (first ∷ rest)).1 ≡ emits b
    → (emit s (first ∷ rest)).0 ≡ after_emission s
unfolding emit after_emission
emit-after_emission s first rest b h = ground arith

emit-emitted :
    (s : Synchronizer) (first : ClockState) (rest : List ClockState)
    → all_emitted (first ∷ rest) ≡ true
    → emit s (first ∷ rest) ≡ (s, nothing)
unfolding emit
emit-emitted s first rest h = ground arith

emit-packets :
    (s : Synchronizer) (first : ClockState) (rest : List ClockState) (b : Bundle)
    → (emit s (first ∷ rest)).1 ≡ emits b
    → b.packets ≡ packets_of (first ∷ rest)
unfolding emit
emit-packets s first rest b h = grind arith

states_of-same :
    (ds : List String) (m m' : List (String × ClockState))
    → ((q : String) → holds str_dec q ds ≡ true → lookup str_dec q m ≡ lookup str_dec q m')
    → states_of ds m ≡ states_of ds m'
unfolding states_of
states_of-same [] m m' f = refl
states_of-same (d ∷ ds) m m' f =
    let here : lookup str_dec d m ≡ lookup str_dec d m' = f d (ground arith) in
    let there : states_of ds m ≡ states_of ds m' =
      states_of-same ds m m' (λ q h. f q (ground arith)) in
    ground arith

no_cameras : (s : Synchronizer) (b : Bundle) → (emit s []).1 ≢ emits b
unfolding emit
no_cameras s b h = ground arith

bundle_up-emits :
    (s : Synchronizer) (b : Bundle)
    → (bundle_up s).1 ≡ emits b
    → (first : ClockState) × (rest : List ClockState) × (states_of s.camera_ids s.latest
        ≡ some (first ∷ rest))
      × (b.packets ≡ packets_of (first ∷ rest))
      × ((bundle_up s).0 ≡ after_emission s)
unfolding bundle_up
bundle_up-emits s b h = elim (Option-cases (states_of s.camera_ids s.latest)) [
  | inl n ↦ absurd (ground arith)
  | inr found ↦ go found.0 found.1
]
  where
    go :
        (ss : List ClockState)
        → states_of s.camera_ids s.latest ≡ some ss
        → (first : ClockState) × (rest : List ClockState) × (states_of s.camera_ids s.latest
            ≡ some (first ∷ rest))
          × (b.packets ≡ packets_of (first ∷ rest))
          × ((bundle_up s).0 ≡ after_emission s)
    go [] e = absurd (no_cameras s b (rw (e, bundle_up) at h))
    go (first ∷ rest) e = (
      first,
      rest,
      e,
      emit-packets s first rest b (rw (e, bundle_up) at h),
      rw (e, bundle_up) (emit-after_emission s first rest b (rw (e, bundle_up) at h)),
    )

-- Each packet stands under its camera.
abbrev pub IsKeyed : List (String × ClockState) → Type 0
IsKeyed latest =
    (c : String) (state : ClockState)
    → lookup str_dec c latest ≡ some state
    → state.packet.camera_id ≡ c

-- One of the packets.
abbrev pub Among : Packet → List Packet → Type 0
Among q [] = ⊥
Among q (p ∷ ps) = (q ≡ p) ⊎ Among q ps

abbrev pub AllAmong : List Packet → List Packet → Type 0
AllAmong [] ps = Unit
AllAmong (q ∷ qs) ps = Among q ps × AllAmong qs ps

store-IsKeyed : (s : Synchronizer) (p : Packet) → IsKeyed s.latest → IsKeyed (store s p).latest
unfolding store
store-IsKeyed s p k c state h =
    let v : ClockState = record {
      packet = p;
      emitted_sequence = emitted_before (lookup str_dec p.camera_id s.latest);
    } in
    elim (str_dec c p.camera_id) [
      | yes e ↦ ground (arith, lookup-insert str_dec p.camera_id c v s.latest, e)
      | no n ↦ k c state (ground (arith, lookup-insert str_dec p.camera_id c v s.latest, n))
    ]

mark-IsKeyed :
    (cs : List String) (latest : List (String × ClockState))
    → IsKeyed latest
    → IsKeyed (mark cs latest)
mark-IsKeyed cs latest k c state h = elim (Option-cases (lookup str_dec c latest)) [
  | inl n ↦ absurd (ground (arith, lookup-mark cs latest c, n))
  | inr found ↦
      let same : state.packet ≡ found.0.packet = ground (arith, lookup-mark cs latest c, found.1) in
      ap (λ (p : Packet). p.camera_id) same ∙ k c found.0 found.1
]

-- A packet of the states is the one that its camera stores.
stored :
    (q : Packet) (ds : List String) (latest : List (String × ClockState)) (ss : List ClockState)
    → IsKeyed latest
    → states_of ds latest ≡ some ss
    → Among q (packets_of ss)
    → (state : ClockState) × (lookup str_dec q.camera_id latest ≡ some state) × (state.packet ≡ q)
unfolding states_of
stored q [] latest [] k e m = absurd m
stored q [] latest (s ∷ ss) k e m = absurd (ground arith)
stored q (d ∷ ds) latest [] k e m = absurd (ground arith)
stored q (d ∷ ds) latest (s ∷ ss) k e (inl same) =
    let here : lookup str_dec d latest ≡ some s = ground arith in
    (
      s,
      ap (λ (p : Packet). lookup str_dec p.camera_id latest) same
          ∙ ap (λ c. lookup str_dec c latest) (k d s here)
          ∙ here,
      sym same,
    )
stored q (d ∷ ds) latest (s ∷ ss) k e (inr m) = stored q ds latest ss k (ground arith) m

-- A packet that is stored already changes nothing.
lookup-again :
    (s : Synchronizer) (q : Packet) (state : ClockState)
    → lookup str_dec q.camera_id s.latest ≡ some state
    → state.packet ≡ q
    → (c : String) → lookup str_dec c (store s q).latest ≡ lookup str_dec c s.latest
unfolding store
lookup-again s q state h same c =
    let v : ClockState = record {
      packet = q;
      emitted_sequence = emitted_before (lookup str_dec q.camera_id s.latest);
    } in
    let e : some v ≡ some state =
      ap (λ o. some (record { packet = q; emitted_sequence = emitted_before o })) h
      ∙ ap (λ (p : Packet). some (record { packet = p; emitted_sequence = state.emitted_sequence }))
          (sym same) in
    elim (str_dec c q.camera_id) [
      | yes i ↦ ground (arith, lookup-insert str_dec q.camera_id c v s.latest, i, h, e)
      | no n ↦ ground (arith, lookup-insert str_dec q.camera_id c v s.latest, n)
    ]

-- The packets of a bundle were all emitted.
record IsQuiet (packets : List Packet) (s : Synchronizer) : Type 0 where
  first : ClockState
  rest : List ClockState
  states : states_of s.camera_ids s.latest ≡ some (first ∷ rest)
  emitted : all_emitted (first ∷ rest) ≡ true
  same : packets_of (first ∷ rest) ≡ packets
  keyed : IsKeyed s.latest

bundle_up-quiet :
    (packets : List Packet) (s : Synchronizer) → IsQuiet packets s → bundle_up s ≡ (s, nothing)
unfolding bundle_up
bundle_up-quiet packets s h = rw (h.states, bundle_up) (emit-emitted s h.first h.rest h.emitted)

submit-IsQuiet :
    (s : Synchronizer) (q : Packet) (packets : List Packet)
    → IsQuiet packets s
    → Among q packets
    → IsQuiet packets (submit s q).0 × ((submit s q).1 ≡ nothing)
unfolding submit
submit-IsQuiet s q packets h m =
    let found =
      stored q s.camera_ids s.latest (h.first ∷ h.rest) h.keyed h.states
        (subst (Among q) (sym h.same) m) in
    let again : (c : String) → lookup str_dec c (store s q).latest ≡ lookup str_dec c s.latest =
      lookup-again s q found.0 found.1 found.2 in
    let states : states_of s.camera_ids (store s q).latest ≡ some (h.first ∷ h.rest) =
      states_of-same s.camera_ids _ _ (λ c _. again c) ∙ h.states in
    let quiet : IsQuiet packets (store s q) = record {
      first = h.first;
      rest = h.rest;
      states = states;
      emitted = h.emitted;
      same = h.same;
      keyed = λ c state e. h.keyed c state (sym (again c) ∙ e);
    } in
    subst (λ (x : Synchronizer × Submitted). IsQuiet packets x.0 × (x.1 ≡ nothing))
      (sym (bundle_up-quiet packets (store s q) quiet)) (quiet, refl)

-- `submit` for each packet.
unfoldable pub submit_all : Synchronizer → List Packet → Synchronizer
submit_all s [] = s
submit_all s (p ∷ ps) = submit_all (submit s p).0 ps

submit_all-IsQuiet :
    (s : Synchronizer) (qs packets : List Packet)
    → IsQuiet packets s
    → AllAmong qs packets
    → IsQuiet packets (submit_all s qs)
unfolding submit_all
submit_all-IsQuiet s [] packets h m = h
submit_all-IsQuiet s (q ∷ qs) packets h m =
    submit_all-IsQuiet (submit s q).0 qs packets (submit-IsQuiet s q packets h m.0).0 m.1

emits-IsQuiet :
    (s : Synchronizer) (p : Packet) (b : Bundle)
    → IsKeyed s.latest
    → (submit s p).1 ≡ emits b
    → IsQuiet b.packets (submit s p).0
unfolding submit after_emission
emits-IsQuiet s p b k h =
    let (first, rest, e, packets, after) = bundle_up-emits (store s p) b h in
    subst (IsQuiet b.packets) (sym after) (record {
      first = marked first;
      rest = marked_all rest;
      states =
          states_of-mark s.camera_ids s.camera_ids (store s p).latest (first ∷ rest)
            (all-holds s.camera_ids) e;
      emitted = all_emitted-marked_all (first ∷ rest);
      same = packets_of-marked_all (first ∷ rest) ∙ sym packets;
      keyed = mark-IsKeyed s.camera_ids (store s p).latest (store-IsKeyed s p k);
    })

-- Once a bundle is emitted, its packets may be submitted again any number of times and in any order:
-- as long as no other packet comes in, none of them completes a bundle. Before, each stored packet
-- stands under its camera.
pub submit-once :
    (s : Synchronizer) (p q : Packet) (b : Bundle) (between : List Packet)
    → IsKeyed s.latest
    → (submit s p).1 ≡ emits b
    → AllAmong between b.packets
    → Among q b.packets
    → (submit (submit_all (submit s p).0 between) q).1 ≡ nothing
submit-once s p q b between k h m n =
    (submit-IsQuiet (submit_all (submit s p).0 between) q b.packets
      (submit_all-IsQuiet (submit s p).0 between b.packets (emits-IsQuiet s p b k h) m) n).1
