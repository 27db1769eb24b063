-- ===== src/Pipeline/Synchronizer.antt =====
-- buffering/synchronizer.py: `MultiCameraSynchronizer`. Clocks are nanoseconds. A packet is an
-- object: `object` is its identity, which `is not` compares. An emitted sequence of -1 is `none`.
pub mod Spread
pub mod Bundles
pub mod Repeats
use ai_intelligence_theft_de.Base.{
  ℕ, suc, ◌-◌, max, min, String, Bool, not, List, [], ◌∷◌, ◌++◌, map, Option, none, some, str_dec,
  ltb, ◌==◌, same, if◌then◌else◌, true, false, ◌&&◌, keep,
}
use ai_intelligence_theft_de.Base.Dict.{lookup, insert, remove}

-- What the synchronizer reads of a packet.
pub record Packet : Type 0 where
  pub object : ℕ
  pub camera_id : String
  pub sequence_number : ℕ
  pub monotonic_ns : ℕ

-- `_CameraClockState`
pub record ClockState : Type 0 where
  pub packet : Packet
  pub emitted_sequence : Option ℕ

pub record Bundle : Type 0 where
  pub bundle_id : ℕ
  pub packets : List Packet
  pub span : ℕ

pub record Synchronizer : Type 0 where
  pub camera_ids : List String
  pub tolerance : ℕ
  pub latest : List (String × ClockState)
  pub bundle_id : ℕ

-- `submit` returns nothing or a bundle, or raises: `max` has no value on an empty tuple of cameras.
pub data Submitted : Type 0 where
  nothing value_error : Submitted
  emits : Bundle → Submitted

-- The latest state of each camera, unless one has none.
unfoldable pub states_of : List String → List (String × ClockState) → Option (List ClockState)
states_of [] latest = some []
states_of (c ∷ cs) latest =
    let rest = states_of cs latest in
    elim (lookup str_dec c latest) [
      | none ↦ none
      | some state ↦ elim rest [ none ↦ none | some states ↦ some (state ∷ states) ]
    ]

abbrev pub packets_of : List ClockState → List Packet
packets_of [] = []
packets_of (s ∷ ss) = s.packet ∷ packets_of ss

unfoldable pub newest : ℕ → List Packet → ℕ
newest t [] = t
newest t (p ∷ ps) = newest (max t p.monotonic_ns) ps

unfoldable pub oldest : ℕ → List Packet → ℕ
oldest t [] = t
oldest t (p ∷ ps) = oldest (min t p.monotonic_ns) ps

abbrev pub is_emitted : ClockState → Bool
is_emitted s = elim s.emitted_sequence [ none ↦ false | some n ↦ n == s.packet.sequence_number ]

abbrev pub all_emitted : List ClockState → Bool
all_emitted [] = true
all_emitted (s ∷ ss) = is_emitted s && all_emitted ss

-- The loop that marks what was emitted.
unfoldable pub mark : List String → List (String × ClockState) → List (String × ClockState)
mark [] latest = latest
mark (c ∷ cs) latest = elim (lookup str_dec c latest) [
  | none ↦ mark cs latest
  | some s ↦
      mark cs
        (insert str_dec c (record s { emitted_sequence = some s.packet.sequence_number }) latest)
]

-- Submit after the packet was stored, on the states of all cameras.
unfoldable pub emit : Synchronizer → List ClockState → Synchronizer × Submitted
emit s [] = (s, value_error)
emit s (first ∷ rest) =
    let ps = packets_of rest in
    let t = first.packet.monotonic_ns in
    let span = newest t ps - oldest t ps in
    if ltb s.tolerance span
    then (s, nothing)
    else if all_emitted (first ∷ rest)
    then (s, nothing)
    else (
      record s { bundle_id = suc s.bundle_id; latest = mark s.camera_ids s.latest },
      emits (record { bundle_id = s.bundle_id; packets = first.packet ∷ ps; span = span }),
    )

abbrev emitted_before : Option ClockState → Option ℕ
emitted_before none = none
emitted_before (some state) = state.emitted_sequence

-- The packet that `submit` releases: the one it replaces, unless it is the same object.
unfoldable pub replaced : Synchronizer → Packet → Option Packet
replaced s p = elim (lookup str_dec p.camera_id s.latest) [
  | none ↦ none
  | some state ↦ if state.packet.object == p.object then none else some state.packet
]

unfoldable pub store : Synchronizer → Packet → Synchronizer
store s p = record s {
  latest =
      insert str_dec p.camera_id
        (record {
          packet = p;
          emitted_sequence = emitted_before (lookup str_dec p.camera_id s.latest);
        })
        s.latest;
}

unfoldable pub bundle_up : Synchronizer → Synchronizer × Submitted
bundle_up s = elim (states_of s.camera_ids s.latest) [
  | none ↦ (s, nothing)
  | some states ↦ emit s states
]

-- The new state, the answer, and the packet that is released.
unfoldable pub submit : Synchronizer → Packet → Synchronizer × Submitted × Option Packet
unfolding store
submit s p = let (s', answer) = bundle_up (store s p) in (s', answer, replaced s p)

-- The packet that is released, if any, is that of the state.
unfoldable pub remove_camera : Synchronizer → String → Synchronizer × Option ClockState
remove_camera s camera = (
  record s {
    latest = remove str_dec camera s.latest;
    camera_ids = keep (λ c. not (same c camera)) s.camera_ids;
  },
  lookup str_dec camera s.latest,
)

-- `close`, with the packets that it releases.
unfoldable pub close : Synchronizer → Synchronizer × List Packet
close s = (record s { latest = []; camera_ids = [] }, packets_of (map (λ e. e.1) s.latest))
