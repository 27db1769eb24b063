-- ===== src/Pipeline/Identity.antt =====
-- identity/service.py: `IdentityAssignmentService`. Times are microseconds; the clock is an argument.
-- The matches come from the identity store. `Score`, `Coord` and `Vector` stand for Python's floats
-- and numpy's embeddings, which are only carried along.
pub mod Expiry
pub mod Lifecycle
use ai_intelligence_theft_de.Base.{
  ℕ, ◌+◌, String, Bool, true, false, not, List, [], ◌∷◌, ◌++◌, Option, none, some, ltb, same,
  str_dec, pair_dec, ite, if◌then◌else◌,
}
use ai_intelligence_theft_de.Base.Int.{ℤ}
use ai_intelligence_theft_de.Base.Dict.{lookup, insert, remove_all, remove, keys_where}

pub data TrackState : Type 0 where
  pending assigned merged expired : TrackState

pub data EventType : Type 0 where
  created updated merges expires : EventType

-- Where a track was seen.
pub record Place (Coord : Type 0) : Type 0 where
  pub left : ℤ
  pub top : ℤ
  pub width : ℤ
  pub height : ℤ
  pub world_x : Option Coord
  pub world_y : Option Coord

pub record TrackedObject (Coord Score Vector : Type 0) : Type 0 where
  pub camera_id : String
  pub stream_name : String
  pub track_id : String
  pub place : Place Coord
  pub persistent_id : Option String
  pub persistent_id_state : TrackState
  pub similarity : Option Score
  pub embedding : Option Vector

pub record IdentityMatch (Score : Type 0) : Type 0 where
  pub identity_id : String
  pub matched_existing : Bool
  pub similarity : Option Score

-- `_TrackAssignmentState`
pub record Assignment (Coord : Type 0) : Type 0 where
  pub persistent_id : String
  pub stream_name : String
  pub local_track_id : String
  pub place : Place Coord
  pub last_seen : ℕ

pub record Event (Coord Score : Type 0) : Type 0 where
  pub event_type : EventType
  pub camera_id : String
  pub stream_name : String
  pub local_track_id : String
  pub persistent_id : String
  pub previous_persistent_id : Option String
  pub matched_existing : Bool
  pub similarity : Option Score
  pub occurred_at : ℕ
  pub place : Place Coord

-- `_track_assignments`, by camera and local track.
abbrev pub Assignments : Type 0 → Type 0
Assignments Coord = List ((String × String) × Assignment Coord)

-- What `_apply_matches` decides of one track: its state, the event and the identity that was left.
pub record Verdict : Type 0 where
  pub state : TrackState
  pub event_type : EventType
  pub previous_id : Option String

module _ {Coord Score Vector : Type 0} where
  -- The tracks that take part in `assign`, in order: those with an embedding.
  unfoldable pub requested :
      List (TrackedObject Coord Score Vector) → List (TrackedObject Coord Score Vector)
  requested [] = []
  requested (t ∷ ts) =
      let rest = requested ts in elim t.embedding [ none ↦ rest | some v ↦ t ∷ rest ]

module _ {Coord Score : Type 0} where
  unfoldable pub verdict : Option (Assignment Coord) → IdentityMatch Score → Verdict
  verdict none m = record {
    state = assigned;
    event_type = if m.matched_existing then updated else created;
    previous_id = none;
  }
  verdict (some previous) m =
      if not (same previous.persistent_id m.identity_id)
      then record { state = merged; event_type = merges; previous_id = some previous.persistent_id }
      else record { state = assigned; event_type = updated; previous_id = none }

  -- The event of an assignment that ends: `expire_stale` and `remove_camera` build the same one.
  unfoldable pub expiry : (String × String) × Assignment Coord → ℕ → Event Coord Score
  expiry ((camera, track), a) now = record {
    event_type = expires;
    camera_id = camera;
    stream_name = a.stream_name;
    local_track_id = a.local_track_id;
    persistent_id = a.persistent_id;
    previous_persistent_id = none;
    matched_existing = true;
    similarity = none;
    occurred_at = now;
    place = a.place;
  }

  -- The assignments that a test takes off, as events, and those that stay.
  unfoldable pub expiries :
      ((String × String) × Assignment Coord → Bool)
      → ℕ
      → Assignments Coord
      → List (Event Coord Score)
  expiries test now [] = []
  expiries test now (e ∷ m) =
      let rest = expiries test now m in if test e then expiry e now ∷ rest else rest

module _ {Coord : Type 0} where
  unfoldable pub keys_of :
      ((String × String) × Assignment Coord → Bool) → Assignments Coord → List (String × String)
  keys_of test [] = []
  keys_of test (e ∷ m) = let rest = keys_of test m in if test e then e.0 ∷ rest else rest

  -- `age_seconds < ttl` fails.
  abbrev pub is_stale : ℕ → ℕ → (String × String) × Assignment Coord → Bool
  is_stale ttl now e = not (ltb now (e.1.last_seen + ttl))

  abbrev pub is_of_camera : String → (String × String) × Assignment Coord → Bool
  is_of_camera camera e = same e.0.0 camera

module _ {Coord Score : Type 0} where
  unfoldable pub expire_stale :
      ℕ → ℕ → Assignments Coord → Assignments Coord × List (Event Coord Score)
  expire_stale ttl now m =
      (remove_all pair_dec (keys_of (is_stale ttl now) m) m, expiries (is_stale ttl now) now m)

  unfoldable pub remove_camera :
      String → ℕ → Assignments Coord → Assignments Coord × List (Event Coord Score)
  remove_camera camera now m = (
    remove_all pair_dec (keys_of (is_of_camera camera) m) m,
    expiries (is_of_camera camera) now m,
  )

module _ {Coord Score Vector : Type 0} where
  -- One round of the loop of `_apply_matches`: the assignments, the track and the event.
  unfoldable pub apply_match :
      ℕ
      → Assignments Coord
      → TrackedObject Coord Score Vector
      → IdentityMatch Score
      → Assignments Coord × TrackedObject Coord Score Vector × Event Coord Score
  apply_match now m t match =
      let key : String × String = (t.camera_id, t.track_id) in
      let v = verdict (lookup pair_dec key m) match in
      (
        insert pair_dec key
            (record {
              persistent_id = match.identity_id;
              stream_name = t.stream_name;
              local_track_id = t.track_id;
              place = t.place;
              last_seen = now;
            })
            m,
        record t {
          persistent_id = some match.identity_id;
          similarity = match.similarity;
          persistent_id_state = v.state;
        },
        record {
          event_type = v.event_type;
          camera_id = t.camera_id;
          stream_name = t.stream_name;
          local_track_id = t.track_id;
          persistent_id = match.identity_id;
          previous_persistent_id = v.previous_id;
          matched_existing = match.matched_existing;
          similarity = match.similarity;
          occurred_at = now;
          place = t.place;
        },
      )

  unfoldable pub apply_matches :
      ℕ
      → Assignments Coord
      → List (TrackedObject Coord Score Vector)
      → List (IdentityMatch Score)
      → Assignments Coord × List (TrackedObject Coord Score Vector) × List (Event Coord Score)
  apply_matches now m [] matches = (m, [], [])
  apply_matches now m (t ∷ ts) [] = (m, t ∷ ts, [])
  apply_matches now m (t ∷ ts) (match ∷ matches) =
      let (m', t', event) = apply_match now m t match in
      let (m'', ts', events) = apply_matches now m' ts matches in (m'', t' ∷ ts', event ∷ events)

  -- `assign`, where `resolve` is `batch_resolve` of the identity store; `now` and `later` are the
  -- clock of `_apply_matches` and of `expire_stale`.
  unfoldable pub assign :
      (List (TrackedObject Coord Score Vector) → List (IdentityMatch Score))
      → ℕ
      → ℕ
      → ℕ
      → Assignments Coord
      → List (TrackedObject Coord Score Vector)
      → Assignments Coord × List (Event Coord Score)
  assign resolve ttl now later m tracks =
      let asked = requested tracks in
      let (m', _, events) =
        apply_matches now m asked (elim asked [ [] ↦ [] | t ∷ ts ↦ resolve (t ∷ ts) ]) in
      let (m'', gone) = expire_stale ttl later m' in (m'', events ++ gone)
