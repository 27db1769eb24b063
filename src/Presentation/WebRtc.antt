-- ===== src/Presentation/WebRtc.antt =====
-- webrtc/registry.py and webrtc/video_track.py: the tracks of the viewers, and the latest frame of
-- each. A track is an object, here a number, whose frame is kept in `latest`.
pub mod Latest
use ai_intelligence_theft_de.Base.{
  ℕ, suc, String, List, [], ◌∷◌, ◌++◌, Option, none, some, str_dec, ℕ_discrete, or_else, ite,
}
use ai_intelligence_theft_de.Base.Dict.{lookup, insert}

pub record Registry (Frame : Type 0) : Type 0 where
  pub tracks : List (String × List ℕ)
  pub last_frames : List (String × Frame)
  pub latest : List (ℕ × Frame)
  pub next_track : ℕ

-- `list.remove`: the first occurrence; the `ValueError` of a missing one is caught.
unfoldable pub erase : ℕ → List ℕ → List ℕ
erase t [] = []
erase t (u ∷ us) = ite (ℕ_discrete t u) us (u ∷ erase t us)

module _ {Frame : Type 0} where
  unfoldable pub init : Registry Frame
  init = record { tracks = []; last_frames = []; latest = []; next_track = 0 }

  -- `self._tracks.get(camera_id, [])`
  abbrev pub tracks_of : Registry Frame → String → List ℕ
  tracks_of r camera = or_else (lookup str_dec camera r.tracks) []

  abbrev seed : List (ℕ × Frame) → ℕ → Option Frame → List (ℕ × Frame)
  seed latest t none = latest
  seed latest t (some frame) = insert ℕ_discrete t frame latest

  unfoldable pub create_track : Registry Frame → String → Registry Frame × ℕ
  create_track r camera = (
    record r {
      tracks = insert str_dec camera (tracks_of r camera ++ r.next_track ∷ []) r.tracks;
      latest = seed r.latest r.next_track (lookup str_dec camera r.last_frames);
      next_track = suc r.next_track;
    },
    r.next_track,
  )

  unfoldable pub remove_track : Registry Frame → String → ℕ → Registry Frame
  remove_track r camera t = record r {
    tracks = insert str_dec camera (erase t (tracks_of r camera)) r.tracks;
  }

  -- `track.push_frame` on every track of the snapshot.
  unfoldable pub push_each : List ℕ → Frame → List (ℕ × Frame) → List (ℕ × Frame)
  push_each [] frame latest = latest
  push_each (t ∷ ts) frame latest = push_each ts frame (insert ℕ_discrete t frame latest)

  unfoldable pub push_frame : Registry Frame → String → Frame → Registry Frame
  push_frame r camera frame = record r {
    last_frames = insert str_dec camera frame r.last_frames;
    latest = push_each (tracks_of r camera) frame r.latest;
  }

  -- The frame that `recv` encodes, `black` before the first one.
  unfoldable pub recv : Registry Frame → Frame → ℕ → Frame
  recv r black t = or_else (lookup ℕ_discrete t r.latest) black

  unfoldable pub close : Registry Frame → Registry Frame
  close r = record r { tracks = []; last_frames = [] }
