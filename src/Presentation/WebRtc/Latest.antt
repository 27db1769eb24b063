-- ===== src/Presentation/WebRtc/Latest.antt =====
-- The frames that the viewers of a camera are sent, after any calls.
use ai_intelligence_theft_de.Base.{
  ℕ, ◌≤◌, ◌<◌, ◌≡◌, refl, sym, ◌∙◌, ◌⊎◌, inl, inr, is_some, String, true, List, [], ◌∷◌, ◌++◌,
  Option, none, some, arith, str_dec, ℕ_discrete, or_else, ite, if◌then◌else◌,
}
use ai_intelligence_theft_de.Base.Dict.{lookup, insert, holds, lookup-insert}
use ai_intelligence_theft_de.Presentation.WebRtc.{
  Registry, erase, seed, init, tracks_of, create_track, remove_track, push_each, push_frame, recv,
  close,
}

holds-erase :
    (t u : ℕ) (ts : List ℕ) → holds ℕ_discrete t (erase u ts) ≡ true → holds ℕ_discrete t ts ≡ true
unfolding erase
holds-erase t u [] h = h
holds-erase t u (x ∷ ts) h = ground (arith, holds-erase t u ts)

holds_snoc :
    (t u : ℕ) (ts : List ℕ)
    → holds ℕ_discrete t (ts ++ u ∷ []) ≡ true
    → (holds ℕ_discrete t ts ≡ true) ⊎ (t ≡ u)
holds_snoc t u [] h = ground arith
holds_snoc t u (x ∷ ts) h = ground (arith, holds_snoc t u ts)

pub data Call (Frame : Type 0) : Type 0 where
  creates : String → Call Frame
  removes : String → ℕ → Call Frame
  pushes : String → Frame → Call Frame
  closes : Call Frame

module _ {Frame : Type 0} where
  lookup-push_each :
      (q : ℕ) (ts : List ℕ) (f : Frame) (latest : List (ℕ × Frame))
      → lookup ℕ_discrete q (push_each ts f latest)
        ≡ (if holds ℕ_discrete q ts then some f else lookup ℕ_discrete q latest)
  unfolding push_each
  lookup-push_each q [] f latest = refl
  lookup-push_each q (t ∷ ts) f latest = ground (
    arith,
    lookup-push_each q ts f (insert ℕ_discrete t f latest),
    lookup-insert ℕ_discrete t q f latest,
  )

  unfoldable pub step : Registry Frame → Call Frame → Registry Frame
  step r (creates camera) = (create_track r camera).0
  step r (removes camera t) = remove_track r camera t
  step r (pushes camera frame) = push_frame r camera frame
  step r closes = close r

  unfoldable pub run : Registry Frame → List (Call Frame) → Registry Frame
  run r [] = r
  run r (c ∷ cs) = run (step r c) cs

  abbrev pub Views : Registry Frame → String → ℕ → Type 0
  Views r camera t = holds ℕ_discrete t (tracks_of r camera) ≡ true

  record IsFresh (r : Registry Frame) : Type 0 where
    newest :
        (c : String) (t : ℕ)
        → Views r c t
        → lookup ℕ_discrete t r.latest ≡ lookup str_dec c r.last_frames
    below : (c : String) (t : ℕ) → Views r c t → t < r.next_track
    single : (c d : String) (t : ℕ) → Views r c t → Views r d t → c ≡ d
    unborn : (t : ℕ) → r.next_track ≤ t → lookup ℕ_discrete t r.latest ≡ none

  push_frame-IsFresh :
      (r : Registry Frame) (c : String) (f : Frame) → IsFresh r → IsFresh (push_frame r c f)
  unfolding push_frame
  push_frame-IsFresh r c f v = record {
    newest = λ d t h. ground (
      arith,
      v.newest d t h,
      v.single c d t,
      lookup-push_each t (tracks_of r c) f r.latest,
      lookup-insert str_dec c d f r.last_frames,
    );
    below = v.below;
    single = v.single;
    unborn = λ t h.
        ground (arith, v.unborn t h, v.below c t, lookup-push_each t (tracks_of r c) f r.latest);
  }

  old_view :
      (r : Registry Frame) (c : String) (u : ℕ) (d : String) (t : ℕ)
      → Views (remove_track r c u) d t
      → Views r d t
  unfolding remove_track
  old_view r c u d t h = ground (
    arith,
    lookup-insert str_dec c d (erase u (tracks_of r c)) r.tracks,
    holds-erase t u (tracks_of r c),
  )

  remove_track-IsFresh :
      (r : Registry Frame) (c : String) (u : ℕ) → IsFresh r → IsFresh (remove_track r c u)
  unfolding remove_track
  remove_track-IsFresh r c u v =
      let old : (d : String) (t : ℕ) → Views (remove_track r c u) d t → Views r d t =
        λ d t h. old_view r c u d t h in
      record {
        newest = λ d t h. v.newest d t (old d t h);
        below = λ d t h. v.below d t (old d t h);
        single = λ d e t h k. v.single d e t (old d t h) (old e t k);
        unborn = v.unborn;
      }

  created_view :
      (r : Registry Frame) (c d : String) (t : ℕ)
      → Views (create_track r c).0 d t
      → (Views r d t) ⊎ ((d ≡ c) × (t ≡ r.next_track))
  unfolding create_track
  created_view r c d t h = ground (
    arith,
    lookup-insert str_dec c d (tracks_of r c ++ r.next_track ∷ []) r.tracks,
    holds_snoc t r.next_track (tracks_of r c),
  )

  lookup-seed :
      (latest : List (ℕ × Frame)) (t q : ℕ) (o : Option Frame)
      → lookup ℕ_discrete q (seed latest t o) ≡ (
          if is_some o
          then (ite (ℕ_discrete q t) o (lookup ℕ_discrete q latest))
          else lookup ℕ_discrete q latest)
  lookup-seed latest t q none = refl
  lookup-seed latest t q (some f) = lookup-insert ℕ_discrete t q f latest

  create_track-IsFresh :
      (r : Registry Frame) (c : String) → IsFresh r → IsFresh (create_track r c).0
  unfolding create_track
  create_track-IsFresh r c v = record {
    newest = λ d t h. elim (created_view r c d t h) [
      | inl old ↦ ground (
        arith,
        v.newest d t old,
        v.below d t old,
        lookup-seed r.latest r.next_track t (lookup str_dec c r.last_frames),
      )
      | inr (e, k) ↦
          ground (
            arith,
            v.unborn t,
            lookup-seed r.latest r.next_track t (lookup str_dec c r.last_frames),
          )
    ];
    below = λ d t h. elim (created_view r c d t h) [
      | inl old ↦ omega (arith, v.below d t old)
      | inr (e, k) ↦ omega arith
    ];
    single = λ d e t h k. elim (created_view r c d t h) [
      | inl old ↦ elim (created_view r c e t k) [
        | inl old' ↦ v.single d e t old old'
        | inr (q, m) ↦ absurd (omega (arith, v.below d t old))
      ]
      | inr (p, n) ↦ elim (created_view r c e t k) [
        | inl old' ↦ absurd (omega (arith, v.below e t old'))
        | inr (q, m) ↦ p ∙ sym q
      ]
    ];
    unborn = λ t h.
        ground
          (arith, v.unborn t, lookup-seed r.latest r.next_track t (lookup str_dec c r.last_frames));
  }

  close-IsFresh : (r : Registry Frame) → IsFresh r → IsFresh (close r)
  unfolding close lookup
  close-IsFresh r v = record {
    newest = λ c t h. absurd (ground arith);
    below = λ c t h. absurd (ground arith);
    single = λ c d t h k. absurd (ground arith);
    unborn = v.unborn;
  }

  run-IsFresh : (r : Registry Frame) (cs : List (Call Frame)) → IsFresh r → IsFresh (run r cs)
  unfolding run step
  run-IsFresh r [] v = v
  run-IsFresh r (creates c ∷ cs) v =
      run-IsFresh (create_track r c).0 cs (create_track-IsFresh r c v)
  run-IsFresh r (removes c t ∷ cs) v =
      run-IsFresh (remove_track r c t) cs (remove_track-IsFresh r c t v)
  run-IsFresh r (pushes c f ∷ cs) v = run-IsFresh (push_frame r c f) cs (push_frame-IsFresh r c f v)
  run-IsFresh r (closes ∷ cs) v = run-IsFresh (close r) cs (close-IsFresh r v)

  init-IsFresh : IsFresh (init {Frame = Frame})
  unfolding init lookup
  init-IsFresh = record {
    newest = λ c t h. absurd (ground arith);
    below = λ c t h. absurd (ground arith);
    single = λ c d t h k. absurd (ground arith);
    unborn = λ t h. refl;
  }

  -- The newest frame that was pushed for a camera since the last `close`.
  unfoldable pub newest_frame : String → Option Frame → List (Call Frame) → Option Frame
  newest_frame c f [] = f
  newest_frame c f (creates d ∷ cs) = newest_frame c f cs
  newest_frame c f (removes d t ∷ cs) = newest_frame c f cs
  newest_frame c f (pushes d g ∷ cs) = newest_frame c (ite (str_dec c d) (some g) f) cs
  newest_frame c f (closes ∷ cs) = newest_frame c none cs

  last_frames-run :
      (r : Registry Frame) (cs : List (Call Frame)) (c : String)
      → lookup str_dec c (run r cs).last_frames ≡ newest_frame c (lookup str_dec c r.last_frames) cs
  unfolding run step create_track remove_track push_frame close newest_frame lookup
  last_frames-run r [] c = refl
  last_frames-run r (creates d ∷ cs) c = last_frames-run (create_track r d).0 cs c
  last_frames-run r (removes d t ∷ cs) c = last_frames-run (remove_track r d t) cs c
  last_frames-run r (pushes d f ∷ cs) c =
      rw (← lookup-insert str_dec d c f r.last_frames) (last_frames-run (push_frame r d f) cs c)
  last_frames-run r (closes ∷ cs) c = last_frames-run (close r) cs c

  -- After any history, what a live track of a camera encodes is the newest frame that was pushed
  -- for the camera since the registry was last closed, and the black frame if there is none; in
  -- particular a new track is up to date before the next push.
  pub recv-run :
      (cs : List (Call Frame)) (black : Frame) (c : String) (t : ℕ)
      → Views (run init cs) c t
      → recv (run init cs) black t ≡ or_else (newest_frame c none cs) black
  unfolding recv init lookup
  recv-run cs black c t h =
      rw ((run-IsFresh init cs init-IsFresh).newest c t h, last_frames-run init cs c)
