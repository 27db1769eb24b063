-- ===== src/Pipeline/Identity/Lifecycle.antt =====
-- The events of identity/service.py, read in order.
use ai_intelligence_theft_de.Base.{
  ℕ, String, Bool, List, [], ◌∷◌, ◌++◌, Option, none, some, pair_dec, if◌then◌else◌, ite, ◌≡◌, refl,
  arith, sym, ap, ◌∙◌,
}
use ai_intelligence_theft_de.Base.Dict.{
  lookup, insert, remove_all, holds, Distinct, lookup-insert, insert-Distinct, lookup-remove_all,
}
use ai_intelligence_theft_de.Pipeline.Identity.{
  Assignment, Assignments, Event, expires, TrackedObject, IdentityMatch, requested, verdict, expiry,
  expiries, keys_of, is_stale, expire_stale, apply_match, apply_matches, assign,
}

-- The identity that a table gives a track.
module _ {Coord : Type 0} where
  unfoldable pub named : Option (Assignment Coord) → Option String
  named none = none
  named (some a) = some a.persistent_id

  -- Every entry names its own track.
  unfoldable pub Keyed : Assignments Coord → Type 0
  Keyed [] = Unit
  Keyed ((k, a) ∷ m) = (a.local_track_id ≡ k.1) × Keyed m

module _ {Coord Score : Type 0} where
  -- What one event says of a track whose identity was `id`.
  unfoldable pub reads : (String × String) → Option String → Event Coord Score → Option String
  reads q id e =
      ite (pair_dec q (e.camera_id, e.local_track_id))
        (elim e.event_type [ expires ↦ none | _ ↦ some e.persistent_id ]) id

  unfoldable pub follow :
      (String × String) → Option String → List (Event Coord Score) → Option String
  follow q id [] = id
  follow q id (e ∷ es) = follow q (reads q id e) es

  follow-append :
      (q : String × String) (id : Option String) (es fs : List (Event Coord Score))
      → follow q id (es ++ fs) ≡ follow q (follow q id es) fs
  unfolding follow
  follow-append q id [] fs = refl
  follow-append q id (e ∷ es) fs = follow-append q (reads q id e) es fs

module _ {Coord : Type 0} (Score : Type 0) where
  follow-expiries :
      (test : (String × String) × Assignment Coord → Bool) (now : ℕ) (q : String × String)
      (id : Option String) (m : Assignments Coord)
      → Keyed m
      → follow q id (expiries {Score = Score} test now m)
        ≡ (if holds pair_dec q (keys_of test m) then none else id)
  unfolding follow reads expiries expiry keys_of Keyed
  follow-expiries test now q id [] h = refl
  follow-expiries test now q id ((k, a) ∷ m) h =
      ground (arith, follow-expiries test now q id m h.1, follow-expiries test now q none m h.1)

module _ {Coord : Type 0} where
  named-insert :
      (k q : String × String) (a : Assignment Coord) (m : Assignments Coord)
      → named (lookup pair_dec q (insert pair_dec k a m))
        ≡ ite (pair_dec q k) (some a.persistent_id) (named (lookup pair_dec q m))
  unfolding named
  named-insert k q a m = ground (arith, lookup-insert pair_dec k q a m)

  -- The table of the service: no track stands twice, every entry names its own track.
  abbrev pub IsTable : Assignments Coord → Type 0
  IsTable m = Distinct pair_dec m × Keyed m

  insert-Keyed :
      (k : String × String) (a : Assignment Coord) (m : Assignments Coord)
      → a.local_track_id ≡ k.1
      → Keyed m
      → Keyed (insert pair_dec k a m)
  unfolding insert Keyed
  insert-Keyed k a [] e h = (e, tt)
  insert-Keyed k a ((j, w) ∷ m) e h = ground (arith, insert-Keyed k a m e h.1)

module _ {Coord Score : Type 0} where
  verdict-lives :
      {A : Type 0} (o : Option (Assignment Coord)) (m : IdentityMatch Score) (x y : A)
      → elim (verdict o m).event_type [ expires ↦ x | _ ↦ y ] ≡ y
  unfolding verdict
  verdict-lives none m x y = ground arith
  verdict-lives (some a) m x y = ground arith

module _ {Coord Score Vector : Type 0} where
  follow-apply_match :
      (q : String × String) (now : ℕ) (m : Assignments Coord) (t : TrackedObject Coord Score Vector)
      (match : IdentityMatch Score)
      → reads q (named (lookup pair_dec q m)) (apply_match now m t match).2
        ≡ named (lookup pair_dec q (apply_match now m t match).0)
  unfolding apply_match reads named
  follow-apply_match q now m t match =
      reads_live ∙ sym (named-insert (t.camera_id, t.track_id) q _ m)
    where
      reads_live :
          reads q (named (lookup pair_dec q m)) (apply_match now m t match).2
          ≡ ite
              (pair_dec q (t.camera_id, t.track_id))
              (some match.identity_id)
              (named (lookup pair_dec q m))
      reads_live =
          ap (λ o. ite (pair_dec q (t.camera_id, t.track_id)) o (named (lookup pair_dec q m)))
            (verdict-lives (lookup pair_dec (t.camera_id, t.track_id) m) match none
              (some match.identity_id))

  follow-apply_matches :
      (q : String × String) (now : ℕ) (m : Assignments Coord)
      (ts : List (TrackedObject Coord Score Vector)) (matches : List (IdentityMatch Score))
      → follow q (named (lookup pair_dec q m)) (apply_matches now m ts matches).2
        ≡ named (lookup pair_dec q (apply_matches now m ts matches).0)
  unfolding apply_matches follow
  follow-apply_matches q now m [] matches = refl
  follow-apply_matches q now m (t ∷ ts) [] = refl
  follow-apply_matches q now m (t ∷ ts) (match ∷ matches) =
      ap (λ o. follow q o (apply_matches now ((apply_match now m t match).0) ts matches).2)
        (follow-apply_match q now m t match)
      ∙ follow-apply_matches q now ((apply_match now m t match).0) ts matches

  apply_matches-IsTable :
      (now : ℕ) (m : Assignments Coord) (ts : List (TrackedObject Coord Score Vector))
      (matches : List (IdentityMatch Score))
      → IsTable m
      → IsTable (apply_matches now m ts matches).0
  unfolding apply_matches apply_match
  apply_matches-IsTable now m [] matches v = v
  apply_matches-IsTable now m (t ∷ ts) [] v = v
  apply_matches-IsTable now m (t ∷ ts) (match ∷ matches) v =
      apply_matches-IsTable now ((apply_match now m t match).0) ts matches
        (insert-Distinct pair_dec _ _ m v.0, insert-Keyed _ _ m refl v.1)

module _ {Coord : Type 0} (Score : Type 0) where
  follow-removal :
      (test : (String × String) × Assignment Coord → Bool) (now : ℕ) (q : String × String)
      (m : Assignments Coord)
      → Keyed m
      → follow q (named (lookup pair_dec q m)) (expiries {Score = Score} test now m)
        ≡ named (lookup pair_dec q (remove_all pair_dec (keys_of test m) m))
  unfolding named
  follow-removal test now q m h = ground (
    arith,
    follow-expiries Score test now q (named (lookup pair_dec q m)) m h,
    lookup-remove_all pair_dec q (keys_of test m) m,
  )

module _ {Coord Score Vector : Type 0} where
  -- A reader of the events of one `assign` that knew every track's identity before it knows it after: for
  -- every track, taking the events in order (an expiry forgets, the others set) gives the identity that
  -- the table then holds. The table is one without double keys whose entries name their own tracks; the
  -- identity store is arbitrary.
  pub follow-assign :
      (resolve : List (TrackedObject Coord Score Vector) → List (IdentityMatch Score))
      (ttl now later : ℕ) (m : Assignments Coord) (tracks : List (TrackedObject Coord Score Vector))
      (q : String × String)
      → IsTable m
      → follow q (named (lookup pair_dec q m)) (assign resolve ttl now later m tracks).1
        ≡ named (lookup pair_dec q (assign resolve ttl now later m tracks).0)
  unfolding assign expire_stale
  follow-assign resolve ttl now later m tracks q v =
      follow-append {Score = Score} q _ applied.2 _
      ∙ ap (λ o. follow {Score = Score} q o (expiries (is_stale ttl later) later applied.0))
          (follow-apply_matches q now m (requested tracks) matches)
      ∙ follow-removal Score (is_stale ttl later) later q applied.0
          (apply_matches-IsTable now m (requested tracks) matches v).1
    where
      matches : List (IdentityMatch Score)
      matches = elim (requested tracks) [ [] ↦ [] | t ∷ ts ↦ resolve (t ∷ ts) ]

      applied :
          Assignments Coord × List (TrackedObject Coord Score Vector) × List (Event Coord Score)
      applied = apply_matches now m (requested tracks) matches
