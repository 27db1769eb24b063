-- ===== src/Pipeline/Runtime/Targets.antt =====
-- `refresh_cameras` of runtime.py: which cameras run after it, and which were stopped by it.
use mathlib.Core.List.{append_assoc, append-nil}
use ai_intelligence_theft_de.Base.{
  ℕ, String, Bool, true, false, List, [], ◌∷◌, ◌++◌, Option, none, some, str_dec, is_some,
  if◌then◌else◌, ite, ◌≡◌, refl, sym, ap, ◌∙◌, arith, Bool-cases, Option-cases, inl, inr, if_elim,
  first_some,
}
use ai_intelligence_theft_de.Base.Dict.{lookup, insert, Distinct, lookup-remove, lookup-insert}
use ai_intelligence_theft_de.Pipeline.Runtime.{
  Settings, Runtime, refresh_sync_group, drop_camera, remove_camera,
}
use ai_intelligence_theft_de.Pipeline.Runtime.Kept.{core-sync_controls}
use ai_intelligence_theft_de.Pipeline.Runtime.Controls.{CameraRecord, sync_controls}
use ai_intelligence_theft_de.Pipeline.Runtime.Refresh.{
  targets_of, is_kept, remove_stale, start_missing, refresh_cameras,
}

module _ {Source : Type 0} where
  -- The source of the last record of a camera.
  unfoldable pub target : String → List (CameraRecord Source) → Option Source
  target q [] = none
  target q (c ∷ cs) = first_some (target q cs) (ite (str_dec q c.id) (some c.source) none)

  lookup-targets_of :
      (q : String) (cs : List (CameraRecord Source)) (m : List (String × Source))
      → lookup str_dec q (targets_of cs m) ≡ first_some (target q cs) (lookup str_dec q m)
  unfolding targets_of target
  lookup-targets_of q [] m = refl
  lookup-targets_of q (c ∷ cs) m = ground (
    arith,
    lookup-targets_of q cs (insert str_dec c.id c.source m),
    lookup-insert str_dec c.id q c.source m,
  )

  -- The listed cameras that are not kept, in order.
  unfoldable pub stale :
      Discrete Source → (String → Option Source) → List (String × Source) → List String
  stale dec targets [] = []
  stale dec targets (e ∷ es) =
      let rest = stale dec targets es in if is_kept dec (targets e.0) e.1 then rest else e.0 ∷ rest

module _ {Source Frame Coord Crop Score Float : Type 0} (sort : List String → List String)
    (K : Settings) where
  pub active-refresh_group :
      (r : Runtime Source Frame Coord Crop Score Float) (now : ℕ) (current : Option String)
      → (refresh_sync_group sort K r now current).active ≡ r.active
  unfolding refresh_sync_group
  active-refresh_group r now current = ground arith

  pub forgotten-refresh_group :
      (r : Runtime Source Frame Coord Crop Score Float) (now : ℕ) (current : Option String)
      → (refresh_sync_group sort K r now current).forgotten ≡ r.forgotten
  unfolding refresh_sync_group
  forgotten-refresh_group r now current = ground arith

  pub active-remove_camera :
      (r : Runtime Source Frame Coord Crop Score Float) (c : String) (now : ℕ) (q : String)
      → lookup str_dec q (remove_camera sort K r c now).active
        ≡ ite (str_dec q c) none (lookup str_dec q r.active)
  unfolding remove_camera drop_camera
  active-remove_camera r c now q = ground (
    arith,
    active-refresh_group (drop_camera r c now) now none,
    lookup-remove str_dec c q r.active,
  )

  forgotten-remove_camera :
      (r : Runtime Source Frame Coord Crop Score Float) (c : String) (now : ℕ)
      → is_some (lookup str_dec c r.active) ≡ true
      → (remove_camera sort K r c now).forgotten ≡ r.forgotten ++ c ∷ []
  unfolding remove_camera drop_camera
  forgotten-remove_camera r c now h =
      ground (arith, forgotten-refresh_group (drop_camera r c now) now none)

-- What is left of a running camera, listed as `listed`, whose target is `wanted`.
abbrev survives :
    {Source : Type 0}
    → Discrete Source
    → Option Source
    → Option Source
    → Option Source
    → Option Source
survives dec none wanted running = running
survives dec (some source) wanted running = if is_kept dec wanted source then running else none

module _ {Source Frame Coord Crop Score Float : Type 0} (sort : List String → List String)
    (dec : Discrete Source) (K : Settings) where
  active-remove_stale :
      (es targets : List (String × Source)) (now : ℕ) (b : Bool)
      (r : Runtime Source Frame Coord Crop Score Float) (q : String)
      → Distinct str_dec es
      → lookup str_dec q (remove_stale sort dec K es targets now b r).1.active
        ≡ survives dec (lookup str_dec q es) (lookup str_dec q targets) (lookup str_dec q r.active)
  unfolding remove_stale lookup
  active-remove_stale [] targets now b r q d = refl
  active-remove_stale (e ∷ es) targets now b r q d = ground (
    arith,
    active-remove_stale es targets now b r q d.1,
    active-remove_stale es targets now true (remove_camera sort K r e.0 now) q d.1,
    active-remove_camera sort K r e.0 now q,
  )

  forgotten-remove_stale :
      (es targets : List (String × Source)) (now : ℕ) (b : Bool)
      (r : Runtime Source Frame Coord Crop Score Float)
      → Distinct str_dec es
      → ((q : String)
          → is_some (lookup str_dec q es) ≡ true
          → is_some (lookup str_dec q r.active) ≡ true)
      → (remove_stale sort dec K es targets now b r).1.forgotten
        ≡ r.forgotten ++ stale dec (λ q. lookup str_dec q targets) es
  unfolding remove_stale stale lookup
  forgotten-remove_stale [] targets now b r d run = sym (append-nil r.forgotten)
  forgotten-remove_stale (e ∷ es) targets now b r d run =
      let removed = remove_camera sort K r e.0 now in
      elim (Bool-cases (is_kept dec (lookup str_dec e.0 targets) e.1)) [
        | inl kept ↦ ground (
          arith,
          kept,
          forgotten-remove_stale es targets now b r d.1 (λ q h. run q (ground (arith, h))),
        )
        | inr dropped ↦ ground (
          arith,
          dropped,
          forgotten-remove_stale es targets now true removed d.1 (λ q h.
              ground (
                arith,
                h,
                d.0,
                run q (ground (arith, h)),
                active-remove_camera sort K r e.0 now q,
              )),
          forgotten-remove_camera sort K r e.0 now (run e.0 (ground arith)),
          append_assoc r.forgotten (e.0 ∷ []) (stale dec (λ q. lookup str_dec q targets) es),
        )
      ]

module _ {Source Frame Coord Crop Score Float : Type 0} where
  active-start_missing :
      (es : List (String × Source)) (b : Bool) (r : Runtime Source Frame Coord Crop Score Float)
      (q : String)
      → lookup str_dec q (start_missing es b r).1.active
        ≡ first_some (lookup str_dec q r.active) (lookup str_dec q es)
  unfolding start_missing lookup
  active-start_missing [] b r q = ground arith
  active-start_missing (e ∷ es) b r q = elim (Option-cases (lookup str_dec e.0 r.active)) [
    | inl n ↦ ground (
      arith,
      n,
      active-start_missing es true (record r { active = insert str_dec e.0 e.1 r.active }) q,
      lookup-insert str_dec e.0 q e.1 r.active,
    )
    | inr found ↦ ground (arith, found.1, active-start_missing es b r q)
  ]

module _ {Source : Type 0} where
  first_some-none : (o : Option Source) → first_some o none ≡ o
  first_some-none none = refl
  first_some-none (some s) = refl

  -- A camera that is not kept is started again, so that the target is what runs.
  survives_lem :
      (dec : Discrete Source) (listed wanted : Option Source)
      → first_some (survives dec listed wanted listed) wanted ≡ wanted
  unfolding is_kept
  survives_lem dec none wanted = refl
  survives_lem dec (some s) none = refl
  survives_lem dec (some s) (some t) = ground arith

  stale-ext :
      (dec : Discrete Source) (f g : String → Option Source) (es : List (String × Source))
      → ((c : String) → f c ≡ g c)
      → stale dec f es ≡ stale dec g es
  unfolding stale
  stale-ext dec f g [] h = refl
  stale-ext dec f g (e ∷ es) h = ground (arith, h e.0, stale-ext dec f g es h)

module _ {Source Frame Coord Crop Score Float : Type 0} where
  pub forgotten-start_missing :
      (es : List (String × Source)) (b : Bool) (r : Runtime Source Frame Coord Crop Score Float)
      → (start_missing es b r).1.forgotten ≡ r.forgotten
  unfolding start_missing
  forgotten-start_missing [] b r = refl
  forgotten-start_missing (e ∷ es) b r = elim (Option-cases (lookup str_dec e.0 r.active)) [
    | inl n ↦ ground (
      arith,
      n,
      forgotten-start_missing es true (record r { active = insert str_dec e.0 e.1 r.active }),
    )
    | inr found ↦ ground (arith, found.1, forgotten-start_missing es b r)
  ]

module _ {Source Frame Coord Crop Score Float : Type 0} (sort : List String → List String)
    (dec : Discrete Source) (K : Settings) where
  -- What follows the starts leaves the cameras and the log of stopped ones alone.
  refreshed :
      (cs : List (CameraRecord Source)) (now : ℕ) (r : Runtime Source Frame Coord Crop Score Float)
      → let (b, cleared) = remove_stale sort dec K r.active (targets_of cs []) now false r in
        let started = (start_missing (targets_of cs []) b cleared).1 in
        ((refresh_cameras sort dec K cs now r).active ≡ started.active)
        × ((refresh_cameras sort dec K cs now r).forgotten ≡ started.forgotten)
  unfolding refresh_cameras
  refreshed cs now r =
      let (b, cleared) = remove_stale sort dec K r.active (targets_of cs []) now false r in
      let (changed, started) = start_missing (targets_of cs []) b cleared in
      let synced = sync_controls K cs started in
      let same_core = core-sync_controls K cs started in
      if_elim (λ x. (x.active ≡ started.active) × (x.forgotten ≡ started.forgotten)) changed
        (refresh_sync_group sort K synced now none) synced
        (λ _. (
          active-refresh_group sort K synced now none ∙ ap (λ c. c.0) same_core,
          forgotten-refresh_group sort K synced now none ∙ ap (λ c. c.1.1.1) same_core,
        ))
        (λ _. (ap (λ c. c.0) same_core, ap (λ c. c.1.1.1) same_core))

  -- After a refresh exactly the recorded cameras run, each from the source of its last record; and the
  -- cameras that were stopped are, in order, those that had no record or another source, while a
  -- camera whose source is the same was not stopped. No camera is active twice.
  pub lookup-refresh_cameras :
      (cs : List (CameraRecord Source)) (now : ℕ) (r : Runtime Source Frame Coord Crop Score Float)
      (q : String)
      → Distinct str_dec r.active
      → (lookup str_dec q (refresh_cameras sort dec K cs now r).active ≡ target q cs)
        × ((refresh_cameras sort dec K cs now r).forgotten
            ≡ r.forgotten ++ stale dec (λ c. target c cs) r.active)
  unfolding lookup
  lookup-refresh_cameras cs now r q d =
      let T = targets_of cs [] in
      let (b, cleared) = remove_stale sort dec K r.active T now false r in
      let wanted : (c : String) → lookup str_dec c T ≡ target c cs =
        λ c. lookup-targets_of c cs [] ∙ first_some-none (target c cs) in
      (
        ap (lookup str_dec q) (refreshed cs now r).0
            ∙ active-start_missing T b cleared q
            ∙ ap (λ o. first_some o (lookup str_dec q T))
                (active-remove_stale sort dec K r.active T now false r q d)
            ∙ survives_lem dec (lookup str_dec q r.active) (lookup str_dec q T)
            ∙ wanted q,
        (refreshed cs now r).1
            ∙ forgotten-start_missing T b cleared
            ∙ forgotten-remove_stale sort dec K r.active T now false r d (λ c h. h)
            ∙ ap (λ l. r.forgotten ++ l) (stale-ext dec _ _ r.active wanted),
      )
