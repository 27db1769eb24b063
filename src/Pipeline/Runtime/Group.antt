-- ===== src/Pipeline/Runtime/Group.antt =====
-- The sync group of runtime.py against the synchronizer and the active cameras.
use ai_intelligence_theft_de.Base.{
  ℕ, String, true, false, not, List, [], ◌∷◌, Option, none, some, str_dec, same, is_some, ◌≡◌, refl,
  sym, ap, ◌∙◌, arith, keep, Bool-cases, inl, inr, if_elim,
}
use ai_intelligence_theft_de.Base.Dict.{lookup, remove, holds, lookup-remove}
use ai_intelligence_theft_de.Pipeline.Synchronizer.{
  Packet, Synchronizer, submit, bundle_up, emit, store, states_of,
}
use ai_intelligence_theft_de.Pipeline.Synchronizer
use ai_intelligence_theft_de.Pipeline.Runtime.{
  Settings, Runtime, same_all, healthy_cameras, or_current, new_synchronizer, refresh_sync_group,
  drop_camera, remove_camera,
}

-- What is used of `sorted`: it holds what its argument holds.
abbrev pub IsSort : (List String → List String) → Type 0
IsSort sort = (xs : List String) (q : String) → holds str_dec q (sort xs) ≡ holds str_dec q xs

pub same_all-eq : (xs ys : List String) → same_all xs ys ≡ true → xs ≡ ys
same_all-eq [] [] h = refl
same_all-eq [] (y ∷ ys) h = cc
same_all-eq (x ∷ xs) [] h = cc
same_all-eq (x ∷ xs) (y ∷ ys) h = ground (arith, same_all-eq xs ys)

keep_others :
    (c : String) (xs : List String)
    → holds str_dec c xs ≡ false
    → keep (λ d. not (same d c)) xs ≡ xs
keep_others c [] h = refl
keep_others c (x ∷ xs) h = ground (arith, keep_others c xs)

pub holds-healthy :
    {Source : Type 0} (window now : ℕ) (current : Option String) (seen : List (String × ℕ))
    (active : List (String × Source)) (q : String)
    → holds str_dec q (healthy_cameras window now current seen active) ≡ true
    → is_some (lookup str_dec q active) ≡ true
unfolding healthy_cameras lookup
holds-healthy window now current seen [] q h = cc
holds-healthy window now current seen (e ∷ active) q h =
    ground (arith, holds-healthy window now current seen active q)

module _ {Source Frame Coord Crop Score Float : Type 0} where
  -- The synchronizer waits for the cameras of the group, which are all active.
  pub record IsGrouped (r : Runtime Source Frame Coord Crop Score Float) : Type 0 where
    pub agrees : r.synchronizer.camera_ids ≡ r.sync_camera_ids
    pub live :
        (q : String)
        → holds str_dec q r.sync_camera_ids ≡ true
        → is_some (lookup str_dec q r.active) ≡ true

module _ {Source : Type 0} where
  -- The camera of the packet at hand, if there is one, is active.
  abbrev IsLive : Option String → List (String × Source) → Type 0
  IsLive none active = Unit
  IsLive (some c) active = is_some (lookup str_dec c active) ≡ true

  holds-or_current :
      (current : Option String) (healthy : List String) (active : List (String × Source))
      (q : String)
      → IsLive current active
      → (holds str_dec q healthy ≡ true → is_some (lookup str_dec q active) ≡ true)
      → holds str_dec q (or_current current healthy) ≡ true
      → is_some (lookup str_dec q active) ≡ true
  holds-or_current none [] active q c h g = h g
  holds-or_current none (x ∷ xs) active q c h g = h g
  holds-or_current (some k) [] active q c h g = ground (arith, c)
  holds-or_current (some k) (x ∷ xs) active q c h g = h g

module _ {Source Frame Coord Crop Score Float : Type 0} (sort : List String → List String)
    (K : Settings) (sorts : IsSort sort) where
  -- A refresh of the group restores the invariant, if an unchanged group still agrees.
  refresh_sync_group-IsGrouped :
      (r : Runtime Source Frame Coord Crop Score Float) (now : ℕ) (current : Option String)
      → IsLive current r.active
      → (((q : String)
            → holds str_dec q r.sync_camera_ids ≡ true
            → is_some (lookup str_dec q r.active) ≡ true)
          → r.synchronizer.camera_ids ≡ r.sync_camera_ids)
      → IsGrouped (refresh_sync_group sort K r now current)
  unfolding refresh_sync_group new_synchronizer
  refresh_sync_group-IsGrouped r now current c unchanged =
      let raw = healthy_cameras K.healthy_window now current r.last_frame_seen_at r.active in
      let healthy = or_current current (sort raw) in
      let live : (q : String)
          → holds str_dec q healthy ≡ true
          → is_some (lookup str_dec q r.active) ≡ true =
        λ q. holds-or_current current (sort raw) r.active q c (λ h.
          holds-healthy K.healthy_window now current r.last_frame_seen_at r.active q
            (sym (sorts raw q) ∙ h)) in
      if_elim IsGrouped (same_all healthy r.sync_camera_ids) _ _
        (λ e.
          let live' : (q : String)
              → holds str_dec q r.sync_camera_ids ≡ true
              → is_some (lookup str_dec q r.active) ≡ true =
            λ q h. live q (ap (holds str_dec q) (same_all-eq _ _ e) ∙ h) in
          record { agrees = unchanged live'; live = live' })
        (λ e. record { agrees = refl; live = live })

  -- A camera that is dropped leaves the synchronizer; the group is refreshed after that.
  drop_camera-refreshed :
      (r : Runtime Source Frame Coord Crop Score Float) (c : String) (now : ℕ)
      → IsGrouped r
      → IsGrouped (refresh_sync_group sort K (drop_camera r c now) now none)
  unfolding drop_camera Synchronizer.remove_camera
  drop_camera-refreshed r c now g =
      refresh_sync_group-IsGrouped (drop_camera r c now) now none tt (λ live.
        ap (keep (λ d. not (same d c))) g.agrees ∙ keep_others c r.sync_camera_ids (gone live))
    where
      gone :
          ((q : String)
            → holds str_dec q r.sync_camera_ids ≡ true
            → is_some (lookup str_dec q (remove str_dec c r.active)) ≡ true)
          → holds str_dec c r.sync_camera_ids ≡ false
      gone live = elim (Bool-cases (holds str_dec c r.sync_camera_ids)) [
        | inl e ↦ absurd (ground (arith, live c e, lookup-remove str_dec c c r.active))
        | inr e ↦ e
      ]

  pub remove_camera-IsGrouped :
      (r : Runtime Source Frame Coord Crop Score Float) (c : String) (now : ℕ)
      → IsGrouped r
      → IsGrouped (remove_camera sort K r c now)
  unfolding remove_camera
  remove_camera-IsGrouped r c now g =
      if_elim IsGrouped (is_some (lookup str_dec c r.active)) _ _
        (λ _. drop_camera-refreshed r c now g) (λ _. g)

  pub refresh-IsGrouped :
      (r : Runtime Source Frame Coord Crop Score Float) (now : ℕ)
      → IsGrouped r
      → IsGrouped (refresh_sync_group sort K r now none)
  refresh-IsGrouped r now g = refresh_sync_group-IsGrouped r now none tt (λ _. g.agrees)

  pub refresh_current-IsGrouped :
      (r : Runtime Source Frame Coord Crop Score Float) (now : ℕ) (c : String)
      → is_some (lookup str_dec c r.active) ≡ true
      → r.synchronizer.camera_ids ≡ r.sync_camera_ids
      → IsGrouped (refresh_sync_group sort K r now (some c))
  refresh_current-IsGrouped r now c h e = refresh_sync_group-IsGrouped r now (some c) h (λ _. e)
