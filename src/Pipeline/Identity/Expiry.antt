-- ===== src/Pipeline/Identity/Expiry.antt =====
-- Which assignments `expire_stale` and `remove_camera` of identity/service.py take off.
use ai_intelligence_theft_de.Base.{
  ℕ, String, Bool, false, not, List, [], ◌∷◌, none, pair_dec, ◌≡◌, refl, keep, map, arith,
}
use ai_intelligence_theft_de.Base.Dict.{lookup, remove, remove_all, holds, Distinct, remove_absent}
use ai_intelligence_theft_de.Pipeline.Identity.{
  Assignment, Assignments, expiry, expiries, keys_of, is_stale, is_of_camera, expire_stale,
  remove_camera,
}

module _ {Coord : Type 0} where
  pub keys_of-absent :
      (test : (String × String) × Assignment Coord → Bool) (q : String × String)
      (m : Assignments Coord)
      → lookup pair_dec q m ≡ none
      → holds pair_dec q (keys_of test m) ≡ false
  unfolding lookup keys_of
  keys_of-absent test q [] h = refl
  keys_of-absent test q ((k, a) ∷ m) h = ground (arith, keys_of-absent test q m)

  -- Keys that are not named keep the entry in front.
  remove_all-passes :
      (ks : List (String × String)) (k : String × String) (a : Assignment Coord)
      (m : Assignments Coord)
      → holds pair_dec k ks ≡ false
      → remove_all pair_dec ks ((k, a) ∷ m) ≡ (k, a) ∷ remove_all pair_dec ks m
  unfolding remove
  remove_all-passes [] k a m h = refl
  remove_all-passes (j ∷ ks) k a m h =
      ground (arith, remove_all-passes ks k a (remove pair_dec j m))

  pub remove_all-keys_of :
      (test : (String × String) × Assignment Coord → Bool) (m : Assignments Coord)
      → Distinct pair_dec m
      → remove_all pair_dec (keys_of test m) m ≡ keep (λ e. not (test e)) m
  unfolding keys_of remove
  remove_all-keys_of test [] d = refl
  remove_all-keys_of test ((k, a) ∷ m) d = ground (
    arith,
    remove_all-keys_of test m d.1,
    remove_absent pair_dec k m,
    keys_of-absent test k m,
    remove_all-passes (keys_of test m) k a m,
  )

module _ {Coord Score : Type 0} where
  expiries-keep :
      (test : (String × String) × Assignment Coord → Bool) (now : ℕ) (m : Assignments Coord)
      → expiries {Coord = Coord} {Score = Score} test now m ≡ map (λ e. expiry e now) (keep test m)
  unfolding expiries
  expiries-keep test now [] = refl
  expiries-keep test now (e ∷ m) = ground (arith, expiries-keep test now m)

  -- On a table without double keys, `expire_stale` keeps the assignments seen less than `ttl` ago, in
  -- their order, and reports each of the others once, in order, by its expiry event.
  pub expire_stale-partition :
      (ttl now : ℕ) (m : Assignments Coord)
      → Distinct pair_dec m
      → expire_stale {Coord = Coord} {Score = Score} ttl now m ≡ (
        keep (λ e. not (is_stale ttl now e)) m,
        map (λ e. expiry e now) (keep (is_stale ttl now) m),
      )
  unfolding expire_stale
  expire_stale-partition ttl now m d i =
      (remove_all-keys_of (is_stale ttl now) m d i, expiries-keep (is_stale ttl now) now m i)

  -- On a table without double keys, `remove_camera` keeps the assignments of the other cameras, in their
  -- order, and reports each one of the camera once, in order, by its expiry event.
  pub remove_camera-partition :
      (camera : String) (now : ℕ) (m : Assignments Coord)
      → Distinct pair_dec m
      → remove_camera {Coord = Coord} {Score = Score} camera now m ≡ (
        keep (λ e. not (is_of_camera camera e)) m,
        map (λ e. expiry e now) (keep (is_of_camera camera) m),
      )
  unfolding remove_camera
  remove_camera-partition camera now m d i =
      (remove_all-keys_of (is_of_camera camera) m d i, expiries-keep (is_of_camera camera) now m i)
