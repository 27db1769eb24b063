-- ===== src/Tests/Pipeline.antt =====
-- The theorems on bundles, identities and crops at concrete inputs.
use ai_intelligence_theft_de.Base.{
  inl, inr, arith, ℕ, ◌+◌, ◌≤◌, ◌<◌, ◌≡◌, ◌≢◌, ◌↔◌, inl, inr, refl, String, Bool, true, false, not,
  List, [], ◌∷◌, ◌++◌, Option, none, some, arith, str_dec, pair_dec, length, keep, map,
}
use ai_intelligence_theft_de.Base.Int.{ℤ, pos, negsuc, pos_part}
use ai_intelligence_theft_de.Base.Dict.{lookup, Distinct}
use ai_intelligence_theft_de.Pipeline.Synchronizer.{
  Packet, Bundle, Synchronizer, nothing, emits, submit, store,
}
use ai_intelligence_theft_de.Pipeline.Synchronizer.Repeats.{IsKeyed, submit_all, submit-once}
use ai_intelligence_theft_de.Pipeline.Synchronizer.Bundles.{Emission, submit_iff}
use ai_intelligence_theft_de.Pipeline.Identity.{
  Place, TrackedObject, IdentityMatch, Assignment, Assignments, expiry, expire_stale, assign,
  pending,
}
use ai_intelligence_theft_de.Pipeline.Identity.Expiry.{expire_stale-partition}
use ai_intelligence_theft_de.Pipeline.Identity.Lifecycle.{
  IsTable, Keyed, follow, named, follow-assign,
}
use ai_intelligence_theft_de.Pipeline.Boxes.{Box, clamp_ltwh_to_frame, crop_ltwh}
use ai_intelligence_theft_de.Pipeline.Boxes.Overlap.{
  Covers, On, pixel, clamp_ltwh_to_frame-overlap, pixel-crop_ltwh,
}

abbrev synchronizer : Synchronizer
synchronizer = record { camera_ids = "a" ∷ "b" ∷ []; tolerance = 5; latest = []; bundle_id = 0 }

abbrev seen : ℕ → String → ℕ → Packet
seen object camera t = record {
  object = object;
  camera_id = camera;
  sequence_number = t;
  monotonic_ns = t;
}

abbrev pair : Bundle
pair = record { bundle_id = 0; packets = seen 1 "a" 10 ∷ seen 2 "b" 12 ∷ []; span = 2 }

submit_iff_example :
    ((submit (submit synchronizer (seen 1 "a" 10)).0 (seen 2 "b" 12)).1 ≡ emits pair)
    ↔ Emission (store (submit synchronizer (seen 1 "a" 10)).0 (seen 2 "b" 12)) pair
submit_iff_example = submit_iff (submit synchronizer (seen 1 "a" 10)).0 (seen 2 "b" 12) pair

completes : (submit (submit synchronizer (seen 1 "a" 10)).0 (seen 2 "b" 12)).1 ≡ emits pair
unfolding submit ai_intelligence_theft_de.Pipeline.Synchronizer.bundle_up
    ai_intelligence_theft_de.Pipeline.Synchronizer.states_of lookup
    ai_intelligence_theft_de.Base.Dict.insert str_dec
    ai_intelligence_theft_de.Pipeline.Synchronizer.emit
    ai_intelligence_theft_de.Pipeline.Synchronizer.newest
    ai_intelligence_theft_de.Pipeline.Synchronizer.oldest
completes = refl

one_stored-IsKeyed : IsKeyed (submit synchronizer (seen 1 "a" 10)).0.latest
unfolding submit ai_intelligence_theft_de.Pipeline.Synchronizer.bundle_up
    ai_intelligence_theft_de.Pipeline.Synchronizer.states_of lookup
    ai_intelligence_theft_de.Base.Dict.insert str_dec
one_stored-IsKeyed c state h = ground (arith, h)

-- Both packets of the bundle again, the first one twice.
submit-once_example :
    (submit
      (submit_all
        (submit (submit synchronizer (seen 1 "a" 10)).0 (seen 2 "b" 12)).0
        (seen 1 "a" 10 ∷ seen 2 "b" 12 ∷ []))
      (seen 1 "a" 10)).1
    ≡ nothing
submit-once_example =
    submit-once (submit synchronizer (seen 1 "a" 10)).0 (seen 2 "b" 12) (seen 1 "a" 10) pair
      (seen 1 "a" 10 ∷ seen 2 "b" 12 ∷ []) one_stored-IsKeyed completes
      (inl refl, (inr (inl refl), tt)) (inl refl)

abbrev place : Place ℕ
place = record {
  left = pos 0;
  top = pos 0;
  width = pos 9;
  height = pos 9;
  world_x = none;
  world_y = none;
}

abbrev assigned_at : String → String → ℕ → Assignment ℕ
assigned_at id track t = record {
  persistent_id = id;
  stream_name = "door";
  local_track_id = track;
  place = place;
  last_seen = t;
}

abbrev table : Assignments ℕ
table = (("a", "1"), assigned_at "x" "1" 10) ∷ (("b", "1"), assigned_at "y" "1" 90) ∷ []

table-Distinct : Distinct pair_dec table
unfolding lookup pair_dec
table-Distinct = (refl, (refl, tt))

expire_stale-partition_example : expire_stale {Coord = ℕ} {Score = ℕ} 50 100 table ≡ (
  (("b", "1"), assigned_at "y" "1" 90) ∷ [],
  expiry (("a", "1"), assigned_at "x" "1" 10) 100 ∷ [],
)
unfolding pair_dec str_dec
expire_stale-partition_example = expire_stale-partition {Score = ℕ} 50 100 table table-Distinct

abbrev tracked : List (TrackedObject ℕ ℕ ℕ)
tracked =
    record {
      camera_id = "b";
      stream_name = "door";
      track_id = "1";
      place = place;
      persistent_id = none;
      persistent_id_state = pending;
      similarity = none;
      embedding = some 7;
    }
    ∷ []

-- Every track is matched with one identity.
abbrev resolve : List (TrackedObject ℕ ℕ ℕ) → List (IdentityMatch ℕ)
resolve [] = []
resolve (t ∷ ts) =
    record { identity_id = "z"; matched_existing = true; similarity = some 9 } ∷ resolve ts

table-IsTable : IsTable table
unfolding Keyed
table-IsTable = (table-Distinct, (refl, (refl, tt)))

-- The track of camera b is merged into "z", and the one of camera a expires.
follow-assign_example :
    follow ("b", "1") (some "y") (assign resolve 50 100 101 table tracked).1
    ≡ named (lookup pair_dec ("b", "1") (assign resolve 50 100 101 table tracked).0)
unfolding named pair_dec str_dec lookup
follow-assign_example = follow-assign resolve 50 100 101 table tracked ("b", "1") table-IsTable

-- A box that hangs over the left side of a frame of two rows and three columns.
abbrev box : Box
box = record { left = negsuc 0; top = pos 0; width = pos 3; height = pos 2 }

clamp_ltwh_to_frame-overlap_example :
    Covers (clamp_ltwh_to_frame 2 3 box) (pos 1) (pos 1)
    ↔ (Covers box (pos 1) (pos 1) × On (pos 0) (pos 3) (pos 1) × On (pos 0) (pos 2) (pos 1))
clamp_ltwh_to_frame-overlap_example = clamp_ltwh_to_frame-overlap 2 3 box (pos 1) (pos 1)

abbrev frame : List (List ℕ)
frame = (1 ∷ 2 ∷ 3 ∷ []) ∷ (4 ∷ 5 ∷ 6 ∷ []) ∷ []

pixel-crop_ltwh_example : pixel ((1 ∷ 2 ∷ []) ∷ (4 ∷ 5 ∷ []) ∷ []) 1 1 ≡ pixel frame 1 1
unfolding crop_ltwh clamp_ltwh_to_frame ai_intelligence_theft_de.Pipeline.Boxes.clamp_side
    ai_intelligence_theft_de.Base.Int.max_ℤ ai_intelligence_theft_de.Base.Int.◌-ℤ◌
    ai_intelligence_theft_de.Base.Int.min_ℤ ai_intelligence_theft_de.Base.Int.◌+ℤ◌
pixel-crop_ltwh_example =
    pixel-crop_ltwh frame ((1 ∷ 2 ∷ []) ∷ (4 ∷ 5 ∷ []) ∷ []) box 1 1 refl (omega arith)
      (omega arith)
