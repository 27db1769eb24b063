-- ===== src/Pipeline/Boxes.antt =====
-- utils/image.py: boxes given by left, top, width and height, clamped to a frame and cut out of it.
-- A frame is the list of its rows; its shape is given by its first row.
pub mod Overlap
use ai_intelligence_theft_de.Base.{
  ℕ, zero, suc, ◌+◌, ◌||◌, List, [], ◌∷◌, map, Option, none, some, length, drop, if◌then◌else◌, not,
}
use ai_intelligence_theft_de.Base.Int.{ℤ, pos, pos_part, ◌+ℤ◌, ◌-ℤ◌, min_ℤ, max_ℤ, ltb_ℤ}

pub record Box : Type 0 where
  pub left : ℤ
  pub top : ℤ
  pub width : ℤ
  pub height : ℤ

-- The start and the extent of a side, clamped.
unfoldable pub clamp_side : ℕ → ℤ → ℤ → ℤ × ℤ
clamp_side limit start extent =
    let clamped_start = max_ℤ (pos 0) (min_ℤ (pos limit) start) in
    let clamped_end = max_ℤ clamped_start (min_ℤ (pos limit) (start +ℤ extent)) in
    (clamped_start, max_ℤ (pos 0) (clamped_end -ℤ clamped_start))

unfoldable pub clamp_ltwh_to_frame : ℕ → ℕ → Box → Box
clamp_ltwh_to_frame frame_height frame_width b =
    let (left, width) = clamp_side frame_width b.left b.width in
    let (top, height) = clamp_side frame_height b.top b.height in
    record { left = left; top = top; width = width; height = height }

module _ {ℓ} {A : Type ℓ} where
  abbrev pub take : ℕ → List A → List A
  take zero xs = []
  take (suc n) [] = []
  take (suc n) (x ∷ xs) = x ∷ take n xs

  -- `xs[start : start + extent]` of natural numbers.
  abbrev pub slice : ℕ → ℕ → List A → List A
  slice start extent xs = take extent (drop start xs)

module _ {Pixel : Type 0} where
  -- `frame.shape[1]`
  abbrev pub frame_width : List (List Pixel) → ℕ
  frame_width [] = 0
  frame_width (row ∷ rows) = length row

  unfoldable pub crop_ltwh : List (List Pixel) → Box → Option (List (List Pixel))
  crop_ltwh frame b =
      let c = clamp_ltwh_to_frame (length frame) (frame_width frame) b in
      if not (ltb_ℤ (pos 0) c.width) || not (ltb_ℤ (pos 0) c.height)
      then none
      else some (
          map (slice (pos_part c.left) (pos_part c.width))
            (slice (pos_part c.top) (pos_part c.height) frame))
