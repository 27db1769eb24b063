-- ===== src/Pipeline/Boxes/Overlap.antt =====
-- Boxes and crops of utils/image.py, pixel by pixel.
use ai_intelligence_theft_de.Base.{
  Bool, if◌then◌else◌, ℕ, zero, suc, ◌+◌, ◌<◌, ◌≡◌, ◌↔◌, ◌⊎◌, List, [], ◌∷◌, map, Option, none,
  some, length, drop, arith, refl, ap, ◌∙◌,
}
use ai_intelligence_theft_de.Base.Int.{
  ℤ, pos, pos_part, ◌+ℤ◌, ◌-ℤ◌, ◌≤ℤ◌, min_ℤ, max_ℤ, +ℤ_parts, -ℤ_parts,
}
use ai_intelligence_theft_de.Pipeline.Boxes.{
  Box, clamp_side, clamp_ltwh_to_frame, take, slice, frame_width, crop_ltwh,
}

-- `start ≤ x < start + extent`
abbrev pub On : ℤ → ℤ → ℤ → Type 0
On start extent x = (start ≤ℤ x) × (x +ℤ pos 1 ≤ℤ start +ℤ extent)

-- A pixel of a box.
abbrev pub Covers : Box → ℤ → ℤ → Type 0
Covers b x y = On b.left b.width x × On b.top b.height y

min-cases : (a b : ℤ) → ((min_ℤ a b ≡ a) × (a ≤ℤ b)) ⊎ ((min_ℤ a b ≡ b) × (b ≤ℤ a))
unfolding min_ℤ
min-cases a b = ground arith

max-cases : (a b : ℤ) → ((max_ℤ a b ≡ b) × (a ≤ℤ b)) ⊎ ((max_ℤ a b ≡ a) × (b ≤ℤ a))
unfolding max_ℤ
max-cases a b = ground arith

-- The same on the parts, for any ends.
overlap :
    (limit : ℕ) (start extent x m s e t w : ℤ)
    → ((m ≡ pos limit) × (pos limit ≤ℤ start)) ⊎ ((m ≡ start) × (start ≤ℤ pos limit))
    → ((s ≡ m) × (pos 0 ≤ℤ m)) ⊎ ((s ≡ pos 0) × (m ≤ℤ pos 0))
    → ((e ≡ pos limit) × (pos limit ≤ℤ start +ℤ extent))
      ⊎ ((e ≡ start +ℤ extent) × (start +ℤ extent ≤ℤ pos limit))
    → ((t ≡ e) × (s ≤ℤ e)) ⊎ ((t ≡ s) × (e ≤ℤ s))
    → ((w ≡ t -ℤ s) × (pos 0 ≤ℤ t -ℤ s)) ⊎ ((w ≡ pos 0) × (t -ℤ s ≤ℤ pos 0))
    → On s w x ↔ (On start extent x × On (pos 0) (pos limit) x)
overlap limit start extent x m s e t w hm hs he ht hw = ground (
  arith,
  +ℤ_parts x (pos 1),
  +ℤ_parts start extent,
  +ℤ_parts s w,
  -ℤ_parts t s,
  +ℤ_parts (pos 0) (pos limit),
)

clamp_side_lem :
    (limit : ℕ) (start extent x : ℤ)
    → On (clamp_side limit start extent).0 (clamp_side limit start extent).1 x
      ↔ (On start extent x × On (pos 0) (pos limit) x)
unfolding clamp_side
clamp_side_lem limit start extent x =
    overlap limit start extent x _ _ _ _ _ (min-cases (pos limit) start) (max-cases (pos 0) _)
      (min-cases (pos limit) (start +ℤ extent)) (max-cases _ _) (max-cases (pos 0) _)

-- Clamping a box to a frame of `height` rows and `width` columns leaves the overlap: a pixel is in the
-- clamped box exactly if it is in the box and in the frame.
pub clamp_ltwh_to_frame-overlap :
    (height width : ℕ) (b : Box) (x y : ℤ)
    → Covers (clamp_ltwh_to_frame height width b) x y
      ↔ (Covers b x y × On (pos 0) (pos width) x × On (pos 0) (pos height) y)
unfolding clamp_ltwh_to_frame
clamp_ltwh_to_frame-overlap height width b x y =
    ground (arith, clamp_side_lem width b.left b.width x, clamp_side_lem height b.top b.height y)

module _ {ℓ} {A : Type ℓ} where
  at : ℕ → List A → Option A
  at i [] = none
  at zero (x ∷ xs) = some x
  at (suc i) (x ∷ xs) = at i xs

  at-take : (i n : ℕ) (xs : List A) → i < n → at i (take n xs) ≡ at i xs
  unfolding at
  at-take i zero xs h = absurd (omega arith)
  at-take i (suc n) [] h = refl
  at-take zero (suc n) (x ∷ xs) h = refl
  at-take (suc i) (suc n) (x ∷ xs) h = at-take i n xs (omega arith)

  at-drop : (n i : ℕ) (xs : List A) → at i (drop n xs) ≡ at (n + i) xs
  unfolding at
  at-drop zero i xs = ap (λ k. at k xs) (omega arith)
  at-drop (suc n) i [] = refl
  at-drop (suc n) i (x ∷ xs) =
      at-drop n i xs ∙ ap (λ k. at k (x ∷ xs)) {x = suc (n + i)} (omega arith)

  returned : (t : Bool) (a c : A) → (if t then none else some a) ≡ some c → c ≡ a
  returned t a c e = ground arith

  at-slice :
      (start extent i : ℕ) (xs : List A)
      → i < extent
      → at i (slice start extent xs) ≡ at (start + i) xs
  at-slice start extent i xs h = at-take i extent (drop start xs) h ∙ at-drop start i xs

module _ {Pixel : Type 0} where
  inside : Option (List Pixel) → ℕ → Option Pixel
  inside none x = none
  inside (some row) x = at x row

  -- `frame[y, x]`; `none` is outside.
  pub pixel : List (List Pixel) → ℕ → ℕ → Option Pixel
  pixel frame y x = inside (at y frame) x

  pixel-map :
      (start extent y x : ℕ) (rows : List (List Pixel))
      → x < extent
      → pixel (map (slice start extent) rows) y x ≡ pixel rows y (start + x)
  unfolding at pixel inside
  pixel-map start extent y x [] h = refl
  pixel-map start extent zero x (row ∷ rows) h = at-slice start extent x row h
  pixel-map start extent (suc y) x (row ∷ rows) h = pixel-map start extent y x rows h

  -- A crop that is returned shows the frame behind the clamped box: at each place inside that box's
  -- extents it has the frame's pixel, moved by the box's corner.
  pub pixel-crop_ltwh :
      (frame crop : List (List Pixel)) (b : Box) (y x : ℕ)
      → crop_ltwh frame b ≡ some crop
      → y < pos_part (clamp_ltwh_to_frame (length frame) (frame_width frame) b).height
      → x < pos_part (clamp_ltwh_to_frame (length frame) (frame_width frame) b).width
      → pixel crop y x
        ≡ pixel frame
            (pos_part (clamp_ltwh_to_frame (length frame) (frame_width frame) b).top + y)
            (pos_part (clamp_ltwh_to_frame (length frame) (frame_width frame) b).left + x)
  unfolding crop_ltwh pixel
  pixel-crop_ltwh frame crop b y x e hy hx =
      ap (λ c. pixel c y x) (returned _ _ crop e)
      ∙ pixel-map _ _ y x _ hx
      ∙ ap
          (λ row.
            inside row
              (pos_part (clamp_ltwh_to_frame (length frame) (frame_width frame) b).left + x))
          (at-slice _ _ y frame hy)
