-- ===== src/Inference/BatchBuilder.antt =====
-- batch_builder.py: `BatchBuilder`. Resizing and stacking are OpenCV's and numpy's: `resize` gives the
-- row of one crop at a height and a width or raises, `stack` the tensor of the rows.
use ai_intelligence_theft_de.Base.{
  ℕ, zero, suc, ◌<◌, ◌-◌, ◌≡◌, refl, String, List, [], ◌∷◌, ◌++◌, Option, none, some, leb, same,
  length, replicate, take_right, take_right_all, dec_le, ap, sym, if◌then◌else◌, arith,
  length-append, length-replicate, length-take_right,
}
use ai_intelligence_theft_de.Inference.Contracts.{Result, returned, raised}

-- `cnn_temporal_window` and `vjepa_temporal_window` are equal.
abbrev pub temporal_window : ℕ
temporal_window = 16

-- `frames[-1]` of a list that is not empty.
abbrev pub newest {ℓ} : {A : Type ℓ} → A → List A → A
newest x [] = x
newest x (y ∷ ys) = newest y ys

module _ {ℓ} {A : Type ℓ} where
  -- `frames[-n:]`, which is the whole list where `n` is 0.
  unfoldable pub last_slice : ℕ → List A → List A
  last_slice zero xs = xs
  last_slice (suc n) xs = take_right (suc n) xs

  -- `_prepare_temporal_window`; `none` is the ValueError.
  unfoldable pub prepare_temporal_window : List A → ℕ → Option (List A × ℕ)
  prepare_temporal_window [] required = none
  prepare_temporal_window (x ∷ xs) required =
      if leb required (length (x ∷ xs))
      then some (last_slice required (x ∷ xs), 0)
      else let pad_count = required - length (x ∷ xs) in
        some ((x ∷ xs) ++ replicate pad_count (newest x xs), pad_count)

  append_nil : (xs : List A) → xs ++ [] ≡ xs
  append_nil [] = refl
  append_nil (x ∷ xs) = ap (λ ys. x ∷ ys) (append_nil xs)

  -- If at least one frame is required, the window of at least one frame has exactly the frames
  -- required: the newest ones of a longer list, and a shorter list with its newest frame repeated; the
  -- second result counts the repeats.
  pub prepare_temporal_window_lem :
      (x : A) (xs : List A) (required : ℕ)
      → 0 < required
      → (window : List A) × (pads : ℕ) × (prepare_temporal_window (x ∷ xs) required
          ≡ some (window, pads))
        × (length window ≡ required)
        × (pads ≡ required - length (x ∷ xs))
        × (window ≡ take_right required (x ∷ xs) ++ replicate pads (newest x xs))
  unfolding prepare_temporal_window last_slice
  prepare_temporal_window_lem x xs zero positive = absurd (omega arith)
  prepare_temporal_window_lem x xs (suc n) positive =
      let required = suc n in
      elim (dec_le required (length (x ∷ xs))) [
        | yes h ↦
            let none_left : required - length (x ∷ xs) ≡ 0 = omega arith in
            (
              take_right required (x ∷ xs),
              0,
              ground arith,
              omega (arith, length-take_right required (x ∷ xs)),
              sym none_left,
              sym (append_nil (take_right required (x ∷ xs))),
            )
        | no h ↦
            let pads = required - length (x ∷ xs) in
            (
              (x ∷ xs) ++ replicate pads (newest x xs),
              pads,
              ground arith,
              omega (
                arith,
                length-append (x ∷ xs) (replicate pads (newest x xs)),
                length-replicate pads (newest x xs),
              ),
              refl,
              ap (λ ys. ys ++ replicate pads (newest x xs))
                  (sym (take_right_all required (x ∷ xs) (omega arith))),
            )
      ]

-- What `build` returns: the tensor's name, the tensor and the metadata.
pub record Built (Tensor : Type 0) : Type 0 where
  pub name : String
  pub tensor : Tensor
  pub real_frames : ℕ
  pub padded_frames : ℕ

abbrev pub resize_all : {Crop Row : Type 0} → (Crop → Result Row) → List Crop → Result (List Row)
resize_all resize [] = returned []
resize_all resize (crop ∷ crops) =
    let rest = resize_all resize crops in
    elim (resize crop) [
      | raised e ↦ raised e
      | returned row ↦ elim rest [ raised e ↦ raised e | returned rows ↦ returned (row ∷ rows) ]
    ]

module _ {Crop Row Tensor : Type 0} (resize : ℕ → ℕ → Crop → Result Row)
    (stack : List Row → Tensor) where
  abbrev stacked : ℕ → Result (List Row) → Result (Tensor × ℕ)
  stacked pads (raised e) = raised e
  stacked pads (returned rows) = returned (stack rows, pads)

  -- `_build_cnn_transformer_tensor` and `_build_vjepa_tensor`, that differ in the side of a crop.
  unfoldable pub build_tensor : ℕ → List Crop → Result (Tensor × ℕ)
  build_tensor side frames = elim (prepare_temporal_window frames temporal_window) [
    | none ↦ raised "Inference batch builder requires at least one frame crop."
    | some prepared ↦ stacked prepared.1 (resize_all (resize side side) prepared.0)
  ]

  abbrev pub described : String → ℕ → Result (Tensor × ℕ) → Result (Built Tensor)
  described name frames (raised e) = raised e
  described name frames (returned (tensor, padded)) =
      returned
        (record { name = name; tensor = tensor; real_frames = frames; padded_frames = padded })

  unfoldable pub build : List Crop → String → Result (Built Tensor)
  build frames strategy =
      if same strategy "vjepa_probe"
      then described "pixel_values_videos" (length frames) (build_tensor 256 frames)
      else described "input" (length frames) (build_tensor 224 frames)
