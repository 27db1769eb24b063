-- ===== src/Inference/Scores.antt =====
-- orchestrator.py: from the model's output to the scores of the samples. A tensor is the list of its
-- entries, which the code flattens. `softmax` is numpy's, of two logits, at the second class.
pub mod Attribution
use ai_intelligence_theft_de.Base.{
  ℕ, String, List, [], ◌∷◌, Option, none, some, str_dec, same, length, if◌then◌else◌, ◌==◌, Bool,
}
use ai_intelligence_theft_de.Base.Dict.{lookup, insert}
use ai_intelligence_theft_de.Inference.Contracts.{Sample, Result, returned, raised}
use ai_intelligence_theft_de.Inference.BatchBuilder.{newest}

-- What the code takes from Python's floats and from numpy.
pub record Floats (Score : Type 0) : Type 0 where
  pub zero_score : Score
  -- `0.35 * raw + (1.0 - 0.35) * previous`
  pub mix : Score → Score → Score
  pub softmax : Score → Score → Score
  pub ge : Score → Score → Bool

unfoldable pub resolve_model_name : String → String
resolve_model_name strategy = if same strategy "vjepa_probe" then "vjepa_finetune" else strategy

unfoldable pub resolve_output_tensor_name : String → String
resolve_output_tensor_name strategy = if same strategy "vjepa_probe" then "logits" else "output"

abbrev pub zip {ℓ κ} : {A : Type ℓ} {B : Type κ} → List A → List B → List (A × B)
zip [] ys = []
zip (x ∷ xs) [] = []
zip (x ∷ xs) (y ∷ ys) = (x, y) ∷ zip xs ys

-- `f"{a}{b}"`
abbrev pub join : String → String → String
join String.[] t = t
join (String.◌∷◌ c s) t = String.◌∷◌ c (join s t)

module _ {Score : Type 0} where
  -- The ValueError's message goes on with the numbers.
  unfoldable pub extract_scalar_scores : List Score → ℕ → Result (List Score)
  extract_scalar_scores flattened expected_count =
      if length flattened == 1
      then returned flattened
      else if length flattened == expected_count
      then returned flattened
      else raised "Expected Triton output tensor 'output' to contain either one scalar score"

  -- `array.flat[0]` of an empty array is an IndexError.
  unfoldable pub extract_vjepa_score : Floats Score → List Score → Result Score
  extract_vjepa_score floats [] = raised "index 0 is out of bounds for axis 0 with size 0"
  extract_vjepa_score floats (a ∷ []) = returned a
  extract_vjepa_score floats (a ∷ b ∷ []) = returned (floats.softmax a b)
  extract_vjepa_score floats (a ∷ b ∷ c ∷ rest) = returned a

  -- `_smooth_score`, for the key of a track.
  unfoldable pub smooth_score :
      Floats Score → List (String × Score) → String → Score → Score × List (String × Score)
  smooth_score floats ema_scores key raw_score =
      let smoothed : Score = elim (lookup str_dec key ema_scores) [
        | none ↦ raw_score
        | some prev ↦ floats.mix raw_score prev
      ] in
      (smoothed, insert str_dec key smoothed ema_scores)

-- `f"{camera_id}:{persistent_id}:{model_name}"`
abbrev pub score_key : String → String → String → String
score_key camera_id persistent_id model_name =
    join camera_id (join ":" (join persistent_id (join ":" model_name)))

module _ {Crop Score : Type 0} where
  abbrev pub scalar_attributions :
      List (Sample Crop) → Sample Crop → List Score → List (Sample Crop × Score)
  scalar_attributions batch sample scores =
      if length scores == 1 then zip (sample ∷ []) scores else zip batch scores

  abbrev pub one_attribution : Sample Crop → Result Score → Result (List (Sample Crop × Score))
  one_attribution sample (raised e) = raised e
  one_attribution sample (returned score) = returned ((sample, score) ∷ [])

  abbrev pub all_attributions :
      List (Sample Crop) → Sample Crop → Result (List Score) → Result (List (Sample Crop × Score))
  all_attributions batch sample (raised e) = raised e
  all_attributions batch sample (returned scores) =
      returned (scalar_attributions batch sample scores)

  -- `_score_attributions` of the batch `first ∷ rest`; `outputs` are the tensors by name.
  unfoldable pub score_attributions :
      Floats Score
      → Sample Crop
      → List (Sample Crop)
      → List (String × List Score)
      → String
      → Result (List (Sample Crop × Score))
  score_attributions floats first rest outputs strategy =
      let sample = newest first rest in
      elim (lookup str_dec (resolve_output_tensor_name strategy) outputs) [
        | none ↦ returned ((sample, floats.zero_score) ∷ [])
        | some raw_tensor ↦
            if same strategy "vjepa_probe"
            then one_attribution sample (extract_vjepa_score floats raw_tensor)
            else all_attributions (first ∷ rest) sample
                (extract_scalar_scores raw_tensor (length (first ∷ rest)))
      ]
