-- ===== src/Inference/Scores/Attribution.antt =====
-- Which samples orchestrator.py gives a score.
use ai_intelligence_theft_de.Base.{
  ◌≡◌, ◌⊎◌, inl, inr, refl, String, List, [], ◌∷◌, Option-cases, Bool-cases, sym, length, arith,
  str_dec, same,
}
use ai_intelligence_theft_de.Base.Dict.{lookup}
use ai_intelligence_theft_de.Inference.Contracts.{Sample, Result, returned, raised}
use ai_intelligence_theft_de.Inference.BatchBuilder.{newest}
use ai_intelligence_theft_de.Inference.Scores.{
  Floats, zip, extract_scalar_scores, extract_vjepa_score, resolve_output_tensor_name,
  score_attributions, scalar_attributions, all_attributions, one_attribution,
}

module _ {Crop Score : Type 0} where
  abbrev pub samples_of : List (Sample Crop × Score) → List (Sample Crop)
  samples_of [] = []
  samples_of (a ∷ rest) = a.0 ∷ samples_of rest

  samples_of-zip :
      (batch : List (Sample Crop)) (scores : List Score)
      → length scores ≡ length batch
      → samples_of (zip batch scores) ≡ batch
  samples_of-zip [] ys h = refl
  samples_of-zip (x ∷ xs) [] h = absurd (omega arith)
  samples_of-zip (x ∷ xs) (y ∷ ys) h = ground (arith, samples_of-zip xs ys)

  scalar_lem :
      (first : Sample Crop) (rest : List (Sample Crop)) (tensor scores : List Score)
      → extract_scalar_scores tensor (length (first ∷ rest)) ≡ returned scores
      → (samples_of (scalar_attributions (first ∷ rest) (newest first rest) scores)
          ≡ newest first rest ∷ [])
        ⊎ (samples_of (scalar_attributions (first ∷ rest) (newest first rest) scores)
            ≡ first ∷ rest)
  unfolding extract_scalar_scores
  scalar_lem first rest tensor [] e = ground (arith, samples_of-zip (first ∷ rest) [])
  scalar_lem first rest tensor (s ∷ []) e = inl refl
  scalar_lem first rest tensor (s ∷ s' ∷ scores) e =
      ground (arith, samples_of-zip (first ∷ rest) (s ∷ s' ∷ scores))

  all_lem :
      (first : Sample Crop) (rest : List (Sample Crop)) (read : Result (List Score))
      (attributions : List (Sample Crop × Score)) (tensor : List Score)
      → read ≡ extract_scalar_scores tensor (length (first ∷ rest))
      → all_attributions (first ∷ rest) (newest first rest) read ≡ returned attributions
      → (samples_of attributions ≡ newest first rest ∷ [])
        ⊎ (samples_of attributions ≡ first ∷ rest)
  all_lem first rest (raised m) attributions tensor r e = absurd (ground arith)
  all_lem first rest (returned scores) attributions tensor r e =
      ground (arith, scalar_lem first rest tensor scores (sym r))

  one_lem :
      (sample : Sample Crop) (read : Result Score) (attributions : List (Sample Crop × Score))
      → one_attribution sample read ≡ returned attributions
      → samples_of attributions ≡ sample ∷ []
  one_lem sample (raised m) attributions e = absurd (ground arith)
  one_lem sample (returned s) attributions e = ground arith

  -- When the scores of a batch are read at all, they are given either to its newest sample alone or to
  -- every sample of the batch, in order; so there is at least one.
  pub score_attributions-samples :
      (floats : Floats Score) (first : Sample Crop) (rest : List (Sample Crop))
      (outputs : List (String × List Score)) (strategy : String)
      (attributions : List (Sample Crop × Score))
      → score_attributions floats first rest outputs strategy ≡ returned attributions
      → (samples_of attributions ≡ newest first rest ∷ [])
        ⊎ (samples_of attributions ≡ first ∷ rest)
  unfolding score_attributions
  score_attributions-samples floats first rest outputs strategy attributions e =
      elim (Option-cases (lookup str_dec (resolve_output_tensor_name strategy) outputs)) [
        | inl n ↦ ground arith
        | inr found ↦ elim (Bool-cases (same strategy "vjepa_probe")) [
          | inl v ↦
              ground (
                arith,
                one_lem (newest first rest) (extract_vjepa_score floats found.0) attributions,
              )
          | inr o ↦ ground (
            arith,
            all_lem first rest (extract_scalar_scores found.0 (length (first ∷ rest))) attributions
                found.0 refl,
          )
        ]
      ]
