-- ===== src/Inference/Decision.antt =====
-- decision_engine.py: `DecisionEngine`. Scores are Python's floats, an argument with their `>=`.
use ai_intelligence_theft_de.Base.{Bool, if◌then◌else◌}

-- `alert_level`
pub data Level : Type 0 where
  normal warning alert : Level

pub record DecisionEngine (Score : Type 0) : Type 0 where
  pub warning_threshold : Score
  pub alert_threshold : Score

module _ {Score : Type 0} (ge : Score → Score → Bool) where
  unfoldable pub classify : DecisionEngine Score → Score → Level
  classify engine score =
      if ge score engine.alert_threshold
      then alert
      else if ge score engine.warning_threshold
      then warning
      else normal
