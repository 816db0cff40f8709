-- ===== src/Batch/Score/Reason.antt =====
-- The reason of a scored row, against the rules and the decision.
use realtime_fraud_detection.Common.{◌≡◌, ◌↔◌, ◌≢◌, Bool, true, false, arith}
use realtime_fraud_detection.Common.Floating.{Floating}
use realtime_fraud_detection.Config.{Settings}
use realtime_fraud_detection.Features.{FeatureVector}
use realtime_fraud_detection.Scoring.Decision.{Decision, approve}
use realtime_fraud_detection.Scoring.Fallback.{
  velocity_rule, zscore_rule, travel_rule, new_device_rule,
}
use realtime_fraud_detection.Scoring.Fallback.Levels.{hard_rule}
use realtime_fraud_detection.Batch.Score.{
  ReasonTag, high_velocity, amount_outlier, impossible_travel, model_signal, no_signal,
  derive_reason,
}

abbrev pub names_rule : ReasonTag → Bool
names_rule high_velocity = true
names_rule amount_outlier = true
names_rule impossible_travel = true
names_rule _ = false

module _ {A : Type 0} ⦃f : Floating A⦄ (v : FeatureVector A) (decision : Decision)
    (s : Settings A) where
  -- The tag names a velocity, amount or travel signal exactly where such a rule of the fallback
  -- fires; "No signal" is for exactly the approved rows without one, and "Model signal" for exactly
  -- the rows that are not approved and on which no rule of the fallback fires.
  pub derive_reason_lem :
      ((names_rule (derive_reason v decision s) ≡ true) ↔ (hard_rule s v ≡ true))
      × ((derive_reason v decision s ≡ no_signal)
          ↔ ((hard_rule s v ≡ false) × (decision ≡ approve)))
      × ((derive_reason v decision s ≡ model_signal)
          ↔ ((hard_rule s v ≡ false) × (new_device_rule v ≡ false) × (decision ≢ approve)))
  unfolding derive_reason velocity_rule zscore_rule travel_rule new_device_rule
  derive_reason_lem = ground arith
