-- ===== src/Tests/Scoring.antt =====
-- The features, the policy and the scoring at concrete data.
use realtime_fraud_detection.Common.{◌+◌, ◌≤◌, ◌≡◌, refl, [], ◌∷◌, ◌++◌, length, arith}
use realtime_fraud_detection.Common.Floating.{Micros, micros_floating, Micros-IsOrdered, lit}
use realtime_fraud_detection.Common.Sort.{DistinctKeys}
use realtime_fraud_detection.Features.{compute_features}
use realtime_fraud_detection.Features.Windows.{IsNested, compute_features-IsNested}
use realtime_fraud_detection.Features.History.{compute_features_redelivery}
use realtime_fraud_detection.Schemas.{Transaction}
use realtime_fraud_detection.Scoring.Decision.{decide}
use realtime_fraud_detection.Scoring.Decision.Policy.{decide_mono, severity}
use realtime_fraud_detection.Scoring.Fallback.{fallback_score}
use realtime_fraud_detection.Scoring.Fallback.Levels.{
  level, verdict, score-fallback_score, decide-fallback_score,
}
use realtime_fraud_detection.Config.{default_settings}
use realtime_fraud_detection.Tests.{settings, first, second, other_card}

compute_features-IsNested_example :
    IsNested (length (first ∷ []) + 1) (compute_features (first ∷ []) second)
compute_features-IsNested_example = compute_features-IsNested (first ∷ []) second

compute_features_redelivery_example :
    compute_features ((first ∷ []) ++ second ∷ []) second
    ≡ compute_features ((first ∷ []) ++ []) second
compute_features_redelivery_example = compute_features_redelivery (first ∷ []) [] second second refl

apart : DistinctKeys (λ (t : Transaction Micros). t.event_time) (first ∷ other_card ∷ [])
apart = (((λ e. omega (arith, e)), tt), (tt, tt))

decide_mono_example :
    severity (decide (lit 10 2) settings).decision ≤ severity (decide (lit 50 2) settings).decision
decide_mono_example = decide_mono Micros-IsOrdered (lit 10 2) (lit 50 2) settings refl refl

score-fallback_score_example :
    (fallback_score (λ n. "") settings (compute_features (first ∷ []) second)).score
    ≡ lit (level settings (compute_features (first ∷ []) second)) 2
score-fallback_score_example =
    score-fallback_score Micros-IsOrdered (λ n. "") settings (compute_features (first ∷ []) second)

decide-fallback_score_example :
    (decide
      (fallback_score (λ n. "") settings (compute_features (first ∷ []) second)).score
      default_settings).decision
    ≡ verdict settings (compute_features (first ∷ []) second)
decide-fallback_score_example =
    decide-fallback_score Micros-IsOrdered (λ n. "") settings (compute_features (first ∷ []) second)
