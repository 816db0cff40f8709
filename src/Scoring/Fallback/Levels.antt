-- ===== src/Scoring/Fallback/Levels.antt =====
-- The fallback's score is the level of the strongest rule, and what the policy makes of it.
use realtime_fraud_detection.Common.{
  ℕ, suc, ◌≤◌, ◌<◌, String, ◌≡◌, Bool, true, false, ◌||◌, arith, if◌then◌else◌,
}
use realtime_fraud_detection.Common.Floating.{Floating, IsOrdered, lit}
use realtime_fraud_detection.Config.{Settings, default_settings}
use realtime_fraud_detection.Features.{FeatureVector}
use realtime_fraud_detection.Scoring.Decision.{Decision, approve, review, block, decide}
use realtime_fraud_detection.Scoring.Fallback.{
  fallback_score, velocity_rule, zscore_rule, travel_rule, new_device_rule,
}

module _ {A : Type 0} ⦃f : Floating A⦄ where
  -- The levels in hundredths, strongest rule first.
  abbrev pub level : Settings A → FeatureVector A → ℕ
  level s v =
      if travel_rule s v
      then 95
      else if velocity_rule s v
      then 90
      else if zscore_rule s v
      then 85
      else if new_device_rule v
      then 35
      else 5

  abbrev pub hard_rule : Settings A → FeatureVector A → Bool
  hard_rule s v = velocity_rule s v || zscore_rule s v || travel_rule s v

  -- what the default policy makes of the rules
  abbrev pub verdict : Settings A → FeatureVector A → Decision
  verdict s v = if hard_rule s v then block else if new_device_rule v then review else approve

  module _ (laws : IsOrdered A) where
    open laws use {refl_of_le, le_trans, lt-eq, lt-lit}

    lit-lt : (a b : ℕ) → a < b → b ≤ 99 → f.lt (lit a 2) (lit b 2) ≡ true
    lit-lt a b h k = lt-lit a b 2 h (omega arith) (omega arith)

    lit-not-lt : (a b : ℕ) → a < b → b ≤ 99 → f.lt (lit b 2) (lit a 2) ≡ false
    lit-not-lt a b h k =
        ground (arith, lit-lt a b h k, lt-eq (lit a 2) (lit b 2), lt-eq (lit b 2) (lit a 2))

    lit-le : (a b : ℕ) → a < b → b ≤ 99 → f.le (lit a 2) (lit b 2) ≡ true
    lit-le a b h k = ground (arith, lit-lt a b h k, lt-eq (lit a 2) (lit b 2))

    lit-not-le : (a b : ℕ) → a < b → b ≤ 99 → f.le (lit b 2) (lit a 2) ≡ false
    lit-not-le a b h k = ground (arith, lit-lt a b h k, lt-eq (lit a 2) (lit b 2))

    lit_refl : (a : ℕ) → a ≤ 98 → f.le (lit a 2) (lit a 2) ≡ true
    lit_refl a h =
        (refl_of_le (lit a 2) (lit (suc a) 2) (lit-le a (suc a) (omega arith) (omega arith))).0

    -- If comparisons are those of IEEE 754: the score is the level of the strongest rule that fires, 0.95, 0.90, 0.85 or 0.35, and 0.05
    -- if none does; no order of the rules and no combination of them changes it.
    pub score-fallback_score :
        (show_int : ℕ → String) (s : Settings A) (v : FeatureVector A)
        → (fallback_score show_int s v).score ≡ lit (level s v) 2
    unfolding fallback_score
    score-fallback_score show_int s v = ground (
      arith,
      lit-lt 5 35 (omega arith) (omega arith),
      lit-lt 5 85 (omega arith) (omega arith),
      lit-lt 5 90 (omega arith) (omega arith),
      lit-lt 5 95 (omega arith) (omega arith),
      lit-lt 85 95 (omega arith) (omega arith),
      lit-lt 90 95 (omega arith) (omega arith),
      lit-not-lt 85 90 (omega arith) (omega arith),
      lit-not-lt 35 85 (omega arith) (omega arith),
      lit-not-lt 35 90 (omega arith) (omega arith),
      lit-not-lt 35 95 (omega arith) (omega arith),
    )

    decide-level :
        (s : Settings A) (v : FeatureVector A)
        → (decide {A = A} (lit (level s v) 2) default_settings).decision ≡ verdict s v
    unfolding decide
    decide-level s v = ground (
      arith,
      lit-not-le 5 80 (omega arith) (omega arith),
      lit-not-le 35 80 (omega arith) (omega arith),
      lit-le 80 85 (omega arith) (omega arith),
      lit-le 80 90 (omega arith) (omega arith),
      lit-le 80 95 (omega arith) (omega arith),
      lit-le 5 20 (omega arith) (omega arith),
      lit-not-le 20 35 (omega arith) (omega arith),
      lit-not-le 5 40 (omega arith) (omega arith),
    )

    -- If comparisons are those of IEEE 754, under the default thresholds of the policy and any of the
    -- rules: a transaction that the
    -- fallback scores is blocked exactly where the velocity, the amount or the travel rule fires,
    -- and reviewed where only the new device rule does; without a rule it is approved.
    pub decide-fallback_score :
        (show_int : ℕ → String) (s : Settings A) (v : FeatureVector A)
        → (decide (fallback_score show_int s v).score default_settings).decision ≡ verdict s v
    decide-fallback_score show_int s v = rw (score-fallback_score show_int s v) (decide-level s v)
