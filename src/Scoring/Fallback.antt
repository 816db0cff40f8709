-- ===== src/Scoring/Fallback.antt =====
-- src/api/fallback.py: the rule-based scorer.
pub mod Levels
use realtime_fraud_detection.Common.{
  ℕ, String, ◌≡◌, Bool, true, false, ◌&&◌, Option, none, some, List, [], ◌∷◌, ◌++◌, arith, concat,
  join, ltb, if◌then◌else◌,
}
use realtime_fraud_detection.Common.Floating.{Floating, ◌≤ᶠ◌, ◌<ᶠ◌, lit, fmax}
use realtime_fraud_detection.Config.{Settings}
use realtime_fraud_detection.Features.{FeatureVector, is_velocity_abuse, is_impossible_travel}

pub record FallbackResult (A : Type 0) : Type 0 where
  pub score : A
  pub triggered_rules : List String

abbrev pub reason : {A : Type 0} → FallbackResult A → String
reason r = elim r.triggered_rules [ [] ↦ "no rule triggered" | x ∷ xs ↦ join "; " (x ∷ xs) ]

abbrev pub fallback_name : String
fallback_name = "fallback_rules"

abbrev pub fallback_version : String
fallback_version = "v1"

-- `n` in decimal is the standard library's
module _ {A : Type 0} ⦃f : Floating A⦄ (show_int : ℕ → String) where
  velocity_text : Settings A → FeatureVector A → String
  velocity_text s v = concat (
      "velocity_5min ("
      ∷ show_int v.velocity_5min
      ∷ ") exceeded threshold ("
      ∷ show_int s.fallback_velocity_5min_threshold
      ∷ ")"
      ∷ [])

  zscore_text : Settings A → FeatureVector A → String
  zscore_text s v = concat (
      "amount_zscore_24h ("
      ∷ f.fixed v.amount_zscore_24h 2
      ∷ ") exceeded threshold ("
      ∷ f.text s.fallback_amount_zscore_threshold
      ∷ ")"
      ∷ [])

  abbrev speed_text : Option A → String
  speed_text none = ""
  speed_text (some x) = f.fixed x 0

  travel_text : Settings A → FeatureVector A → String
  travel_text s v = concat (
      "implied_speed_kmh ("
      ∷ speed_text v.implied_speed_kmh
      ∷ ") exceeds plausible travel speed ("
      ∷ f.fixed s.fallback_impossible_travel_speed_kmh 0
      ∷ " km/h)"
      ∷ [])

-- one rule: where it fires, its text is added and the score raised to its level
abbrev pub apply_rule :
    {A : Type 0} ⦃f : Floating A⦄ → Bool → A → String → FallbackResult A → FallbackResult A
apply_rule fires level text r =
    if fires
    then record { score = fmax r.score level; triggered_rules = r.triggered_rules ++ text ∷ [] }
    else r

module _ {A : Type 0} ⦃f : Floating A⦄ where
  unfoldable pub velocity_rule : Settings A → FeatureVector A → Bool
  velocity_rule s v = is_velocity_abuse v s.fallback_velocity_5min_threshold

  unfoldable pub zscore_rule : Settings A → FeatureVector A → Bool
  zscore_rule s v = s.fallback_amount_zscore_threshold ≤ᶠ v.amount_zscore_24h

  unfoldable pub travel_rule : Settings A → FeatureVector A → Bool
  travel_rule s v = is_impossible_travel v s.fallback_impossible_travel_speed_kmh

  unfoldable pub new_device_rule : FeatureVector A → Bool
  new_device_rule v = v.is_new_device && lit 0 0 <ᶠ v.avg_amount_1h

  -- `RuleBasedFallback.score`
  unfoldable pub fallback_score : (ℕ → String) → Settings A → FeatureVector A → FallbackResult A
  unfolding velocity_text zscore_text travel_text
  fallback_score show_int s v =
      let r0 : FallbackResult A = record { score = lit 5 2; triggered_rules = [] } in
      let r1 = apply_rule (velocity_rule s v) (lit 90 2) (velocity_text show_int s v) r0 in
      let r2 = apply_rule (zscore_rule s v) (lit 85 2) (zscore_text show_int s v) r1 in
      let r3 = apply_rule (travel_rule s v) (lit 95 2) (travel_text show_int s v) r2 in
      apply_rule (new_device_rule v) (lit 35 2) "new_device combined with elevated spend" r3
