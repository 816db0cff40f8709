-- ===== src/Scoring/Decision.antt =====
-- src/api/decision.py: from a score to risk level, decision and routing.
pub mod Policy
use realtime_fraud_detection.Common.{
  ℕ, String, ◌≡◌, ◌≢◌, ◌↔◌, ◌≤◌, Bool, true, false, not, ◌&&◌, [], ◌∷◌, arith, concat,
  if◌then◌else◌,
}
use realtime_fraud_detection.Common.Floating.{Floating, IsOrdered, ◌≤ᶠ◌, ◌<ᶠ◌, lit}
use realtime_fraud_detection.Config.{Settings, default_settings}

pub data RiskLevel : Type 0 where
  low medium high : RiskLevel

pub data Decision : Type 0 where
  approve review block : Decision

pub record RoutingResult : Type 0 where
  pub risk_level : RiskLevel
  pub decision : Decision
  pub routed_to_review : Bool
  pub reason : String

abbrev pub approved : Decision → Bool
approved approve = true
approved _ = false

module _ {A : Type 0} ⦃f : Floating A⦄ where
  unfoldable pub in_uncertain_band : A → Settings A → Bool
  in_uncertain_band score s =
      s.review_confidence_band_low ≤ᶠ score && score ≤ᶠ s.review_confidence_band_high

  unfoldable pub grade : A → Settings A → RiskLevel × Decision
  unfolding in_uncertain_band
  grade score s =
      if s.risk_high_threshold ≤ᶠ score
      then (high, block)
      else if score ≤ᶠ s.risk_low_threshold && not (in_uncertain_band score s)
      then (low, approve)
      else (medium, review)

  reason_of : A → Settings A → RiskLevel → String
  unfolding in_uncertain_band
  reason_of score s level =
      if in_uncertain_band score s
      then concat ("score " ∷ f.fixed score 3 ∷ " is within the low-confidence review band" ∷ [])
      else elim level [
        | high ↦ concat (
            "score "
            ∷ f.fixed score 3
            ∷ " at/above high-risk threshold ("
            ∷ f.text s.risk_high_threshold
            ∷ ")"
            ∷ [])
        | medium ↦ concat (
            "score "
            ∷ f.fixed score 3
            ∷ " between low ("
            ∷ f.text s.risk_low_threshold
            ∷ ") and high risk thresholds"
            ∷ [])
        | low ↦ concat (
            "score "
            ∷ f.fixed score 3
            ∷ " at/below low-risk threshold ("
            ∷ f.text s.risk_low_threshold
            ∷ ")"
            ∷ [])
      ]

  unfoldable pub decide : A → Settings A → RoutingResult
  unfolding grade reason_of
  decide score s =
      let (risk_level, decision) = grade score s in
      let routed = not (approved decision) in
      record {
        risk_level = risk_level;
        decision = decision;
        routed_to_review = if in_uncertain_band score s then true else routed;
        reason = reason_of score s risk_level;
      }
