-- ===== src/Scoring/Decision/Policy.antt =====
-- What the routing policy promises.
use realtime_fraud_detection.Common.{ℕ, ◌≡◌, ◌≢◌, ◌↔◌, ◌≤◌, true, false, arith}
use realtime_fraud_detection.Common.Floating.{Floating, IsOrdered, ◌≤ᶠ◌, ◌<ᶠ◌}
use realtime_fraud_detection.Config.{Settings}
use realtime_fraud_detection.Scoring.Decision.{
  low, medium, high, Decision, approve, review, block, RoutingResult, in_uncertain_band, decide,
}

-- The three answers of one result agree.
pub record IsConsistent (r : RoutingResult) : Type 0 where
  pub blocked : (r.risk_level ≡ high) ↔ (r.decision ≡ block)
  pub approved : (r.risk_level ≡ low) ↔ (r.decision ≡ approve)
  pub routed : (r.routed_to_review ≡ true) ↔ (r.decision ≢ approve)

abbrev pub severity : Decision → ℕ
severity approve = 0
severity review = 1
severity block = 2

module _ {A : Type 0} ⦃f : Floating A⦄ where
  -- Whatever the score and the settings: high risk is exactly a block, low risk exactly an
  -- approval, and a case goes to review exactly when it is not approved.
  pub decide-IsConsistent : (score : A) (s : Settings A) → IsConsistent (decide score s)
  unfolding decide
  decide-IsConsistent score s = ground arith

  -- An approved score is at or below the low threshold, not at or above the high one, and outside
  -- the uncertain band.
  pub approve_safe :
      (score : A) (s : Settings A)
      → (decide score s).decision ≡ approve
      → (score ≤ᶠ s.risk_low_threshold ≡ true)
        × (s.risk_high_threshold ≤ᶠ score ≡ false)
        × (in_uncertain_band score s ≡ false)
  unfolding decide
  approve_safe score s h = ground arith

  module _ (laws : IsOrdered A) where
    open laws use {refl_of_le, le_trans, le_total, lt-eq, lt-lit}

    -- If comparisons are those of IEEE 754: a score that is NaN is neither approved nor blocked: it goes to review, at medium risk.
    pub decide_nan :
        (score : A) (s : Settings A)
        → score ≤ᶠ score ≡ false
        → ((decide score s).decision ≡ review)
          × ((decide score s).risk_level ≡ medium)
          × ((decide score s).routed_to_review ≡ true)
    unfolding decide
    decide_nan score s h =
        ground
          (arith, refl_of_le s.risk_high_threshold score, refl_of_le score s.risk_low_threshold)

    -- If comparisons are those of IEEE 754 and the band starts above the low threshold, a higher score never gets a milder decision.
    pub decide_mono :
        (x y : A) (s : Settings A)
        → s.risk_low_threshold <ᶠ s.review_confidence_band_low ≡ true
        → x ≤ᶠ y ≡ true
        → severity (decide x s).decision ≤ severity (decide y s).decision
    unfolding decide
    decide_mono x y s above h = ground (
      arith,
      lt-eq s.risk_low_threshold s.review_confidence_band_low,
      le_trans s.risk_high_threshold x y,
      le_trans x y s.risk_low_threshold,
      le_trans s.review_confidence_band_low x s.risk_low_threshold,
    )
