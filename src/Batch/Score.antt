-- ===== src/Batch/Score.antt =====
-- src/api/batch.py, `_derive_reason` and `score_batch`.
pub mod Reason
pub mod Agreement
use realtime_fraud_detection.Common.{
  ℕ, String, Bool, true, false, not, ◌&&◌, Option, none, some, List, [], ◌∷◌, ◌++◌, or_else,
  if◌then◌else◌,
}
use realtime_fraud_detection.Common.Dict.{Dict, get, set}
use realtime_fraud_detection.Common.Floating.{Floating, ◌≤ᶠ◌, ◌<ᶠ◌, lit}
use realtime_fraud_detection.Config.{Settings}
use realtime_fraud_detection.Schemas.{Transaction}
use realtime_fraud_detection.Features.{
  FeatureVector, try_features, sort_by_time, is_velocity_abuse, is_impossible_travel,
}
use realtime_fraud_detection.Scoring.Decision.{Decision, RiskLevel, approve, approved, decide}
use realtime_fraud_detection.Scoring.FeatureRow.{Row, build_feature_row, select_model_matrix}
use realtime_fraud_detection.Scoring.Fallback.{fallback_score}
use realtime_fraud_detection.Scoring.Inference.{ModelSource, ml, fallback_rules, ModelState, Engine}

pub data ReasonTag : Type 0 where
  high_velocity amount_outlier impossible_travel new_device_high_spend model_signal no_signal :
      ReasonTag

abbrev pub reason_label : ReasonTag → String
reason_label high_velocity = "High velocity"
reason_label amount_outlier = "Amount outlier"
reason_label impossible_travel = "Impossible travel"
reason_label new_device_high_spend = "New device + high spend"
reason_label model_signal = "Model signal (no rule match)"
reason_label no_signal = "No signal"

pub record ScoredTransaction (A : Type 0) : Type 0 where
  pub txn : Transaction A
  pub fraud_score : A
  pub risk_level : RiskLevel
  pub decision : Decision
  pub routed_to_review : Bool
  pub model_source : ModelSource
  pub reason_tag : ReasonTag

module _ {A : Type 0} ⦃f : Floating A⦄ where
  unfoldable pub derive_reason : FeatureVector A → Decision → Settings A → ReasonTag
  derive_reason v decision s =
      if is_velocity_abuse v s.fallback_velocity_5min_threshold
      then high_velocity
      else if s.fallback_amount_zscore_threshold ≤ᶠ v.amount_zscore_24h
      then amount_outlier
      else if is_impossible_travel v s.fallback_impossible_travel_speed_kmh
      then impossible_travel
      else if v.is_new_device && lit 0 0 <ᶠ v.avg_amount_1h && not (approved decision)
      then new_device_high_spend
      else if not (approved decision)
      then model_signal
      else no_signal

-- `history[card_id]` of a `defaultdict(list)`
abbrev pub history_of : {A : Type 0} → String → Dict (List (Transaction A)) → List (Transaction A)
history_of card history = or_else (get card history) []

abbrev pub cons_option : {B : Type 0} → Option B → Option (List B) → Option (List B)
cons_option (some b) (some bs) = some (b ∷ bs)
cons_option _ _ = none

module _ {A M E X : Type 0} ⦃f : Floating A⦄ (eng : Engine A M E X) where
  -- by the model, by the rules if it raises or if there is none
  unfoldable pub batch_score_of : ModelState A M E → FeatureVector A → Row A → A × ModelSource
  batch_score_of state v row =
      let by_rules : A × ModelSource =
        ((fallback_score eng.show_int state.settings v).score, fallback_rules) in
      elim state.model [
        | none ↦ by_rules
        | some m ↦ elim (eng.predict_proba m row) [ none ↦ by_rules | some p ↦ (p, ml) ]
      ]

  scored_row :
      ModelState A M E
      → Settings A
      → Transaction A
      → FeatureVector A
      → Option (Row A)
      → Option (ScoredTransaction A)
  unfolding batch_score_of
  scored_row state settings txn v none = none
  scored_row state settings txn v (some row) =
      let (score, model_source) = batch_score_of state v row in
      let routing = decide score settings in
      some (record {
        txn = txn;
        fraud_score = score;
        risk_level = routing.risk_level;
        decision = routing.decision;
        routed_to_review = routing.routed_to_review;
        model_source = model_source;
        reason_tag = derive_reason v routing.decision settings;
      })

  -- one turn of the loop, on the card's history so far
  unfoldable pub score_one :
      ModelState A M E
      → Settings A
      → List (Transaction A)
      → Transaction A
      → Option (ScoredTransaction A)
  unfolding scored_row try_features
  score_one state settings hist txn = elim (try_features hist txn) [
    | none ↦ none
    | some v ↦ scored_row state settings txn v (select_model_matrix (build_feature_row v txn))
  ]

  unfoldable pub score_from :
      ModelState A M E
      → Settings A
      → Dict (List (Transaction A))
      → List (Transaction A)
      → Option (List (ScoredTransaction A))
  score_from state settings history [] = some []
  score_from state settings history (txn ∷ rest) =
      let hist = history_of txn.card_id history in
      cons_option (score_one state settings hist txn)
        (score_from state settings (set txn.card_id (hist ++ txn ∷ []) history) rest)

  -- `none` is an exception: of the sort, of the features or the `KeyError` of a missing column
  unfoldable pub score_batch :
      ModelState A M E → Settings A → List (Transaction A) → Option (List (ScoredTransaction A))
  unfolding score_from sort_by_time
  score_batch state settings transactions = elim (sort_by_time transactions) [
    | none ↦ none
    | some ordered ↦ score_from state settings [] ordered
  ]
