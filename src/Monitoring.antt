-- ===== src/Monitoring.antt =====
-- src/monitoring/business_metrics.py: the figures of a window of predictions and feedback. The push to the
-- gateway is left out; what is pushed is here.
pub mod Shares
use realtime_fraud_detection.Common.{
  ℕ, ◌-◌, String, Bool, true, false, none, List, [], ◌∷◌, map, length, count, str_eq, leb,
  if◌then◌else◌,
}
use realtime_fraud_detection.Common.Dict.{Dict}
use realtime_fraud_detection.Common.Int.{pos}
use realtime_fraud_detection.Common.Floating.{Floating, lit}
use realtime_fraud_detection.Features.{hours}
use realtime_fraud_detection.Scoring.Decision.{Decision, approve, review, block}
use realtime_fraud_detection.Scoring.Inference.{ModelSource, ml, fallback_rules}
use realtime_fraud_detection.Storage.Tables.{Database, PredictionRecord, AnalystFeedbackRecord}
use realtime_fraud_detection.Storage.Review.{count_review_cases}
use realtime_fraud_detection.Storage.Feedback.{
  fetch_predictions_since, fetch_feedback_with_predictions,
}
use realtime_fraud_detection.Drift.{Stats}

pub record BusinessMetricsSnapshot (A : Type 0) : Type 0 where
  pub window_hours : ℕ
  pub total_predictions : ℕ
  pub block_rate : A
  pub review_rate : A
  pub approve_rate : A
  pub fallback_rate : A
  pub score_p50 : A
  pub score_p95 : A
  pub review_queue_pending : ℕ
  pub review_queue_in_review : ℕ
  pub false_positive_rate : A
  pub false_negative_rate : A
  pub feedback_sample_size : ℕ

module _ {A : Type 0} where
  abbrev pub is_block : PredictionRecord A → Bool
  is_block p = elim p.decision [ block ↦ true | _ ↦ false ]

  abbrev pub is_review : PredictionRecord A → Bool
  is_review p = elim p.decision [ review ↦ true | _ ↦ false ]

  abbrev pub is_approve : PredictionRecord A → Bool
  is_approve p = elim p.decision [ approve ↦ true | _ ↦ false ]

  abbrev pub is_fallback : PredictionRecord A → Bool
  is_fallback p = elim p.model_source [ fallback_rules ↦ true | ml ↦ false ]

  abbrev pub is_labelled : String → AnalystFeedbackRecord × PredictionRecord A → Bool
  is_labelled label (fb, p) = str_eq fb.label label

module _ {A : Type 0} ⦃f : Floating A⦄ where
  -- a share of a total, 0.0 of nothing
  abbrev pub rate : ℕ → ℕ → A
  rate n total = if leb 1 total then f.div (f.of_int (pos n)) (f.of_int (pos total)) else lit 0 0

  abbrev pub gauge_of : ℕ → A
  gauge_of n = f.of_int (pos n)

  -- the gauges that `push_snapshot` sets, before the push
  unfoldable pub snapshot_gauges : BusinessMetricsSnapshot A → Dict A
  snapshot_gauges s =
      ("fraud_business_total_predictions", gauge_of s.total_predictions)
      ∷ ("fraud_business_block_rate", s.block_rate)
      ∷ ("fraud_business_review_rate", s.review_rate)
      ∷ ("fraud_business_approve_rate", s.approve_rate)
      ∷ ("fraud_business_fallback_rate", s.fallback_rate)
      ∷ ("fraud_business_score_p50", s.score_p50)
      ∷ ("fraud_business_score_p95", s.score_p95)
      ∷ ("fraud_review_queue_pending", gauge_of s.review_queue_pending)
      ∷ ("fraud_review_queue_in_review", gauge_of s.review_queue_in_review)
      ∷ ("fraud_business_false_positive_rate", s.false_positive_rate)
      ∷ ("fraud_business_false_negative_rate", s.false_negative_rate)
      ∷ ("fraud_business_feedback_sample_size", gauge_of s.feedback_sample_size)
      ∷ []

  unfoldable pub compute_snapshot :
      {R : Type 0} → Stats A → ℕ → ℕ → Database A R → BusinessMetricsSnapshot A
  compute_snapshot stats now window_hours db =
      let since = now - hours window_hours in
      let predictions = fetch_predictions_since since none 50000 db in
      let feedback = fetch_feedback_with_predictions since 50000 db in
      let total = length predictions in
      let feedback_total = length feedback in
      let scores = map (λ p. p.fraud_score) predictions in
      record {
        window_hours = window_hours;
        total_predictions = total;
        block_rate = rate (count is_block predictions) total;
        review_rate = rate (count is_review predictions) total;
        approve_rate = rate (count is_approve predictions) total;
        fallback_rate = rate (count is_fallback predictions) total;
        score_p50 = if leb 1 total then stats.percentile scores 50 else lit 0 0;
        score_p95 = if leb 1 total then stats.percentile scores 95 else lit 0 0;
        review_queue_pending = count_review_cases "pending" db;
        review_queue_in_review = count_review_cases "in_review" db;
        false_positive_rate = rate (count (is_labelled "false_positive") feedback) feedback_total;
        false_negative_rate = rate (count (is_labelled "false_negative") feedback) feedback_total;
        feedback_sample_size = feedback_total;
      }
