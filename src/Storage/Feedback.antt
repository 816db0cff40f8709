-- ===== src/Storage/Feedback.antt =====
-- src/storage/postgres_client.py: what drift detection, metrics and retraining read back. A join goes
-- through the feedback in the order of insertion; PostgreSQL leaves that order open.
pub mod Labels
use realtime_fraud_detection.Common.{
  ℕ, String, Bool, true, false, ◌&&◌, Option, none, some, List, [], ◌∷◌, ◌++◌, map, take, filter,
  leb, str_eq, if◌then◌else◌,
}
use realtime_fraud_detection.Common.Sort.{sort}
use realtime_fraud_detection.Scoring.FeatureRow.{Row}
use realtime_fraud_detection.Storage.Tables.{
  Database, PredictionRecord, ReviewCaseRecord, AnalystFeedbackRecord,
}
use realtime_fraud_detection.Storage.Review.{find_case, find_prediction}

-- an empty model name counts as none
abbrev pub of_model : {A : Type 0} → Option String → PredictionRecord A → Bool
of_model none r = true
of_model (some name) r = if str_eq name "" then true else str_eq r.model_name name

module _ {A R : Type 0} where
  unfoldable pub fetch_predictions_since :
      ℕ → Option String → ℕ → Database A R → List (PredictionRecord A)
  fetch_predictions_since since model_name limit db = take limit (
      sort (λ r s. leb s.created_at r.created_at)
        (filter (λ r. leb since r.created_at && of_model model_name r) db.predictions))

  -- the case by its key, then the prediction by its key
  abbrev pub prediction_of : AnalystFeedbackRecord → Database A R → Option (PredictionRecord A)
  prediction_of fb db = elim (find_case fb.case_id db.review_cases) [
    | none ↦ none
    | some c ↦ find_prediction c.prediction_id db.predictions
  ]

  abbrev pub join_rows :
      Database A R → List AnalystFeedbackRecord → List (AnalystFeedbackRecord × PredictionRecord A)
  join_rows db [] = []
  join_rows db (fb ∷ rest) = elim (prediction_of fb db) [
    | none ↦ join_rows db rest
    | some p ↦ (fb, p) ∷ join_rows db rest
  ]

  unfoldable pub fetch_feedback_with_predictions :
      ℕ → ℕ → Database A R → List (AnalystFeedbackRecord × PredictionRecord A)
  fetch_feedback_with_predictions since limit db =
      take limit (join_rows db (filter (λ fb. leb since fb.created_at) db.analyst_feedback))

pub record LabeledExample (A : Type 0) : Type 0 where
  pub transaction_id : String
  pub input_features : Row A
  pub label : ℕ
  pub analyst_label : String

-- `label_map`
unfoldable pub label_of : String → Option ℕ
label_of label =
    if str_eq label "confirmed_fraud"
    then some 1
    else if str_eq label "false_negative"
    then some 1
    else if str_eq label "confirmed_legitimate"
    then some 0
    else if str_eq label "false_positive"
    then some 0
    else none

unfoldable pub examples_of :
    {A : Type 0} → List (AnalystFeedbackRecord × PredictionRecord A) → List (LabeledExample A)
examples_of [] = []
examples_of ((fb, p) ∷ rest) = elim (label_of fb.label) [
  | none ↦ examples_of rest
  | some n ↦
      record {
        transaction_id = fb.transaction_id;
        input_features = p.input_features;
        label = n;
        analyst_label = fb.label;
      }
      ∷ examples_of rest
]

unfoldable pub fetch_labeled_training_examples :
    {A R : Type 0} → ℕ → ℕ → Database A R → List (LabeledExample A)
unfolding examples_of
fetch_labeled_training_examples since limit db =
    examples_of (fetch_feedback_with_predictions since limit db)
