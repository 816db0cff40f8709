-- ===== src/Dataset.antt =====
-- src/ml/dataset.py: the rows that the models are trained on. A data frame is the list of its rows.
pub mod Windows
pub mod Floor
use realtime_fraud_detection.Common.{
  ℕ, ◌-◌, ◌*◌, String, Option, none, some, List, [], ◌∷◌, ◌++◌, length, drop, or_else, ltb,
  if◌then◌else◌,
}
use realtime_fraud_detection.Common.Dict.{Dict, get, set}
use realtime_fraud_detection.Common.Floating.{Floating}
use realtime_fraud_detection.Schemas.{Transaction}
use realtime_fraud_detection.Features.{hours, compute_features}
use realtime_fraud_detection.Generator.{Rng, Gen, ◌>>=◌, pure, build_profiles}
use realtime_fraud_detection.Generator.Traffic.{stream}
use realtime_fraud_detection.Scoring.FeatureRow.{
  Row, Cell, feature_columns, build_feature_row, to_int, select,
}
use realtime_fraud_detection.Storage.Tables.{Database}
use realtime_fraud_detection.Storage.Feedback.{LabeledExample, fetch_labeled_training_examples}

pub record TrainingRow (A : Type 0) : Type 0 where
  pub features : Row A
  pub transaction_id : String
  pub card_id : String
  pub country : String
  pub event_time : ℕ
  pub label : ℕ

-- `del card_history[: len(card_history) - 500]`
unfoldable pub bound_history : {A : Type 0} → List (Transaction A) → List (Transaction A)
bound_history h = if ltb 500 (length h) then drop (length h - 500) h else h

module _ {A : Type 0} ⦃f : Floating A⦄ where
  unfoldable pub training_row : List (Transaction A) → Transaction A → TrainingRow A
  training_row card_history txn = record {
    features = build_feature_row (compute_features card_history txn) txn;
    transaction_id = txn.transaction_id;
    card_id = txn.card_id;
    country = txn.country;
    event_time = txn.event_time;
    label = to_int txn.is_simulated_fraud;
  }

  -- the loop, with the histories of the cards
  unfoldable pub rows_from :
      Dict (List (Transaction A)) → List (Transaction A) → List (TrainingRow A)
  rows_from history [] = []
  rows_from history (txn ∷ txns) =
      let card_history = or_else (get txn.card_id history) [] in
      training_row card_history txn
      ∷ rows_from (set txn.card_id (bound_history (card_history ++ txn ∷ [])) history) txns

  unfoldable pub build_training_dataset : List (Transaction A) → List (TrainingRow A)
  unfolding rows_from
  build_training_dataset txns = rows_from [] txns

-- the whole function, from the state of the generator's random numbers; the traffic starts on 2026-07-01
unfoldable pub generate_training_dataset :
    {G A : Type 0} ⦃f : Floating A⦄ → Rng G A → ℕ → ℕ → A → Gen G (List (TrainingRow A))
generate_training_dataset rng n_transactions num_cardholders edge_case_ratio = do
  profiles ← build_profiles rng num_cardholders
  txns ← stream rng edge_case_ratio profiles n_transactions 1782864000000000
  pure (build_training_dataset txns)

-- `country` is the stored cell, `none` the default "US"
pub record FeedbackRow (A : Type 0) : Type 0 where
  pub features : Row A
  pub label : ℕ
  pub transaction_id : String
  pub country : Option (Cell A)

module _ {A : Type 0} where
  -- an example that lacks a column is left out
  unfoldable pub feedback_rows : List (LabeledExample A) → List (FeedbackRow A)
  feedback_rows [] = []
  feedback_rows (e ∷ examples) = elim (select feature_columns e.input_features) [
    | none ↦ feedback_rows examples
    | some features ↦
        record {
          features = features;
          label = e.label;
          transaction_id = e.transaction_id;
          country = get "country" e.input_features;
        }
        ∷ feedback_rows examples
  ]

  unfoldable pub build_feedback_dataset :
      {R : Type 0} → ℕ → ℕ → ℕ → Database A R → Option (List (FeedbackRow A))
  unfolding feedback_rows
  build_feedback_dataset now lookback_days min_examples db =
      let examples = fetch_labeled_training_examples (now - hours (24 * lookback_days)) 50000 db in
      let rows = feedback_rows examples in
      if ltb (length examples) min_examples
      then none
      else if ltb (length rows) min_examples
      then none
      else some rows
