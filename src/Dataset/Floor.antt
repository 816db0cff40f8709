-- ===== src/Dataset/Floor.antt =====
-- Feedback is used only if enough of it has the columns of the model.
use realtime_fraud_detection.Common.{
  ℕ, ◌-◌, ◌*◌, ◌≤◌, String, ◌≡◌, ap, subst, none, some, List, [], ◌∷◌, map, length, All, arith, ltb,
  if◌then◌else◌, Option-cases, inl, inr,
}
use realtime_fraud_detection.Common.Dict.{get}
use realtime_fraud_detection.Features.{hours}
use realtime_fraud_detection.Scoring.FeatureRow.{Row, Cell, feature_columns, select}
use realtime_fraud_detection.Storage.Tables.{Database}
use realtime_fraud_detection.Storage.Feedback.{LabeledExample, fetch_labeled_training_examples}
use realtime_fraud_detection.Dataset.{feedback_rows, build_feedback_dataset}

module _ {A : Type 0} where
  abbrev pub keys : Row A → List String
  keys row = map (λ (cell : String × Cell A). cell.0) row

  select-keys :
      (cs : List String) (row found : Row A) → select cs row ≡ some found → keys found ≡ cs
  unfolding select
  select-keys [] row found h = ground (arith, h)
  select-keys (c ∷ cs) row found h = elim (Option-cases (get c row)) [
    | inl missing ↦ absurd (ground (arith, missing, h))
    | inr (x, e) ↦ elim (Option-cases (select cs row)) [
      | inl missing ↦ absurd (ground (arith, missing, e, h))
      | inr (rest, r) ↦
          let same : ((c, x) ∷ rest) ≡ found = ground (arith, e, r, h) in
          subst (λ l. keys l ≡ c ∷ cs) same (ap (◌∷◌ c) (select-keys cs row rest r))
    ]
  ]

  feedback_rows-keys :
      (examples : List (LabeledExample A))
      → All (λ r. keys r.features ≡ feature_columns) (feedback_rows examples)
  unfolding feedback_rows
  feedback_rows-keys [] = tt
  feedback_rows-keys (e ∷ examples) =
      elim (Option-cases (select feature_columns e.input_features)) [
        | inl missing ↦ rw (missing, feedback_rows) (feedback_rows-keys examples)
        | inr (features, found) ↦
            rw (found, feedback_rows)
              (
                select-keys feature_columns e.input_features features found,
                feedback_rows-keys examples,
              )
      ]

  length-feedback_rows-le :
      (examples : List (LabeledExample A)) → length (feedback_rows examples) ≤ length examples
  unfolding feedback_rows
  length-feedback_rows-le [] = omega arith
  length-feedback_rows-le (e ∷ examples) =
      elim (Option-cases (select feature_columns e.input_features)) [
        | inl missing ↦
            rw (missing, feedback_rows) (omega (arith, length-feedback_rows-le examples))
        | inr (features, found) ↦
            rw (found, feedback_rows) (omega (arith, length-feedback_rows-le examples))
      ]

  -- The feedback is used exactly if at least `min_examples` of its labelled examples have every column of the
  -- model (that there be so many examples at all says no more), and each of its rows has those columns, in the
  -- model's order.
  build_feedback_dataset_lem :
      {R : Type 0} (now lookback_days min_examples : ℕ) (db : Database A R)
      → let rows =
          feedback_rows
            (fetch_labeled_training_examples (now - hours (24 * lookback_days)) 50000 db) in
        (build_feedback_dataset now lookback_days min_examples db
          ≡ (if ltb (length rows) min_examples then none else some rows))
        × All (λ r. keys r.features ≡ feature_columns) rows
  unfolding build_feedback_dataset
  build_feedback_dataset_lem now lookback_days min_examples db =
      let examples = fetch_labeled_training_examples (now - hours (24 * lookback_days)) 50000 db in
      (ground (arith, length-feedback_rows-le examples), feedback_rows-keys examples)
