-- ===== src/Training/Run.antt =====
-- src/ml/train.py: `train_xgboost`, `train_lightgbm` and `run`.
use realtime_fraud_detection.Common.{String, Option, none, some, List, [], ◌∷◌, map, concat}
use realtime_fraud_detection.Common.Dict.{Dict, set}
use realtime_fraud_detection.Common.Floating.{Floating, lit}
use realtime_fraud_detection.Common.Result.{Result, ok, err}
use realtime_fraud_detection.Governance.Registry.{Mlflow, register_and_stage}
use realtime_fraud_detection.ModelCard.{DatasetSummary, render_model_card}
use realtime_fraud_detection.Scoring.FeatureRow.{Row}
use realtime_fraud_detection.Training.{Metrics, TestRow, predicted, evaluate, fairness_report}
use realtime_fraud_detection.Training.Learning.{
  Example, Learning, TrainError, learning_error, type_error, registry_error, Site, Recipe,
  shared_limitations, test_rows,
}
use realtime_fraud_detection.Training.Tracking.{Tracking, fairness_metrics, log_metrics, log_params}

-- `run_id` and `version.version`
abbrev pub Trained : Type 0
Trained = String × String

-- the libraries that a training calls, and the time on its cards
module _ {A : Type 0} ⦃f : Floating A⦄ (metrics : Metrics A) (l : Learning A)
    (generated_at : String) where
  unfoldable pub model_card : Recipe A → DatasetSummary A → List (TestRow A) → String
  unfolding render_model_card shared_limitations evaluate fairness_report
  model_card recipe summary rows = render_model_card l.show_int l.show generated_at (record {
    model_name = recipe.model_name;
    model_version = "pending";
    algorithm = recipe.algorithm;
    imbalance_technique = recipe.imbalance_technique;
    training_params = recipe.params;
    metrics = evaluate metrics (lit 5 1) rows;
    fairness_report = fairness_report metrics l.in_order (lit 5 1) rows;
    dataset_summary = summary;
    limitations = shared_limitations;
  })

  unfoldable pub confusion_text : List (TestRow A) → String
  unfolding predicted concat
  confusion_text rows = concat (
      "Confusion matrix (rows=actual, cols=predicted, labels=[legit, fraud])\n"
      ∷ metrics.confusion_matrix (map (λ r. r.y_true) rows) (map (predicted metrics (lit 5 1)) rows)
      ∷ "\n"
      ∷ [])

  unfoldable pub write_model_card_file : String → String → String → Dict String → Dict String
  unfolding concat set
  write_model_card_file model_name version card_markdown =
      set (concat (model_name ∷ "_v" ∷ version ∷ ".md" ∷ []))
        (l.replace "(v{model_version})" (concat ("(v" ∷ version ∷ ")" ∷ [])) card_markdown)

module _ {A S : Type 0} ⦃f : Floating A⦄ (t : Tracking A S) (metrics : Metrics A) (l : Learning A)
    (generated_at : String) where
  -- what is logged to the run, in its order
  unfoldable pub log_training : Recipe A → DatasetSummary A → String → List (TestRow A) → S → S
  unfolding log_metrics log_params fairness_metrics evaluate fairness_report model_card
      confusion_text
  log_training recipe summary run rows s =
      let params = map (λ p. (p.0, l.show p.1)) recipe.params in
      let s1 = log_params t run recipe.log_param (log_params t run params s) in
      let s2 = log_metrics t run (evaluate metrics (lit 5 1) rows) s1 in
      let fairness = fairness_report metrics l.in_order (lit 5 1) rows in
      let s3 = log_metrics t run (fairness_metrics fairness) s2 in
      let s4 =
        t.log_text run (confusion_text metrics l generated_at rows) recipe.artifact_name s3 in
      t.log_text run (model_card metrics l generated_at recipe summary rows) "model_card.md"
        (t.log_model run recipe.flavor "model" s4)

module _ {A R S : Type 0} ⦃f : Floating A⦄ (m : Mlflow S) (t : Tracking A S) (metrics : Metrics A)
    (l : Learning A) (generated_at : String) where
  -- from the logs on
  unfoldable pub register_trained :
      Recipe A
      → DatasetSummary A
      → String
      → List (TestRow A)
      → Site A R S
      → Result TrainError Trained × Site A R S
  unfolding log_training register_and_stage write_model_card_file model_card
  register_trained recipe summary run rows site =
      let logged = record site.world {
        mlflow = log_training t metrics l generated_at recipe summary run rows site.world.mlflow;
      } in
      let (staged, w) = register_and_stage m run recipe.model_name "model" "Staging" logged in
      elim staged [
        | err e ↦ (err (registry_error e), record site { world = w })
        | ok version ↦ (
          ok (run, version.version),
          record {
            world = w;
            model_cards =
                write_model_card_file metrics l generated_at recipe.model_name version.version
                  (model_card metrics l generated_at recipe summary rows) site.model_cards;
          },
        )
      ]

  -- `with mlflow.start_run(...)`, given the fitted model, and what follows it
  unfoldable pub train :
      Recipe A
      → DatasetSummary A
      → Option (Row A → A)
      → List (Example A)
      → Site A R S
      → Result TrainError Trained × Site A R S
  unfolding register_trained test_rows
  train recipe summary fitted test site =
      let (s, run) = t.start_run recipe.run_name site.world.mlflow in
      let started = record site { world = record site.world { mlflow = s } } in
      elim fitted [
        | none ↦ (err learning_error, started)
        | some model ↦ elim (test_rows model test) [
          | none ↦ (err type_error, started)
          | some rows ↦ register_trained recipe summary run rows started
        ]
      ]
