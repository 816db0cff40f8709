-- ===== src/Training/Pipeline.antt =====
-- src/ml/train.py: the two trainings and `run`.
use realtime_fraud_detection.Common.{
  ℕ, ◌-◌, max, String, Bool, Option, none, some, List, [], ◌∷◌, ◌++◌, map, length, ltb, concat,
  str_eq, if◌then◌else◌,
}
use realtime_fraud_detection.Common.Floating.{Floating, lit}
use realtime_fraud_detection.Common.Int.{pos, negsuc}
use realtime_fraud_detection.Common.Result.{Result, ok, err}
use realtime_fraud_detection.Config.{Settings}
use realtime_fraud_detection.Dataset.{TrainingRow, FeedbackRow, build_feedback_dataset}
use realtime_fraud_detection.Governance.Registry.{Mlflow}
use realtime_fraud_detection.ModelCard.{DatasetSummary}
use realtime_fraud_detection.Scoring.FeatureRow.{feature_columns}
use realtime_fraud_detection.Training.{Metrics, unique}
use realtime_fraud_detection.Training.Learning.{
  int, float, text, Sample, Learning, TrainError, learning_error, Site, Recipe, prepare_split,
  matrix, labels, examples_with, counts_text,
}
use realtime_fraud_detection.Training.Run.{Trained, train}
use realtime_fraud_detection.Training.Tracking.{Tracking}

-- `df.get("card_id", "feedback_unknown")` of the feedback rows, which have no `card_id`
abbrev unknown_card : String
unknown_card = "feedback_unknown"

module _ {A : Type 0} where
  unfoldable pub sample_of_training : TrainingRow A → Sample A
  sample_of_training r = record {
    features = r.features;
    label = r.label;
    country = some r.country;
    card_id = r.card_id;
  }

  unfoldable pub sample_of_feedback : FeedbackRow A → Sample A
  sample_of_feedback r = record {
    features = r.features;
    label = r.label;
    country = elim r.country [ none ↦ some "US" | some _ ↦ none ];
    card_id = unknown_card;
  }

  -- `pd.concat([df, feedback_df])`, where there is feedback
  unfoldable pub merged : List (TrainingRow A) → Option (List (FeedbackRow A)) → List (Sample A)
  unfolding sample_of_training sample_of_feedback
  merged df none = map sample_of_training df
  merged df (some feedback) = map sample_of_training df ++ map sample_of_feedback feedback

  abbrev pub feedback_count : Option (List (FeedbackRow A)) → ℕ
  feedback_count none = 0
  feedback_count (some feedback) = length feedback

module _ {A : Type 0} ⦃f : Floating A⦄ (l : Learning A) where
  unfoldable pub xgboost_recipe : Settings A → List ℕ → Recipe A
  unfolding concat
  xgboost_recipe settings y_train =
      let neg = examples_with 0 y_train in
      let pos_count = examples_with 1 y_train in
      let weight = f.div (f.of_int (pos neg)) (f.of_int (pos (max pos_count 1))) in
      record {
        run_name = "xgboost_fraud";
        params =
            ("n_estimators", int (pos 200))
            ∷ ("max_depth", int (pos 5))
            ∷ ("learning_rate", float (lit 8 2))
            ∷ ("subsample", float (lit 9 1))
            ∷ ("colsample_bytree", float (lit 9 1))
            ∷ ("scale_pos_weight", float weight)
            ∷ ("objective", text "binary:logistic")
            ∷ ("eval_metric", text "aucpr")
            ∷ ("random_state", int (pos 42))
            ∷ [];
        log_param = ("imbalance_technique", "scale_pos_weight (class weighting)") ∷ [];
        artifact_name = "confusion_matrix_xgboost.txt";
        flavor = "xgboost";
        model_name = settings.mlflow_xgboost_model_name;
        algorithm = "XGBoost (gradient-boosted trees)";
        imbalance_technique = concat (
            "scale_pos_weight="
            ∷ f.fixed weight 2
            ∷ " (class weighting; train-set was "
            ∷ l.show_int neg
            ∷ " legitimate vs "
            ∷ l.show_int pos_count
            ∷ " fraud examples)"
            ∷ []);
      }

  unfoldable pub lightgbm_recipe : Settings A → List ℕ → List ℕ → Recipe A
  unfolding concat
  lightgbm_recipe settings y_train y_train_res =
      let pre_smote_counts = counts_text l.show_int y_train in
      let post_smote_counts = counts_text l.show_int y_train_res in
      record {
        run_name = "lightgbm_fraud";
        params =
            ("n_estimators", int (pos 300))
            ∷ ("max_depth", int (negsuc 0))
            ∷ ("num_leaves", int (pos 31))
            ∷ ("learning_rate", float (lit 5 2))
            ∷ ("subsample", float (lit 9 1))
            ∷ ("colsample_bytree", float (lit 9 1))
            ∷ ("objective", text "binary")
            ∷ ("random_state", int (pos 42))
            ∷ [];
        log_param =
            ("imbalance_technique", "SMOTE oversampling")
            ∷ ("smote_pre_counts", pre_smote_counts)
            ∷ ("smote_post_counts", post_smote_counts)
            ∷ [];
        artifact_name = "confusion_matrix_lightgbm.txt";
        flavor = "lightgbm";
        model_name = settings.mlflow_lightgbm_model_name;
        algorithm = "LightGBM (gradient-boosted trees)";
        imbalance_technique = concat (
            "SMOTE oversampling (train set rebalanced from " ∷ pre_smote_counts ∷ " to "
            ∷ post_smote_counts ∷ ")" ∷ []);
      }

-- the summary, in which every row's `card_id` counts
unfoldable pub dataset_summary :
    {A : Type 0} ⦃f : Floating A⦄ → Metrics A → Learning A → List (Sample A) → ℕ → DatasetSummary A
unfolding unique concat
dataset_summary ⦃f⦄ metrics l df feedback_rows = record {
  description = concat (
      "Synthetic transactions from `TransactionGenerator` (Phase 1), with "
      ∷ "rolling-window features computed by `features.compute_features` in "
      ∷ "true per-card chronological order, identical to the live pipeline."
      ∷ (if ltb 0 feedback_rows
          then concat (
              " Additionally includes "
              ∷ l.show_int feedback_rows
              ∷ " analyst-labeled examples from the "
              ∷ "human-in-the-loop feedback loop (Phase 2 `analyst_feedback` table)."
              ∷ [])
          else concat (
              " No analyst feedback rows met the minimum-sample threshold for this run; "
              ∷ "trained on synthetic data only." ∷ []))
      ∷ []);
  total_rows = length df;
  positive_rate = f.round (metrics.mean (map (λ s. s.label) df)) 4;
  train_test_split = "75% train / 25% test, stratified on label";
  num_cardholders = length (unique str_eq (map (λ s. s.card_id) df));
  num_features = length feature_columns;
  synthetic_rows = length df - feedback_rows;
  analyst_feedback_rows = feedback_rows;
}

module _ {A R S : Type 0} ⦃f : Floating A⦄ (m : Mlflow S) (t : Tracking A S) (metrics : Metrics A)
    (l : Learning A) (generated_at : String) where
  unfoldable pub train_xgboost :
      List (Sample A)
      → Settings A
      → DatasetSummary A
      → Site A R S
      → Result TrainError Trained × Site A R S
  unfolding prepare_split xgboost_recipe train
  train_xgboost df settings summary site = elim (prepare_split l df) [
    | none ↦ (err learning_error, site)
    | some (train_rows, test) ↦
        let recipe = xgboost_recipe l settings (labels train_rows) in
        train m t metrics l generated_at recipe summary
          (l.xgboost recipe.params (matrix train_rows) (labels train_rows)) test site
  ]

  unfoldable pub train_lightgbm :
      List (Sample A)
      → Settings A
      → DatasetSummary A
      → Site A R S
      → Result TrainError Trained × Site A R S
  unfolding prepare_split lightgbm_recipe train
  train_lightgbm df settings summary site = elim (prepare_split l df) [
    | none ↦ (err learning_error, site)
    | some (train_rows, test) ↦ elim (l.fit_resample (matrix train_rows) (labels train_rows)) [
      | none ↦ (err learning_error, site)
      | some (x_train_res, y_train_res) ↦
          let recipe = lightgbm_recipe l settings (labels train_rows) y_train_res in
          train m t metrics l generated_at recipe summary
            (l.lightgbm recipe.params x_train_res y_train_res) test site
    ]
  ]

  -- `run`, from the generated rows on; the feedback is left out where reading it raises
  unfoldable pub run :
      List (TrainingRow A)
      → ℕ
      → Bool
      → Settings A
      → Site A R S
      → Result TrainError (Trained × Trained × DatasetSummary A) × Site A R S
  unfolding train_xgboost train_lightgbm build_feedback_dataset merged dataset_summary
  run generated now db_up settings site =
      let feedback = if db_up then build_feedback_dataset now 30 20 site.world.db else none in
      let df = merged generated feedback in
      let summary = dataset_summary metrics l df (feedback_count feedback) in
      let (xgboost, site1) = train_xgboost df settings summary site in
      elim xgboost [
        | err e ↦ (err e, site1)
        | ok xgb ↦
            let (lightgbm, site2) = train_lightgbm df settings summary site1 in
            elim lightgbm [ err e ↦ (err e, site2) | ok lgb ↦ (ok (xgb, lgb, summary), site2) ]
      ]
