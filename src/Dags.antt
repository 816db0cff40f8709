-- ===== src/Dags.antt =====
-- dags/drift_detection_dag.py, dags/retrain_pipeline_dag.py and dags/automated_promotion_dag.py: what one
-- cycle runs, its tasks in the order of their dependencies. Retries and the schedule are Airflow's.
pub mod Cycle
use realtime_fraud_detection.Common.{
  ℕ, String, Bool, Option, none, some, List, [], ◌∷◌, map, str_eq, if◌then◌else◌,
}
use realtime_fraud_detection.Common.Floating.{Floating}
use realtime_fraud_detection.Common.Result.{Result, ok, err}
use realtime_fraud_detection.Config.{Settings}
use realtime_fraud_detection.Dataset.{TrainingRow}
use realtime_fraud_detection.Drift.{Stats, Frame}
use realtime_fraud_detection.Drift.Check.{StoredReport, drift_detection}
use realtime_fraud_detection.Governance.Promotion.{
  DriftReport, PromotionError, Outcome, maybe_auto_promote,
}
use realtime_fraud_detection.Governance.Registry.{Mlflow, World}
use realtime_fraud_detection.ModelCard.{DatasetSummary}
use realtime_fraud_detection.Storage.Governance.{get_latest_drift_report}
use realtime_fraud_detection.Storage.Tables.{Stamp}
use realtime_fraud_detection.Training.{Metrics}
use realtime_fraud_detection.Training.Learning.{Learning, TrainError, Site}
use realtime_fraud_detection.Training.Pipeline.{run}
use realtime_fraud_detection.Training.Run.{Trained}
use realtime_fraud_detection.Training.Tracking.{Tracking}

-- what an f-string shows of a stored report; `show_list` is the text of a list
unfoldable pub shown_report :
    {A : Type 0} ⦃f : Floating A⦄ → (List String → String) → StoredReport A → DriftReport
shown_report ⦃f⦄ show_list r = record {
  any_drift_detected = r.report.any_drift_detected;
  max_psi = f.text r.report.max_psi;
  drifted_features = show_list r.report.drifted_features;
}

abbrev pub shown_option :
    {A : Type 0} ⦃f : Floating A⦄
    → (List String → String)
    → Option (StoredReport A)
    → Option DriftReport
shown_option show_list none = none
shown_option show_list (some r) = some (shown_report show_list r)

module _ {A S : Type 0} ⦃f : Floating A⦄ (m : Mlflow S) (t : Tracking A S)
    (show_list : List String → String) (db_up : Bool) (settings : Settings A) where
  unfoldable pub evaluate_and_promote :
      Stamp
      → String
      → World A (StoredReport A) S
      → Result PromotionError Outcome × World A (StoredReport A) S
  unfolding maybe_auto_promote get_latest_drift_report shown_report
  evaluate_and_promote stamp model_name w =
      let drift_report = shown_option show_list (get_latest_drift_report model_name w.db) in
      maybe_auto_promote m (λ run_id. t.run_metrics run_id w.mlflow) stamp db_up settings model_name
        drift_report w

  -- the task is expanded over the two models; one that fails does not keep the other from running
  unfoldable pub automated_promotion :
      Stamp
      → Stamp
      → World A (StoredReport A) S
      → List (Result PromotionError Outcome) × World A (StoredReport A) S
  unfolding evaluate_and_promote
  automated_promotion first second w =
      let (xgboost, w1) = evaluate_and_promote first "fraud_xgboost" w in
      let (lightgbm, w2) = evaluate_and_promote second "fraud_lightgbm" w1 in
      (xgboost ∷ lightgbm ∷ [], w2)

-- what a cycle ended with
pub data CycleResult : Type 0 where
  no_drift_detected : CycleResult
  check_failed : CycleResult
  retrain_failed : TrainError → CycleResult
  promotion_checked : List (Result PromotionError Outcome) → CycleResult

module _ {A S : Type 0} ⦃f : Floating A⦄ (stats : Stats A) (m : Mlflow S) (t : Tracking A S)
    (metrics : Metrics A) (l : Learning A) (generated_at : String)
    (show_list : List String → String) (db_up : Bool) (settings : Settings A) where
  -- `trigger_retrain >> trigger_promotion_check`, the second on the success of the first
  unfoldable pub retrain_and_promote :
      List (TrainingRow A)
      → ℕ
      → Stamp
      → Stamp
      → Site A (StoredReport A) S
      → CycleResult × Site A (StoredReport A) S
  unfolding run automated_promotion
  retrain_and_promote generated now first second site =
      let (trained, site1) = run m t metrics l generated_at generated now db_up settings site in
      elim trained [
        | err e ↦ (retrain_failed e, site1)
        | ok _ ↦
            let (outcomes, w) =
              automated_promotion m t show_list db_up settings first second site1.world in
            (promotion_checked outcomes, record site1 { world = w })
      ]

  -- one cycle of the drift check, with the runs that it triggers; `reports` and `approvals` are the ids and
  -- times of the rows that it may write
  unfoldable pub drift_cycle :
      (ℕ → String)
      → Frame A
      → List (TrainingRow A)
      → ℕ
      → Stamp × Stamp
      → Stamp × Stamp
      → Site A (StoredReport A) S
      → CycleResult × Site A (StoredReport A) S
  unfolding drift_detection retrain_and_promote
  drift_cycle iso training_df generated now reports approvals site =
      let (next, db) =
        drift_detection stats iso training_df now reports.0 reports.1 site.world.db in
      let checked = record site { world = record site.world { db = db } } in
      if str_eq next "trigger_retrain"
      then retrain_and_promote generated now approvals.0 approvals.1 checked
      else if str_eq next "upstream_failed"
      then (check_failed, checked)
      else (no_drift_detected, checked)
