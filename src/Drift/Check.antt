-- ===== src/Drift/Check.antt =====
-- dags/drift_detection_dag.py: the check of one model on the stored predictions, and the choice of the next
-- task. The synthetic training frame is an argument, as is `isoformat`; the push to Prometheus is left out.
pub mod Decision
use realtime_fraud_detection.Common.{
  ℕ, ◌-◌, ◌*◌, String, Bool, true, false, Option, none, some, List, [], ◌∷◌, map, length, filter,
  any, ltb, leb, concat, or_else, is_some, if◌then◌else◌,
}
use realtime_fraud_detection.Common.Dict.{contains, get}
use realtime_fraud_detection.Common.Int.{pos}
use realtime_fraud_detection.Common.Floating.{Floating}
use realtime_fraud_detection.Features.{hours}
use realtime_fraud_detection.Scoring.FeatureRow.{Row, Cell, int, float, numeric_features}
use realtime_fraud_detection.Storage.Tables.{Database, PredictionRecord, Stamp}
use realtime_fraud_detection.Storage.Feedback.{fetch_predictions_since}
use realtime_fraud_detection.Storage.Governance.{record_drift_report}
use realtime_fraud_detection.Drift.{Stats, Frame, ReportDict, build_drift_report, to_dict}

abbrev pub lookback_hours : ℕ
lookback_hours = 24

-- the report's dict with the label that the check adds
pub record StoredReport (A : Type 0) : Type 0 where
  pub report : ReportDict A
  pub score_reference_label : String

-- what the task gives on
pub data DriftCheck (A : Type 0) : Type 0 where
  skipped : String → DriftCheck A
  checked : StoredReport A → DriftCheck A
  -- the insert of the report raises
  raised : DriftCheck A

abbrev pub flags_drift : {A : Type 0} → StoredReport A → Bool
flags_drift r = r.report.any_drift_detected

abbrev pub check_flags : {A : Type 0} → DriftCheck A → Bool
check_flags (skipped reason) = false
check_flags (checked r) = flags_drift r
check_flags raised = false

abbrev pub is_raised : {A : Type 0} → DriftCheck A → Bool
is_raised (skipped reason) = false
is_raised (checked r) = false
is_raised raised = true

unfoldable pub decide_next_step : {A : Type 0} → List (DriftCheck A) → String
decide_next_step reports =
    if any check_flags reports then "trigger_retrain" else "no_drift_detected"

module _ {A : Type 0} ⦃f : Floating A⦄ (stats : Stats A) where
  abbrev pub number_of : Option (Cell A) → A
  number_of none = stats.nan
  number_of (some (int n)) = f.of_int (pos n)
  number_of (some (float x)) = x

  -- `pd.DataFrame` of dicts: a column for each key that occurs, NaN where it is missing
  unfoldable pub frame_of : List (Row A) → Frame A
  frame_of rows col =
      if any (contains col) rows then some (map (λ row. number_of (get col row)) rows) else none

  -- the scores to compare with, if there are enough, and what the report says of them
  abbrev pub reference_of :
      (ℕ → String) → ℕ → ℕ → List (PredictionRecord A) → Option (List A) × String
  reference_of iso reference_since current_since older =
      if leb 30 (length older)
      then (
        some (map (λ p. p.fraud_score) older),
        concat ("predictions " ∷ iso reference_since ∷ " .. " ∷ iso current_since ∷ []),
      )
      else (none, "insufficient prior live traffic (score drift skipped)")

  unfoldable pub report_on :
      (ℕ → String)
      → Frame A
      → String
      → ℕ
      → List (PredictionRecord A)
      → List (PredictionRecord A)
      → StoredReport A
  unfolding frame_of
  report_on iso training_df model_name now current older =
      let current_since = now - hours lookback_hours in
      let reference_since = now - hours (2 * lookback_hours) in
      let (reference_scores, label) = reference_of iso reference_since current_since older in
      let current_scores = map (λ p. p.fraud_score) current in
      record {
        report = to_dict (
            build_drift_report stats model_name training_df
              (frame_of (map (λ p. p.input_features) current)) numeric_features
              "synthetic training distribution (n=5000, seed=42)"
              (concat ("live predictions " ∷ iso current_since ∷ " .. " ∷ iso now ∷ []))
              reference_scores
              (elim reference_scores [ none ↦ none | some _ ↦ some current_scores ]));
        score_reference_label = label;
      }

  unfoldable pub check_model_drift :
      (ℕ → String)
      → Frame A
      → Stamp
      → String
      → ℕ
      → Database A (StoredReport A)
      → DriftCheck A × Database A (StoredReport A)
  unfolding report_on
  check_model_drift iso training_df stamp model_name now db =
      let current_since = now - hours lookback_hours in
      let reference_since = now - hours (2 * lookback_hours) in
      let current = fetch_predictions_since current_since (some model_name) 50000 db in
      let older =
        filter (λ p. ltb p.created_at current_since)
          (fetch_predictions_since reference_since (some model_name) 50000 db) in
      let stored = report_on iso training_df model_name now current older in
      let (db1, id) =
        record_drift_report stamp model_name stored.report.reference_window
          stored.report.current_window stored db in
      if ltb (length current) 30
      then (skipped "insufficient live traffic", db)
      else if is_some id
      then (checked stored, db1)
      else (raised, db1)

  -- one run over the models, and the task that it goes on with; `stamps` has one for each model
  unfoldable pub check_models :
      (ℕ → String)
      → Frame A
      → ℕ
      → List (Stamp × String)
      → Database A (StoredReport A)
      → List (DriftCheck A) × Database A (StoredReport A)
  unfolding check_model_drift
  check_models iso training_df now [] db = ([], db)
  check_models iso training_df now ((stamp, model_name) ∷ models) db =
      let (check, db1) = check_model_drift iso training_df stamp model_name now db in
      let (checks, db2) = check_models iso training_df now models db1 in (check ∷ checks, db2)

  -- where a check raises, the branch's task is not run and has this state
  unfoldable pub drift_detection :
      (ℕ → String)
      → Frame A
      → ℕ
      → Stamp
      → Stamp
      → Database A (StoredReport A)
      → String × Database A (StoredReport A)
  unfolding check_models decide_next_step
  drift_detection iso training_df now first second db =
      let (reports, db1) =
        check_models iso training_df now
          ((first, "fraud_xgboost") ∷ (second, "fraud_lightgbm") ∷ []) db in
      ((if any is_raised reports then "upstream_failed" else decide_next_step reports), db1)
