-- ===== src/Tests/Drift.antt =====
-- Drift and the figures of the business at concrete data.
use realtime_fraud_detection.Common.{
  ◌≡◌, ◌≤◌, ◌-◌, ◌&&◌, not, map, filter, any, length, arith, true, false, none, some, List, [], ◌∷◌,
  ◌++◌, if◌then◌else◌,
}
use realtime_fraud_detection.Common.Floating.{Micros, micros_floating, lit}
use realtime_fraud_detection.Storage.Tables.{Database, DriftReportRecord, Stamp, empty_database}
use realtime_fraud_detection.Drift.{Stats, Frame, DriftReport, FeatureDriftResult}
use realtime_fraud_detection.Drift.Check.{StoredReport, drift_detection}
use realtime_fraud_detection.Drift.Check.Decision.{
  reports_drift, fits, has_traffic, model_names, drift_detection_lem,
}
use realtime_fraud_detection.Monitoring.{compute_snapshot}
use realtime_fraud_detection.Monitoring.Shares.{IsShared, recent, compute_snapshot-IsShared}
use realtime_fraud_detection.Features.{hours}
use realtime_fraud_detection.Training.{Metrics}
use realtime_fraud_detection.Tests.Storage.{stored}

-- statistics that find no difference
abbrev pub stats : Stats Micros
stats = record {
  ks_2samp = λ xs ys. (lit 0 0, lit 1 0);
  is_nan = λ x. false;
  nan = lit 0 0;
  breakpoints = λ xs n. [];
  histogram = λ xs bins. [];
  minus_infinity = lit 0 0;
  plus_infinity = lit 0 0;
  log = λ x. x;
  sum = λ xs. lit 0 0;
  mean = λ xs. lit 0 0;
  percentile = λ xs n. lit 0 0;
}

abbrev pub frame : Frame Micros
frame col = some (lit 1 0 ∷ lit 2 0 ∷ [])

abbrev result : FeatureDriftResult Micros
result = record {
  feature = "amount";
  ks_statistic = lit 3 1;
  ks_p_value = lit 1 2;
  psi = lit 4 1;
  reference_mean = lit 1 0;
  current_mean = lit 2 0;
  is_drifted = true;
}

abbrev report : DriftReport Micros
report = record {
  model_name = "fraud_xgboost";
  reference_window = "";
  current_window = "";
  feature_results = result ∷ [];
  score_ks_statistic = none;
  score_ks_p_value = none;
  score_psi = some (lit 1 1);
  score_drifted = false;
}

abbrev reports : Database Micros (StoredReport Micros)
reports = empty_database

abbrev stamp : Stamp
stamp = record { id = "d1"; now = 5 }

drift_detection_lem_example :
    let (next, db1) = drift_detection stats (λ n. "") frame 5 stamp stamp reports in
    (new : List (DriftReportRecord (StoredReport Micros))) × (db1
      ≡ record reports { drift_reports = [] ++ new })
    × (map (λ r. r.model_name) new ≡ (
        if fits stats (λ n. "") 5
        then filter (has_traffic stats 5 reports) (model_names stats)
        else []))
    × (next ≡ (
        if any (has_traffic stats 5 reports) (model_names stats) && not (fits stats (λ n. "") 5)
        then "upstream_failed"
        else if reports_drift new
        then "trigger_retrain"
        else "no_drift_detected"))
drift_detection_lem_example = drift_detection_lem stats (λ n. "") frame 5 stamp stamp reports

few_lem : length (filter (recent (20 - hours 24)) stored.predictions) ≤ 50000
unfolding filter
few_lem = omega arith

compute_snapshot-IsShared_example :
    IsShared (20 - hours 24) stored (compute_snapshot stats 20 24 stored)
compute_snapshot-IsShared_example = compute_snapshot-IsShared stats 20 24 stored few_lem

abbrev pub metrics : Metrics Micros
metrics = record {
  precision_score = λ ys ps. lit 1 0;
  recall_score = λ ys ps. lit 1 0;
  f1_score = λ ys ps. lit 1 0;
  roc_auc_score = λ ys ps. lit 1 0;
  average_precision_score = λ ys ps. lit 1 0;
  mean = λ ys. lit 1 0;
  confusion_matrix = λ ys ps. "[[0, 0], [0, 0]]";
}
