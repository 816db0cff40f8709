-- ===== src/Tests/Training.antt =====
-- A training at a concrete MLflow, with one run and its metrics.
use realtime_fraud_detection.Common.{
  ℕ, String, ◌≡◌, refl, ap, true, false, ◌&&◌, none, some, List, [], ◌∷◌, str_eq, arith,
  if◌then◌else◌, eq_iff,
}
use realtime_fraud_detection.Common.Dict.{Dict, get, set, get-set}
use realtime_fraud_detection.Common.Floating.{Micros, micros_floating, lit}
use realtime_fraud_detection.Common.Result.{ok}
use realtime_fraud_detection.Governance.Promotion.Countries.{Distinct}
use realtime_fraud_detection.Governance.Registry.{Mlflow, IsMlflow, stage_of}
use realtime_fraud_detection.Governance.Registry.Gate.{IsGoverned}
use realtime_fraud_detection.Storage.Tables.{Stamp, DriftReportRecord, empty_database}
use realtime_fraud_detection.Common.Int.{pos}
use realtime_fraud_detection.Common.{◌++◌}
use realtime_fraud_detection.Dags.{drift_cycle}
use realtime_fraud_detection.Dags.Cycle.{Ends, drift_cycle-IsGoverned}
use realtime_fraud_detection.Drift.Check.{StoredReport, drift_detection}
use realtime_fraud_detection.Drift.Check.Decision.{reports_drift}
use realtime_fraud_detection.ModelCard.{DatasetSummary}
use realtime_fraud_detection.Training.{TestRow}
use realtime_fraud_detection.Training.Governed.{Keeps, run-Keeps}
use realtime_fraud_detection.Training.Learning.{Learning, Example, Recipe, Site, int, test_rows}
use realtime_fraud_detection.Training.Measured.{IsMeasured}
use realtime_fraud_detection.Training.Pipeline.{run}
use realtime_fraud_detection.Training.Run.{train}
use realtime_fraud_detection.Training.Trained.{train-IsMeasured}
use realtime_fraud_detection.Tests.{settings}
use realtime_fraud_detection.Tests.Drift.{stats, frame, metrics}
use realtime_fraud_detection.Training.Tracking.{Tracking, IsTracking}
use realtime_fraud_detection.Tests.Governance.{Stages, version_at, staged}

-- the stages of the versions, and the metrics of the run
abbrev Tracker : Type 0
Tracker = Stages × Dict Micros

abbrev registry : Mlflow Tracker
registry = record {
  get_model_version =
      λ n v s. elim (s.0 n v) [ none ↦ none | some stage ↦ some (version_at n v stage) ];
  transition = λ name version stage archive s. (
    (λ n v. elim (s.0 n v) [
      | none ↦ none
      | some old ↦
          if str_eq name n && str_eq version v
          then some stage
          else if archive && str_eq name n && str_eq old stage
          then some "Archived"
          else some old
    ]),
    s.1,
  );
  register_model = λ uri name s.
      (((λ n v. if str_eq name n && str_eq "2" v then some "None" else s.0 n v), s.1), "2");
  get_latest_versions = λ name stage s. some (version_at name "1" stage ∷ []);
}

registry-IsMlflow : IsMlflow registry
registry-IsMlflow = record {
  transition_lem = λ name version stage archive s n v. ground arith;
  register_lem = λ uri name s n v. ground arith;
  version_lem = λ n v s x h. ground arith;
}

Distinct-set : (k : String) (x : Micros) (d : Dict Micros) → Distinct d → Distinct (set k x d)
unfolding get set
Distinct-set k x [] h = (refl, tt)
Distinct-set k x ((j, w) ∷ d) h =
    ground (arith, get-set j k x d, eq_iff j k, eq_iff k j, Distinct-set k x d h.1)

abbrev tracking : Tracking Micros Tracker
tracking = record {
  start_run = λ name s. ((s.0, []), "run");
  log_metric = λ run key x s. (s.0, set key x s.1);
  log_param = λ run key value s. s;
  log_text = λ run text file s. s;
  log_model = λ run flavor path s. s;
  run_metrics = λ run s. some s.1;
}

same_metrics : (a b : Dict Micros) → some a ≡ some b → a ≡ b
same_metrics a b h = cc

tracking-IsTracking : IsTracking tracking registry
tracking-IsTracking = record {
  start_lem = λ name s. refl;
  metric_lem = λ run key x s ms h u. (
    set key x ms,
    ap (λ d. some (set key x d)) (same_metrics s.1 ms h),
    Distinct-set key x ms u,
    λ k. get-set k key x ms,
  );
  run_metrics-log_param = λ run key value s r. refl;
  run_metrics-log_text = λ run text file s r. refl;
  run_metrics-log_model = λ run flavor path s r. refl;
  run_metrics-register = λ uri name s r. refl;
  run_metrics-transition = λ name version stage archive s r. refl;
  stage_of-start_run = λ name s n v. refl;
  stage_of-log_metric = λ run key value s n v. refl;
  stage_of-log_param = λ run key value s n v. refl;
  stage_of-log_text = λ run text file s n v. refl;
  stage_of-log_model = λ run flavor path s n v. refl;
}

abbrev learning : Learning Micros
learning = record {
  train_test_split = λ rows. some (rows, rows);
  fit_resample = λ xs ys. some (xs, ys);
  xgboost = λ params xs ys. some (λ row. lit 9 1);
  lightgbm = λ params xs ys. some (λ row. lit 1 1);
  show = λ p. "1";
  show_int = λ n. "1";
  replace = λ old new text. text;
  in_order = λ a b. true;
}

abbrev example : String → ℕ → Example Micros
example country label = record {
  x = [];
  sample = record { features = []; label = label; country = some country; card_id = "card_1" };
}

abbrev recipe : Recipe Micros
recipe = record {
  run_name = "xgboost_fraud";
  params = ("max_depth", int (pos 5)) ∷ [];
  log_param = [];
  artifact_name = "confusion_matrix_xgboost.txt";
  flavor = "xgboost";
  model_name = "fraud_xgboost";
  algorithm = "XGBoost";
  imbalance_technique = "scale_pos_weight";
}

abbrev summary : DatasetSummary Micros
summary = record {
  description = "";
  total_rows = 2;
  positive_rate = lit 5 1;
  train_test_split = "";
  num_cardholders = 1;
  num_features = 23;
  synthetic_rows = 2;
  analyst_feedback_rows = 0;
}

abbrev site : Site Micros (StoredReport Micros) Tracker
site = record { world = record { db = empty_database; mlflow = (staged, []) }; model_cards = [] }

abbrev held_out : List (Example Micros)
held_out = example "US" 1 ∷ example "DE" 0 ∷ []

abbrev scored : List (TestRow Micros)
scored =
    record { country = "US"; y_true = 1; y_prob = lit 9 1 }
    ∷ record { country = "DE"; y_true = 0; y_prob = lit 9 1 }
    ∷ []

scored_lem : test_rows (λ row. lit 9 1) held_out ≡ some scored
unfolding test_rows
scored_lem = refl

train-IsMeasured_example :
    (id version : String) × (after : Site Micros (StoredReport Micros) Tracker) × (train registry
        tracking metrics learning "now" recipe summary
        (some (λ row. lit 9 1))
        held_out
        site
      ≡ (ok (id, version), after))
    × (stage_of registry "fraud_xgboost" version after.world.mlflow ≡ some "Staging")
    × (ms : Dict Micros) × (tracking.run_metrics id after.world.mlflow ≡ some ms)
    × IsMeasured metrics (lit 5 1) scored ms
train-IsMeasured_example =
    train-IsMeasured registry registry-IsMlflow tracking tracking-IsTracking metrics learning "now"
      recipe summary (λ row. lit 9 1) held_out scored site scored_lem

site-IsGoverned : IsGoverned registry site.world
site-IsGoverned n v h = ground (arith, eq_iff "Staging" "Production")

abbrev stamps : Stamp × Stamp
stamps = (record { id = "s1"; now = 20 }, record { id = "s2"; now = 20 })

run-Keeps_example :
    Keeps registry site.world
      (run registry tracking metrics learning "now" [] 20 true settings site).1.world
run-Keeps_example =
    run-Keeps registry registry-IsMlflow tracking tracking-IsTracking metrics learning "now" [] 20
      true settings site

drift_cycle-IsGoverned_example :
    let (result, after) =
      drift_cycle stats registry tracking metrics learning "now"
        (λ l. "[]")
        true
        settings
        (λ n. "")
        frame
        []
        20
        stamps
        stamps
        site in
    let before = site.world.db in
    let db = (drift_detection stats (λ n. "") frame 20 stamps.0 stamps.1 before).1 in
    (IsGoverned registry site.world → IsGoverned registry after.world)
    × (new : List (DriftReportRecord (StoredReport Micros))) × (db
        ≡ record before { drift_reports = before.drift_reports ++ new })
    × (reports_drift new ≡ false
        → Ends result
          × (after ≡ record site {
            world = record site.world {
              db = record before { drift_reports = before.drift_reports ++ new };
            };
          }))
drift_cycle-IsGoverned_example =
    drift_cycle-IsGoverned stats registry registry-IsMlflow tracking tracking-IsTracking metrics
      learning "now" (λ l. "[]") true settings (λ n. "") frame [] 20 stamps stamps site
