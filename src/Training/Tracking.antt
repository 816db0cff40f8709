-- ===== src/Training/Tracking.antt =====
-- src/ml/train.py: what a training run logs. MLflow's tracking is the interface `Tracking` over the state `S`
-- that its registry shares; `IsTracking` states what its documentation says of a run's metrics.
use realtime_fraud_detection.Common.{
  String, ◌≡◌, Bool, Option, some, [], ◌∷◌, ◌++◌, concat, str_eq, if◌then◌else◌, map,
}
use realtime_fraud_detection.Common.Dict.{Dict, get}
use realtime_fraud_detection.Common.Floating.{Floating}
use realtime_fraud_detection.Common.Int.{pos}
use realtime_fraud_detection.Governance.Registry.{Mlflow, stage_of}
use realtime_fraud_detection.Governance.Promotion.Countries.{Distinct}
use realtime_fraud_detection.Training.{SliceStats}

pub record Tracking (A S : Type 0) : Type 0 where
  -- the run's name; the new run's id
  pub start_run : String → S → S × String
  -- the run, then key and value, or text and file
  pub log_metric : String → String → A → S → S
  pub log_param : String → String → String → S → S
  pub log_text : String → String → String → S → S
  -- the run, the flavor and the artifact's path
  pub log_model : String → String → String → S → S
  -- `client.get_run(run_id).data.metrics`, `none` where it raises
  pub run_metrics : String → S → Option (Dict A)

-- A run starts without metrics and keeps the latest value of each; nothing else that is logged or registered
-- changes them, and no log changes the registry.
pub record IsTracking {A S : Type 0} (t : Tracking A S) (m : Mlflow S) : Type 0 where
  pub start_lem :
      (name : String) (s : S)
      → t.run_metrics (t.start_run name s).1 (t.start_run name s).0 ≡ some []
  pub metric_lem :
      (run key : String) (v : A) (s : S) (ms : Dict A)
      → t.run_metrics run s ≡ some ms
      → Distinct ms
      → (ms' : Dict A) × (t.run_metrics run (t.log_metric run key v s) ≡ some ms')
        × Distinct ms'
        × ((k : String) → get k ms' ≡ (if str_eq key k then some v else get k ms))
  pub run_metrics-log_param :
      (run key value : String) (s : S) (r : String)
      → t.run_metrics r (t.log_param run key value s) ≡ t.run_metrics r s
  pub run_metrics-log_text :
      (run text file : String) (s : S) (r : String)
      → t.run_metrics r (t.log_text run text file s) ≡ t.run_metrics r s
  pub run_metrics-log_model :
      (run flavor path : String) (s : S) (r : String)
      → t.run_metrics r (t.log_model run flavor path s) ≡ t.run_metrics r s
  pub run_metrics-register :
      (uri name : String) (s : S) (r : String)
      → t.run_metrics r (m.register_model uri name s).0 ≡ t.run_metrics r s
  pub run_metrics-transition :
      (name version stage : String) (archive : Bool) (s : S) (r : String)
      → t.run_metrics r (m.transition name version stage archive s) ≡ t.run_metrics r s
  pub stage_of-start_run :
      (name : String) (s : S) (n v : String)
      → stage_of m n v (t.start_run name s).0 ≡ stage_of m n v s
  pub stage_of-log_metric :
      (run key : String) (value : A) (s : S) (n v : String)
      → stage_of m n v (t.log_metric run key value s) ≡ stage_of m n v s
  pub stage_of-log_param :
      (run key value : String) (s : S) (n v : String)
      → stage_of m n v (t.log_param run key value s) ≡ stage_of m n v s
  pub stage_of-log_text :
      (run text file : String) (s : S) (n v : String)
      → stage_of m n v (t.log_text run text file s) ≡ stage_of m n v s
  pub stage_of-log_model :
      (run flavor path : String) (s : S) (n v : String)
      → stage_of m n v (t.log_model run flavor path s) ≡ stage_of m n v s

-- `f"fairness_{country}_{k}"`
abbrev pub fairness_key : String → String → String
fairness_key country k = concat ("fairness_" ∷ country ∷ "_" ∷ k ∷ [])

module _ {A : Type 0} ⦃f : Floating A⦄ where
  -- `stats.items()`
  abbrev pub stats_items : SliceStats A → Dict A
  stats_items stats =
      ("count", f.of_int (pos stats.count))
      ∷ ("recall", stats.recall)
      ∷ ("precision", stats.precision)
      ∷ ("positive_rate", stats.positive_rate)
      ∷ []

  -- what the two nested loops log, in their order
  unfoldable pub fairness_metrics : Dict (SliceStats A) → Dict A
  unfolding concat
  fairness_metrics [] = []
  fairness_metrics ((country, stats) ∷ report) =
      map (λ e. (fairness_key country e.0, e.1)) (stats_items stats) ++ fairness_metrics report

module _ {A S : Type 0} (t : Tracking A S) (run : String) where
  -- `mlflow.log_metrics(metrics)` and the calls of `mlflow.log_metric`
  unfoldable pub log_metrics : Dict A → S → S
  log_metrics [] s = s
  log_metrics ((key, v) ∷ metrics) s = log_metrics metrics (t.log_metric run key v s)

  -- `mlflow.log_params(params)` and the calls of `mlflow.log_param`, the values as texts
  unfoldable pub log_params : Dict String → S → S
  log_params [] s = s
  log_params ((key, value) ∷ params) s = log_params params (t.log_param run key value s)
