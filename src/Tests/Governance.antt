-- ===== src/Tests/Governance.antt =====
-- The registry at a concrete MLflow: a stage for each version that is there.
use realtime_fraud_detection.Common.{
  ℕ, String, ◌≡◌, refl, true, ◌&&◌, Option, none, some, [], str_eq, arith, if◌then◌else◌, eq_iff,
}
use realtime_fraud_detection.Common.{◌⊎◌, ◌∷◌}
use realtime_fraud_detection.Common.Dict.{Dict, get, set}
use realtime_fraud_detection.Common.Floating.{Micros, micros_floating, lit}
use realtime_fraud_detection.Config.{Settings}
use realtime_fraud_detection.Governance.Promotion.{
  DriftReport, evaluate_validation_gate, maybe_auto_promote,
}
use realtime_fraud_detection.Governance.Promotion.Evidence.{
  IsJustified, maybe_auto_promote-IsJustified,
}
use realtime_fraud_detection.Tests.{settings}
use realtime_fraud_detection.Storage.Tables.{Stamp, empty_database}
use realtime_fraud_detection.Governance.Registry.{
  ModelVersion, Mlflow, stage_of, IsMlflow, World, promote_model,
}
use realtime_fraud_detection.Governance.Registry.Gate.{
  IsGoverned, is_ok, promote_model-IsGoverned, promote_model_lem,
}

abbrev pub Stages : Type 0
Stages = String → String → Option String

abbrev pub version_at : String → String → String → ModelVersion
version_at n v stage = record { name = n; version = v; current_stage = stage; run_id = "run" }

-- the next version is always "2"
abbrev mlflow : Mlflow Stages
mlflow = record {
  get_model_version =
      λ n v s. elim (s n v) [ none ↦ none | some stage ↦ some (version_at n v stage) ];
  transition = λ name version stage archive s n v. elim (s n v) [
    | none ↦ none
    | some old ↦
        if str_eq name n && str_eq version v
        then some stage
        else if archive && str_eq name n && str_eq old stage
        then some "Archived"
        else some old
  ];
  register_model =
      λ uri name s. ((λ n v. if str_eq name n && str_eq "2" v then some "None" else s n v), "2");
  get_latest_versions = λ name stage s. some (version_at name "1" stage ∷ []);
}

stage_of-mlflow : (n v : String) (s : Stages) → stage_of mlflow n v s ≡ s n v
stage_of-mlflow n v s = ground arith

mlflow-IsMlflow : IsMlflow mlflow
mlflow-IsMlflow = record {
  transition_lem = λ name version stage archive s n v. ground arith;
  register_lem = λ uri name s n v. ground arith;
  version_lem = λ n v s x h. ground arith;
}

-- version "1" of the model waits at "Staging"
abbrev pub staged : Stages
staged n v = if str_eq "fraud_xgboost" n && str_eq "1" v then some "Staging" else none

abbrev world : World Micros ℕ Stages
world = record { db = empty_database; mlflow = staged }

abbrev stamp : Stamp
stamp = record { id = "a1"; now = 20 }

world-IsGoverned : IsGoverned mlflow world
world-IsGoverned n v h = ground (arith, eq_iff "Staging" "Production")

promote_model-IsGoverned_example :
    IsGoverned mlflow (promote_model mlflow stamp true "fraud_xgboost" "1" "ann" none none world).1
promote_model-IsGoverned_example =
    promote_model-IsGoverned mlflow mlflow-IsMlflow stamp true "fraud_xgboost" "1" "ann" none none
      world world-IsGoverned

promote_model_lem_example :
    let (r, w) = promote_model mlflow stamp true "fraud_xgboost" "1" "ann" none none world in
    (stage_of mlflow "fraud_xgboost" "1" w.mlflow ≡ some "Production") × (is_ok r ≡ true)
promote_model_lem_example =
    promote_model_lem mlflow mlflow-IsMlflow stamp "fraud_xgboost" "1" "ann" none none world
      (version_at "fraud_xgboost" "1" "Staging") refl

abbrev enabled : Settings Micros
enabled = record settings { enable_automated_promotion = true }

abbrev drift : DriftReport
drift = record { any_drift_detected = true; max_psi = "0.4"; drifted_features = "['amount']" }

abbrev run_metrics : Dict Micros
run_metrics =
    ("recall", lit 90 2)
    ∷ ("precision", lit 50 2)
    ∷ ("fairness_US_recall", lit 90 2)
    ∷ ("fairness_DE_recall", lit 85 2)
    ∷ []

maybe_auto_promote-IsJustified_example :
    ((maybe_auto_promote mlflow
        (λ run. some run_metrics)
        stamp
        true
        enabled
        "fraud_xgboost"
        (some drift)
        world).1
      ≡ world)
    ⊎ IsJustified mlflow
        (λ run. some run_metrics)
        stamp
        true
        enabled
        "fraud_xgboost"
        (some drift)
        world
        (maybe_auto_promote mlflow
          (λ run. some run_metrics)
          stamp
          true
          enabled
          "fraud_xgboost"
          (some drift)
          world).1
maybe_auto_promote-IsJustified_example =
    maybe_auto_promote-IsJustified mlflow (λ run. some run_metrics) stamp true enabled
      "fraud_xgboost" (some drift) world

-- the gate lets these metrics pass
gate_of_good_metrics : evaluate_validation_gate enabled run_metrics ≡ []
unfolding evaluate_validation_gate get set
gate_of_good_metrics = refl
