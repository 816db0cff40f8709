-- ===== src/Governance/Promotion.antt =====
-- src/ml/auto_promote.py: the validation gate of a candidate, and its promotion without a person.
-- `get_run_metrics` is MLflow's answer for a run, `none` where it raises.
pub mod Evidence
pub mod Countries
use Prim.Native.String.{len, slice}
use text.Mathlib.Text.{starts_with}
use realtime_fraud_detection.Common.{
  ℕ, ◌-◌, String, Bool, true, false, not, ◌&&◌, Option, none, some, List, [], ◌∷◌, ◌++◌, map,
  length, leb, concat, join, str_eq, or_else, if◌then◌else◌,
}
use realtime_fraud_detection.Common.Dict.{Dict, get, set}
use realtime_fraud_detection.Common.Result.{Result, ok, err}
use realtime_fraud_detection.Common.Floating.{Floating, ◌<ᶠ◌, lit, fmax, fmin}
use realtime_fraud_detection.Config.{Settings}
use realtime_fraud_detection.Storage.Tables.{Stamp}
use realtime_fraud_detection.Governance.Registry.{
  ModelVersion, Mlflow, RegistryError, World, get_latest_staging_version, promote_model,
  mlflow_exception,
}

abbrev pub ends_with : String → String → Bool
ends_with s suffix =
    leb (len suffix) (len s) && str_eq (slice s (len s - len suffix) (len s)) suffix

abbrev pub remove_prefix : String → String → String
remove_prefix prefix s = if starts_with s prefix then slice s (len prefix) (len s) else s

abbrev pub remove_suffix : String → String → String
remove_suffix suffix s = if ends_with s suffix then slice s 0 (len s - len suffix) else s

-- the country of a metric such as "fairness_US_recall"
abbrev pub country_of : String → String
country_of key = remove_suffix "_recall" (remove_prefix "fairness_" key)

abbrev pub is_fairness : String → Bool
is_fairness key = starts_with key "fairness_" && ends_with key "_recall"

-- the comprehension, from the entries seen so far
unfoldable pub fairness_from : {A : Type 0} → Dict A → Dict A → Dict A
fairness_from seen [] = seen
fairness_from seen ((key, value) ∷ rest) =
    fairness_from (if is_fairness key then set (country_of key) value seen else seen) rest

module _ {A : Type 0} ⦃f : Floating A⦄ where
  -- `max(d, key=d.get)` and `min(d, key=d.get)`: the first of the best, with its value
  abbrev pub best_of : String × A → Dict A → String × A
  best_of b [] = b
  best_of b (e ∷ rest) = best_of (if b.1 <ᶠ e.1 then e else b) rest

  abbrev pub worst_of : String × A → Dict A → String × A
  worst_of b [] = b
  worst_of b (e ∷ rest) = worst_of (if e.1 <ᶠ b.1 then e else b) rest

  abbrev pub below : String → A → A → List String
  below name x floor =
      if x <ᶠ floor
      then concat (name ∷ " " ∷ f.fixed x 3 ∷ " below floor " ∷ f.text floor ∷ []) ∷ []
      else []

  -- nothing to compare with fewer than two countries
  unfoldable pub unfair : Settings A → Dict A → List String
  unfair settings [] = []
  unfair settings (e ∷ []) = []
  unfair settings (e ∷ d ∷ rest) =
      let best = best_of e (d ∷ rest) in
      let worst = worst_of e (d ∷ rest) in
      let gap = f.sub best.1 worst.1 in
      if settings.auto_promotion_max_fairness_recall_gap <ᶠ gap
      then concat (
          "cross-country fairness recall gap "
          ∷ f.fixed gap 3
          ∷ " exceeds "
          ∷ f.text settings.auto_promotion_max_fairness_recall_gap
          ∷ " (best="
          ∷ best.0
          ∷ ":"
          ∷ f.fixed best.1 3
          ∷ ", worst="
          ∷ worst.0
          ∷ ":"
          ∷ f.fixed worst.1 3
          ∷ ")"
          ∷ [])
        ∷ []
      else []

  -- the reasons; the gate is passed where there is none
  unfoldable pub evaluate_validation_gate : Settings A → Dict A → List String
  unfolding unfair fairness_from
  evaluate_validation_gate settings metrics =
      below "recall" (or_else (get "recall" metrics) (lit 0 0)) settings.auto_promotion_min_recall
      ++ below "precision" (or_else (get "precision" metrics) (lit 0 0))
          settings.auto_promotion_min_precision
      ++ unfair settings (fairness_from [] metrics)

-- the report's entries that are read, the two texts as an f-string shows them
pub record DriftReport : Type 0 where
  pub any_drift_detected : Bool
  pub max_psi : String
  pub drifted_features : String

pub data PromotionError : Type 0 where
  registry_error : RegistryError → PromotionError
  -- a metric that is missing from the notes' f-string
  type_error : PromotionError

pub data Outcome : Type 0 where
  -- the reason, and the candidate's version
  not_promoted : String → Option String → Outcome
  -- name, version and notes
  promoted : String → String → String → Outcome

abbrev no_drift : String
no_drift = "no drift detected -- automated promotion only triggers on drift"

abbrev pub approved_by : String
approved_by = "airflow-automated-promotion"

abbrev pub outcome_of :
    String → String → Result RegistryError ModelVersion → Result PromotionError Outcome
outcome_of model_name notes (ok v) = ok (promoted model_name v.version notes)
outcome_of model_name notes (err e) = err (registry_error e)

module _ {A : Type 0} ⦃f : Floating A⦄ where
  unfoldable pub notes_of : DriftReport → Dict A → Option String
  notes_of report metrics = elim (get "recall" metrics) [
    | none ↦ none
    | some recall ↦ elim (get "precision" metrics) [
      | none ↦ none
      | some precision ↦ some (
          concat (
            "Automated promotion: drift detected (max_psi="
            ∷ report.max_psi
            ∷ ", drifted_features="
            ∷ report.drifted_features
            ∷ "); validation gate passed (recall="
            ∷ f.fixed recall 3
            ∷ ", precision="
            ∷ f.fixed precision 3
            ∷ ")."
            ∷ []))
    ]
  ]

module _ {A R S : Type 0} ⦃f : Floating A⦄ (m : Mlflow S)
    (get_run_metrics : String → Option (Dict A)) (stamp : Stamp) (db_up : Bool)
    (settings : Settings A) (model_name : String) where
  -- the last step: the notes are written, then the version is promoted
  unfoldable pub promote_candidate :
      DriftReport
      → ModelVersion
      → Dict A
      → World A R S
      → Result PromotionError Outcome × World A R S
  promote_candidate report candidate metrics w = elim (notes_of report metrics) [
    | none ↦ (err type_error, w)
    | some notes ↦
        let (r, w') =
          promote_model m stamp db_up model_name candidate.version approved_by (some notes)
            (some metrics) w in
        (outcome_of model_name notes r, w')
  ]

  -- the candidate is there: its metrics, and the gate
  unfoldable pub validate_candidate :
      DriftReport → ModelVersion → World A R S → Result PromotionError Outcome × World A R S
  validate_candidate report candidate w = elim (get_run_metrics candidate.run_id) [
    | none ↦ (err (registry_error mlflow_exception), w)
    | some metrics ↦ elim (evaluate_validation_gate settings metrics) [
      | [] ↦ promote_candidate report candidate metrics w
      | reason ∷ reasons ↦ (
        ok (
            not_promoted (concat ("validation gate failed: " ∷ join "; " (reason ∷ reasons) ∷ []))
              (some candidate.version)),
        w,
      )
    ]
  ]

  unfoldable pub seek_candidate :
      DriftReport → World A R S → Result PromotionError Outcome × World A R S
  seek_candidate report w = elim (get_latest_staging_version m model_name w.mlflow) [
    | none ↦ (err (registry_error mlflow_exception), w)
    | some none ↦
        (ok (not_promoted (concat ("no Staging version found for " ∷ model_name ∷ [])) none), w)
    | some (some candidate) ↦ validate_candidate report candidate w
  ]

  unfoldable pub maybe_auto_promote :
      Option DriftReport → World A R S → Result PromotionError Outcome × World A R S
  maybe_auto_promote drift_report w =
      if settings.enable_automated_promotion
      then elim drift_report [
        | none ↦ (ok (not_promoted no_drift none), w)
        | some report ↦
            if report.any_drift_detected
            then seek_candidate report w
            else (ok (not_promoted no_drift none), w)
      ]
      else (
        ok (not_promoted "automated promotion disabled (enable_automated_promotion=False)" none),
        w,
      )
