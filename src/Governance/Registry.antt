-- ===== src/Governance/Registry.antt =====
-- src/ml/registry.py. MLflow's registry is the interface `Mlflow` over its state `S`: `IsMlflow` states
-- what its documentation says of `get_model_version` and `transition_model_version_stage`. A database
-- that is down makes `record_model_approval` raise.
pub mod Gate
use realtime_fraud_detection.Common.{
  ℕ, String, ◌≡◌, Bool, true, false, ◌&&◌, not, Option, none, some, List, [], ◌∷◌, ◌++◌, concat,
  str_eq, is_some, if◌then◌else◌,
}
use text.Mathlib.Text.{find?}
use realtime_fraud_detection.Common.Dict.{Dict}
use realtime_fraud_detection.Common.Result.{Result, ok, err}
use realtime_fraud_detection.Scoring.Inference.{LoadedModel}
use realtime_fraud_detection.Storage.Tables.{Database, Stamp}
use realtime_fraud_detection.Storage.Governance.{record_model_approval, has_approval}

pub record ModelVersion : Type 0 where
  pub name : String
  pub version : String
  pub current_stage : String
  pub run_id : String

pub record Mlflow (S : Type 0) : Type 0 where
  -- `none` where there is no such version: it raises
  pub get_model_version : String → String → S → Option ModelVersion
  -- name, version, stage, archive_existing_versions
  pub transition : String → String → String → Bool → S → S
  -- `mlflow.register_model` gives the new version's number
  pub register_model : String → String → S → S × String
  pub get_latest_versions : String → String → S → Option (List ModelVersion)

abbrev pub stage_of : {S : Type 0} → Mlflow S → String → String → S → Option String
stage_of m name version s = elim (m.get_model_version name version s) [
  | none ↦ none
  | some v ↦ some v.current_stage
]

-- A transition sets the stage of its version; where it archives, other versions of the model at that
-- stage go to "Archived"; it touches nothing else. A registered version is new, at stage "None".
pub record IsMlflow {S : Type 0} (m : Mlflow S) : Type 0 where
  pub transition_lem :
      (name version stage : String) (archive : Bool) (s : S) (n v : String)
      → stage_of m n v (m.transition name version stage archive s) ≡ elim (stage_of m n v s) [
        | none ↦ none
        | some old ↦
            if str_eq name n && str_eq version v
            then some stage
            else if archive && str_eq name n && str_eq old stage
            then some "Archived"
            else some old
      ]
  pub register_lem :
      (uri name : String) (s : S) (n v : String)
      → stage_of m n v (m.register_model uri name s).0 ≡ (
          if str_eq name n && str_eq (m.register_model uri name s).1 v
          then some "None"
          else stage_of m n v s)
  pub version_lem :
      (n v : String) (s : S) (x : ModelVersion) → m.get_model_version n v s ≡ some x → x.version ≡ v

pub data RegistryError : Type 0 where
  mlflow_exception database_error approval_required : RegistryError

-- the newest version at "Staging"; `none` outside is an exception of MLflow
unfoldable pub get_latest_staging_version :
    {S : Type 0} → Mlflow S → String → S → Option (Option ModelVersion)
get_latest_staging_version m model_name s = elim (m.get_latest_versions model_name "Staging" s) [
  | none ↦ none
  | some [] ↦ some none
  | some (v ∷ vs) ↦ some (some v)
]

-- both stores, which a failed call may leave changed
pub record World (A R S : Type 0) : Type 0 where
  pub db : Database A R
  pub mlflow : S

abbrev pub Action : Type 0 → Type 0 → Type 0 → Type 0
Action A R S = World A R S → Result RegistryError ModelVersion × World A R S

module _ {A R S : Type 0} (m : Mlflow S) where
  -- `return client.get_model_version(name, version)`
  unfoldable pub get_version : String → String → Action A R S
  get_version name version w = elim (m.get_model_version name version w.mlflow) [
    | none ↦ (err mlflow_exception, w)
    | some v ↦ (ok v, w)
  ]

  unfoldable pub register_and_stage : String → String → String → String → Action A R S
  register_and_stage run_id model_name artifact_path target_stage w =
      let uri = concat ("runs:/" ∷ run_id ∷ "/" ∷ artifact_path ∷ []) in
      let (s1, version) = m.register_model uri model_name w.mlflow in
      get_version model_name version
        (record w { mlflow = m.transition model_name version target_stage false s1 })

  -- the hard gate, and the transition
  unfoldable pub gated_transition : String → String → Action A R S
  gated_transition model_name model_version w =
      if has_approval model_name model_version "Production" w.db
      then get_version model_name model_version
          (record w { mlflow = m.transition model_name model_version "Production" true w.mlflow })
      else (err approval_required, w)

  unfoldable pub promote_model :
      Stamp → Bool → String → String → String → Option String → Option (Dict A) → Action A R S
  promote_model stamp db_up model_name model_version approved_by notes metrics w =
      elim (m.get_model_version model_name model_version w.mlflow) [
        | none ↦ (err mlflow_exception, w)
        | some current ↦
            if db_up
            then gated_transition model_name model_version (record w {
              db =
                  (record_model_approval stamp model_name model_version current.current_stage
                    "Production" approved_by notes metrics w.db).0;
            })
            else (err database_error, w)
      ]

-- `load_production_model`. `lookup` and `load` are MLflow's `get_latest_versions` at "Production" and its
-- loader for the flavor, `none` where they raise.
unfoldable pub load_production_model :
    {M : Type 0}
    → Option (List ModelVersion)
    → (String → Option M)
    → String
    → Option (LoadedModel M)
load_production_model none load active_name = none
load_production_model (some []) load active_name = none
load_production_model (some (v ∷ vs)) load active_name =
    let flavor = if is_some (find? active_name "lightgbm") then "lightgbm" else "xgboost" in
    elim (load flavor) [
      | none ↦ none
      | some model ↦ some (record {
        model = model;
        model_name = active_name;
        model_version = v.version;
        stage = "Production";
        flavor = flavor;
        run_id = some v.run_id;
      })
    ]
