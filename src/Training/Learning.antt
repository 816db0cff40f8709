-- ===== src/Training/Learning.antt =====
-- src/ml/train.py: the rows that a training works on. The learners, SMOTE and the split are the interface
-- `Learning`; a call of them that raises gives `none`.
use realtime_fraud_detection.Common.{
  ℕ, String, Bool, Option, none, some, List, [], ◌∷◌, map, count, concat, ◌==◌,
}
use realtime_fraud_detection.Common.Dict.{Dict}
use realtime_fraud_detection.Common.Int.{ℤ}
use realtime_fraud_detection.Governance.Registry.{RegistryError, World}
use realtime_fraud_detection.Scoring.FeatureRow.{Row, select_model_matrix}
use realtime_fraud_detection.Training.{TestRow}

-- a value of a parameter
pub data Param (A : Type 0) : Type 0 where
  int : ℤ → Param A
  float : A → Param A
  text : String → Param A

-- a row of the merged frame; `country` is `none` where the stored value is a number
pub record Sample (A : Type 0) : Type 0 where
  pub features : Row A
  pub label : ℕ
  pub country : Option String
  pub card_id : String

-- a row with its columns of the model matrix
pub record Example (A : Type 0) : Type 0 where
  pub x : Row A
  pub sample : Sample A

pub record Learning (A : Type 0) : Type 0 where
  -- `train_test_split(test_size=0.25, random_state=42, stratify=y)`
  pub train_test_split : List (Example A) → Option (List (Example A) × List (Example A))
  -- `SMOTE(random_state=42).fit_resample`
  pub fit_resample : List (Row A) → List ℕ → Option (List (Row A) × List ℕ)
  -- `fit`, and the second column of `predict_proba`
  pub xgboost : Dict (Param A) → List (Row A) → List ℕ → Option (Row A → A)
  pub lightgbm : Dict (Param A) → List (Row A) → List ℕ → Option (Row A → A)
  -- `str` of a parameter and of a number; `str.replace`
  pub show : Param A → String
  pub show_int : ℕ → String
  pub replace : String → String → String → String
  -- the order of `sorted` on texts
  pub in_order : String → String → Bool

pub data TrainError : Type 0 where
  -- a library's exception before or in the fitting
  learning_error : TrainError
  -- countries that cannot be sorted
  type_error : TrainError
  registry_error : RegistryError → TrainError

-- the stores, with the files of `model_cards/`
pub record Site (A R S : Type 0) : Type 0 where
  pub world : World A R S
  pub model_cards : Dict String

-- what the two trainings differ in
pub record Recipe (A : Type 0) : Type 0 where
  pub run_name : String
  pub params : Dict (Param A)
  pub log_param : Dict String
  pub artifact_name : String
  pub flavor : String
  pub model_name : String
  pub algorithm : String
  pub imbalance_technique : String

unfoldable pub shared_limitations : List String
unfolding concat
shared_limitations =
    concat (
      "Training labels come from a synthetic transaction simulator's injected "
      ∷ "edge cases, not analyst-confirmed real-world fraud -- expect distribution "
      ∷ "shift when this model is retrained on real labeled data from the analyst "
      ∷ "feedback loop (`analyst_feedback` table)." ∷ [])
    ∷ concat (
        "Fairness evaluation uses cardholder home country as a proxy slice because "
        ∷ "no demographic attributes are collected; it does not substitute for a "
        ∷ "full fairness audit against protected classes." ∷ [])
    ∷ concat (
        "The model has not been evaluated for robustness to adversarial/adaptive "
        ∷ "fraud patterns that specifically target its known feature set." ∷ [])
    ∷ concat (
        "Class imbalance handling (SMOTE / scale_pos_weight) was tuned for this "
        ∷ "synthetic dataset's ~8% injected fraud rate; real-world fraud rates are "
        ∷ "typically far lower (well under 1%) and would need re-tuning." ∷ [])
    ∷ []

module _ {A : Type 0} where
  -- the rows of `select_model_matrix(df)` beside those of `df`
  unfoldable pub examples_of : List (Sample A) → Option (List (Example A))
  examples_of [] = some []
  examples_of (s ∷ df) = elim (select_model_matrix s.features) [
    | none ↦ none
    | some x ↦ elim (examples_of df) [
      | none ↦ none
      | some rest ↦ some (record { x = x; sample = s } ∷ rest)
    ]
  ]

  unfoldable pub prepare_split :
      Learning A → List (Sample A) → Option (List (Example A) × List (Example A))
  unfolding examples_of
  prepare_split l df = elim (examples_of df) [ none ↦ none | some rows ↦ l.train_test_split rows ]

  -- `df_test`, `y_test` and `y_prob` side by side
  unfoldable pub test_rows : (Row A → A) → List (Example A) → Option (List (TestRow A))
  test_rows model [] = some []
  test_rows model (e ∷ test) = elim e.sample.country [
    | none ↦ none
    | some country ↦ elim (test_rows model test) [
      | none ↦ none
      | some rest ↦
          some (record { country = country; y_true = e.sample.label; y_prob = model e.x } ∷ rest)
    ]
  ]

  abbrev pub matrix : List (Example A) → List (Row A)
  matrix rows = map (λ e. e.x) rows

  abbrev pub labels : List (Example A) → List ℕ
  labels rows = map (λ e. e.sample.label) rows

-- `(y == label).sum()`
abbrev pub examples_with : ℕ → List ℕ → ℕ
examples_with label ys = count (λ y. y == label) ys

-- `str({"legit": …, "fraud": …})`
abbrev pub counts_text : (ℕ → String) → List ℕ → String
counts_text show ys = concat (
    "{'legit': " ∷ show (examples_with 0 ys) ∷ ", 'fraud': " ∷ show (examples_with 1 ys) ∷ "}" ∷ [])
