-- ===== src/Api/Explain.antt =====
-- src/api/explain.py and src/api/routes/explain.py: the five features that contribute most to a score.
-- SHAP's explainer is an interface; `none` is an exception. Of the times only the explanation's own
-- latency is an argument.
pub mod Top
use realtime_fraud_detection.Common.{
  ℕ, String, Bool, not, Option, none, some, List, [], ◌∷◌, map, take, last, or_else, str_eq,
  if◌then◌else◌,
}
use realtime_fraud_detection.Common.Floating.{Floating, ◌<ᶠ◌}
use realtime_fraud_detection.Common.Result.{Result, ok, err}
use realtime_fraud_detection.Common.Sort.{sort}
use realtime_fraud_detection.Http.{HttpException}
use realtime_fraud_detection.Schemas.{Transaction}
use realtime_fraud_detection.Scoring.Inference.{
  ScoringResult, ModelState, Engine, explain_transaction,
}
use realtime_fraud_detection.Api.Score.{internal_error}

-- an array of rows, or one for each class
pub data ShapValues (A : Type 0) : Type 0 where
  array : List (List A) → ShapValues A
  classes : List (List (List A)) → ShapValues A

pub data Expected (A : Type 0) : Type 0 where
  scalar : A → Expected A
  several : List A → Expected A

pub record FeatureContribution (A : Type 0) : Type 0 where
  pub feature : String
  pub value : A
  pub contribution : A

pub record ShapExplanation (A : Type 0) : Type 0 where
  pub top_features : List (FeatureContribution A)
  pub base_value : A
  pub latency_ms : A

-- `xs[0]` and `xs[1]`
abbrev pub head {ℓ} : {X : Type ℓ} → List X → Option X
head [] = none
head (x ∷ xs) = some x

abbrev pub second {ℓ} : {X : Type ℓ} → List X → Option X
second [] = none
second (x ∷ xs) = head xs

module _ {A : Type 0} where
  -- `np.asarray(raw[1])[0]` or `np.asarray(raw)[0]`
  abbrev pub class_values : ShapValues A → Option (List A)
  class_values (array rows) = head rows
  class_values (classes []) = none
  class_values (classes (c ∷ [])) = none
  class_values (classes (c ∷ rows ∷ cs)) = head rows

  abbrev pub base_of : ShapValues A → Expected A → Option A
  base_of (classes cs) (scalar x) = none
  base_of (classes cs) (several xs) = second xs
  base_of (array rows) (scalar x) = some x
  base_of (array rows) (several xs) = last xs

  -- `zip`, which stops with the shortest
  abbrev pub zip_features : List String → List A → List A → List (FeatureContribution A)
  zip_features [] values contributions = []
  zip_features (n ∷ names) [] contributions = []
  zip_features (n ∷ names) (v ∷ values) [] = []
  zip_features (n ∷ names) (v ∷ values) (c ∷ contributions) =
      record { feature = n; value = v; contribution = c } ∷ zip_features names values contributions

module _ {A : Type 0} ⦃f : Floating A⦄ where
  -- `sort(key=abs, reverse=True)`: an item stays before another unless that one is greater
  abbrev pub stronger : FeatureContribution A → FeatureContribution A → Bool
  stronger c d = not (f.abs c.contribution <ᶠ f.abs d.contribution)

  unfoldable pub top_contributions : ℕ → List (FeatureContribution A) → List (FeatureContribution A)
  top_contributions top_n contributions = take top_n (sort stronger contributions)

  unfoldable pub explain_row :
      ShapValues A → Expected A → List String → List A → ℕ → A → Option (ShapExplanation A)
  unfolding top_contributions
  explain_row raw expected names values top_n latency_ms = elim (class_values raw) [
    | none ↦ none
    | some shap_values ↦ elim (base_of raw expected) [
      | none ↦ none
      | some base_value ↦ some (record {
        top_features = top_contributions top_n (zip_features names values shap_values);
        base_value = base_value;
        latency_ms = latency_ms;
      })
    ]
  ]

pub data ExplanationType : Type 0 where
  shap rule_based : ExplanationType

pub record ExplainResponse (A : Type 0) : Type 0 where
  pub transaction_id : String
  pub card_id : String
  pub explanation_type : ExplanationType
  pub fraud_score : A
  pub base_value : Option A
  pub top_features : List (FeatureContribution A)
  pub rule_based_reason : Option String
  pub model_name : String
  pub model_version : String
  pub latency_ms : A

-- `fallback_reason or "no rule triggered"`
abbrev pub reason_text : Option String → String
reason_text none = "no rule triggered"
reason_text (some s) = if str_eq s "" then "no rule triggered" else s

module _ {A : Type 0} ⦃f : Floating A⦄ where
  abbrev pub explain_response :
      String → Transaction A → ScoringResult A → Option (ShapExplanation A) → ExplainResponse A
  explain_response model_name txn scoring (some e) = record {
    transaction_id = txn.transaction_id;
    card_id = txn.card_id;
    explanation_type = shap;
    fraud_score = f.round scoring.score 6;
    base_value = some e.base_value;
    top_features = e.top_features;
    rule_based_reason = none;
    model_name = model_name;
    model_version = or_else scoring.model_version "None";
    latency_ms = f.round (f.add scoring.latency_ms e.latency_ms) 3;
  }
  explain_response model_name txn scoring none = record {
    transaction_id = txn.transaction_id;
    card_id = txn.card_id;
    explanation_type = rule_based;
    fraud_score = f.round scoring.score 6;
    base_value = none;
    top_features = [];
    rule_based_reason = some (reason_text scoring.fallback_reason);
    model_name = model_name;
    model_version = or_else scoring.model_version "None";
    latency_ms = f.round scoring.latency_ms 3;
  }

  -- the answer from what `explain_transaction` gives; an explanation is `none` where SHAP raises, and a
  -- name that is null fails the response's schema
  unfoldable pub respond_explained :
      Transaction A
      → Option (ScoringResult A × Option (Option (ShapExplanation A)))
      → Result HttpException (ExplainResponse A)
  respond_explained txn none = err internal_error
  respond_explained txn (some (scoring, some none)) = err internal_error
  respond_explained txn (some (scoring, none)) = elim scoring.model_name [
    | none ↦ err internal_error
    | some name ↦ ok (explain_response name txn scoring none)
  ]
  respond_explained txn (some (scoring, some (some e))) = elim scoring.model_name [
    | none ↦ err internal_error
    | some name ↦ ok (explain_response name txn scoring (some e))
  ]

unfoldable pub explain_endpoint :
    {A M E : Type 0} ⦃f : Floating A⦄
    → Engine A M E (Option (ShapExplanation A))
    → ModelState A M E
    → Option (List (Transaction A))
    → A
    → A
    → Transaction A
    → Result HttpException (ExplainResponse A)
unfolding respond_explained
explain_endpoint eng state history started ended txn =
    respond_explained txn (explain_transaction eng state history started ended txn)
