-- ===== src/Scoring/Inference.antt =====
-- src/api/inference.py: the state of the service, and the scoring of one transaction. `M` is the type
-- of MLflow's models and `E` that of SHAP's explainers; what the code calls of them is in `Engine`,
-- where `none` is an exception. The clock is an argument: `started` and `ended` are its two readings.
pub mod Paths
use realtime_fraud_detection.Common.{
  ℕ, String, Bool, true, false, Option, none, some, List, is_some, str_eq, ◌≡◌, not, ◌||◌,
  if◌then◌else◌,
}
use realtime_fraud_detection.Common.Floating.{Floating, lit}
use realtime_fraud_detection.Config.{Settings}
use realtime_fraud_detection.Schemas.{Transaction}
use realtime_fraud_detection.Features.{FeatureVector, try_features}
use realtime_fraud_detection.Scoring.FeatureRow.{Row, build_feature_row, select_model_matrix}
use realtime_fraud_detection.Scoring.Decision.{RoutingResult, decide}
use realtime_fraud_detection.Scoring.Fallback.{
  FallbackResult, fallback_score, fallback_name, fallback_version, reason,
}

pub data ModelSource : Type 0 where
  ml fallback_rules : ModelSource

-- src/ml/registry.py: what `load_production_model` returns
pub record LoadedModel (M : Type 0) : Type 0 where
  pub model : M
  pub model_name : String
  pub model_version : String
  pub stage : String
  pub flavor : String
  pub run_id : Option String

pub record ModelState (A M E : Type 0) : Type 0 where
  pub settings : Settings A
  pub model : Option M
  pub explainer : Option E
  pub model_name : Option String
  pub model_version : Option String
  pub run_id : Option String

-- the foreign calls
pub record Engine (A M E X : Type 0) : Type 0 where
  -- `float(model.predict_proba(row)[:, 1][0])`
  pub predict_proba : M → Row A → Option A
  -- `ShapExplainer(model)`
  pub make_explainer : M → Option E
  -- `explainer.explain(row)`
  pub explain : E → Row A → X
  -- a number in decimal
  pub show_int : ℕ → String

pub record ScoringResult (A : Type 0) : Type 0 where
  pub feature_vector : FeatureVector A
  pub feature_row : Row A
  pub score : A
  pub model_source : ModelSource
  pub model_name : Option String
  pub model_version : Option String
  pub routing : RoutingResult
  pub latency_ms : A
  pub fallback_reason : Option String

module _ {A M E X : Type 0} (eng : Engine A M E X) where
  -- the answer of `load_production_model` is what it found
  unfoldable pub reload : Option (LoadedModel M) → ModelState A M E → ModelState A M E × Bool
  reload none s = (
    record s {
      model = none;
      explainer = none;
      model_name = none;
      model_version = none;
      run_id = none;
    },
    false,
  )
  reload (some l) s = (
    record s {
      model = some l.model;
      explainer = eng.make_explainer l.model;
      model_name = some l.model_name;
      model_version = some l.model_version;
      run_id = l.run_id;
    },
    true,
  )

  -- `ModelState.__init__`
  unfoldable pub start_state : Settings A → Option (LoadedModel M) → ModelState A M E
  unfolding reload
  start_state settings found =
      (reload found (record {
        settings = settings;
        model = none;
        explainer = none;
        model_name = none;
        model_version = none;
        run_id = none;
      })).0

abbrev pub is_model_available : {A M E : Type 0} → ModelState A M E → Bool
is_model_available s = is_some s.model

-- score, source, name, version and reason
pub record Verdict (A : Type 0) : Type 0 where
  pub score : A
  pub model_source : ModelSource
  pub model_name : Option String
  pub model_version : Option String
  pub fallback_reason : Option String

module _ {A M E X : Type 0} ⦃f : Floating A⦄ (eng : Engine A M E X) where
  abbrev pub by_rules : ModelState A M E → FeatureVector A → Verdict A
  by_rules s v =
      let r = fallback_score eng.show_int s.settings v in
      record {
        score = r.score;
        model_source = fallback_rules;
        model_name = some fallback_name;
        model_version = some fallback_version;
        fallback_reason = some (reason r);
      }

  -- by the model, by the rules if it raises or if there is none
  unfoldable pub verdict_of : ModelState A M E → FeatureVector A → Row A → Verdict A
  verdict_of s v row = elim s.model [
    | none ↦ by_rules s v
    | some m ↦ elim (eng.predict_proba m row) [
      | none ↦ by_rules s v
      | some p ↦ record {
        score = p;
        model_source = ml;
        model_name = s.model_name;
        model_version = s.model_version;
        fallback_reason = none;
      }
    ]
  ]

  -- `history` is the answer of the feature store, `none` where reading it raises; a result of `none` is an
  -- exception: that one, one of the features, or the `KeyError` of a missing column
  unfoldable pub build_feature_row_for :
      Option (List (Transaction A)) → Transaction A → Option (FeatureVector A × Row A)
  unfolding try_features
  build_feature_row_for none txn = none
  build_feature_row_for (some history) txn = elim (try_features history txn) [
    | none ↦ none
    | some v ↦ elim (select_model_matrix (build_feature_row v txn)) [
      | none ↦ none
      | some row ↦ some (v, row)
    ]
  ]

  unfoldable pub result_of : ModelState A M E → A → A → FeatureVector A → Row A → ScoringResult A
  unfolding verdict_of
  result_of s started ended v row =
      let d = verdict_of s v row in
      record {
        feature_vector = v;
        feature_row = row;
        score = d.score;
        model_source = d.model_source;
        model_name = d.model_name;
        model_version = d.model_version;
        routing = decide d.score s.settings;
        latency_ms = f.mul (f.sub ended started) (lit 1000 0);
        fallback_reason = d.fallback_reason;
      }

  unfoldable pub score_transaction :
      ModelState A M E
      → Option (List (Transaction A))
      → A
      → A
      → Transaction A
      → Option (ScoringResult A)
  unfolding result_of build_feature_row_for
  score_transaction s history started ended txn = elim (build_feature_row_for history txn) [
    | none ↦ none
    | some (v, row) ↦ some (result_of s started ended v row)
  ]

  abbrev pub explain_result : ModelState A M E → ScoringResult A → ScoringResult A × Option X
  explain_result s r = elim r.model_source [
    | fallback_rules ↦ (r, none)
    | ml ↦ elim s.explainer [ none ↦ (r, none) | some e ↦ (r, some (eng.explain e r.feature_row)) ]
  ]

  unfoldable pub explain_transaction :
      ModelState A M E
      → Option (List (Transaction A))
      → A
      → A
      → Transaction A
      → Option (ScoringResult A × Option X)
  explain_transaction s history started ended txn =
      elim (score_transaction s history started ended txn) [
        | none ↦ none
        | some r ↦ some (explain_result s r)
      ]
