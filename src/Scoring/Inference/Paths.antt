-- ===== src/Scoring/Inference/Paths.antt =====
-- Every transaction is scored, and which of the two ways scores it.
use realtime_fraud_detection.Common.{
  ◌≡◌, ◌⊎◌, inl, inr, Option-cases, refl, true, false, Option, none, some, List, is_some, arith,
}
use realtime_fraud_detection.Common.Floating.{Floating}
use realtime_fraud_detection.Schemas.{Transaction}
use realtime_fraud_detection.Features.{FeatureVector, compute_features, comparable, try_features}
use realtime_fraud_detection.Scoring.Decision.{decide}
use realtime_fraud_detection.Scoring.Fallback.{fallback_score, fallback_name, fallback_version}
use realtime_fraud_detection.Scoring.FeatureRow.{Row, build_feature_row}
use realtime_fraud_detection.Scoring.FeatureRow.Columns.{select_model_matrix-build_feature_row}
use realtime_fraud_detection.Scoring.Inference.{
  ml, fallback_rules, LoadedModel, ModelState, Engine, ScoringResult, reload, result_of,
  score_transaction, explain_transaction, build_feature_row_for, verdict_of, explain_result,
}

module _ {A M E X : Type 0} ⦃f : Floating A⦄ (eng : Engine A M E X) where
  -- the model's answer, where there is a model and it does not raise
  abbrev pub model_answer : ModelState A M E → Row A → Option A
  model_answer s row = elim s.model [ none ↦ none | some m ↦ eng.predict_proba m row ]

  -- whose score it is: the model's where it answers, or else the fallback's
  abbrev pub IsAnsweredBy : ModelState A M E → ScoringResult A → Option A → Type 0
  IsAnsweredBy s r (some p) =
      (r.score ≡ p)
      × (r.model_source ≡ ml)
      × (r.model_name ≡ s.model_name)
      × (r.model_version ≡ s.model_version)
      × (r.fallback_reason ≡ none)
  IsAnsweredBy s r none =
      (r.score ≡ (fallback_score eng.show_int s.settings r.feature_vector).score)
      × (r.model_source ≡ fallback_rules)
      × (r.model_name ≡ some fallback_name)
      × (r.model_version ≡ some fallback_version)
      × (is_some r.fallback_reason ≡ true)

  answered-result_of :
      (s : ModelState A M E) (started ended : A) (v : FeatureVector A) (row : Row A)
      → IsAnsweredBy s (result_of eng s started ended v row) (model_answer s row)
  unfolding result_of verdict_of
  answered-result_of s started ended v row = elim (Option-cases s.model) [
    | inl no_model ↦ rw (no_model, verdict_of) (refl, refl, refl, refl, refl)
    | inr (m, loaded) ↦ elim (Option-cases (eng.predict_proba m row)) [
      | inl raised ↦ rw (loaded, raised, verdict_of) (refl, refl, refl, refl, refl)
      | inr (p, answer) ↦ rw (loaded, answer, verdict_of) (refl, refl, refl, refl, refl)
    ]
  ]

  -- What `score_transaction` owes its caller.
  pub record IsScored (s : ModelState A M E) (history : List (Transaction A)) (txn : Transaction A)
      (r : ScoringResult A) : Type 0 where
    pub vector : r.feature_vector ≡ compute_features history txn
    pub row : r.feature_row ≡ build_feature_row (compute_features history txn) txn
    pub routing : r.routing ≡ decide r.score s.settings
    pub answered : IsAnsweredBy s r (model_answer s r.feature_row)

  result_of-IsScored :
      (s : ModelState A M E) (history : List (Transaction A)) (started ended : A)
      (txn : Transaction A)
      → let v = compute_features history txn in
        IsScored s history txn (result_of eng s started ended v (build_feature_row v txn))
  unfolding result_of
  result_of-IsScored s history started ended txn = record {
    vector = refl;
    row = refl;
    routing = refl;
    answered =
        answered-result_of s started ended (compute_features history txn)
          (build_feature_row (compute_features history txn) txn);
  }

  build_feature_row_for-comparable :
      (history : List (Transaction A)) (txn : Transaction A)
      → comparable history txn ≡ true
      → let v = compute_features history txn in
        build_feature_row_for eng (some history) txn ≡ some (v, build_feature_row v txn)
  unfolding build_feature_row_for try_features
  build_feature_row_for-comparable history txn h = rw (
    h,
    (select_model_matrix-build_feature_row (compute_features history txn) txn).0,
    build_feature_row_for,
  )

  -- Where the history is read and the features raise nothing, there is a result. Its features are
  -- those of the history and its routing is the policy's for its score. Where the model answers,
  -- the score, name and version are the model's; where there is no model or it raises, they are the
  -- fallback's, and a reason is given.
  pub score_transaction_total :
      (s : ModelState A M E) (history : List (Transaction A)) (started ended : A)
      (txn : Transaction A)
      → comparable history txn ≡ true
      → (r : ScoringResult A) × (score_transaction eng s (some history) started ended txn ≡ some r)
        × IsScored s history txn r
  unfolding score_transaction
  score_transaction_total s history started ended txn h =
      let v = compute_features history txn in
      (
        result_of eng s started ended v (build_feature_row v txn),
        rw (build_feature_row_for-comparable history txn h, score_transaction),
        result_of-IsScored s history started ended txn,
      )

  -- and else there is none
  pub score_transaction-incomparable :
      (s : ModelState A M E) (history : List (Transaction A)) (started ended : A)
      (txn : Transaction A)
      → comparable history txn ≡ false
      → score_transaction eng s (some history) started ended txn ≡ none
  unfolding score_transaction build_feature_row_for try_features
  score_transaction-incomparable s history started ended txn h =
      rw (h, build_feature_row_for, score_transaction) refl

  explain_result-eq :
      (s : ModelState A M E) (r : ScoringResult A)
      → ◌≡◌ {A = Option (ScoringResult A × Option X)}
          (some (explain_result eng s r))
          (some (r, (explain_result eng s r).1))
  explain_result-eq s r = ground arith

  model_or_none :
      (s : ModelState A M E) (r : ScoringResult A)
      → (r.model_source ≡ ml) ⊎ ((explain_result eng s r).1 ≡ none)
  model_or_none s r = ground arith

  -- An explanation comes with the very result that scoring alone gives, and only with a score of the
  -- model; with a result of the fallback there is none.
  pub explain_transaction_lem :
      (s : ModelState A M E) (history : List (Transaction A)) (started ended : A)
      (txn : Transaction A)
      → comparable history txn ≡ true
      → (r : ScoringResult A) × (x : Option X) × (explain_transaction eng s
            (some history)
            started
            ended
            txn
          ≡ some (r, x))
        × (score_transaction eng s (some history) started ended txn ≡ some r)
        × ((r.model_source ≡ ml) ⊎ (x ≡ none))
  unfolding explain_transaction
  explain_transaction_lem s history started ended txn h =
      let (r, found, _) = score_transaction_total s history started ended txn h in
      (
        r,
        (explain_result eng s r).1,
        rw (found, explain_transaction) (explain_result-eq s r),
        found,
        model_or_none s r,
      )

  -- The explainer is one of the loaded model, and the names are there exactly when the model is.
  pub record IsCoherent (s : ModelState A M E) : Type 0 where
    pub explainer :
        (e : E)
        → s.explainer ≡ some e
        → (m : M) × (s.model ≡ some m) × (eng.make_explainer m ≡ some e)
    pub named : is_some s.model_name ≡ is_some s.model
    pub versioned : is_some s.model_version ≡ is_some s.model

  -- Whatever the registry answers, a reload leaves a coherent state, keeps the settings and reports
  -- whether there is a model: no explainer, name or version of an earlier model survives it.
  pub reload-IsCoherent :
      (found : Option (LoadedModel M)) (s : ModelState A M E)
      → IsCoherent (reload eng found s).0
        × ((reload eng found s).1 ≡ is_some found)
        × (is_some (reload eng found s).0.model ≡ is_some found)
        × ((reload eng found s).0.settings ≡ s.settings)
  unfolding reload
  reload-IsCoherent none s =
      (record { explainer = λ e h. ground arith; named = refl; versioned = refl }, refl, refl, refl)
  reload-IsCoherent (some l) s = (
    record { explainer = λ e h. (l.model, refl, h); named = refl; versioned = refl },
    refl,
    refl,
    refl,
  )
