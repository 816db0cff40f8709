-- ===== src/Batch/Score/Agreement.antt =====
-- A batch scores every transaction, as the live path would with the file's earlier transactions of the
-- card for its history.
use mathlib.Core.Option
use mathlib.Core.Bool.{true}
use realtime_fraud_detection.Common.{
  suc, String, Option-cases, Bool-cases, inl, inr, ◌≡◌, refl, ap, sym, subst, ◌∙◌, Bool, some, List,
  [], ◌∷◌, ◌++◌, length, filter, filter-append, All, str_eq, eq_iff,
}
use mathlib.Core.List.{append-nil}
use realtime_fraud_detection.Common.Dict.{Dict, get, set, get-set}
use realtime_fraud_detection.Common.Sort.{sort, by_key, All-sort}
use realtime_fraud_detection.Common.Floating.{Floating}
use realtime_fraud_detection.Config.{Settings}
use realtime_fraud_detection.Schemas.{Transaction}
use realtime_fraud_detection.Features.{compute_features, try_features}
use realtime_fraud_detection.Features.Clean.{
  IsClean, All-filter, try_features-IsClean, sort_by_time-IsClean,
}
use realtime_fraud_detection.Scoring.Decision.{RiskLevel, Decision, decide, block}
use realtime_fraud_detection.Scoring.Decision.Policy.{decide-IsConsistent}
use realtime_fraud_detection.Scoring.FeatureRow.{build_feature_row}
use realtime_fraud_detection.Scoring.FeatureRow.Columns.{select_model_matrix-build_feature_row}
use realtime_fraud_detection.Scoring.Inference.{
  ModelSource, ModelState, Engine, ScoringResult, verdict_of, score_transaction,
  build_feature_row_for, result_of,
}
use realtime_fraud_detection.Batch.Score.{
  ScoredTransaction, score_one, score_from, score_batch, history_of, derive_reason, batch_score_of,
}

module _ {A : Type 0} where
  abbrev pub of_card : String → Transaction A → Bool
  of_card card t = str_eq t.card_id card

module _ {A M E X : Type 0} ⦃f : Floating A⦄ (eng : Engine A M E X) (state : ModelState A M E)
    (settings : Settings A) where
  -- The result of one transaction on a history.
  unfoldable pub row_of : List (Transaction A) → Transaction A → ScoredTransaction A
  row_of hist txn =
      let v = compute_features hist txn in
      let (score, model_source) = batch_score_of eng state v (build_feature_row v txn) in
      let routing = decide score settings in
      record {
        txn = txn;
        fraud_score = score;
        risk_level = routing.risk_level;
        decision = routing.decision;
        routed_to_review = routing.routed_to_review;
        model_source = model_source;
        reason_tag = derive_reason v routing.decision settings;
      }

  score_one-eq-row_of :
      (zoned : Bool) (hist : List (Transaction A)) (txn : Transaction A)
      → All (IsClean zoned) hist
      → IsClean zoned txn
      → score_one eng state settings hist txn ≡ some (row_of hist txn)
  unfolding score_one row_of
  score_one-eq-row_of zoned hist txn h c =
      let v = compute_features hist txn in
      rw (
        try_features-IsClean zoned hist txn h c,
        score_one,
        (select_model_matrix-build_feature_row v txn).0,
      )

  All-snoc :
      (P : Transaction A → Type 0) (l : List (Transaction A)) (t : Transaction A)
      → All P l
      → P t
      → All P (l ++ t ∷ [])
  All-snoc P [] t h p = (p, tt)
  All-snoc P (x ∷ l) t h p = (h.0, All-snoc P l t h.1 p)

  -- The specification, without a dictionary: each transaction with those of its card before it.
  unfoldable pub rows_after :
      List (Transaction A) → List (Transaction A) → List (ScoredTransaction A)
  rows_after earlier [] = []
  rows_after earlier (txn ∷ rest) =
      row_of (filter (of_card txn.card_id) earlier) txn ∷ rows_after (earlier ++ txn ∷ []) rest

  -- the dictionary holds each card's transactions so far
  abbrev Tracks : Dict (List (Transaction A)) → List (Transaction A) → Type 0
  Tracks history earlier = (card : String) → history_of card history ≡ filter (of_card card) earlier

  Tracks-set :
      (history : Dict (List (Transaction A))) (earlier : List (Transaction A)) (txn : Transaction A)
      → Tracks history earlier
      → Tracks
          (set txn.card_id (history_of txn.card_id history ++ txn ∷ []) history)
          (earlier ++ txn ∷ [])
  unfolding filter
  Tracks-set history earlier txn h card =
      rw (filter-append (of_card card) earlier (txn ∷ []), get-set card txn.card_id)
        (elim (Bool-cases (str_eq txn.card_id card)) [
          | inl same ↦ rw same (
              ap (λ l. l ++ txn ∷ [])
                (h txn.card_id
                  ∙ ap (λ c. filter (of_card c) earlier) ((eq_iff txn.card_id card).0 same)))
          | inr other ↦ rw (other, append-nil) (h card)
        ])

  score_from-eq-rows_after :
      (zoned : Bool) (history : Dict (List (Transaction A))) (earlier rest : List (Transaction A))
      → All (IsClean zoned) earlier
      → All (IsClean zoned) rest
      → Tracks history earlier
      → score_from eng state settings history rest ≡ some (rows_after earlier rest)
  unfolding score_from rows_after
  score_from-eq-rows_after zoned history earlier [] before clean h = refl
  score_from-eq-rows_after zoned history earlier (txn ∷ rest) before clean h =
      let hist = history_of txn.card_id history in
      let known : All (IsClean zoned) hist =
        subst (All (IsClean zoned)) (sym (h txn.card_id))
          (All-filter (IsClean zoned) (of_card txn.card_id) earlier before) in
      rw (
        score_one-eq-row_of zoned hist txn known clean.0,
        score_from-eq-rows_after zoned (set txn.card_id (hist ++ txn ∷ []) history)
            (earlier ++ txn ∷ []) rest (All-snoc (IsClean zoned) earlier txn before clean.0) clean.1
            (Tracks-set history earlier txn h),
        h txn.card_id,
      )

  -- Where the times of a batch all have a zone or all have none, none is on the first day of year 1 and the
  -- amounts are numbers, the batch gives one row for each transaction, in the order of the event times: the
  -- row of a transaction is its result on the earlier transactions of the same card in that order,
  -- and on nothing else of the file.
  pub score_batch_lem :
      (zoned : Bool) (transactions : List (Transaction A))
      → All (IsClean zoned) transactions
      → score_batch eng state settings transactions
        ≡ some (rows_after [] (sort (by_key (λ t. t.event_time)) transactions))
  unfolding score_batch
  score_batch_lem zoned transactions clean =
      let ordered = sort (by_key (λ (t : Transaction A). t.event_time)) transactions in
      rw (sort_by_time-IsClean zoned transactions clean, score_batch)
        (score_from-eq-rows_after zoned [] [] ordered tt
          (All-sort (by_key (λ (t : Transaction A). t.event_time)) (IsClean zoned) transactions
            clean)
          (unfold get filter in λ card. refl))

  pub length-rows_after :
      (earlier rest : List (Transaction A)) → length (rows_after earlier rest) ≡ length rest
  unfolding rows_after
  length-rows_after earlier [] = refl
  length-rows_after earlier (txn ∷ rest) = ap suc (length-rows_after (earlier ++ txn ∷ []) rest)

  -- By the policy, a row that is blocked is routed to review.
  pub rows_after_routed :
      (earlier rest : List (Transaction A))
      → All (λ s. s.decision ≡ block → s.routed_to_review ≡ true) (rows_after earlier rest)
  unfolding rows_after row_of
  rows_after_routed earlier [] = tt
  rows_after_routed earlier (txn ∷ rest) =
      let hist = filter (of_card txn.card_id) earlier in
      let v = compute_features hist txn in
      let score = (batch_score_of eng state v (build_feature_row v txn)).0 in
      (
        λ h. (decide-IsConsistent score settings).routed.1 (λ e. cc),
        rows_after_routed (earlier ++ txn ∷ []) rest,
      )

-- what the two ways have in common: score, source, risk level, decision and routing
module _ {A : Type 0} where
  abbrev pub batch_view : ScoredTransaction A → A × ModelSource × RiskLevel × Decision × Bool
  batch_view s = (s.fraud_score, s.model_source, s.risk_level, s.decision, s.routed_to_review)

  abbrev pub live_view : ScoringResult A → A × ModelSource × RiskLevel × Decision × Bool
  live_view r = (
    r.score, r.model_source, r.routing.risk_level, r.routing.decision, r.routing.routed_to_review,
  )

module _ {A M E X : Type 0} ⦃f : Floating A⦄ (eng : Engine A M E X) where
  -- On one history, where the features raise nothing, the batch's row has the score, the source, the risk level,
  -- the decision and the routing that the live path's result has; where they raise, so do both.
  pub score_one-score_transaction :
      (state : ModelState A M E) (hist : List (Transaction A)) (started ended : A)
      (txn : Transaction A)
      → Option.map batch_view (score_one eng state state.settings hist txn)
        ≡ Option.map live_view (score_transaction eng state (some hist) started ended txn)
  unfolding score_one score_transaction build_feature_row_for result_of batch_score_of verdict_of
  score_one-score_transaction state hist started ended txn =
      elim (Option-cases (try_features hist txn)) [
        | inl raised ↦ rw (raised, score_one, build_feature_row_for, score_transaction) refl
        | inr (v, found) ↦
            let row = (select_model_matrix-build_feature_row v txn).0 in
            rw (found, score_one, build_feature_row_for, score_transaction, row)
              (elim (Option-cases state.model) [
                | inl no_model ↦ rw (no_model, batch_score_of, verdict_of) refl
                | inr (m, loaded) ↦
                    elim (Option-cases (eng.predict_proba m (build_feature_row v txn))) [
                      | inl e ↦ rw (loaded, e, batch_score_of, verdict_of) refl
                      | inr (p, e) ↦ rw (loaded, e, batch_score_of, verdict_of) refl
                    ]
              ])
      ]
