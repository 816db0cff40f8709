-- ===== src/Api/Score/Records.antt =====
-- What a call of the endpoint leaves in the database.
use realtime_fraud_detection.Common.{
  ◌+◌, ◌≡◌, refl, String, Bool, true, false, Option, none, some, List, [], ◌∷◌, ◌++◌, length, arith,
  is_some, str_eq, ap, sym, ◌∙◌, subst, if◌then◌else◌, Bool-cases, Option-cases, inl, inr, filter,
}
use realtime_fraud_detection.Common.Floating.{Floating}
use realtime_fraud_detection.Scoring.FeatureRow.{Row, build_feature_row}
use realtime_fraud_detection.Features.{comparable, compute_features}
use realtime_fraud_detection.Common.Result.{err}
use realtime_fraud_detection.Schemas.{Transaction}
use realtime_fraud_detection.Scoring.Inference.{
  ModelState, Engine, ScoringResult, score_transaction,
}
use realtime_fraud_detection.Scoring.Inference.Paths.{
  IsAnsweredBy, IsCoherent, model_answer, score_transaction_total, score_transaction-incomparable,
}
use realtime_fraud_detection.Storage.Tables.{Database, Stamp, PredictionRecord, ReviewCaseRecord}
use realtime_fraud_detection.Storage.Review.{
  count_review_cases, has_status, write_prediction, create_review_case,
}
use realtime_fraud_detection.Api.Score.{
  internal_error, open_case, store_score, named_score, score_endpoint,
}

-- one prediction more, of this result, and one pending case more exactly where it is routed to review
pub record IsRecorded {A R : Type 0} (txn : Transaction A) (r : ScoringResult A)
    (db db' : Database A R) : Type 0 where
  pub prediction : PredictionRecord A
  pub added : db'.predictions ≡ db.predictions ++ prediction ∷ []
  pub of_transaction : prediction.transaction_id ≡ txn.transaction_id
  pub scored : prediction.fraud_score ≡ r.score
  pub decided : prediction.decision ≡ r.routing.decision
  pub queued :
      count_review_cases "pending" db'
      ≡ count_review_cases "pending" db + (if r.routing.routed_to_review then 1 else 0)

count-append :
    {A : Type 0} (l : List (ReviewCaseRecord A)) (c : ReviewCaseRecord A)
    → length (filter (has_status "pending") (l ++ c ∷ []))
      ≡ length (filter (has_status "pending") l) + (if str_eq c.status "pending" then 1 else 0)
unfolding filter
count-append [] c = ground arith
count-append (x ∷ l) c = ground (arith, count-append l c)

module _ {A R : Type 0} ⦃f : Floating A⦄ where
  predictions-open_case :
      (stamp : Stamp) (prediction_id : String) (txn : Transaction A) (r : ScoringResult A)
      (db : Database A R)
      → (open_case stamp prediction_id txn r db).0.predictions ≡ db.predictions
  unfolding open_case create_review_case
  predictions-open_case stamp prediction_id txn r db =
      elim (Bool-cases r.routing.routed_to_review) [
        | inl routed ↦ rw (routed, open_case) refl
        | inr not_routed ↦ rw (not_routed, open_case) refl
      ]

  count-open_case :
      (stamp : Stamp) (prediction_id : String) (txn : Transaction A) (r : ScoringResult A)
      (db : Database A R)
      → count_review_cases "pending" (open_case stamp prediction_id txn r db).0
        ≡ count_review_cases "pending" db + (if r.routing.routed_to_review then 1 else 0)
  unfolding open_case create_review_case count_review_cases
  count-open_case stamp prediction_id txn r db = elim (Bool-cases r.routing.routed_to_review) [
    | inl routed ↦ rw (routed, open_case) (count-append db.review_cases _)
    | inr not_routed ↦ rw (not_routed, open_case) (omega arith)
  ]

  store_score-IsRecorded :
      (first second : Stamp) (name version : String) (txn : Transaction A) (r : ScoringResult A)
      (db : Database A R)
      → IsRecorded txn r db (store_score first second name version txn r db).1
  unfolding store_score write_prediction count_review_cases
  store_score-IsRecorded first second name version txn r db =
      let w =
        write_prediction first txn.transaction_id txn.card_id name version r.feature_row r.score
          r.routing.risk_level r.routing.decision r.latency_ms r.model_source
          r.routing.routed_to_review db in
      record {
        prediction = _;
        added = predictions-open_case second w.1 txn r w.0;
        of_transaction = refl;
        scored = refl;
        decided = refl;
        queued = count-open_case second w.1 txn r w.0;
      }

module _ {A M E X : Type 0} ⦃f : Floating A⦄ (eng : Engine A M E X) where
  is_some-model_answer :
      (s : ModelState A M E) (row : Row A)
      → is_some (model_answer eng s row) ≡ true
      → is_some s.model ≡ true
  is_some-model_answer s row h = ground arith

  -- the result of a coherent state has a name and a version
  named-IsAnsweredBy :
      (s : ModelState A M E) (r : ScoringResult A) (answer : Option A)
      → IsCoherent eng s
      → (is_some answer ≡ true → is_some s.model ≡ true)
      → IsAnsweredBy eng s r answer
      → (is_some r.model_name ≡ true) × (is_some r.model_version ≡ true)
  named-IsAnsweredBy s r none h there (_, _, name, version, _) =
      (ap is_some name, ap is_some version)
  named-IsAnsweredBy s r (some p) h there (_, _, name, version, _) =
      (ap is_some name ∙ h.named ∙ there refl, ap is_some version ∙ h.versioned ∙ there refl)

module _ {A R : Type 0} ⦃f : Floating A⦄ where
  named_score-IsRecorded :
      (first second : Stamp) (txn : Transaction A) (r : ScoringResult A) (db : Database A R)
      → is_some r.model_name ≡ true
      → is_some r.model_version ≡ true
      → IsRecorded txn r db (named_score first second txn r db).1
  unfolding named_score store_score
  named_score-IsRecorded first second txn r db h k = elim (Option-cases r.model_name) [
    | inl e ↦ absurd (ground arith)
    | inr (name, e) ↦ elim (Option-cases r.model_version) [
      | inl d ↦ absurd (ground arith)
      | inr (version, d) ↦
          subst (IsRecorded txn r db) (sym (rw (e, named_score, d) refl))
            (store_score-IsRecorded first second name version txn r db)
    ]
  ]

module _ {A M E X R : Type 0} ⦃f : Floating A⦄ (eng : Engine A M E X) where
  -- In a state whose model has a name and a version, which every reload leaves, where the card's history is read,
  -- the features raise nothing and the database takes the feature row: the endpoint stores one prediction, of
  -- the transaction's result, and opens one pending case exactly where that is routed to review, whether the
  -- score is the model's or the fallback's.
  pub score_endpoint-IsRecorded :
      (s : ModelState A M E) (storable : Row A → Bool) (history : List (Transaction A))
      (started ended : A) (first second : Stamp) (txn : Transaction A) (db : Database A R)
      → IsCoherent eng s
      → comparable history txn ≡ true
      → storable (build_feature_row (compute_features history txn) txn) ≡ true
      → (r : ScoringResult A) × (score_transaction eng s (some history) started ended txn ≡ some r)
        × IsRecorded txn r db
            (score_endpoint eng s storable (some history) started ended first second txn db).1
  unfolding score_endpoint
  score_endpoint-IsRecorded s storable history started ended first second txn db h k stored =
      let (r, found, good) = score_transaction_total eng s history started ended txn k in
      let (name, version) =
        named-IsAnsweredBy eng s r (model_answer eng s r.feature_row) h
          (is_some-model_answer eng s r.feature_row) good.answered in
      let row : storable r.feature_row ≡ true = ap storable good.row ∙ stored in
      (
        r,
        found,
        subst (IsRecorded txn r db) (sym (rw (found, score_endpoint, row) refl))
            (named_score-IsRecorded first second txn r db name version),
      )

  -- where the features raise, nothing is stored and the answer is a status of 500
  score_endpoint-incomparable :
      (s : ModelState A M E) (storable : Row A → Bool) (history : List (Transaction A))
      (started ended : A) (first second : Stamp) (txn : Transaction A) (db : Database A R)
      → comparable history txn ≡ false
      → score_endpoint eng s storable (some history) started ended first second txn db
        ≡ (err internal_error, db)
  unfolding score_endpoint
  score_endpoint-incomparable s storable history started ended first second txn db h =
      rw (score_transaction-incomparable eng s history started ended txn h, score_endpoint) refl
