-- ===== src/Api/Score.antt =====
-- src/api/routes/score.py: a transaction is scored, its prediction is stored, and a case is opened where
-- it is routed to review. An error is a status of 500: a null in a column that must not be null, or a
-- response that its schema refuses, after what was stored before it.
pub mod Records
use realtime_fraud_detection.Common.{
  String, Bool, ◌&&◌, Option, none, some, List, str_eq, if◌then◌else◌,
}
use realtime_fraud_detection.Common.Result.{Result, ok, err}
use realtime_fraud_detection.Common.Floating.{Floating, ◌≤ᶠ◌, lit}
use realtime_fraud_detection.Http.{HttpException}
use realtime_fraud_detection.Schemas.{Transaction}
use realtime_fraud_detection.Scoring.FeatureRow.{Row}
use realtime_fraud_detection.Scoring.Decision.{RiskLevel, Decision}
use realtime_fraud_detection.Scoring.Inference.{
  ModelSource, ModelState, Engine, ScoringResult, score_transaction,
}
use realtime_fraud_detection.Storage.Tables.{Database, Stamp}
use realtime_fraud_detection.Storage.Review.{write_prediction, create_review_case}

pub record ScoreResponse (A : Type 0) : Type 0 where
  pub transaction_id : String
  pub card_id : String
  pub fraud_score : A
  pub risk_level : RiskLevel
  pub decision : Decision
  pub model_source : ModelSource
  pub model_name : String
  pub model_version : String
  pub routed_to_review : Bool
  pub review_case_id : Option String
  pub latency_ms : A
  pub prediction_id : String

abbrev pub internal_error : HttpException
internal_error = record { status_code = 500; detail = "Internal Server Error" }

-- `fallback_reason or routing.reason`
abbrev pub case_reason : Option String → String → String
case_reason none reason = reason
case_reason (some s) reason = if str_eq s "" then reason else s

module _ {A : Type 0} ⦃f : Floating A⦄ where
  -- the schema's bounds of the score
  unfoldable pub score_response :
      String
      → String
      → String
      → Option String
      → Transaction A
      → ScoringResult A
      → Result HttpException (ScoreResponse A)
  score_response name version prediction_id review_case_id txn r =
      let rounded = f.round r.score 6 in
      if lit 0 0 ≤ᶠ rounded && rounded ≤ᶠ lit 1 0
      then ok (record {
        transaction_id = txn.transaction_id;
        card_id = txn.card_id;
        fraud_score = rounded;
        risk_level = r.routing.risk_level;
        decision = r.routing.decision;
        model_source = r.model_source;
        model_name = name;
        model_version = version;
        routed_to_review = r.routing.routed_to_review;
        review_case_id = review_case_id;
        latency_ms = f.round r.latency_ms 3;
        prediction_id = prediction_id;
      })
      else err internal_error

module _ {A R : Type 0} ⦃f : Floating A⦄ where
  unfoldable pub open_case :
      Stamp → String → Transaction A → ScoringResult A → Database A R → Database A R × Option String
  open_case stamp prediction_id txn r db =
      if r.routing.routed_to_review
      then (
        (create_review_case stamp prediction_id txn.transaction_id r.score r.routing.risk_level
            (case_reason r.fallback_reason r.routing.reason) db).0,
        some stamp.id,
      )
      else (db, none)

  -- `first` and `second` are the ids and times of the two rows
  unfoldable pub store_score :
      Stamp
      → Stamp
      → String
      → String
      → Transaction A
      → ScoringResult A
      → Database A R
      → Result HttpException (ScoreResponse A) × Database A R
  unfolding open_case score_response
  store_score first second name version txn r db =
      let (db1, prediction_id) =
        write_prediction first txn.transaction_id txn.card_id name version r.feature_row r.score
          r.routing.risk_level r.routing.decision r.latency_ms r.model_source
          r.routing.routed_to_review db in
      let (db2, review_case_id) = open_case second prediction_id txn r db1 in
      (score_response name version prediction_id review_case_id txn r, db2)

  unfoldable pub named_score :
      Stamp
      → Stamp
      → Transaction A
      → ScoringResult A
      → Database A R
      → Result HttpException (ScoreResponse A) × Database A R
  named_score first second txn r db = elim r.model_name [
    | none ↦ (err internal_error, db)
    | some name ↦ elim r.model_version [
      | none ↦ (err internal_error, db)
      | some version ↦ store_score first second name version txn r db
    ]
  ]

-- `storable` is whether PostgreSQL's JSON takes the row, which it does not with a NaN; the write of the
-- prediction raises otherwise
unfoldable pub score_endpoint :
    {A M E X R : Type 0} ⦃f : Floating A⦄
    → Engine A M E X
    → ModelState A M E
    → (Row A → Bool)
    → Option (List (Transaction A))
    → A
    → A
    → Stamp
    → Stamp
    → Transaction A
    → Database A R
    → Result HttpException (ScoreResponse A) × Database A R
score_endpoint eng state storable history started ended first second txn db =
    elim (score_transaction eng state history started ended txn) [
      | none ↦ (err internal_error, db)
      | some r ↦
          if storable r.feature_row
          then named_score first second txn r db
          else (err internal_error, db)
    ]
