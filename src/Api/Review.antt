-- ===== src/Api/Review.antt =====
-- src/api/routes/review.py and src/api/routes/transactions.py: the review queue, behind its roles, and the
-- lookup of a transaction. `problem` is the text of pydantic's error of a body.
pub mod Guarded
use realtime_fraud_detection.Common.{
  ℕ, String, Bool, true, ◌&&◌, Option, none, some, List, [], ◌∷◌, map, concat, if◌then◌else◌,
}
use realtime_fraud_detection.Common.Floating.{Floating}
use realtime_fraud_detection.Common.Result.{Result, ok, err}
use realtime_fraud_detection.Config.{Settings}
use realtime_fraud_detection.Features.{contains}
use realtime_fraud_detection.Http.{HttpException}
use realtime_fraud_detection.Schemas.{Transaction, fits, fits_option, validate}
use realtime_fraud_detection.Scoring.Decision.{RiskLevel}
use realtime_fraud_detection.Storage.Tables.{Database, ReviewCaseRecord, Stamp}
use realtime_fraud_detection.Storage.Transactions.{get_transaction}
use realtime_fraud_detection.Storage.Review.{list_review_cases, get_review_case, submit_feedback}
use realtime_fraud_detection.Api.Auth.{Jwt, TokenPayload, check_role}

pub record ReviewCase (A : Type 0) : Type 0 where
  pub id : String
  pub prediction_id : String
  pub transaction_id : String
  pub fraud_score : A
  pub risk_level : RiskLevel
  pub reason : String
  pub status : String
  pub assigned_analyst : Option String
  pub created_at : String

pub record FeedbackRequest : Type 0 where
  pub analyst_id : String
  pub label : String
  pub notes : Option String

pub record FeedbackResponse : Type 0 where
  pub feedback_id : String
  pub case_id : String
  pub status : String

abbrev pub feedback_labels : List String
feedback_labels =
    "confirmed_fraud" ∷ "confirmed_legitimate" ∷ "false_positive" ∷ "false_negative" ∷ []

abbrev pub feedback_ok : FeedbackRequest → Bool
feedback_ok feedback =
    fits 1 64 feedback.analyst_id
    && contains feedback.label feedback_labels
    && fits_option 1024 feedback.notes

abbrev pub not_found : String → String → HttpException
not_found what id = record { status_code = 404; detail = concat (what ∷ id ∷ " not found" ∷ []) }

abbrev pub review_roles : List String
review_roles = "analyst" ∷ "admin" ∷ []

-- `iso` is `datetime.isoformat`
unfoldable pub review_case : {A : Type 0} → (ℕ → String) → ReviewCaseRecord A → ReviewCase A
review_case iso r = record {
  id = r.id;
  prediction_id = r.prediction_id;
  transaction_id = r.transaction_id;
  fraud_score = r.fraud_score;
  risk_level = r.risk_level;
  reason = r.reason;
  status = r.status;
  assigned_analyst = r.assigned_analyst;
  created_at = iso r.created_at;
}

module _ {A R : Type 0} where
  unfoldable pub feedback_on :
      Stamp
      → String
      → FeedbackRequest
      → Database A R
      → Result HttpException FeedbackResponse × Database A R
  feedback_on stamp case_id feedback db = elim (get_review_case case_id db) [
    | none ↦ (err (not_found "Review case " case_id), db)
    | some case ↦
        let (db1, feedback_id) =
          submit_feedback stamp case_id case.transaction_id feedback.analyst_id feedback.label
            feedback.notes db in
        (ok (record { feedback_id = feedback_id; case_id = case_id; status = "resolved" }), db1)
  ]

module _ {T A R : Type 0} (jwt : Jwt T) (settings : Settings A) where
  unfoldable pub list_review_queue :
      (ℕ → String)
      → Option T
      → ℕ
      → String
      → ℕ
      → Database A R
      → Result HttpException (List (ReviewCase A))
  list_review_queue iso credentials now status limit db =
      elim (check_role jwt settings review_roles credentials now) [
        | err e ↦ err e
        | ok token ↦ ok (map (review_case iso) (list_review_cases status limit db))
      ]

  unfoldable pub submit_feedback_endpoint :
      String
      → Stamp
      → Option T
      → ℕ
      → String
      → FeedbackRequest
      → Database A R
      → Result HttpException FeedbackResponse × Database A R
  unfolding feedback_on
  submit_feedback_endpoint problem stamp credentials now case_id feedback db =
      elim (check_role jwt settings review_roles credentials now) [
        | err e ↦ (err e, db)
        | ok token ↦
            if feedback_ok feedback
            then feedback_on stamp case_id feedback db
            else (err (record { status_code = 422; detail = problem }), db)
      ]

-- the stored row, which is validated again
unfoldable pub get_transaction_endpoint :
    {A R : Type 0} ⦃f : Floating A⦄
    → (String → String)
    → String
    → Database A R
    → Result HttpException (Transaction A)
get_transaction_endpoint upper transaction_id db = elim (get_transaction transaction_id db) [
  | none ↦ err (not_found "Transaction " transaction_id)
  | some row ↦ elim (validate upper row.txn) [
    | none ↦ err (record { status_code = 500; detail = "Internal Server Error" })
    | some txn ↦ ok txn
  ]
]
