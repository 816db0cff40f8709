-- ===== src/Api/Review/Guarded.antt =====
-- Who can change what through the endpoints.
use realtime_fraud_detection.Common.{
  ℕ, String, ◌≡◌, ◌⊎◌, refl, true, Option, none, some, List, ◌∷◌, arith, Bool-cases, Option-cases,
  inl, inr,
}
use realtime_fraud_detection.Common.Result.{Result, ok, err, Result-cases}
use realtime_fraud_detection.Config.{Settings}
use realtime_fraud_detection.Schemas.{Transaction, validate}
use realtime_fraud_detection.Storage.Tables.{Database, ReviewCaseRecord, Stamp}
use realtime_fraud_detection.Storage.Transactions.{persist_transactions, get_transaction}
use realtime_fraud_detection.Storage.Transactions.Upsert.{get_transaction-persist_first}
use realtime_fraud_detection.Http.{HttpException}
use realtime_fraud_detection.Common.Floating.{Floating}
use realtime_fraud_detection.Storage.Review.{get_review_case, submit_feedback}
use realtime_fraud_detection.Api.Auth.{Jwt, TokenPayload, check_role}
use realtime_fraud_detection.Api.Review.{
  FeedbackRequest, FeedbackResponse, feedback_ok, feedback_on, review_roles,
  submit_feedback_endpoint, get_transaction_endpoint,
}

module _ {T A R : Type 0} (jwt : Jwt T) (settings : Settings A) where
  -- the token of the request is one of a reviewer, its feedback is valid and its case is there; then the
  -- database is that of the feedback, and the answer says so
  pub record IsAnswered (credentials : Option T) (now : ℕ) (stamp : Stamp) (case_id : String)
      (feedback : FeedbackRequest) (db : Database A R)
      (answer : Result HttpException FeedbackResponse × Database A R) : Type 0 where
    pub token : TokenPayload
    pub allowed : check_role jwt settings review_roles credentials now ≡ ok token
    pub valid : feedback_ok feedback ≡ true
    pub case : ReviewCaseRecord A
    pub found : get_review_case case_id db ≡ some case
    pub stored :
        answer.1
        ≡ (submit_feedback stamp case_id case.transaction_id feedback.analyst_id feedback.label
            feedback.notes db).0
    pub accepted :
        answer.0 ≡ ok (record { feedback_id = stamp.id; case_id = case_id; status = "resolved" })

  -- Feedback is stored, for the transaction of its case, only on a case that is there, with one of the
  -- four labels, under a token of an analyst or an administrator; in every other case the answer is an error and
  -- the database stays as it is.
  pub submit_feedback_endpoint-IsAnswered :
      (problem : String) (stamp : Stamp) (credentials : Option T) (now : ℕ) (case_id : String)
      (feedback : FeedbackRequest) (db : Database A R)
      → let answer =
          submit_feedback_endpoint jwt settings problem stamp credentials now case_id feedback db in
        (IsAnswered credentials now stamp case_id feedback db answer)
        ⊎ ((e : HttpException) × (answer ≡ (err e, db)))
  unfolding submit_feedback_endpoint feedback_on submit_feedback
  submit_feedback_endpoint-IsAnswered problem stamp credentials now case_id feedback db =
      elim (Result-cases (check_role jwt settings review_roles credentials now)) [
        | inr (e, r) ↦ rw (r, submit_feedback_endpoint) (inr (e, refl))
        | inl (token, r) ↦ elim (Bool-cases (feedback_ok feedback)) [
          | inr bad ↦ rw (r, bad, submit_feedback_endpoint) (inr (_, refl))
          | inl good ↦ elim (Option-cases (get_review_case case_id db)) [
            | inl missing ↦
                rw (r, good, missing, submit_feedback_endpoint, feedback_on) (inr (_, refl))
            | inr (case, found) ↦
                rw (r, good, found, submit_feedback_endpoint, feedback_on)
                  (inl (record {
                    token = token;
                    allowed = r;
                    valid = good;
                    case = case;
                    found = found;
                    stored = refl;
                    accepted = refl;
                  }))
          ]
        ]
      ]

module _ {A R : Type 0} ⦃f : Floating A⦄ where
  -- A new transaction that validation leaves unchanged comes back as it is: after a batch that begins with it
  -- is stored, its endpoint answers with it, whatever else the batch holds.
  get_transaction_endpoint-persist_transactions :
      (upper : String → String) (now : ℕ) (t : Transaction A) (ts : List (Transaction A))
      (db : Database A R)
      → get_transaction t.transaction_id db ≡ none
      → validate upper t ≡ some t
      → get_transaction_endpoint upper t.transaction_id (persist_transactions now (t ∷ ts) db).0
        ≡ ok t
  unfolding get_transaction_endpoint
  get_transaction_endpoint-persist_transactions upper now t ts db fresh settled =
      ground (arith, get_transaction-persist_first now t ts db fresh, settled)
