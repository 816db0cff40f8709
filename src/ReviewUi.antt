-- ===== src/ReviewUi.antt =====
-- streamlit_app/review_ui.py: the analysts' client of the service. What it keeps of a session is the token and
-- the role, and every call of it is one of the service's endpoints, over a connection that may fail before or
-- after the service has answered. Widgets, pages and the cache of Streamlit are left out.
pub mod Roles
pub mod Submission
use realtime_fraud_detection.Common.{
  ℕ, String, Bool, true, false, Option, none, some, List, [], ◌∷◌, any, str_eq, ◌==◌, if◌then◌else◌,
}
use realtime_fraud_detection.Common.Floating.{Floating}
use realtime_fraud_detection.Common.Result.{Result, ok, err}
use realtime_fraud_detection.Config.{Settings}
use realtime_fraud_detection.Http.{HttpException}
use realtime_fraud_detection.Schemas.{Transaction}
use realtime_fraud_detection.Storage.Tables.{Database, Stamp}
use realtime_fraud_detection.Api.Auth.{Jwt, issue_token}
use realtime_fraud_detection.Api.Review.{
  ReviewCase, FeedbackRequest, FeedbackResponse, list_review_queue, submit_feedback_endpoint,
  get_transaction_endpoint,
}

pub data Link : Type 0 where
  up lost_request lost_response : Link

pub record Session (T : Type 0) : Type 0 where
  pub access_token : Option T
  pub role : Option String

abbrev pub logged_out : {T : Type 0} → Session T
logged_out = record { access_token = none; role = none }

-- `resp.raise_for_status()` and `resp.json()`: `none` is a `RequestException`
unfoldable pub response : {X : Type 0} → Link → Result HttpException X → Option X
response up (ok x) = some x
response up (err e) = none
response lost_request r = none
response lost_response r = none

-- what the service did of a request
unfoldable pub served : {X : Type 0} → Link → X → X → X
served lost_request before after = before
served up before after = after
served lost_response before after = after

-- the credentials of `_auth_headers()`
abbrev pub auth_headers : {T : Type 0} → Session T → Option T
auth_headers session = session.access_token

abbrev pub is_some_response : {X : Type 0} → Option X → Bool
is_some_response none = false
is_some_response (some x) = true

module _ {T A : Type 0} (jwt : Jwt T) (settings : Settings A) where
  unfoldable pub login : Link → ℕ → String → String → Session T → Bool × Session T
  unfolding response
  login link now username password session =
      elim (response link (issue_token jwt settings username password now)) [
        | none ↦ (false, session)
        | some body ↦
            (true, record { access_token = some body.access_token; role = some body.role })
      ]

module _ {T A R : Type 0} (jwt : Jwt T) (settings : Settings A) where
  unfoldable pub fetch_queue :
      (ℕ → String) → Link → ℕ → String → ℕ → Session T → Database A R → Option (List (ReviewCase A))
  unfolding response
  fetch_queue iso link now status limit session db =
      response link (list_review_queue jwt settings iso (auth_headers session) now status limit db)

  unfoldable pub submit_feedback :
      Link
      → String
      → Stamp
      → ℕ
      → String
      → FeedbackRequest
      → Session T
      → Database A R
      → Bool × Database A R
  unfolding response served
  submit_feedback link problem stamp now case_id feedback session db =
      let (answer, db1) =
        submit_feedback_endpoint jwt settings problem stamp (auth_headers session) now case_id
          feedback db in
      (is_some_response (response link answer), served link db db1)

-- a missing transaction is no error: `some none`
unfoldable pub fetch_transaction :
    {A R : Type 0} ⦃f : Floating A⦄
    → (String → String)
    → Link
    → String
    → Database A R
    → Option (Option (Transaction A))
fetch_transaction upper up transaction_id db =
    elim (get_transaction_endpoint upper transaction_id db) [
      | ok txn ↦ some (some txn)
      | err e ↦ if e.status_code == 404 then some none else none
    ]
fetch_transaction upper lost_request transaction_id db = none
fetch_transaction upper lost_response transaction_id db = none

-- what an analyst does at the page
pub data Action : Type 0 where
  log_in : String → String → Action
  log_out : Action
  -- the connection of the queue's request, the filters, the case, and the feedback with the text of pydantic's
  -- error and the stamp of its row
  send_feedback : Link → String → ℕ → String → FeedbackRequest → String → Stamp → Action

module _ {T A R : Type 0} (jwt : Jwt T) (settings : Settings A) where
  -- an action on a page, with its time and the state of the connection. The login is shown only to a session
  -- without a token. The form for feedback is shown only to one with a token, where the queue was fetched, and
  -- takes a case of it.
  unfoldable pub act :
      (ℕ → String) → Link → ℕ → Action → Session T × Database A R → Session T × Database A R
  unfolding login submit_feedback fetch_queue
  act iso link now (log_in username password) (session, db) = elim session.access_token [
    | none ↦ ((login jwt settings link now username password session).1, db)
    | some token ↦ (session, db)
  ]
  act iso link now log_out (session, db) = (logged_out, db)
  act iso link now (send_feedback queue_link status limit case_id feedback problem stamp)
        (session, db) =
      elim session.access_token [
        | none ↦ (session, db)
        | some token ↦ elim (fetch_queue jwt settings iso queue_link now status limit session db) [
          | none ↦ (session, db)
          | some cases ↦
              if any (λ c. str_eq c.id case_id) cases
              then (
                session,
                (submit_feedback jwt settings link problem stamp now case_id feedback session db).1,
              )
              else (session, db)
        ]
      ]

  unfoldable pub act_all :
      (ℕ → String) → List (Link × ℕ × Action) → Session T × Database A R → Session T × Database A R
  unfolding act
  act_all iso [] s = s
  act_all iso ((link, now, action) ∷ actions) s = act_all iso actions (act iso link now action s)
