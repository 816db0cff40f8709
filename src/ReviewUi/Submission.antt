-- ===== src/ReviewUi/Submission.antt =====
-- A reviewer's way through the page.
use realtime_fraud_detection.Common.{
  ℕ, ◌≡◌, ◌<◌, refl, ap, ◌∙◌, String, Bool, true, ◌||◌, Option, some, List, [], ◌∷◌, ◌++◌, ◌≢◌,
  eq_iff, map, arith, any, str_eq, ltb,
}
use realtime_fraud_detection.Common.Result.{ok}
use realtime_fraud_detection.Config.{Settings}
use realtime_fraud_detection.Features.{contains}
use realtime_fraud_detection.Storage.Review.{list_review_cases, get_review_case}
use realtime_fraud_detection.Storage.Review
use realtime_fraud_detection.Storage.Review.Queue.{find-resolve_case}
use realtime_fraud_detection.Storage.Tables.{
  Database, ReviewCaseRecord, AnalystFeedbackRecord, Stamp,
}
use realtime_fraud_detection.Api.Auth.{
  Jwt, IsJwt, TokenResponse, TokenPayload, check_role, issue_token,
}
use realtime_fraud_detection.Api.Auth.Tokens.{check_role-issue_token}
use realtime_fraud_detection.Api.Review.{
  FeedbackRequest, feedback_ok, feedback_on, review_case, review_roles, submit_feedback_endpoint,
  list_review_queue,
}
use realtime_fraud_detection.ReviewUi.{
  up, Session, logged_out, response, served, login, submit_feedback, fetch_queue, log_in,
  send_feedback, act, act_all,
}

any-map {ℓ κ} :
    {X : Type ℓ} {Y : Type κ} (p : Y → Bool) (g : X → Y) (l : List X)
    → any p (map g l) ≡ any (λ x. p (g x)) l
unfolding any
any-map p g [] = refl
any-map p g (x ∷ l) = ap (λ b. p (g x) || b) (any-map p g l)

listed_lem :
    {A : Type 0} (iso : ℕ → String) (case_id : String) (cases : List (ReviewCaseRecord A))
    → any (λ c. str_eq c.id case_id) (map (review_case iso) cases)
      ≡ any (λ c. str_eq c.id case_id) cases
unfolding review_case
listed_lem iso case_id cases = any-map (λ c. str_eq c.id case_id) (review_case iso) cases

login_lem :
    {T A : Type 0} (jwt : Jwt T) (settings : Settings A) (username password : String) (now : ℕ)
    (r : TokenResponse T)
    → issue_token jwt settings username password now ≡ ok r
    → login jwt settings up now username password logged_out
      ≡ (true, record { access_token = some r.access_token; role = some r.role })
unfolding login response
login_lem jwt settings username password now r h = rw (h, login, response)

module _ {T A R : Type 0} (jwt : Jwt T) (settings : Settings A) where
  list_review_queue_lem :
      (iso : ℕ → String) (token : TokenPayload) (credentials : Option T) (now : ℕ) (status : String)
      (limit : ℕ) (db : Database A R)
      → check_role jwt settings review_roles credentials now ≡ ok token
      → list_review_queue jwt settings iso credentials now status limit db
        ≡ ok (map (review_case iso) (list_review_cases status limit db))
  unfolding list_review_queue
  list_review_queue_lem iso token credentials now status limit db h = rw (h, list_review_queue)

  submit_feedback_endpoint_lem :
      (problem : String) (stamp : Stamp) (token : TokenPayload) (credentials : Option T) (now : ℕ)
      (case_id : String) (feedback : FeedbackRequest) (db : Database A R)
      (case : ReviewCaseRecord A)
      → check_role jwt settings review_roles credentials now ≡ ok token
      → feedback_ok feedback ≡ true
      → get_review_case case_id db ≡ some case
      → (submit_feedback_endpoint jwt settings problem stamp credentials now case_id feedback db).1
        ≡ (Review.submit_feedback stamp case_id case.transaction_id feedback.analyst_id
            feedback.label feedback.notes db).0
  unfolding submit_feedback_endpoint feedback_on
  submit_feedback_endpoint_lem problem stamp token credentials now case_id feedback db case h valid
        there =
      rw (h, valid, submit_feedback_endpoint, there, feedback_on)

  -- the form, with a token that is a reviewer's
  send_feedback_lem :
      (iso : ℕ → String) (token : T) (payload : TokenPayload) (role : Option String) (now : ℕ)
      (status : String) (limit : ℕ) (case_id : String) (feedback : FeedbackRequest)
      (problem : String) (stamp : Stamp) (db : Database A R) (case : ReviewCaseRecord A)
      → check_role jwt settings review_roles (some token) now ≡ ok payload
      → any (λ c. str_eq c.id case_id) (list_review_cases status limit db) ≡ true
      → get_review_case case_id db ≡ some case
      → feedback_ok feedback ≡ true
      → let session : Session T = record { access_token = some token; role = role } in
        act jwt settings iso up now
          (send_feedback up status limit case_id feedback problem stamp)
          (session, db)
        ≡ (
          session,
          (Review.submit_feedback stamp case_id case.transaction_id feedback.analyst_id
              feedback.label feedback.notes db).0,
        )
  unfolding act fetch_queue response submit_feedback served
  send_feedback_lem iso token payload role now status limit case_id feedback problem stamp db case
        allowed shown there valid =
      let queue = list_review_queue_lem iso payload (some token) now status limit db allowed in
      let listed = listed_lem iso case_id (list_review_cases status limit db) ∙ shown in
      let session : Session T = record { access_token = some token; role = role } in
      let fetched : fetch_queue jwt settings iso up now status limit session db
          ≡ some (map (review_case iso) (list_review_cases status limit db)) =
        rw (queue, fetch_queue, response) in
      rw (fetched, listed, act)
        (ap (λ (d : Database A R). (session, d))
          (submit_feedback_endpoint_lem problem stamp payload (some token) now case_id feedback db
            case allowed valid there))

  act-log_in :
      (iso : ℕ → String) (username password : String) (now : ℕ) (r : TokenResponse T)
      (db : Database A R)
      → issue_token jwt settings username password now ≡ ok r
      → act jwt settings iso up now (log_in username password) (logged_out, db)
        ≡ (record { access_token = some r.access_token; role = some r.role }, db)
  unfolding act
  act-log_in iso username password now r db h =
      ap (λ (p : Bool × Session T). (p.1, db)) (login_lem jwt settings username password now r h)

-- the row of a feedback
abbrev pub answer : Stamp → String → String → FeedbackRequest → AnalystFeedbackRecord
answer stamp case_id transaction_id feedback = record {
  id = stamp.id;
  case_id = case_id;
  transaction_id = transaction_id;
  analyst_id = feedback.analyst_id;
  label = feedback.label;
  notes = feedback.notes;
  created_at = stamp.now;
}

module _ {A R : Type 0} where
  -- what the feedback on a case leaves
  pub record IsResolvedBy (stamp : Stamp) (case_id : String) (feedback : FeedbackRequest)
      (case : ReviewCaseRecord A) (db db1 : Database A R) : Type 0 where
    pub resolved :
        get_review_case case_id db1
        ≡ some (record case {
          status = "resolved";
          assigned_analyst = some feedback.analyst_id;
          resolved_at = some stamp.now;
        })
    pub answered :
        db1.analyst_feedback
        ≡ db.analyst_feedback ++ answer stamp case_id case.transaction_id feedback ∷ []
    pub others :
        (other : String) → other ≢ case_id → get_review_case other db1 ≡ get_review_case other db

  submit_feedback-IsResolvedBy :
      (stamp : Stamp) (case_id : String) (feedback : FeedbackRequest) (case : ReviewCaseRecord A)
      (db : Database A R)
      → get_review_case case_id db ≡ some case
      → IsResolvedBy stamp case_id feedback case db
          (Review.submit_feedback stamp case_id case.transaction_id feedback.analyst_id
            feedback.label feedback.notes db).0
  unfolding Review.submit_feedback get_review_case
  submit_feedback-IsResolvedBy stamp case_id feedback case db there = record {
    resolved = ground (
      arith,
      there,
      find-resolve_case case_id case_id feedback.analyst_id stamp.now db.review_cases,
      eq_iff case_id case_id,
    );
    answered = refl;
    others = λ other apart. ground (
      arith,
      find-resolve_case case_id other feedback.analyst_id stamp.now db.review_cases,
      eq_iff case_id other,
      apart,
    );
  }

module _ {T A R : Type 0} (jwt : Jwt T) (laws : IsJwt jwt) (settings : Settings A) where
  -- A reviewer who logs in and, before the token expires, sends valid feedback on a case of the queue that the page
  -- shows, resolves that case: the case is found resolved, by this analyst and at this time, the feedback has one row
  -- more, with the case's transaction, the label and the notes, and every other case is as before.
  pub act_all-reviewer :
      (iso : ℕ → String) (username password : String) (now later : ℕ) (r : TokenResponse T)
      (status : String) (limit : ℕ) (case_id : String) (feedback : FeedbackRequest)
      (problem : String) (stamp : Stamp) (db : Database A R) (case : ReviewCaseRecord A)
      → issue_token jwt settings username password now ≡ ok r
      → contains r.role review_roles ≡ true
      → later < r.expires_at
      → any (λ c. str_eq c.id case_id) (list_review_cases status limit db) ≡ true
      → get_review_case case_id db ≡ some case
      → feedback_ok feedback ≡ true
      → (db1 : Database A R) × (act_all jwt settings iso
            ((up, now, log_in username password)
              ∷ (up, later, send_feedback up status limit case_id feedback problem stamp)
              ∷ [])
            (logged_out, db)
          ≡ (record { access_token = some r.access_token; role = some r.role }, db1))
        × IsResolvedBy stamp case_id feedback case db db1
  unfolding act_all
  act_all-reviewer iso username password now later r status limit case_id feedback problem stamp db
        case issued reviewer early shown there valid =
      let access =
        check_role-issue_token jwt settings laws username password now later review_roles r
          issued in
      let token : TokenPayload = record {
        subject = username;
        role = r.role;
        expires_at = r.expires_at;
      } in
      let fresh : ltb later r.expires_at ≡ true = ground arith in
      (
        _,
        rw (act-log_in jwt settings iso username password now r db issued) (
            send_feedback_lem jwt settings iso r.access_token token (some r.role) later status limit
              case_id feedback problem stamp db case (access.checked ∙ rw (fresh, reviewer)) shown
              there valid),
        submit_feedback-IsResolvedBy stamp case_id feedback case db there,
      )
