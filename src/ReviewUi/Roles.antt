-- ===== src/ReviewUi/Roles.antt =====
-- Whose sessions may change what.
use realtime_fraud_detection.Common.{
  ℕ, ◌≡◌, refl, ◌∙◌, String, false, some, List, [], ◌∷◌, All, inl, inr, Bool-cases, Option-cases,
  any, str_eq, ltb,
}
use realtime_fraud_detection.Common.Result.{ok, err, Result-cases}
use realtime_fraud_detection.Config.{Settings}
use realtime_fraud_detection.Features.{contains}
use realtime_fraud_detection.Http.{HttpException}
use realtime_fraud_detection.Storage.Tables.{Database, Stamp}
use realtime_fraud_detection.Api.Auth.{
  Jwt, IsJwt, TokenResponse, authenticate_demo_user, check_role, get_current_token, issue_token,
  unauthorized, forbidden,
}
use realtime_fraud_detection.Api.Auth.Tokens.{check_role-issue_token}
use realtime_fraud_detection.Api.Review.{FeedbackRequest, review_roles, submit_feedback_endpoint}
use realtime_fraud_detection.ReviewUi.{
  Link, up, lost_request, lost_response, Session, logged_out, response, served, login,
  submit_feedback, fetch_queue, Action, log_in, log_out, send_feedback, act, act_all,
}

module _ {T A : Type 0} (jwt : Jwt T) (settings : Settings A) where
  -- no endpoint of a reviewer takes the session's token, at any time
  abbrev pub IsBarred : Session T → Type 0
  IsBarred session =
      (now : ℕ)
      → (e : HttpException) × (check_role jwt settings review_roles session.access_token now
          ≡ err e)

  -- the name and password of an action, if it is a login, are not those of a reviewer
  abbrev pub IsOutsider : Action → Type 0
  IsOutsider (log_in username password) =
      (role : String)
      → authenticate_demo_user username password ≡ ok role
      → contains role review_roles ≡ false
  IsOutsider log_out = Unit
  IsOutsider (send_feedback queue_link status limit case_id feedback problem stamp) = Unit

  logged_out-IsBarred : IsBarred logged_out
  unfolding check_role get_current_token
  logged_out-IsBarred now = (unauthorized "Missing bearer token", refl)

  module _ (laws : IsJwt jwt) where
    -- the token of a user who is no reviewer
    issued-IsBarred :
        (username password : String) (now : ℕ) (r : TokenResponse T)
        → issue_token jwt settings username password now ≡ ok r
        → ((role : String)
            → authenticate_demo_user username password ≡ ok role
            → contains role review_roles ≡ false)
        → IsBarred (record { access_token = some r.access_token; role = some r.role })
    issued-IsBarred username password now r issued outside later =
        let access =
          check_role-issue_token jwt settings laws username password now later review_roles r
            issued in
        let other = outside r.role access.authentic in
        elim (Bool-cases (ltb later r.expires_at)) [
          | inl valid ↦ (forbidden r.role review_roles, access.checked ∙ rw (valid, other))
          | inr expired ↦ (unauthorized "Token expired", access.checked ∙ rw expired)
        ]

    login-IsBarred :
        (link : Link) (now : ℕ) (username password : String) (session : Session T)
        → ((role : String)
            → authenticate_demo_user username password ≡ ok role
            → contains role review_roles ≡ false)
        → IsBarred session
        → IsBarred (login jwt settings link now username password session).1
    unfolding login response
    login-IsBarred lost_request now username password session outside h = h
    login-IsBarred lost_response now username password session outside h = h
    login-IsBarred up now username password session outside h =
        elim (Result-cases (issue_token jwt settings username password now)) [
          | inr (e, refused) ↦ rw (refused, login, response) h
          | inl (r, issued) ↦
              rw (issued, login, response) (issued-IsBarred username password now r issued outside)
        ]

-- nothing was served, or it changed nothing
served_same : {X : Type 0} (link : Link) (x : X) → served link x x ≡ x
unfolding served
served_same up x = refl
served_same lost_request x = refl
served_same lost_response x = refl

module _ {T A R : Type 0} (jwt : Jwt T) (laws : IsJwt jwt) (settings : Settings A) where
  submit_feedback-unchanged :
      (link : Link) (problem : String) (stamp : Stamp) (now : ℕ) (case_id : String)
      (feedback : FeedbackRequest) (session : Session T) (db : Database A R)
      → IsBarred jwt settings session
      → (submit_feedback jwt settings link problem stamp now case_id feedback session db).1 ≡ db
  unfolding submit_feedback submit_feedback_endpoint
  submit_feedback-unchanged link problem stamp now case_id feedback session db h =
      let (e, barred) = h now in
      let refused : submit_feedback_endpoint jwt settings problem stamp session.access_token now
            case_id feedback db
          ≡ (err e, db) =
        rw (barred, submit_feedback_endpoint) in
      rw (refused, submit_feedback) (served_same link db)

  -- an action of an outsider in a session that is barred
  act-IsBarred :
      (iso : ℕ → String) (link : Link) (now : ℕ) (action : Action) (session : Session T)
      (db : Database A R)
      → IsOutsider jwt settings action
      → IsBarred jwt settings session
      → IsBarred jwt settings (act jwt settings iso link now action (session, db)).0
        × ((act jwt settings iso link now action (session, db)).1 ≡ db)
  unfolding act
  act-IsBarred iso link now (log_in username password) session db outside h =
      elim (Option-cases session.access_token) [
        | inl without ↦
            rw (without, act)
              (login-IsBarred jwt settings laws link now username password session outside h, refl)
        | inr (token, there) ↦ rw (there, act) (h, refl)
      ]
  act-IsBarred iso link now log_out session db outside h = (logged_out-IsBarred jwt settings, refl)
  act-IsBarred iso link now (send_feedback queue_link status limit case_id feedback problem stamp)
        session db outside h =
      elim (Option-cases session.access_token) [
        | inl without ↦ rw (without, act) (h, refl)
        | inr (token, there) ↦
            elim (Option-cases
              (fetch_queue jwt settings iso queue_link now status limit session db)) [
                | inl failed ↦ rw (there, failed, act) (h, refl)
                | inr (cases, fetched) ↦ elim (Bool-cases (any (λ c. str_eq c.id case_id) cases)) [
                  | inr missing ↦ rw (there, fetched, missing, act) (h, refl)
                  | inl found ↦
                      rw (there, fetched, found, act)
                        (
                          h,
                          submit_feedback-unchanged link problem stamp now case_id feedback session
                              db h,
                        )
                ]
              ]
      ]

  act_all-barred :
      (iso : ℕ → String) (actions : List (Link × ℕ × Action)) (session : Session T)
      (db : Database A R)
      → All (λ (a : Link × ℕ × Action). IsOutsider jwt settings a.2) actions
      → IsBarred jwt settings session
      → (act_all jwt settings iso actions (session, db)).1 ≡ db
  unfolding act_all
  act_all-barred iso [] session db outside h = refl
  act_all-barred iso ((link, now, action) ∷ actions) session db outside h =
      let next = act jwt settings iso link now action (session, db) in
      let (barred, same) = act-IsBarred iso link now action session db outside.0 h in
      act_all-barred iso actions next.0 next.1 outside.1 barred ∙ same

  -- Whoever uses the page without a reviewer's name and password changes nothing in the database, whatever they do, in
  -- whatever order and at whatever times, and wherever the connection fails.
  pub act_all-outsider :
      (iso : ℕ → String) (actions : List (Link × ℕ × Action)) (db : Database A R)
      → All (λ (a : Link × ℕ × Action). IsOutsider jwt settings a.2) actions
      → (act_all jwt settings iso actions (logged_out, db)).1 ≡ db
  act_all-outsider iso actions db outside =
      act_all-barred iso actions logged_out db outside (logged_out-IsBarred jwt settings)
