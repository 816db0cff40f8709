-- ===== src/Tests/Endpoints.antt =====
-- The endpoints behind roles at concrete requests. A token is its claims with its key and algorithm.
use realtime_fraud_detection.Common.{
  ℕ, String, ◌≡◌, ◌⊎◌, refl, ◌&&◌, none, some, List, [], ◌∷◌, ltb, str_eq, eq_refl, if◌then◌else◌,
}
use realtime_fraud_detection.Common.Dict.{get}
use realtime_fraud_detection.Common.Floating.{Micros, micros_floating, Micros-IsOrdered, lit}
use realtime_fraud_detection.Common.Result.{Result, ok, err}
use realtime_fraud_detection.Http.{HttpException}
use realtime_fraud_detection.Schemas.{validate}
use realtime_fraud_detection.Storage.Tables.{Database, Stamp, empty_database}
use realtime_fraud_detection.Storage.Transactions.{get_transaction}
use realtime_fraud_detection.Api.Auth.{
  Claims, Jwt, IsJwt, JwtError, expired_signature, invalid_token, TokenResponse, issue_token,
  authenticate_demo_user, create_access_token, token_response,
}
use realtime_fraud_detection.Api.Auth.Tokens.{IsAccess, check_role-issue_token}
use realtime_fraud_detection.Api.Review.{FeedbackRequest, submit_feedback_endpoint}
use realtime_fraud_detection.Api.Review.Guarded.{IsAnswered, submit_feedback_endpoint-IsAnswered}
use realtime_fraud_detection.Api.Explain.{FeatureContribution, top_contributions}
use realtime_fraud_detection.Api.Explain.Top.{IsTop, top_contributions-IsTop}
use realtime_fraud_detection.Tests.{settings, first}

abbrev pub Token : Type 0
Token = Claims × String × String

abbrev expires : Claims → ℕ → Result JwtError Claims
expires claims now = elim claims.exp [
  | none ↦ ok claims
  | some exp ↦ if ltb now exp then ok claims else err expired_signature
]

abbrev pub jwt : Jwt Token
jwt = record {
  encode = λ claims key algorithm. (claims, key, algorithm);
  decode = λ token key algorithm now.
      if str_eq token.1 key && str_eq token.2 algorithm
      then expires token.0 now
      else err invalid_token;
}

pub jwt-IsJwt : IsJwt jwt
jwt-IsJwt = record {
  decode-encode = λ subject role exp key algorithm now. rw (eq_refl key, eq_refl algorithm) refl;
}

abbrev pub response : TokenResponse Token
response = token_response "analyst" (create_access_token jwt settings "analyst1" "analyst" 1000)

pub issued : issue_token jwt settings "analyst1" "analyst-demo-pass" 1000 ≡ ok response
unfolding issue_token authenticate_demo_user get
issued = refl

check_role-issue_token_example :
    IsAccess jwt settings "analyst1" "analyst-demo-pass" 1000 2000 ("admin" ∷ []) response
check_role-issue_token_example =
    check_role-issue_token jwt settings jwt-IsJwt "analyst1" "analyst-demo-pass" 1000 2000
      ("admin" ∷ []) response issued

abbrev db : Database Micros ℕ
db = empty_database

abbrev pub stamp : Stamp
stamp = record { id = "f1"; now = 30 }

abbrev pub feedback : FeedbackRequest
feedback = record { analyst_id = "analyst1"; label = "confirmed_fraud"; notes = none }

submit_feedback_endpoint-IsAnswered_example :
    let answer =
      submit_feedback_endpoint jwt settings "" stamp
        (some response.access_token)
        2000
        "case1"
        feedback
        db in
    (IsAnswered jwt settings (some response.access_token) 2000 stamp "case1" feedback db answer)
    ⊎ ((e : HttpException) × (answer ≡ (err e, db)))
submit_feedback_endpoint-IsAnswered_example =
    submit_feedback_endpoint-IsAnswered jwt settings "" stamp (some response.access_token) 2000
      "case1" feedback db

first-settled : validate (λ s. s) first ≡ some first
unfolding validate
first-settled = refl

first-fresh : get_transaction first.transaction_id db ≡ none
unfolding get_transaction
first-fresh = refl

abbrev contribution : String → Micros → FeatureContribution Micros
contribution name x = record { feature = name; value = lit 1 0; contribution = x }

abbrev contributions : List (FeatureContribution Micros)
contributions =
    contribution "amount" (lit 1 1)
    ∷ contribution "velocity_5min" (lit 3 1)
    ∷ contribution "hour_of_day" (lit 2 1)
    ∷ []

top_contributions-IsTop_example :
    (rest : List (FeatureContribution Micros)) × IsTop 2 contributions
      (top_contributions 2 contributions)
      rest
top_contributions-IsTop_example =
    top_contributions-IsTop Micros-IsOrdered 2 contributions (refl, (refl, (refl, tt)))
