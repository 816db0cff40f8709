-- ===== src/Api/Auth/Tokens.antt =====
-- What an issued token opens, for how long, and to whom.
use realtime_fraud_detection.Common.{
  ℕ, ◌+◌, ◌*◌, String, ◌≡◌, refl, subst, some, List, ltb, arith, if◌then◌else◌,
}
use realtime_fraud_detection.Common.Result.{ok, err, >>=-eq-ok}
use realtime_fraud_detection.Config.{Settings}
use realtime_fraud_detection.Features.{contains}
use realtime_fraud_detection.Api.Auth.{
  Jwt, IsJwt, TokenResponse, unauthorized, forbidden, authenticate_demo_user, create_access_token,
  token_response, decode_token, get_current_token, require_role, check_role, issue_token,
}

module _ {T A : Type 0} (jwt : Jwt T) (settings : Settings A) where
  -- what the answer to a login opens at a later time, under a list of allowed roles
  pub record IsAccess (username password : String) (now later : ℕ) (allowed : List String)
      (r : TokenResponse T) : Type 0 where
    pub expires : r.expires_at ≡ now + settings.jwt_expiry_minutes * 60
    pub authentic : authenticate_demo_user username password ≡ ok r.role
    pub checked : check_role jwt settings allowed (some r.access_token) later ≡ (
        if ltb later r.expires_at
        then (if contains r.role allowed
            then ok (record { subject = username; role = r.role; expires_at = r.expires_at })
            else err (forbidden r.role allowed))
        else err (unauthorized "Token expired"))

  module _ (laws : IsJwt jwt) where
    -- what a new token is taken for, at any later time
    decode_token-create_access_token :
        (subject role : String) (now later : ℕ)
        → let (token, expires_at) = create_access_token jwt settings subject role now in
          decode_token jwt settings token later ≡ (
            if ltb later expires_at
            then ok (record { subject = subject; role = role; expires_at = expires_at })
            else err (unauthorized "Token expired"))
    unfolding create_access_token decode_token
    decode_token-create_access_token subject role now later =
        let end = now + settings.jwt_expiry_minutes * 60 in
        let e =
          laws.decode-encode subject role end settings.jwt_secret_key settings.jwt_algorithm
            later in
        ground (arith, e)

    check_role-create_access_token :
        (subject role : String) (now later : ℕ) (allowed : List String)
        → let (token, expires_at) = create_access_token jwt settings subject role now in
          check_role jwt settings allowed (some token) later ≡ (
            if ltb later expires_at
            then (if contains role allowed
                then ok (record { subject = subject; role = role; expires_at = expires_at })
                else err (forbidden role allowed))
            else err (unauthorized "Token expired"))
    unfolding check_role get_current_token require_role
    check_role-create_access_token subject role now later allowed =
        ground (arith, decode_token-create_access_token subject role now later)

    -- A token that is issued to a user, for that user's password, opens each endpoint that allows the user's
    -- role until it expires, in the user's name and role; an endpoint that does not allow the role answers
    -- 403; from its expiry on it is answered 401. It expires the configured minutes after it was issued.
    pub check_role-issue_token :
        (username password : String) (now later : ℕ) (allowed : List String) (r : TokenResponse T)
        → issue_token jwt settings username password now ≡ ok r
        → IsAccess username password now later allowed r
    unfolding issue_token create_access_token
    check_role-issue_token username password now later allowed r h =
        let (role, e, k) = >>=-eq-ok (authenticate_demo_user username password) _ r h in
        let issued = create_access_token jwt settings username role now in
        let same : token_response role issued ≡ r = ground (arith, k) in
        subst (IsAccess username password now later allowed) same (record {
          expires = refl;
          authentic = e;
          checked = check_role-create_access_token username role now later allowed;
        })
