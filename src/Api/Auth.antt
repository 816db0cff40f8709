-- ===== src/Api/Auth.antt =====
-- src/api/auth.py and src/api/routes/auth.py: tokens and roles. PyJWT is an interface, and `T` its tokens; `now` is
-- `int(time.time())`.
pub mod Tokens
use realtime_fraud_detection.Common.{
  ℕ, ◌+◌, ◌*◌, String, ◌≡◌, Bool, Option, none, some, List, [], ◌∷◌, ltb, str_eq, concat, join, map,
  if◌then◌else◌,
}
use realtime_fraud_detection.Common.Dict.{Dict, get}
use realtime_fraud_detection.Common.Result.{Result, ok, err, ◌>>=◌}
use realtime_fraud_detection.Config.{Settings}
use realtime_fraud_detection.Features.{contains}
use realtime_fraud_detection.Http.{HttpException}

-- the claims that the code writes and reads; a signed token may lack any
pub record Claims : Type 0 where
  pub sub : Option String
  pub role : Option String
  pub exp : Option ℕ

pub data JwtError : Type 0 where
  expired_signature : JwtError
  -- any other `InvalidTokenError`
  invalid_token : JwtError

pub record Jwt (T : Type 0) : Type 0 where
  -- `jwt.encode(payload, key, algorithm)`
  pub encode : Claims → String → String → T
  -- `jwt.decode(token, key, [algorithm])` at a time
  pub decode : T → String → String → ℕ → Result JwtError Claims

-- A token decodes, with the key and the algorithm it was made with, to its claims until it expires.
pub record IsJwt {T : Type 0} (jwt : Jwt T) : Type 0 where
  pub decode-encode :
      (subject role : String) (exp : ℕ) (key algorithm : String) (now : ℕ)
      → let claims : Claims = record { sub = some subject; role = some role; exp = some exp } in
        jwt.decode (jwt.encode claims key algorithm) key algorithm now
        ≡ (if ltb now exp then ok claims else err expired_signature)

pub record TokenPayload : Type 0 where
  pub subject : String
  pub role : String
  pub expires_at : ℕ

pub record DemoUser : Type 0 where
  pub password : String
  pub role : String

abbrev pub demo_users : Dict DemoUser
demo_users =
    ("analyst1", record { password = "analyst-demo-pass"; role = "analyst" })
    ∷ ("admin1", record { password = "admin-demo-pass"; role = "admin" })
    ∷ ("service-account", record { password = "service-demo-pass"; role = "service" })
    ∷ []

abbrev pub unauthorized : String → HttpException
unauthorized detail = record { status_code = 401; detail = detail }

-- the `KeyError` of a claim that is not there
abbrev pub claim {ℓ} : {X : Type ℓ} → Option X → Result HttpException X
claim none = err (record { status_code = 500; detail = "Internal Server Error" })
claim (some x) = ok x

unfoldable pub authenticate_demo_user : String → String → Result HttpException String
authenticate_demo_user username password = elim (get username demo_users) [
  | none ↦ err (unauthorized "Invalid credentials")
  | some user ↦
      if str_eq user.password password
      then ok user.role
      else err (unauthorized "Invalid credentials")
]

-- a tuple of texts without quotation marks, as Python prints it
abbrev pub tuple_text : List String → String
tuple_text [] = "()"
tuple_text (s ∷ []) = concat ("('" ∷ s ∷ "',)" ∷ [])
tuple_text (s ∷ t ∷ ss) = concat ("('" ∷ join "', '" (s ∷ t ∷ ss) ∷ "')" ∷ [])

unfoldable pub forbidden : String → List String → HttpException
forbidden role allowed_roles = record {
  status_code = 403;
  detail =
      concat
        ("Role '" ∷ role ∷ "' is not permitted; requires one of " ∷ tuple_text allowed_roles ∷ []);
}

unfoldable pub require_role : List String → TokenPayload → Result HttpException TokenPayload
require_role allowed_roles token =
    if contains token.role allowed_roles then ok token else err (forbidden token.role allowed_roles)

pub record TokenResponse (T : Type 0) : Type 0 where
  pub access_token : T
  pub token_type : String
  pub role : String
  pub expires_at : ℕ

abbrev pub token_response : {T : Type 0} → String → T × ℕ → TokenResponse T
token_response role (token, expires_at) = record {
  access_token = token;
  token_type = "bearer";
  role = role;
  expires_at = expires_at;
}

module _ {T A : Type 0} (jwt : Jwt T) (settings : Settings A) where
  unfoldable pub create_access_token : String → String → ℕ → T × ℕ
  create_access_token subject role now =
      let expires_at = now + settings.jwt_expiry_minutes * 60 in
      let payload : Claims = record {
        sub = some subject;
        role = some role;
        exp = some expires_at;
      } in
      (jwt.encode payload settings.jwt_secret_key settings.jwt_algorithm, expires_at)

  unfoldable pub decode_token : T → ℕ → Result HttpException TokenPayload
  decode_token token now =
      elim (jwt.decode token settings.jwt_secret_key settings.jwt_algorithm now) [
        | err expired_signature ↦ err (unauthorized "Token expired")
        | err invalid_token ↦ err (unauthorized "Invalid token")
        | ok payload ↦ do
          subject ← claim payload.sub
          role ← claim payload.role
          expires_at ← claim payload.exp
          ok (record { subject = subject; role = role; expires_at = expires_at })
      ]

  -- `credentials` is the token of the `Authorization` header
  unfoldable pub get_current_token : Option T → ℕ → Result HttpException TokenPayload
  get_current_token none now = err (unauthorized "Missing bearer token")
  get_current_token (some token) now = decode_token token now

  -- `Depends(require_role(…))`
  unfoldable pub check_role : List String → Option T → ℕ → Result HttpException TokenPayload
  check_role allowed_roles credentials now =
      get_current_token credentials now >>= require_role allowed_roles

  unfoldable pub issue_token : String → String → ℕ → Result HttpException (TokenResponse T)
  issue_token username password now = do
    role ← authenticate_demo_user username password
    ok (token_response role (create_access_token username role now))
