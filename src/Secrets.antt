-- ===== src/Secrets.antt =====
-- src/common/secrets.py: the settings under the secrets of AWS. `blob` is the decoded secret, `none` where
-- fetching it raises.
use realtime_fraud_detection.Common.{String, Option, none, some, or_else}
use realtime_fraud_detection.Common.Dict.{Dict, get}
use realtime_fraud_detection.Config.{Settings}

-- a field whose key is missing keeps its value
unfoldable pub apply_aws_secrets :
    {A : Type 0} → Option (Dict String) → Settings A → Option (Settings A)
apply_aws_secrets none settings = none
apply_aws_secrets (some blob) settings = some (record settings {
  postgres_password = or_else (get "postgres_password" blob) settings.postgres_password;
  redis_auth_token = or_else (get "redis_auth_token" blob) settings.redis_auth_token;
  jwt_secret_key = or_else (get "jwt_secret_key" blob) settings.jwt_secret_key;
})
