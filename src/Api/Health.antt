-- ===== src/Api/Health.antt =====
-- src/api/routes/health.py: the state of the service, and the reload of its model.
use realtime_fraud_detection.Common.{ℕ, String, Bool, not, Option, [], ◌∷◌, if◌then◌else◌}
use realtime_fraud_detection.Common.Result.{Result, ok, err}
use realtime_fraud_detection.Config.{Settings}
use realtime_fraud_detection.Http.{HttpException}
use realtime_fraud_detection.Scoring.Inference.{
  ModelState, LoadedModel, Engine, reload, is_model_available,
}
use realtime_fraud_detection.Api.Auth.{Jwt, check_role}

pub record HealthResponse : Type 0 where
  pub status : String
  pub model_loaded : Bool
  pub model_name : Option String
  pub model_version : Option String
  pub fallback_active : Bool

unfoldable pub health : {A M E : Type 0} → ModelState A M E → HealthResponse
health state = record {
  status = if is_model_available state then "ok" else "degraded";
  model_loaded = is_model_available state;
  model_name = state.model_name;
  model_version = state.model_version;
  fallback_active = not (is_model_available state);
}

-- `found` is what the registry has in Production
unfoldable pub reload_model :
    {T A M E X : Type 0}
    → Jwt T
    → Settings A
    → Engine A M E X
    → Option T
    → ℕ
    → Option (LoadedModel M)
    → ModelState A M E
    → Result HttpException HealthResponse × ModelState A M E
reload_model jwt settings eng credentials now found state =
    elim (check_role jwt settings ("admin" ∷ []) credentials now) [
      | err e ↦ (err e, state)
      | ok token ↦ let (reloaded, _) = reload eng found state in (ok (health reloaded), reloaded)
    ]
