-- ===== src/Http.antt =====
-- FastAPI's `HTTPException`: the status and the detail of an error response.
use realtime_fraud_detection.Common.{ℕ, String}

pub record HttpException : Type 0 where
  pub status_code : ℕ
  pub detail : String
