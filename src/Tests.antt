-- ===== src/Tests.antt =====
-- Concrete data, and the properties at it. Numbers are `Micros`; the foreign code is instantiated by
-- small functions.
pub mod Scoring
pub mod Nan
pub mod Api
pub mod Trail
pub mod Batch
pub mod Startup
pub mod Storage
pub mod Governance
pub mod Stream
pub mod Endpoints
pub mod Drift
pub mod Training
pub mod Generator
pub mod Pii
pub mod Clients
use realtime_fraud_detection.Common.{ℕ, String, false, none, some, ◌+◌, ◌*◌}
use realtime_fraud_detection.Common.Int.{pos}
use realtime_fraud_detection.Common.Floating.{Micros, micros_floating, lit}
use realtime_fraud_detection.Config.{Settings, default_settings}
use realtime_fraud_detection.Schemas.{Transaction, purchase, online}
use realtime_fraud_detection.Scoring.Inference.{ModelState, Engine, LoadedModel}

abbrev pub settings : Settings Micros
settings = default_settings

-- a purchase of the card, at the given minute
abbrev pub txn_at : String → String → ℕ → Transaction Micros
txn_at id card minute = record {
  transaction_id = id;
  card_id = card;
  user_id = "u1";
  amount = lit 25 0;
  currency = "USD";
  merchant_id = "m1";
  merchant_category = "grocery";
  transaction_type = purchase;
  channel = online;
  latitude = lit 40 0;
  longitude = lit 74 0;
  country = "US";
  device_id = none;
  ip_address = none;
  event_time = 200000000000 + minute * 60000000;
  zone = some (pos 0);
  is_simulated_fraud = false;
}

abbrev pub first : Transaction Micros
first = txn_at "t1" "c1" 100

abbrev pub second : Transaction Micros
second = txn_at "t2" "c1" 103

abbrev pub other_card : Transaction Micros
other_card = txn_at "t3" "c2" 101

-- a model that answers with its own number of hundredths, and one explanation
abbrev pub engine : Engine Micros ℕ ℕ ℕ
engine = record {
  predict_proba = λ m row. some (lit m 2);
  make_explainer = λ m. some m;
  explain = λ e row. e;
  show_int = λ n. "";
}

abbrev pub loaded : LoadedModel ℕ
loaded = record {
  model = 87;
  model_name = "fraud_xgboost";
  model_version = "3";
  stage = "Production";
  flavor = "xgboost";
  run_id = some "run";
}

abbrev pub without_model : ModelState Micros ℕ ℕ
without_model = record {
  settings = settings;
  model = none;
  explainer = none;
  model_name = none;
  model_version = none;
  run_id = none;
}

abbrev pub with_model : ModelState Micros ℕ ℕ
with_model = record {
  settings = settings;
  model = some 87;
  explainer = some 87;
  model_name = some "fraud_xgboost";
  model_version = some "3";
  run_id = some "run";
}
