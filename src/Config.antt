-- ===== src/Config.antt =====
-- src/common/config.py: the settings, with their defaults.
use realtime_fraud_detection.Common.{ℕ, String, Bool, false}
use realtime_fraud_detection.Common.Floating.{Floating, lit}

pub record Settings (A : Type 0) : Type 0 where
  pub kafka_bootstrap_servers : String
  pub kafka_topic_transactions : String
  pub kafka_topic_dlq : String
  pub spark_master_url : String
  pub spark_checkpoint_dir : String
  pub spark_app_name : String
  pub postgres_host : String
  pub postgres_port : ℕ
  pub postgres_db : String
  pub postgres_user : String
  pub postgres_password : String
  pub postgres_sslmode : String
  pub redis_host : String
  pub redis_port : ℕ
  pub redis_db : ℕ
  pub feature_ttl_seconds : ℕ
  pub redis_auth_token : String
  pub redis_use_tls : Bool
  pub producer_tps : ℕ
  pub producer_edge_case_ratio : A
  pub prometheus_port : ℕ
  pub mlflow_tracking_uri : String
  pub mlflow_experiment_name : String
  pub mlflow_xgboost_model_name : String
  pub mlflow_lightgbm_model_name : String
  pub mlflow_active_model_name : String
  pub risk_high_threshold : A
  pub risk_low_threshold : A
  pub review_confidence_band_low : A
  pub review_confidence_band_high : A
  pub fallback_velocity_5min_threshold : ℕ
  pub fallback_amount_zscore_threshold : A
  pub fallback_impossible_travel_speed_kmh : A
  pub api_host : String
  pub api_port : ℕ
  pub pushgateway_url : String
  pub drift_ks_p_value_threshold : A
  pub drift_psi_threshold : A
  pub business_metrics_window_hours : ℕ
  pub enable_automated_promotion : Bool
  pub auto_promotion_min_recall : A
  pub auto_promotion_min_precision : A
  pub auto_promotion_max_fairness_recall_gap : A
  pub jwt_secret_key : String
  pub jwt_algorithm : String
  pub jwt_expiry_minutes : ℕ
  pub use_aws_secrets_manager : Bool
  pub aws_secrets_manager_secret_id : String
  pub aws_region : String

abbrev pub default_settings : {A : Type 0} ⦃f : Floating A⦄ → Settings A
default_settings = record {
  kafka_bootstrap_servers = "localhost:9092";
  kafka_topic_transactions = "transactions.raw";
  kafka_topic_dlq = "transactions.dlq";
  spark_master_url = "local[*]";
  spark_checkpoint_dir = "/tmp/checkpoints/transactions";
  spark_app_name = "fraud-detection-streaming";
  postgres_host = "localhost";
  postgres_port = 5432;
  postgres_db = "fraud_detection";
  postgres_user = "fraud_admin";
  postgres_password = "change_me_in_prod";
  postgres_sslmode = "prefer";
  redis_host = "localhost";
  redis_port = 6379;
  redis_db = 0;
  feature_ttl_seconds = 86400;
  redis_auth_token = "";
  redis_use_tls = false;
  producer_tps = 200;
  producer_edge_case_ratio = lit 5 2;
  prometheus_port = 8000;
  mlflow_tracking_uri = "http://localhost:5001";
  mlflow_experiment_name = "fraud-detection";
  mlflow_xgboost_model_name = "fraud_xgboost";
  mlflow_lightgbm_model_name = "fraud_lightgbm";
  mlflow_active_model_name = "fraud_xgboost";
  risk_high_threshold = lit 80 2;
  risk_low_threshold = lit 20 2;
  review_confidence_band_low = lit 40 2;
  review_confidence_band_high = lit 60 2;
  fallback_velocity_5min_threshold = 10;
  fallback_amount_zscore_threshold = lit 5 0;
  fallback_impossible_travel_speed_kmh = lit 900 0;
  api_host = "0.0.0.0";
  api_port = 8080;
  pushgateway_url = "localhost:9091";
  drift_ks_p_value_threshold = lit 5 2;
  drift_psi_threshold = lit 25 2;
  business_metrics_window_hours = 24;
  enable_automated_promotion = false;
  auto_promotion_min_recall = lit 70 2;
  auto_promotion_min_precision = lit 30 2;
  auto_promotion_max_fairness_recall_gap = lit 15 2;
  jwt_secret_key = "change_me_in_prod_use_secrets_manager";
  jwt_algorithm = "HS256";
  jwt_expiry_minutes = 60;
  use_aws_secrets_manager = false;
  aws_secrets_manager_secret_id = "fraud-detection/prod";
  aws_region = "us-east-1";
}
