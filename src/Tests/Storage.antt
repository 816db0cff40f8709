-- ===== src/Tests/Storage.antt =====
-- The database at concrete data.
use realtime_fraud_detection.Common.{ℕ, ◌≡◌, true, none, [], ◌∷◌}
use realtime_fraud_detection.Common.Floating.{Micros, micros_floating, lit}
use realtime_fraud_detection.Scoring.Decision.{high, block}
use realtime_fraud_detection.Scoring.Inference.{ml}
use realtime_fraud_detection.Storage.Tables.{
  Database, Stamp, ReviewCaseRecord, PredictionRecord, AnalystFeedbackRecord, empty_database,
}
use realtime_fraud_detection.Storage.Transactions.{persist_transactions}
use realtime_fraud_detection.Storage.Transactions.Upsert.{persist_transactions_idem}
use realtime_fraud_detection.Tests.{first, second}

abbrev pub prediction : PredictionRecord Micros
prediction = record {
  id = "p1";
  transaction_id = "t1";
  card_id = "c1";
  model_name = "fraud_xgboost";
  model_version = "3";
  model_source = ml;
  input_features = [];
  fraud_score = lit 87 2;
  risk_level = high;
  decision = block;
  routed_to_review = true;
  latency_ms = lit 5 0;
  created_at = 10;
}

abbrev pub pending_case : ReviewCaseRecord Micros
pending_case = record {
  id = "case1";
  prediction_id = "p1";
  transaction_id = "t1";
  fraud_score = lit 87 2;
  risk_level = high;
  reason = "r";
  status = "pending";
  assigned_analyst = none;
  created_at = 11;
  resolved_at = none;
}

abbrev pub feedback : AnalystFeedbackRecord
feedback = record {
  id = "f1";
  case_id = "case1";
  transaction_id = "t1";
  analyst_id = "a1";
  label = "confirmed_fraud";
  notes = none;
  created_at = 12;
}

abbrev stamp : Stamp
stamp = record { id = "f2"; now = 20 }

-- a prediction, its case and an earlier answer to it
abbrev pub db : Database Micros ℕ
db = record empty_database {
  predictions = prediction ∷ [];
  review_cases = pending_case ∷ [];
  analyst_feedback = feedback ∷ [];
}

-- one transaction stored
abbrev pub stored : Database Micros ℕ
stored = record empty_database { transactions = record { txn = first; ingested_at = 5 } ∷ [] }

persist_transactions_idem_example :
    persist_transactions 9
      (first ∷ second ∷ first ∷ [])
      (persist_transactions 7 (first ∷ second ∷ first ∷ []) stored).0
    ≡ ((persist_transactions 7 (first ∷ second ∷ first ∷ []) stored).0, 0)
persist_transactions_idem_example =
    persist_transactions_idem 7 9 (first ∷ second ∷ first ∷ []) stored
