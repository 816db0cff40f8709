-- ===== src/Storage/Tables.antt =====
-- src/storage/postgres_models.py: the rows. The database is the contents of its tables, each a list in
-- the order of insertion. The defaults `uuid.uuid4()` and `datetime.now()` of a row are arguments of
-- the statement that adds it, as a `Stamp`.
use realtime_fraud_detection.Common.{ℕ, String, Bool, Option, List, []}
use realtime_fraud_detection.Common.Dict.{Dict}
use realtime_fraud_detection.Schemas.{Transaction}
use realtime_fraud_detection.Scoring.Decision.{Decision, RiskLevel}
use realtime_fraud_detection.Scoring.FeatureRow.{Row}
use realtime_fraud_detection.Scoring.Inference.{ModelSource}

pub record Stamp : Type 0 where
  pub id : String
  pub now : ℕ

pub record TransactionRecord (A : Type 0) : Type 0 where
  pub txn : Transaction A
  pub ingested_at : ℕ

pub record AuditLogRecord : Type 0 where
  pub id : String
  pub event_type : String
  pub transaction_id : Option String
  pub severity : String
  pub message : String
  pub created_at : ℕ

pub record PredictionRecord (A : Type 0) : Type 0 where
  pub id : String
  pub transaction_id : String
  pub card_id : String
  pub model_name : String
  pub model_version : String
  pub model_source : ModelSource
  pub input_features : Row A
  pub fraud_score : A
  pub risk_level : RiskLevel
  pub decision : Decision
  pub routed_to_review : Bool
  pub latency_ms : A
  pub created_at : ℕ

pub record ReviewCaseRecord (A : Type 0) : Type 0 where
  pub id : String
  pub prediction_id : String
  pub transaction_id : String
  pub fraud_score : A
  pub risk_level : RiskLevel
  pub reason : String
  pub status : String
  pub assigned_analyst : Option String
  pub created_at : ℕ
  pub resolved_at : Option ℕ

pub record AnalystFeedbackRecord : Type 0 where
  pub id : String
  pub case_id : String
  pub transaction_id : String
  pub analyst_id : String
  pub label : String
  pub notes : Option String
  pub created_at : ℕ

pub record ModelApprovalRecord (A : Type 0) : Type 0 where
  pub id : String
  pub model_name : String
  pub model_version : String
  pub from_stage : String
  pub to_stage : String
  pub approved_by : String
  pub notes : Option String
  pub metrics_snapshot : Option (Dict A)
  pub created_at : ℕ

-- `full_report` is the report's dict, of which the columns that are not here are copies
pub record DriftReportRecord (R : Type 0) : Type 0 where
  pub id : String
  pub model_name : String
  pub reference_window : String
  pub current_window : String
  pub full_report : R
  pub created_at : ℕ

pub record Database (A R : Type 0) : Type 0 where
  pub transactions : List (TransactionRecord A)
  pub audit_logs : List AuditLogRecord
  pub predictions : List (PredictionRecord A)
  pub review_cases : List (ReviewCaseRecord A)
  pub analyst_feedback : List AnalystFeedbackRecord
  pub model_approvals : List (ModelApprovalRecord A)
  pub drift_reports : List (DriftReportRecord R)

abbrev pub empty_database : {A R : Type 0} → Database A R
empty_database = record {
  transactions = [];
  audit_logs = [];
  predictions = [];
  review_cases = [];
  analyst_feedback = [];
  model_approvals = [];
  drift_reports = [];
}
