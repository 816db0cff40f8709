-- ===== src/Tests/Trail.antt =====
-- A run of three writes: an approval, an answer to a case, and an entry in the log.
use realtime_fraud_detection.Common.{ℕ, ◌≡◌, refl, true, none, some, [], ◌∷◌, any}
use realtime_fraud_detection.Common.Floating.{Micros, micros_floating, lit}
use realtime_fraud_detection.Scoring.Decision.{high}
use realtime_fraud_detection.Storage.Tables.{
  Database, Stamp, ModelApprovalRecord, ReviewCaseRecord, TransactionRecord, empty_database,
}
use realtime_fraud_detection.Storage.Transactions.{write_audit_log, persist_transactions}
use realtime_fraud_detection.Storage.Review.{submit_feedback}
use realtime_fraud_detection.Storage.Governance.{has_approval}
use realtime_fraud_detection.Storage.Trail.{Run, Write, has_approval-Run}
use realtime_fraud_detection.Tests.{first, second}

abbrev stamp : Stamp
stamp = record { id = "s"; now = 30 }

abbrev approval : ModelApprovalRecord Micros
approval = record {
  id = "a";
  model_name = "fraud_xgboost";
  model_version = "1";
  from_stage = "Staging";
  to_stage = "Production";
  approved_by = "ann";
  notes = none;
  metrics_snapshot = none;
  created_at = 1;
}

abbrev resolved_case : ReviewCaseRecord Micros
resolved_case = record {
  id = "case1";
  prediction_id = "p1";
  transaction_id = "t1";
  fraud_score = lit 87 2;
  risk_level = high;
  reason = "r";
  status = "resolved";
  assigned_analyst = some "ann";
  created_at = 11;
  resolved_at = some 12;
}

abbrev stored_first : TransactionRecord Micros
stored_first = record { txn = first; ingested_at = 5 }

abbrev start : Database Micros ℕ
start = record empty_database {
  transactions = stored_first ∷ [];
  review_cases = resolved_case ∷ [];
  model_approvals = approval ∷ [];
}

abbrev answered_again : Database Micros ℕ
answered_again = (submit_feedback stamp "case1" "t1" "bob" "false_positive" none start).0

abbrev end : Database Micros ℕ
end =
    write_audit_log stamp "e" "m" none "info"
      (persist_transactions 31 (first ∷ second ∷ []) answered_again).0

abbrev run : Run start end
run = Run.next (Write.answered {db = start} stamp "case1" "t1" "bob" "false_positive" none) (
    Run.next (Write.persisted {db = answered_again} 31 (first ∷ second ∷ []))
      (Run.next (Write.logged stamp "e" "m" none "info") Run.done))

approved_at_start : has_approval "fraud_xgboost" "1" "Production" start ≡ true
unfolding has_approval any
approved_at_start = refl

has_approval-Run_example : has_approval "fraud_xgboost" "1" "Production" end ≡ true
has_approval-Run_example = has_approval-Run run "fraud_xgboost" "1" "Production" approved_at_start
