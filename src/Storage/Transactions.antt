-- ===== src/Storage/Transactions.antt =====
-- src/storage/postgres_client.py: `persist_transactions`, `get_transaction`, `write_audit_log`.
pub mod Upsert
use realtime_fraud_detection.Common.{
  ℕ, ◌+◌, suc, String, Bool, true, false, Option, none, some, List, [], ◌∷◌, ◌++◌, any, is_some,
  str_eq, if◌then◌else◌,
}
use realtime_fraud_detection.Schemas.{Transaction}
use realtime_fraud_detection.Storage.Tables.{Database, TransactionRecord, AuditLogRecord, Stamp}

module _ {A : Type 0} where
  -- `session.get(TransactionRecord, id)`
  unfoldable pub find_transaction :
      String → List (TransactionRecord A) → Option (TransactionRecord A)
  find_transaction id [] = none
  find_transaction id (r ∷ rs) =
      if str_eq r.txn.transaction_id id then some r else find_transaction id rs

  -- one row of `INSERT … ON CONFLICT (transaction_id) DO NOTHING`, with the number inserted
  unfoldable pub insert_new :
      ℕ → Transaction A → List (TransactionRecord A) → List (TransactionRecord A) × ℕ
  insert_new now t table = elim (find_transaction t.transaction_id table) [
    | some r ↦ (table, 0)
    | none ↦ (table ++ record { txn = t; ingested_at = now } ∷ [], 1)
  ]

  unfoldable pub insert_all :
      ℕ → List (Transaction A) → List (TransactionRecord A) → List (TransactionRecord A) × ℕ
  insert_all now [] table = (table, 0)
  insert_all now (t ∷ ts) table =
      let (table1, k) = insert_new now t table in
      let (table2, n) = insert_all now ts table1 in (table2, k + n)

module _ {A R : Type 0} where
  unfoldable pub persist_transactions : ℕ → List (Transaction A) → Database A R → Database A R × ℕ
  unfolding insert_all insert_new
  persist_transactions now ts db =
      let (table, n) = insert_all now ts db.transactions in (record db { transactions = table }, n)

  unfoldable pub get_transaction : String → Database A R → Option (TransactionRecord A)
  unfolding find_transaction
  get_transaction id db = find_transaction id db.transactions

  unfoldable pub write_audit_log :
      Stamp → String → String → Option String → String → Database A R → Database A R
  write_audit_log stamp event_type message transaction_id severity db = record db {
    audit_logs =
        db.audit_logs
        ++ record {
          id = stamp.id;
          event_type = event_type;
          transaction_id = transaction_id;
          severity = severity;
          message = message;
          created_at = stamp.now;
        }
          ∷ [];
  }
