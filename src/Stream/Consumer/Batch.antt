-- ===== src/Stream/Consumer/Batch.antt =====
-- A whole micro-batch, with the database.
use realtime_fraud_detection.Common.{
  ℕ, ◌+◌, ◌<◌, ◌≡◌, refl, ap, String, Bool, true, Option, none, List, [], ◌∷◌, length,
  length-append, count, min, All, is_some, arith, leb, Bool-cases, inl, inr,
}
use realtime_fraud_detection.Common.Floating.{Floating}
use realtime_fraud_detection.Config.{Settings}
use realtime_fraud_detection.Schemas.{Transaction}
use realtime_fraud_detection.Storage.Tables.{Database, Stamp}
use realtime_fraud_detection.Storage.Transactions.{
  persist_transactions, get_transaction, write_audit_log,
}
use realtime_fraud_detection.Storage.Transactions.Upsert.{persist_transactions_lem}
use realtime_fraud_detection.Stream.Redis.{Redis, IsRedis}
use realtime_fraud_detection.Stream.Store.{Codec}
use realtime_fraud_detection.Stream.Store.Bounded.{WellKept}
use realtime_fraud_detection.Stream.Consumer.{
  StreamRow, persist_valid, failure_message, record_batch, observe_lag, process_batch,
}
use realtime_fraud_detection.Stream.Consumer.Rows.{IsStable}
use realtime_fraud_detection.Stream.Consumer.Groups.{is_timed}
use realtime_fraud_detection.Stream.Consumer.Digest.{Digest, process_partition_group_lem}

module _ {A R : Type 0} where
  abbrev pub AllStored : Database A R → List (Transaction A) → Type 0
  AllStored db ts = All (λ t. is_some (get_transaction t.transaction_id db) ≡ true) ts

  persist_valid-AllStored :
      (now : ℕ) (v : List (Transaction A)) (db : Database A R)
      → AllStored (persist_valid now v db) v
  persist_valid-AllStored now [] db = tt
  persist_valid-AllStored now (t ∷ ts) db = (persist_transactions_lem now (t ∷ ts) db).0

  persist_valid-audit_logs :
      (now : ℕ) (v : List (Transaction A)) (db : Database A R)
      → (persist_valid now v db).audit_logs ≡ db.audit_logs
  unfolding persist_transactions
  persist_valid-audit_logs now [] db = refl
  persist_valid-audit_logs now (t ∷ ts) db = refl

  record_batch-AllStored :
      (show : ℕ → String) (stamp : Stamp) (batch_id : ℕ) (v : List (Transaction A)) (n : ℕ)
      (db : Database A R)
      → AllStored (record_batch show stamp batch_id v n db) v
  unfolding record_batch get_transaction write_audit_log
  record_batch-AllStored show stamp batch_id v n db = elim (Bool-cases (leb 1 n)) [
    | inl e ↦ rw e (persist_valid-AllStored stamp.now v db)
    | inr e ↦ rw e (persist_valid-AllStored stamp.now v db)
  ]

  length-write_audit_log :
      (stamp : Stamp) (event_type message : String) (id : Option String) (severity : String)
      (db : Database A R)
      → length (write_audit_log stamp event_type message id severity db).audit_logs
        ≡ length db.audit_logs + 1
  unfolding write_audit_log
  length-write_audit_log stamp event_type message id severity db =
      length-append db.audit_logs (_ ∷ [])

  length-record_batch :
      (show : ℕ → String) (stamp : Stamp) (batch_id : ℕ) (v : List (Transaction A)) (n : ℕ)
      (db : Database A R)
      → length (record_batch show stamp batch_id v n db).audit_logs ≡ length db.audit_logs + min 1 n
  unfolding record_batch
  length-record_batch show stamp batch_id v n db = ground (
    arith,
    length-write_audit_log stamp "validation_failure_batch" (failure_message show n batch_id) none
        "warning" (persist_valid stamp.now v db),
    ap length (persist_valid-audit_logs stamp.now v db),
  )

module _ {A S R : Type 0} ⦃f : Floating A⦄ (redis : Redis S) (codec : Codec A)
    (settings : Settings A) (to_bool : String → Option Bool) where
  module _ (laws : IsRedis redis) (lives : 0 < settings.feature_ttl_seconds) where
    -- Where every stored history is one of at most 500 transactions that load back from their texts, the
    -- rows all have a time, and those that are valid give such transactions, a micro-batch does all of its
    -- work: every valid row's transaction is counted once, remembered for its card and found in the
    -- database afterwards, every other row is counted as invalid, the audit log grows by one entry if there
    -- is an invalid row and else not at all, and, leaving aside what the features raise, only the subtraction
    -- of the newest time can raise.
    pub process_batch_lem :
        (show : ℕ → String) (has_zone : ℕ → Bool) (stamp : Stamp) (rows : List (StreamRow A))
        (batch_id : ℕ) (s : S) (db : Database A R)
        → All (IsStable codec to_bool) rows
        → All (λ r. is_timed r ≡ true) rows
        → WellKept redis codec settings s
        → let ((s1, db1), result) =
            process_batch redis codec settings to_bool show has_zone stamp rows batch_id (s, db) in
          (v : List (Transaction A)) × (n : ℕ) × Digest redis codec settings to_bool
            (λ q. count q rows)
            s
            s1
            v
            n
          × AllStored db1 v
          × (length db1.audit_logs ≡ length db.audit_logs + min 1 n)
          × (result ≡ observe_lag has_zone v)
    unfolding process_batch count
    process_batch_lem show has_zone stamp [] batch_id s db stable timed kept = (
      [],
      0,
      record { counted = λ p. refl; refused = refl; kept = λ c h held. held },
      tt,
      omega arith,
      refl,
    )
    process_batch_lem show has_zone stamp (row ∷ rows) batch_id s db stable timed kept =
        let (v, n, e, _, d, _) =
          process_partition_group_lem redis codec settings to_bool laws lives (row ∷ rows) s stable
            timed kept in
        rw (e, process_batch)
          (
            v,
            n,
            d,
            record_batch-AllStored show stamp batch_id v n db,
            length-record_batch show stamp batch_id v n db,
            refl,
          )
