-- ===== src/Storage/Trail.antt =====
-- src/storage/postgres_client.py as a state machine: the runs of its writes, in any order, and what no
-- run takes back.
use realtime_fraud_detection.Common.{
  subst, ℕ, String, ◌≡◌, refl, sym, ap, ◌∙◌, Bool, true, false, Option, none, some, List, [], ◌∷◌,
  ◌++◌, str_eq, eq_refl, arith, if◌then◌else◌,
}
use mathlib.Core.List.{append-nil, append_assoc}
use realtime_fraud_detection.Common.Dict.{Dict}
use realtime_fraud_detection.Schemas.{Transaction}
use realtime_fraud_detection.Scoring.Decision.{RiskLevel, Decision}
use realtime_fraud_detection.Scoring.FeatureRow.{Row}
use realtime_fraud_detection.Scoring.Inference.{ModelSource}
use realtime_fraud_detection.Storage.Governance.Reports.{record_drift_report-frame}
use realtime_fraud_detection.Storage.Tables.{
  Stamp, Database, TransactionRecord, AuditLogRecord, ReviewCaseRecord,
}
use realtime_fraud_detection.Storage.Transactions.{
  persist_transactions, get_transaction, write_audit_log,
}
use realtime_fraud_detection.Storage.Transactions.Upsert.{get_transaction-persist_transactions}
use realtime_fraud_detection.Storage.Review.{
  find_case, write_prediction, create_review_case, submit_feedback, get_review_case,
}
use realtime_fraud_detection.Storage.Review.Queue.{get_review_case-submit_feedback}
use realtime_fraud_detection.Storage.Governance.{
  record_model_approval, record_drift_report, has_approval,
}
use realtime_fraud_detection.Governance.Registry.Gate.{has_approval-record_model_approval}

-- one write of the client
pub data Write {A R : Type 0} : Database A R → Database A R → Type 0 where
  persisted :
      {db : Database A R} (now : ℕ) (ts : List (Transaction A))
      → Write db (persist_transactions now ts db).0
  logged :
      {db : Database A R} (stamp : Stamp) (event_type message : String)
      (transaction_id : Option String) (severity : String)
      → Write db (write_audit_log stamp event_type message transaction_id severity db)
  predicted :
      {db : Database A R} (stamp : Stamp) (transaction_id card_id model_name model_version : String)
      (input_features : Row A) (fraud_score : A) (risk_level : RiskLevel) (decision : Decision)
      (latency_ms : A) (model_source : ModelSource) (routed_to_review : Bool)
      → Write db
          (write_prediction stamp transaction_id card_id model_name model_version input_features
            fraud_score risk_level decision latency_ms model_source routed_to_review db).0
  opened :
      {db : Database A R} (stamp : Stamp) (prediction_id transaction_id : String) (fraud_score : A)
      (risk_level : RiskLevel) (reason : String)
      → Write db
          (create_review_case stamp prediction_id transaction_id fraud_score risk_level reason db).0
  answered :
      {db : Database A R} (stamp : Stamp) (case_id transaction_id analyst_id label : String)
      (notes : Option String)
      → Write db (submit_feedback stamp case_id transaction_id analyst_id label notes db).0
  approved :
      {db : Database A R} (stamp : Stamp) (name version from to by : String) (notes : Option String)
      (metrics : Option (Dict A))
      → Write db (record_model_approval stamp name version from to by notes metrics db).0
  reported :
      {db : Database A R} (stamp : Stamp) (model_name reference_window current_window : String)
      (report : R)
      → Write db (record_drift_report stamp model_name reference_window current_window report db).0

-- any number of writes
pub data Run {A R : Type 0} : Database A R → Database A R → Type 0 where
  done : {db : Database A R} → Run db db
  next : {a b c : Database A R} → Write a b → Run b c → Run a c

find_case-append :
    {A : Type 0} (j : String) (l : List (ReviewCaseRecord A)) (r : ReviewCaseRecord A)
    → find_case j (l ++ r ∷ [])
      ≡ elim (find_case j l) [ none ↦ if str_eq r.id j then some r else none | some c ↦ some c ]
unfolding find_case
find_case-append j [] r = refl
find_case-append j (x ∷ l) r = ground (arith, find_case-append j l r)

abbrev pub with_status : {A : Type 0} → String → Option (ReviewCaseRecord A) → Bool
with_status status none = false
with_status status (some c) = str_eq c.status status

with_status-append :
    {A : Type 0} (status j : String) (l : List (ReviewCaseRecord A)) (r : ReviewCaseRecord A)
    → with_status status (find_case j l) ≡ true
    → with_status status (find_case j (l ++ r ∷ [])) ≡ true
with_status-append status j l r h = ground (arith, h, find_case-append j l r)

module _ {A R : Type 0} where
  abbrev pub is_resolved : String → Database A R → Bool
  is_resolved case_id db = with_status "resolved" (get_review_case case_id db)

  has_approval-Write :
      {a b : Database A R} (w : Write a b) (n v to : String)
      → has_approval n v to a ≡ true
      → has_approval n v to b ≡ true
  unfolding has_approval persist_transactions write_audit_log write_prediction create_review_case
      submit_feedback record_drift_report
  has_approval-Write (persisted now ts) n v to h = h
  has_approval-Write (logged _ _ _ _ _) n v to h = h
  has_approval-Write (predicted _ _ _ _ _ _ _ _ _ _ _ _) n v to h = h
  has_approval-Write (opened _ _ _ _ _ _) n v to h = h
  has_approval-Write (answered _ _ _ _ _ _) n v to h = h
  has_approval-Write {a = a} (approved stamp name version from to' by notes metrics) n v to h =
      rw
        (
          has_approval-record_model_approval stamp name version from to' by notes metrics a n v to,
          h,
        )
        refl
  has_approval-Write {a = a} (reported stamp name from to_text report) n v to h =
      let (reports, e) = record_drift_report-frame stamp name from to_text report a in
      subst (λ (b : Database A R). has_approval n v to b ≡ true) (sym e) h

  -- No sequence of writes takes an approval back.
  pub has_approval-Run :
      {a b : Database A R} (r : Run a b) (n v to : String)
      → has_approval n v to a ≡ true
      → has_approval n v to b ≡ true
  has_approval-Run done n v to h = h
  has_approval-Run (next w r) n v to h = has_approval-Run r n v to (has_approval-Write w n v to h)

  is_resolved-Write :
      {a b : Database A R} (w : Write a b) (j : String)
      → is_resolved j a ≡ true
      → is_resolved j b ≡ true
  unfolding get_review_case persist_transactions write_audit_log write_prediction create_review_case
      record_model_approval record_drift_report
  is_resolved-Write (persisted now ts) j h = h
  is_resolved-Write (logged _ _ _ _ _) j h = h
  is_resolved-Write (predicted _ _ _ _ _ _ _ _ _ _ _ _) j h = h
  is_resolved-Write {a = a} (opened _ _ _ _ _ _) j h =
      with_status-append "resolved" j a.review_cases _ h
  is_resolved-Write {a = a} (answered stamp case_id transaction_id analyst_id label notes) j h =
      ground (
        arith,
        h,
        get_review_case-submit_feedback stamp case_id j transaction_id analyst_id label notes a,
        eq_refl "resolved",
      )
  is_resolved-Write (approved _ _ _ _ _ _ _ _) j h = h
  is_resolved-Write {a = a} (reported stamp name from to_text report) j h =
      let (reports, e) = record_drift_report-frame stamp name from to_text report a in
      subst (λ (b : Database A R). is_resolved j b ≡ true) (sym e) h

  -- No sequence of writes reopens a case that is resolved.
  is_resolved-Run :
      {a b : Database A R} (r : Run a b) (j : String)
      → is_resolved j a ≡ true
      → is_resolved j b ≡ true
  is_resolved-Run done j h = h
  is_resolved-Run (next w r) j h = is_resolved-Run r j (is_resolved-Write w j h)

  get_transaction-Write :
      {a b : Database A R} (w : Write a b) (id : String) (t : TransactionRecord A)
      → get_transaction id a ≡ some t
      → get_transaction id b ≡ some t
  unfolding get_transaction write_audit_log write_prediction create_review_case submit_feedback
      record_model_approval record_drift_report
  get_transaction-Write {a = a} (persisted now ts) id t h =
      get_transaction-persist_transactions now ts a id t h
  get_transaction-Write (logged _ _ _ _ _) id t h = h
  get_transaction-Write (predicted _ _ _ _ _ _ _ _ _ _ _ _) id t h = h
  get_transaction-Write (opened _ _ _ _ _ _) id t h = h
  get_transaction-Write (answered _ _ _ _ _ _) id t h = h
  get_transaction-Write (approved _ _ _ _ _ _ _ _) id t h = h
  get_transaction-Write {a = a} (reported stamp name from to_text report) id t h =
      let (reports, e) = record_drift_report-frame stamp name from to_text report a in
      subst (λ (b : Database A R). get_transaction id b ≡ some t) (sym e) h

  -- A stored transaction keeps its row, with its time of arrival, under every sequence of writes.
  get_transaction-Run :
      {a b : Database A R} (r : Run a b) (id : String) (t : TransactionRecord A)
      → get_transaction id a ≡ some t
      → get_transaction id b ≡ some t
  get_transaction-Run done id t h = h
  get_transaction-Run (next w r) id t h =
      get_transaction-Run r id t (get_transaction-Write w id t h)

  audit_logs-Write :
      {a b : Database A R}
      → Write a b
      → (new : List AuditLogRecord) × (b.audit_logs ≡ a.audit_logs ++ new)
  unfolding persist_transactions write_audit_log write_prediction create_review_case submit_feedback
      record_model_approval record_drift_report
  audit_logs-Write {a = a} (persisted now ts) = ([], sym (append-nil a.audit_logs))
  audit_logs-Write (logged _ _ _ _ _) = (_ ∷ [], refl)
  audit_logs-Write {a = a} (predicted _ _ _ _ _ _ _ _ _ _ _ _) = ([], sym (append-nil a.audit_logs))
  audit_logs-Write {a = a} (opened _ _ _ _ _ _) = ([], sym (append-nil a.audit_logs))
  audit_logs-Write {a = a} (answered _ _ _ _ _ _) = ([], sym (append-nil a.audit_logs))
  audit_logs-Write {a = a} (approved _ _ _ _ _ _ _ _) = ([], sym (append-nil a.audit_logs))
  audit_logs-Write {a = a} (reported stamp name from to_text report) =
      let (reports, e) = record_drift_report-frame stamp name from to_text report a in
      ([], ap (λ (b : Database A R). b.audit_logs) e ∙ sym (append-nil a.audit_logs))

  -- Every sequence of writes only appends to the audit log: the entries that were there stay, in their
  -- order, before the new ones.
  audit_logs-Run :
      {a b : Database A R}
      → Run a b
      → (new : List AuditLogRecord) × (b.audit_logs ≡ a.audit_logs ++ new)
  audit_logs-Run {a = a} done = ([], sym (append-nil a.audit_logs))
  audit_logs-Run {a = a} (next w r) =
      let (new, first) = audit_logs-Write w in
      let (more, rest) = audit_logs-Run r in
      (new ++ more, rest ∙ ap (λ l. l ++ more) first ∙ append_assoc a.audit_logs new more)
