-- ===== src/Storage/Governance.antt =====
-- src/storage/postgres_client.py: approvals and drift reports. A report is any type `R`.
pub mod Reports
use Prim.Native.String.{count as chars}
use realtime_fraud_detection.Common.{
  String, Bool, ◌&&◌, Option, none, some, List, [], ◌∷◌, ◌++◌, any, filter, leb, str_eq,
  if◌then◌else◌,
}
use realtime_fraud_detection.Common.Dict.{Dict}
use realtime_fraud_detection.Common.Sort.{sort}
use realtime_fraud_detection.Storage.Tables.{
  Database, ModelApprovalRecord, DriftReportRecord, Stamp,
}

abbrev pub approves : {A : Type 0} → String → String → String → ModelApprovalRecord A → Bool
approves model_name model_version to_stage r =
    str_eq r.model_name model_name
    && str_eq r.model_version model_version
    && str_eq r.to_stage to_stage

module _ {A R : Type 0} where
  unfoldable pub record_model_approval :
      Stamp
      → String
      → String
      → String
      → String
      → String
      → Option String
      → Option (Dict A)
      → Database A R
      → Database A R × String
  record_model_approval stamp model_name model_version from_stage to_stage approved_by notes
        metrics_snapshot db =
      let row : ModelApprovalRecord A = record {
        id = stamp.id;
        model_name = model_name;
        model_version = model_version;
        from_stage = from_stage;
        to_stage = to_stage;
        approved_by = approved_by;
        notes = notes;
        metrics_snapshot = metrics_snapshot;
        created_at = stamp.now;
      } in
      (record db { model_approvals = db.model_approvals ++ row ∷ [] }, stamp.id)

  unfoldable pub has_approval : String → String → String → Database A R → Bool
  has_approval model_name model_version to_stage db =
      any (approves model_name model_version to_stage) db.model_approvals

  -- `report["reference_window"]` and `report["current_window"]` come before the report; PostgreSQL refuses a row
  -- with a window of more than 64 characters, which is `none`
  unfoldable pub record_drift_report :
      Stamp → String → String → String → R → Database A R → Database A R × Option String
  record_drift_report stamp model_name reference_window current_window report db =
      let row : DriftReportRecord R = record {
        id = stamp.id;
        model_name = model_name;
        reference_window = reference_window;
        current_window = current_window;
        full_report = report;
        created_at = stamp.now;
      } in
      if leb (chars reference_window) 64 && leb (chars current_window) 64
      then (record db { drift_reports = db.drift_reports ++ row ∷ [] }, some stamp.id)
      else (db, none)

-- the report of the first row
abbrev pub report_of : {R : Type 0} → List (DriftReportRecord R) → Option R
report_of [] = none
report_of (r ∷ rs) = some r.full_report

module _ {A R : Type 0} where
  unfoldable pub get_latest_drift_report : String → Database A R → Option R
  get_latest_drift_report model_name db = report_of (
      sort (λ r s. leb s.created_at r.created_at)
        (filter (λ r. str_eq r.model_name model_name) db.drift_reports))
