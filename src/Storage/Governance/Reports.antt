-- ===== src/Storage/Governance/Reports.antt =====
-- What recording a drift report changes.
use Prim.Native.String.{count as chars}
use realtime_fraud_detection.Common.{
  String, Bool, true, false, ◌≡◌, refl, ◌&&◌, List, leb, Bool-cases, inl, inr, ap, Option, some,
  none, [], ◌∷◌, ◌++◌,
}
use realtime_fraud_detection.Storage.Tables.{Database, DriftReportRecord, Stamp}
use realtime_fraud_detection.Storage.Governance.{record_drift_report}

module _ {A R : Type 0} (stamp : Stamp) (model_name reference_window current_window : String)
    (report : R) (db : Database A R) where
  abbrev pub report_row : DriftReportRecord R
  report_row = record {
    id = stamp.id;
    model_name = model_name;
    reference_window = reference_window;
    current_window = current_window;
    full_report = report;
    created_at = stamp.now;
  }

  abbrev pub windows_fit : Bool
  windows_fit = leb (chars reference_window) 64 && leb (chars current_window) 64

  abbrev pub recording : Database A R × Option String
  recording = record_drift_report stamp model_name reference_window current_window report db

  pub record_drift_report-some :
      windows_fit ≡ true
      → recording
        ≡ (record db { drift_reports = db.drift_reports ++ report_row ∷ [] }, some stamp.id)
  unfolding record_drift_report
  record_drift_report-some e = rw (e, record_drift_report) refl

  pub record_drift_report-none : windows_fit ≡ false → recording ≡ (db, none)
  unfolding record_drift_report
  record_drift_report-none e = rw (e, record_drift_report) refl

  -- nothing changes but the reports
  pub record_drift_report-frame :
      (reports : List (DriftReportRecord R)) × (recording.0 ≡ record db { drift_reports = reports })
  record_drift_report-frame = elim (Bool-cases windows_fit) [
    | inl e ↦ (db.drift_reports ++ report_row ∷ [], ap (λ p. p.0) (record_drift_report-some e))
    | inr e ↦ (db.drift_reports, ap (λ p. p.0) (record_drift_report-none e))
  ]
