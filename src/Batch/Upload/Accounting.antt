-- ===== src/Batch/Upload/Accounting.antt =====
-- Every upload is answered, and the answer accounts for every row of the file.
use realtime_fraud_detection.Common.{◌+◌, ◌≤◌, ◌≡◌, Bool, true, false, ◌⊎◌, if◌then◌else◌}
use realtime_fraud_detection.Common.Dict.{Dict}
use realtime_fraud_detection.Common.Result.{Result, ok, err}
use realtime_fraud_detection.Common.Floating.{Floating}
use realtime_fraud_detection.Http.{HttpException}
use realtime_fraud_detection.Batch.Payload.{Payload, max_batch_rows}
use realtime_fraud_detection.Batch.Payload.Counts.{IsTallied}
use realtime_fraud_detection.Batch.Upload.{Upload}

-- The account of the rows.
pub record IsAccounted {A : Type 0} (p : Payload A) : Type 0 where
  pub limited : p.kpis.total_transactions ≤ max_batch_rows
  pub complete :
      (if p.upload_meta.truncated
        then p.upload_meta.rows_scored
        else p.upload_meta.rows_scored + p.upload_meta.rows_skipped)
      ≡ (if p.upload_meta.truncated then max_batch_rows else p.upload_meta.rows_in_file)

-- a payload that is accounted for, a refusal, or a failure for a payload that is no JSON
abbrev pub Answered : {A : Type 0} → (Payload A → Bool) → Result HttpException (Payload A) → Type 0
Answered renders (ok p) = IsTallied p × IsAccounted p × (renders p ≡ true)
Answered {A} renders (err e) =
    (e.status_code ≡ 400) ⊎ ((e.status_code ≡ 500) × (p : Payload A) × (renders p ≡ false))
