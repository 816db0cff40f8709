-- ===== src/Batch/Upload.antt =====
-- src/api/routes/batch.py, `batch_score`. `Upload` is the request's file: whether its name is there
-- and ends in `.csv`, whether it has content, and the content. `fetch_metrics` is MLflow's answer to
-- `get_run_metrics`, `none` where it raises; `renders` is whether Starlette's JSON takes a payload, which it does
-- not with a NaN.
pub mod Accounting
use realtime_fraud_detection.Common.{
  ℕ, String, Bool, true, false, not, Option, none, some, List, [], ◌∷◌, length, take, ltb, str_eq,
  if◌then◌else◌,
}
use realtime_fraud_detection.Common.Dict.{Dict}
use realtime_fraud_detection.Common.Result.{Result, ok, err, ◌>>=◌, ◌>>◌}
use realtime_fraud_detection.Features.{sort_by_time}
use mathlib.Core.Option
use realtime_fraud_detection.Common.Floating.{Floating}
use realtime_fraud_detection.Http.{HttpException}
use realtime_fraud_detection.Config.{Settings}
use realtime_fraud_detection.Schemas.{Transaction}
use realtime_fraud_detection.Scoring.Inference.{ModelState, Engine}
use realtime_fraud_detection.Batch.Parse.{Csv, RowError, ParsedFile, parse_transactions_csv}
use realtime_fraud_detection.Batch.Score.{ScoredTransaction, score_batch}
use realtime_fraud_detection.Batch.Timeseries.{Calendar}
use realtime_fraud_detection.Batch.Payload.{Payload, max_batch_rows, build_dashboard_payload}

pub record Upload (C : Type 0) : Type 0 where
  pub named_csv : Bool
  pub has_content : Bool
  pub content : C

abbrev pub bad_request : {B : Type 0} → String → Result HttpException B
bad_request detail = err (record { status_code = 400; detail = detail })

-- an exception that no handler catches
abbrev pub server_error : {B : Type 0} → Result HttpException B
server_error = err (record { status_code = 500; detail = "Internal Server Error" })

abbrev pub guard : Bool → String → Result HttpException (Unit {0})
guard true detail = ok tt
guard false detail = bad_request detail

-- `except ValueError as exc: raise HTTPException(400, str(exc))`
abbrev pub or_bad_request : {B : Type 0} → Result String B → Result HttpException B
or_bad_request (ok b) = ok b
or_bad_request (err e) = bad_request e

abbrev pub or_server_error : {B : Type 0} → Option B → Result HttpException B
or_server_error none = server_error
or_server_error (some b) = ok b

abbrev pub is_there : {B : Type 0} → List B → Bool
is_there [] = false
is_there (b ∷ bs) = true

-- the first rows in the order of their times, where there are more than `limit`; `none` where sorting raises
unfoldable pub cut : {A : Type 0} → ℕ → List (Transaction A) → Option (List (Transaction A))
unfolding sort_by_time
cut limit transactions =
    if ltb limit (length transactions)
    then Option.map (take limit) (sort_by_time transactions)
    else some transactions

module _ {C A M E X : Type 0} ⦃f : Floating A⦄ (csv : Csv C A) (eng : Engine A M E X)
    (cal : Calendar A) (fetch_metrics : String → Option (Dict A)) (renders : Payload A → Bool) where
  -- a failure to fetch the metrics leaves none
  unfoldable pub metrics_of : ModelState A M E → Dict A
  metrics_of state = elim state.model [
    | none ↦ []
    | some m ↦ elim state.run_id [
      | none ↦ []
      | some run ↦
          if str_eq run ""
          then []
          else elim (fetch_metrics run) [ none ↦ [] | some metrics ↦ metrics ]
    ]
  ]

  respond : ModelState A M E → ParsedFile A → List (ScoredTransaction A) → Payload A
  unfolding metrics_of
  respond state p scored =
      build_dashboard_payload cal state scored p.row_errors p.rows_in_file
        (ltb max_batch_rows (length p.transactions)) (metrics_of state)

  -- the response, `none` where it is not JSON
  abbrev pub rendered : Payload A → Option (Payload A)
  rendered payload = if renders payload then some payload else none

  unfoldable pub batch_score :
      ModelState A M E → Settings A → Upload C → Result HttpException (Payload A)
  unfolding respond cut
  batch_score state settings file = do
    guard file.named_csv "Upload a .csv file"
    guard file.has_content "Uploaded file is empty"
    p ← or_bad_request (parse_transactions_csv csv file.content)
    guard (is_there p.transactions)
        "No valid rows to score -- every row failed validation. See the response of GET /batch/template for the expected format."
    kept ← or_server_error (cut max_batch_rows p.transactions)
    scored ← or_server_error (score_batch eng state settings kept)
    or_server_error (rendered (respond state p scored))
