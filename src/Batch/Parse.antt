-- ===== src/Batch/Parse.antt =====
-- src/api/batch.py, `parse_transactions_csv`. Its foreign calls are in `Csv`: pandas' reader,
-- `float`, `str.strip().lower()`, `str.upper` and pydantic's conversion of a row to the types of the
-- fields. An error is its first line.
pub mod Rows
use realtime_fraud_detection.Common.{
  ℕ, suc, ◌+◌, String, ◌≡◌, Bool, true, false, not, ◌||◌, ◌&&◌, Option, none, some, List, [], ◌∷◌,
  ◌++◌, length, filter, any, concat, join, str_eq, if◌then◌else◌,
}
use realtime_fraud_detection.Common.Dict.{Dict, get, set}
use realtime_fraud_detection.Common.Result.{Result, ok, err, ◌>>=◌}
use realtime_fraud_detection.Common.Floating.{Floating}
use realtime_fraud_detection.Schemas.{Transaction, validate}

pub record RowError : Type 0 where
  pub row_number : ℕ
  pub error : String

pub data CsvCell (A : Type 0) : Type 0 where
  null : CsvCell A
  text : String → CsvCell A
  number : A → CsvCell A
  flag : Bool → CsvCell A

-- a data frame of texts
pub record Frame : Type 0 where
  pub columns : List String
  pub records : List (Dict String)

pub record Csv (C A : Type 0) : Type 0 where
  pub read_csv : C → Result String Frame
  pub float_of : String → Result String A
  pub strip_lower : String → String
  pub upper : String → String
  pub convert : Dict (CsvCell A) → Result String (Transaction A)
  pub constraint_error : Dict (CsvCell A) → String

pub record ParsedFile (A : Type 0) : Type 0 where
  pub transactions : List (Transaction A)
  pub row_errors : List RowError
  pub rows_in_file : ℕ

abbrev pub required_columns : List String
required_columns =
    "transaction_id" ∷ "card_id" ∷ "user_id" ∷ "amount" ∷ "merchant_id" ∷ "merchant_category"
    ∷ "transaction_type" ∷ "channel" ∷ "latitude" ∷ "longitude" ∷ "country" ∷ "event_time" ∷ []

unfoldable pub missing_columns : Frame → List String
missing_columns df = filter (λ c. not (any (λ d. str_eq d c) df.columns)) required_columns

-- `v if v != "" else None`
abbrev pub blank_to_null : {A : Type 0} → Dict String → Dict (CsvCell A)
blank_to_null [] = []
blank_to_null ((k, v) ∷ d) = (k, (if str_eq v "" then null else text v)) ∷ blank_to_null d

-- the `try` of row `i`: append to the one list or to the other
abbrev pub collect :
    {A : Type 0}
    → ℕ
    → Result String (Transaction A)
    → List (Transaction A) × List RowError
    → List (Transaction A) × List RowError
collect i (ok txn) (transactions, row_errors) = (txn ∷ transactions, row_errors)
collect i (err e) (transactions, row_errors) =
    (transactions, record { row_number = i + 2; error = e } ∷ row_errors)

module _ {C A : Type 0} ⦃f : Floating A⦄ (csv : Csv C A) where
  -- `row[k] = float(row[k]) if row.get(k) is not None else None`
  to_number : String → Dict (CsvCell A) → Result String (Dict (CsvCell A))
  to_number k row = elim (get k row) [
    | some (text s) ↦ elim (csv.float_of s) [ ok x ↦ ok (set k (number x) row) | err e ↦ err e ]
    | _ ↦ ok (set k null row)
  ]

  to_flag : Dict (CsvCell A) → Dict (CsvCell A)
  to_flag row = elim (get "is_simulated_fraud" row) [
    | some (text s) ↦
        let word = csv.strip_lower s in
        set "is_simulated_fraud" (flag (str_eq word "true" || str_eq word "1" || str_eq word "yes"))
          row
    | _ ↦ row
  ]

  -- `Transaction(**row)`
  construct : Dict (CsvCell A) → Result String (Transaction A)
  construct row = elim (csv.convert row) [
    | err e ↦ err e
    | ok t ↦ elim (validate csv.upper t) [ some v ↦ ok v | none ↦ err (csv.constraint_error row) ]
  ]

  unfoldable pub parse_row : Dict String → Result String (Transaction A)
  unfolding to_number to_flag construct
  parse_row raw_row = do
    row1 ← to_number "amount" (blank_to_null raw_row)
    row2 ← to_number "latitude" row1
    row3 ← to_number "longitude" row2
    construct (to_flag row3)

  -- the loop: `i` rows lie before these
  unfoldable pub parse_rows : ℕ → List (Dict String) → List (Transaction A) × List RowError
  parse_rows i [] = ([], [])
  parse_rows i (raw_row ∷ rest) = collect i (parse_row raw_row) (parse_rows (suc i) rest)

  -- on the columns that are missing
  accept : Frame → List String → Result String (ParsedFile A)
  unfolding parse_rows
  accept df (c ∷ cs) = err (
      concat (
        "CSV is missing required column(s): "
        ∷ join ", " (c ∷ cs)
        ∷ ". Download the template from GET /batch/template for the expected shape."
        ∷ []))
  accept df [] =
      let (transactions, row_errors) = parse_rows 0 df.records in
      ok (record {
        transactions = transactions;
        row_errors = row_errors;
        rows_in_file = length df.records;
      })

  -- the `ValueError` of a file without the columns, or that pandas cannot read, is `err`
  unfoldable pub parse_transactions_csv : C → Result String (ParsedFile A)
  unfolding accept missing_columns
  parse_transactions_csv content = do df ← csv.read_csv content; accept df (missing_columns df)
