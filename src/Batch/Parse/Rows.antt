-- ===== src/Batch/Parse/Rows.antt =====
-- No row of a file is lost, and every row that is kept is valid.
use realtime_fraud_detection.Common.{
  ℕ, suc, ◌+◌, ◌≤◌, ◌<◌, String, ◌≡◌, refl, subst, List, [], ◌∷◌, arith, length, All, inl, inr,
  Option-cases, ◌∙◌,
}
use realtime_fraud_detection.Common.Dict.{Dict}
use realtime_fraud_detection.Common.Result.{Result, ok, err, Result-cases, >>=-eq-ok}
use realtime_fraud_detection.Common.Floating.{Floating}
use realtime_fraud_detection.Schemas.{Transaction, validate}
use realtime_fraud_detection.Schemas.Constraints.{IsInRange, validate-IsInRange}
use realtime_fraud_detection.Batch.Parse.{
  RowError, Frame, accept, Csv, ParsedFile, construct, to_number, to_flag, parse_row, parse_rows,
  collect, CsvCell, parse_transactions_csv, missing_columns, blank_to_null,
}

-- the row numbers rise, from above `lo` to at most `hi`
abbrev pub Rising : ℕ → ℕ → List RowError → Type 0
Rising lo hi [] = Unit
Rising lo hi (e ∷ es) = (lo < e.row_number) × (e.row_number ≤ hi) × Rising e.row_number hi es

Rising-weaken : (lo lo' hi : ℕ) (es : List RowError) → lo ≤ lo' → Rising lo' hi es → Rising lo hi es
Rising-weaken lo lo' hi [] h r = tt
Rising-weaken lo lo' hi (e ∷ es) h r = (omega arith, r.1, r.2)

collect-Rising :
    {A : Type 0} (i hi : ℕ) (r : Result String (Transaction A))
    (rest : List (Transaction A) × List RowError)
    → i + 2 ≤ hi
    → Rising (i + 2) hi rest.1
    → Rising (i + 1) hi (collect i r rest).1
collect-Rising i hi (ok txn) (ts, es) h k = Rising-weaken (i + 1) (i + 2) hi es (omega arith) k
collect-Rising i hi (err e) (ts, es) h k = (omega arith, h, k)

collect-All :
    {A : Type 0} ⦃f : Floating A⦄ (i : ℕ) (r : Result String (Transaction A))
    (rest : List (Transaction A) × List RowError)
    → ((t : Transaction A) → r ≡ ok t → IsInRange t)
    → All IsInRange rest.0
    → All IsInRange (collect i r rest).0
collect-All i (ok txn) (ts, es) h k = (h txn refl, k)
collect-All i (err e) (ts, es) h k = k

-- What a file's parse promises.
pub record IsParsed {A : Type 0} ⦃f : Floating A⦄ (p : ParsedFile A) : Type 0 where
  pub complete : length p.transactions + length p.row_errors ≡ p.rows_in_file
  pub numbered : Rising 1 (p.rows_in_file + 1) p.row_errors
  pub valid : All IsInRange p.transactions

module _ {C A : Type 0} ⦃f : Floating A⦄ (csv : Csv C A) where
  length-parse_rows :
      (i : ℕ) (rows : List (Dict String))
      → length (parse_rows csv i rows).0 + length (parse_rows csv i rows).1 ≡ length rows
  unfolding parse_rows
  length-parse_rows i [] = omega arith
  length-parse_rows i (row ∷ rows) = ground (arith, length-parse_rows (suc i) rows)

  parse_rows-Rising :
      (i hi : ℕ) (rows : List (Dict String))
      → i + 1 + length rows ≤ hi
      → Rising (i + 1) hi (parse_rows csv i rows).1
  unfolding parse_rows
  parse_rows-Rising i hi [] h = tt
  parse_rows-Rising i hi (row ∷ rows) h =
      collect-Rising i hi (parse_row csv row) (parse_rows csv (suc i) rows) (omega arith) (
        Rising-weaken (i + 2) (suc i + 1) hi (parse_rows csv (suc i) rows).1 (omega arith)
          (parse_rows-Rising (suc i) hi rows (omega arith)))

  construct-IsInRange :
      (row : Dict (CsvCell A)) (t : Transaction A) → construct csv row ≡ ok t → IsInRange t
  unfolding construct
  construct-IsInRange row t h = elim (Result-cases (csv.convert row)) [
    | inl (raw, e) ↦ elim (Option-cases (validate csv.upper raw)) [
      | inl refused ↦ ground arith
      | inr (v, kept) ↦ validate-IsInRange csv.upper raw t (kept ∙ ground arith)
    ]
    | inr (x, e) ↦ ground arith
  ]

  parse_row-IsInRange :
      (row : Dict String) (t : Transaction A) → parse_row csv row ≡ ok t → IsInRange t
  unfolding parse_row
  parse_row-IsInRange row t h =
      let (row1, e1, h1) = >>=-eq-ok (to_number csv "amount" (blank_to_null row)) _ t h in
      let (row2, e2, h2) = >>=-eq-ok (to_number csv "latitude" row1) _ t h1 in
      let (row3, e3, h3) = >>=-eq-ok (to_number csv "longitude" row2) _ t h2 in
      construct-IsInRange (to_flag csv row3) t h3

  parse_rows-All : (i : ℕ) (rows : List (Dict String)) → All IsInRange (parse_rows csv i rows).0
  unfolding parse_rows
  parse_rows-All i [] = tt
  parse_rows-All i (row ∷ rows) =
      collect-All i (parse_row csv row) (parse_rows csv (suc i) rows) (parse_row-IsInRange row)
        (parse_rows-All (suc i) rows)

  accept-IsParsed :
      (df : Frame) (missing : List String) (p : ParsedFile A)
      → accept csv df missing ≡ ok p
      → IsParsed p
  unfolding accept
  accept-IsParsed df (c ∷ cs) p h = cc
  accept-IsParsed df [] p h = subst IsParsed (cc) (record {
    complete = length-parse_rows 0 df.records;
    numbered = parse_rows-Rising 0 (length df.records + 1) df.records (omega arith);
    valid = parse_rows-All 0 df.records;
  })

  -- Of a file that parses, every row is either a transaction or an error, so none is lost; the
  -- errors' row numbers rise and lie within the file, the header being row 1; and no transaction's
  -- amount is 0 or less or above 1,000,000, no latitude or longitude is off the globe (each may be NaN), and
  -- its identifiers, its merchant's category, its device and its address are within the schema's lengths.
  pub parse_transactions_csv-IsParsed :
      (content : C) (p : ParsedFile A) → parse_transactions_csv csv content ≡ ok p → IsParsed p
  unfolding parse_transactions_csv
  parse_transactions_csv-IsParsed content p h =
      let (df, read, accepted) = >>=-eq-ok (csv.read_csv content) _ p h in
      accept-IsParsed df (missing_columns df) p accepted
