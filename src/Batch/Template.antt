-- ===== src/Batch/Template.antt =====
-- src/api/routes/batch.py, `batch_template`. `dump` is `model_dump(mode="json")` and `to_csv` is pandas'; the
-- records all have the keys of one model, so that a column is in the data frame where each record has it.
pub mod Size
use realtime_fraud_detection.Common.{
  ℕ, ◌-◌, ◌*◌, ◌/◌, max, min, String, Option, none, some, List, [], ◌∷◌, map,
}
use realtime_fraud_detection.Common.Dict.{Dict, get}
use realtime_fraud_detection.Common.Floating.{Floating, lit}
use realtime_fraud_detection.Common.Int.{ℤ, pos, negsuc}
use realtime_fraud_detection.Features.{minutes}
use realtime_fraud_detection.Generator.{Rng, Gen, ◌>>=◌, pure, build_profiles}
use realtime_fraud_detection.Generator.Traffic.{stream}
use realtime_fraud_detection.Schemas.{Transaction}

-- `_CSV_COLUMNS`
abbrev pub csv_columns : List String
csv_columns =
    "transaction_id" ∷ "card_id" ∷ "user_id" ∷ "amount" ∷ "currency" ∷ "merchant_id"
    ∷ "merchant_category" ∷ "transaction_type" ∷ "channel" ∷ "latitude" ∷ "longitude" ∷ "country"
    ∷ "device_id" ∷ "ip_address" ∷ "event_time" ∷ []

-- `max(10, min(rows, 5000))`
unfoldable pub template_rows : ℤ → ℕ
template_rows (pos n) = max 10 (min n 5000)
template_rows (negsuc n) = 10

-- a record's cells of these columns; `KeyError` where one is missing
unfoldable pub cells : {V : Type 0} → List String → Dict V → Option (List V)
cells [] r = some []
cells (column ∷ columns) r = elim (get column r) [
  | none ↦ none
  | some v ↦ elim (cells columns r) [ none ↦ none | some vs ↦ some (v ∷ vs) ]
]

unfoldable pub lines : {V : Type 0} → List (Dict V) → Option (List (List V))
unfolding cells
lines [] = some []
lines (r ∷ records) = elim (cells csv_columns r) [
  | none ↦ none
  | some vs ↦ elim (lines records) [ none ↦ none | some rest ↦ some (vs ∷ rest) ]
]

module _ {G A : Type 0} ⦃f : Floating A⦄ (rng : Rng G A) where
  -- the generator with its profiles, and its transactions
  unfoldable pub sample_transactions : ℕ → ℕ → Gen G (List (Transaction A))
  sample_transactions rows start = do
    profiles ← build_profiles rng (max 20 (rows / 10))
    stream rng (lit 12 2) profiles rows start

module _ {G A V : Type 0} ⦃f : Floating A⦄ (rng : Rng G A) (dump : Transaction A → Dict V)
    (to_csv : List String → List (List V) → String) where
  -- `seeded` is the state of the random numbers after `seed=42`
  unfoldable pub batch_template : G → ℕ → ℤ → Option String
  unfolding template_rows sample_transactions lines
  batch_template seeded now rows =
      elim (sample_transactions rng (template_rows rows) (now - minutes 360) seeded) [
        | none ↦ none
        | some (transactions, g) ↦ elim (lines (map dump transactions)) [
          | none ↦ none
          | some ls ↦ some (to_csv csv_columns ls)
        ]
      ]
