-- ===== src/Scoring/FeatureRow.antt =====
-- src/ml/model_features.py: from a feature vector and its transaction to the model's input row.
pub mod Columns
use realtime_fraud_detection.Common.{
  ℕ, String, ◌+◌, ◌-◌, ◌/◌, ◌%◌, Bool, true, false, Option, none, some, List, [], ◌∷◌, ◌++◌, map,
  leb, str_eq, or_else, if◌then◌else◌,
}
use realtime_fraud_detection.Common.Dict.{Dict, get}
use realtime_fraud_detection.Common.Floating.{Floating, lit}
use realtime_fraud_detection.Common.Int.{ℤ, pos_part, neg_part}
use realtime_fraud_detection.Schemas.{
  Transaction, TransactionType, purchase, withdrawal, refund, transfer, TransactionChannel, online,
  in_store, atm, mobile,
}
use realtime_fraud_detection.Features.{FeatureVector}

-- a cell of the row
pub data Cell (A : Type 0) : Type 0 where
  int : ℕ → Cell A
  float : A → Cell A

abbrev pub Row : Type 0 → Type 0
Row A = Dict (Cell A)

abbrev pub channel_value : TransactionChannel → String
channel_value online = "online"
channel_value in_store = "in_store"
channel_value atm = "atm"
channel_value mobile = "mobile"

abbrev pub type_value : TransactionType → String
type_value purchase = "purchase"
type_value withdrawal = "withdrawal"
type_value refund = "refund"
type_value transfer = "transfer"

abbrev pub numeric_features : List String
numeric_features =
    "amount" ∷ "hour_of_day" ∷ "is_weekend" ∷ "txn_count_1h" ∷ "txn_count_24h" ∷ "avg_amount_1h"
    ∷ "avg_amount_24h" ∷ "sum_amount_1h" ∷ "sum_amount_24h" ∷ "distinct_merchants_24h"
    ∷ "velocity_5min" ∷ "seconds_since_last_txn" ∷ "distance_from_last_txn_km" ∷ "implied_speed_kmh"
    ∷ "amount_zscore_24h" ∷ "is_new_device" ∷ []

abbrev pub channel_columns : List String
channel_columns = "channel_online" ∷ "channel_in_store" ∷ "channel_atm" ∷ "channel_mobile" ∷ []

abbrev pub type_columns : List String
type_columns =
    "txn_type_purchase" ∷ "txn_type_withdrawal" ∷ "txn_type_refund" ∷ "txn_type_transfer" ∷ []

abbrev pub feature_columns : List String
feature_columns = numeric_features ++ (channel_columns ++ type_columns)

-- `int(b)`
abbrev pub to_int : Bool → ℕ
to_int true = 1
to_int false = 0

-- what the clock of the time's own zone shows, in microseconds since the same day
abbrev pub local_time : ℕ → Option ℤ → ℕ
local_time t none = t
local_time t (some offset) = t + pos_part offset - neg_part offset

-- `event_time.hour` and `event_time.weekday()`, of a local time; Monday is 0, and the day before
-- year 1, where the count of microseconds starts, is a Sunday
abbrev pub hour : ℕ → ℕ
hour t = t / 3600000000 % 24

abbrev pub weekday : ℕ → ℕ
weekday t = (t / 86400000000 + 6) % 7

module _ {A : Type 0} ⦃f : Floating A⦄ where
  numeric_cells : FeatureVector A → Transaction A → Row A
  numeric_cells v t =
      ("amount", float t.amount)
      ∷ ("hour_of_day", int (hour (local_time t.event_time t.zone)))
      ∷ ("is_weekend", int (to_int (leb 5 (weekday (local_time t.event_time t.zone)))))
      ∷ ("txn_count_1h", int v.txn_count_1h)
      ∷ ("txn_count_24h", int v.txn_count_24h)
      ∷ ("avg_amount_1h", float v.avg_amount_1h)
      ∷ ("avg_amount_24h", float v.avg_amount_24h)
      ∷ ("sum_amount_1h", float v.sum_amount_1h)
      ∷ ("sum_amount_24h", float v.sum_amount_24h)
      ∷ ("distinct_merchants_24h", int v.distinct_merchants_24h)
      ∷ ("velocity_5min", int v.velocity_5min)
      ∷ ("seconds_since_last_txn", float (or_else v.seconds_since_last_txn (lit 999999 0)))
      ∷ ("distance_from_last_txn_km", float (or_else v.distance_from_last_txn_km (lit 0 0)))
      ∷ ("implied_speed_kmh", float (or_else v.implied_speed_kmh (lit 0 0)))
      ∷ ("amount_zscore_24h", float v.amount_zscore_24h)
      ∷ ("is_new_device", int (to_int v.is_new_device))
      ∷ []

  channel_cells : String → Row A
  channel_cells c =
      ("channel_online", int (to_int (str_eq c "online")))
      ∷ ("channel_in_store", int (to_int (str_eq c "in_store")))
      ∷ ("channel_atm", int (to_int (str_eq c "atm")))
      ∷ ("channel_mobile", int (to_int (str_eq c "mobile")))
      ∷ []

  type_cells : String → Row A
  type_cells t =
      ("txn_type_purchase", int (to_int (str_eq t "purchase")))
      ∷ ("txn_type_withdrawal", int (to_int (str_eq t "withdrawal")))
      ∷ ("txn_type_refund", int (to_int (str_eq t "refund")))
      ∷ ("txn_type_transfer", int (to_int (str_eq t "transfer")))
      ∷ []

  unfoldable pub build_feature_row : FeatureVector A → Transaction A → Row A
  unfolding numeric_cells channel_cells type_cells
  build_feature_row v t =
      numeric_cells v t
      ++ (channel_cells (channel_value t.channel) ++ type_cells (type_value t.transaction_type))

-- `df[columns]`; `none` is the `KeyError` of a missing column
unfoldable pub select : {A : Type 0} → List String → Row A → Option (Row A)
select [] row = some []
select (c ∷ cs) row = elim (get c row) [
  | none ↦ none
  | some x ↦ elim (select cs row) [ none ↦ none | some rest ↦ some ((c, x) ∷ rest) ]
]

unfoldable pub select_model_matrix : {A : Type 0} → Row A → Option (Row A)
unfolding select get
select_model_matrix row = select feature_columns row
