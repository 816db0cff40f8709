-- ===== src/Stream/Consumer.antt =====
-- src/feature_engineering/spark_consumer.py: one micro-batch, from its rows to the feature store and the
-- database. Of Prometheus only the lag is here, since its subtraction of times can fail.

pub mod Rows
pub mod Groups
pub mod Digest
pub mod Served
pub mod Batch
use realtime_fraud_detection.Common.{
  ℕ, suc, ◌+◌, String, Bool, true, false, ◌&&◌, Option, none, some, List, [], ◌∷◌, ◌++◌, map,
  length, max, is_some, or_else, str_eq, leb, concat, if◌then◌else◌,
}
use realtime_fraud_detection.Common.Floating.{Floating}
use realtime_fraud_detection.Common.Int.{ℤ}
use realtime_fraud_detection.Common.Result.{Result, ok, err, ◌>>=◌}
use realtime_fraud_detection.Common.Sort.{sort, by_key}
use realtime_fraud_detection.Config.{Settings}
use realtime_fraud_detection.Schemas.{
  Transaction, TransactionType, TransactionChannel, purchase, withdrawal, refund, transfer, online,
  in_store, atm, mobile, validate,
}
use realtime_fraud_detection.Features.{compute_features}
use realtime_fraud_detection.Storage.Tables.{Database, Stamp}
use realtime_fraud_detection.Storage.Transactions.{persist_transactions, write_audit_log}
use realtime_fraud_detection.Stream.Redis.{Redis}
use realtime_fraud_detection.Stream.Store.{
  Codec, max_history_len, write_features, append_history, get_history,
}

-- A row of `spark_transaction_schema`: what the JSON does not give, or gives with another type, is null.
pub record StreamRow (A : Type 0) : Type 0 where
  pub transaction_id : Option String
  pub card_id : Option String
  pub user_id : Option String
  pub amount : Option A
  pub currency : Option String
  pub merchant_id : Option String
  pub merchant_category : Option String
  pub transaction_type : Option String
  pub channel : Option String
  pub latitude : Option A
  pub longitude : Option A
  pub country : Option String
  pub device_id : Option String
  pub ip_address : Option String
  pub event_time : Option ℕ
  pub zone : Option ℤ
  pub is_simulated_fraud : Option String

-- the exceptions that end a micro-batch
pub data StreamError : Type 0 where
  -- `ValidationError` of an item of the stored history
  invalid_history : StreamError
  -- `TypeError` of the comparison with a null time
  unordered_rows : StreamError
  -- `TypeError` of the subtraction of a time without a zone
  naive_time : StreamError

pub data Invalid : Type 0 where
  invalid : Invalid

-- pydantic refuses null for a field that is not `Optional`
abbrev pub required {ℓ} : {X : Type ℓ} → Option X → Result Invalid X
required none = err invalid
required (some x) = ok x

abbrev pub type_named : String → Result Invalid TransactionType
type_named s =
    if str_eq s "purchase"
    then ok purchase
    else if str_eq s "withdrawal"
    then ok withdrawal
    else if str_eq s "refund"
    then ok refund
    else if str_eq s "transfer"
    then ok transfer
    else err invalid

abbrev pub channel_named : String → Result Invalid TransactionChannel
channel_named s =
    if str_eq s "online"
    then ok online
    else if str_eq s "in_store"
    then ok in_store
    else if str_eq s "atm"
    then ok atm
    else if str_eq s "mobile"
    then ok mobile
    else err invalid

-- the f-string of a card that is null
abbrev pub card_name : Option String → String
card_name card_id = or_else card_id "None"

abbrev pub same_card : Option String → Option String → Bool
same_card none none = true
same_card none (some d) = false
same_card (some c) none = false
same_card (some c) (some d) = str_eq c d

module _ {A : Type 0} where
  -- `by_card.setdefault(row["card_id"], []).append(row)`
  unfoldable pub add_to_card :
      StreamRow A
      → List (Option String × List (StreamRow A))
      → List (Option String × List (StreamRow A))
  add_to_card row [] = (row.card_id, row ∷ []) ∷ []
  add_to_card row ((card_id, rows) ∷ groups) =
      if same_card card_id row.card_id
      then (card_id, rows ++ row ∷ []) ∷ groups
      else (card_id, rows) ∷ add_to_card row groups

  unfoldable pub group_from :
      List (Option String × List (StreamRow A))
      → List (StreamRow A)
      → List (Option String × List (StreamRow A))
  group_from groups [] = groups
  group_from groups (row ∷ rows) = group_from (add_to_card row groups) rows

  abbrev pub all_timed : List (StreamRow A) → Bool
  all_timed [] = true
  all_timed (row ∷ rows) = is_some row.event_time && all_timed rows

  -- `card_rows.sort(key=…)`: with two rows or more every key is compared, and null with nothing
  unfoldable pub sort_rows : List (StreamRow A) → Result StreamError (List (StreamRow A))
  sort_rows rows =
      if leb (length rows) 1
      then ok rows
      else if all_timed rows
      then ok (sort (by_key (λ r. or_else r.event_time 0)) rows)
      else err unordered_rows

  -- `max(t.event_time for t in valid_txns)`
  abbrev pub newest_event : Transaction A → List (Transaction A) → ℕ
  newest_event t [] = t.event_time
  newest_event t (u ∷ us) = max t.event_time (newest_event u us)

  abbrev pub observe_lag : (ℕ → Bool) → List (Transaction A) → Result {0, 0} StreamError Unit
  observe_lag has_zone [] = ok tt
  observe_lag has_zone (t ∷ ts) = if has_zone (newest_event t ts) then ok tt else err naive_time

unfoldable pub failure_message : (ℕ → String) → ℕ → ℕ → String
failure_message show invalid_count batch_id =
    concat (show invalid_count ∷ " rows failed validation in batch " ∷ show batch_id ∷ [])

module _ {A R : Type 0} where
  abbrev pub persist_valid : ℕ → List (Transaction A) → Database A R → Database A R
  persist_valid now [] db = db
  persist_valid now (t ∷ ts) db = (persist_transactions now (t ∷ ts) db).0

  -- The database after a group's result. `show` writes a number, `has_zone` says whether a time can be
  -- subtracted from the current time in UTC; `stamp` is of the statements' rows.
  unfoldable pub record_batch :
      (ℕ → String) → Stamp → ℕ → List (Transaction A) → ℕ → Database A R → Database A R
  record_batch show stamp batch_id valid_txns invalid_count db =
      let db1 = persist_valid stamp.now valid_txns db in
      if leb 1 invalid_count
      then write_audit_log stamp "validation_failure_batch"
          (failure_message show invalid_count batch_id) none "warning" db1
      else db1

-- `to_bool` is pydantic's reading of a text as a `bool`.
module _ {A : Type 0} ⦃f : Floating A⦄ (upper : String → String)
    (to_bool : String → Option Bool) where
  -- `Transaction.model_validate(row)`; the texts of the errors are pydantic's
  unfoldable pub validate_row : StreamRow A → Result Invalid (Transaction A)
  validate_row row = do
    transaction_id ← required row.transaction_id
    card_id ← required row.card_id
    user_id ← required row.user_id
    amount ← required row.amount
    currency ← required row.currency
    merchant_id ← required row.merchant_id
    merchant_category ← required row.merchant_category
    transaction_type ← required row.transaction_type >>= type_named
    channel ← required row.channel >>= channel_named
    latitude ← required row.latitude
    longitude ← required row.longitude
    country ← required row.country
    event_time ← required row.event_time
    flag ← required row.is_simulated_fraud
    is_simulated_fraud ← required (to_bool flag)
    required (
        validate upper (record {
          transaction_id = transaction_id;
          card_id = card_id;
          user_id = user_id;
          amount = amount;
          currency = currency;
          merchant_id = merchant_id;
          merchant_category = merchant_category;
          transaction_type = transaction_type;
          channel = channel;
          latitude = latitude;
          longitude = longitude;
          country = country;
          device_id = row.device_id;
          ip_address = row.ip_address;
          event_time = event_time;
          zone = row.zone;
          is_simulated_fraud = is_simulated_fraud;
        }))

module _ {A S : Type 0} ⦃f : Floating A⦄ (redis : Redis S) (codec : Codec A) (settings : Settings A)
    (to_bool : String → Option Bool) where
  -- The rows of one card: what the store becomes, the valid transactions and the number of invalid rows.
  unfoldable pub process_rows :
      List (Transaction A) → List (StreamRow A) → S → S × List (Transaction A) × ℕ
  process_rows history [] s = (s, [], 0)
  process_rows history (row ∷ rows) s = elim (validate_row codec.upper to_bool row) [
    | err e ↦
        let (s1, valid_txns, invalid_count) = process_rows history rows s in
        (s1, valid_txns, suc invalid_count)
    | ok txn ↦
        let feature_vector = compute_features history txn in
        let s1 = write_features redis codec settings feature_vector s in
        let s2 = append_history redis codec settings txn s1 in
        let (s3, valid_txns, invalid_count) = process_rows (history ++ txn ∷ []) rows s2 in
        (s3, txn ∷ valid_txns, invalid_count)
  ]

  -- An exception ends it, and what was written for the cards before stays.
  unfoldable pub process_groups :
      List (Option String × List (StreamRow A))
      → S
      → S × Result StreamError (List (Transaction A) × ℕ)
  process_groups [] s = (s, ok ([], 0))
  process_groups ((card_id, rows) ∷ groups) s =
      elim (get_history redis codec settings (card_name card_id) max_history_len s) [
        | none ↦ (s, err invalid_history)
        | some history ↦ elim (sort_rows rows) [
          | err e ↦ (s, err e)
          | ok card_rows ↦
              let (s1, valid_txns, invalid_count) = process_rows history card_rows s in
              let (s2, rest) = process_groups groups s1 in
              (s2, rest >>= λ (more, count). ok (valid_txns ++ more, invalid_count + count))
        ]
      ]

  unfoldable pub process_partition_group :
      List (StreamRow A) → S → S × Result StreamError (List (Transaction A) × ℕ)
  process_partition_group rows s = process_groups (group_from [] rows) s

  module _ {R : Type 0} where
    unfoldable pub process_batch :
        (ℕ → String)
        → (ℕ → Bool)
        → Stamp
        → List (StreamRow A)
        → ℕ
        → S × Database A R
        → (S × Database A R) × Result {0, 0} StreamError Unit
    process_batch show has_zone stamp [] batch_id (s, db) = ((s, db), ok tt)
    process_batch show has_zone stamp (row ∷ rows) batch_id (s, db) =
        let (s1, result) = process_partition_group (row ∷ rows) s in
        elim result [
          | err e ↦ ((s1, db), err e)
          | ok (valid_txns, invalid_count) ↦ (
            (s1, record_batch show stamp batch_id valid_txns invalid_count db),
            observe_lag has_zone valid_txns,
          )
        ]
