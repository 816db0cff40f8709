-- ===== src/Tests/Stream.antt =====
-- The stream at concrete data, over a Redis that is two functions.
use realtime_fraud_detection.Common.{
  ℕ, ◌+◌, ◌≡◌, refl, Bool, true, false, String, Option, none, some, List, [], ◌∷◌, length, count,
  take, min, All, ◌==◌, str_eq, eq_iff, arith, if◌then◌else◌,
}
use realtime_fraud_detection.Common.Floating.{Micros, micros_floating}
use realtime_fraud_detection.Schemas.{Transaction, validate}
use realtime_fraud_detection.Storage.Tables.{Stamp, empty_database}
use realtime_fraud_detection.Stream.Redis.{Redis, IsRedis}
use realtime_fraud_detection.Stream.Store.{
  Codec, load, max_history_len, append_history, get_history, get_features,
}
use realtime_fraud_detection.Stream.Store.Bounded.{IsSettled, WellKept, get_history-append_history}
use realtime_fraud_detection.Stream.Consumer.{
  StreamRow, validate_row, process_rows, process_batch, observe_lag,
}
use realtime_fraud_detection.Stream.Consumer.Rows.{IsStable}
use realtime_fraud_detection.Stream.Consumer.Digest.{Digest}
use realtime_fraud_detection.Stream.Consumer.Served.{served, get_features-process_rows}
use realtime_fraud_detection.Stream.Consumer.Batch.{AllStored, process_batch_lem}
use realtime_fraud_detection.Tests.{settings, first, second}

record Memory : Type 0 where
  pub lists : String → List String
  pub values : String → Option String

abbrev update {ℓ} : {X : Type ℓ} → String → X → (String → X) → String → X
update k x f j = if str_eq k j then x else f j

abbrev memory : Redis Memory
memory = record {
  lpush = λ k v s. record s { lists = update k (v ∷ s.lists k) s.lists };
  ltrim = λ k n s. record s { lists = update k (take n (s.lists k)) s.lists };
  expire = λ k t s. s;
  lrange = λ k n s. if n == 0 then s.lists k else take n (s.lists k);
  set = λ k v t s. record s { values = update k (some v) s.values };
  get = λ k s. s.values k;
}

memory-IsRedis : IsRedis memory
memory-IsRedis = record {
  lrange_lem = λ k n s h. ground arith;
  lrange-lpush = λ j k v s. ground (arith, eq_iff k j);
  lrange-ltrim = λ j k n s h. ground (arith, eq_iff k j);
  lrange-expire = λ j k t s h. refl;
  lrange-set = λ j k v t s h e. refl;
  get-set = λ j k v t s h. refl;
  get-lpush = λ j k v s e. refl;
  get-ltrim = λ j k n s e. refl;
  get-expire = λ j k t s h. refl;
}

-- texts that stand for the two transactions
abbrev codec : Codec Micros
codec = record {
  dump = λ t. t.transaction_id;
  read = λ item.
      if str_eq item "t1" then some first else if str_eq item "t2" then some second else none;
  upper = λ s. s;
  dump_features = λ v. v.card_id;
}

abbrev empty_memory : Memory
empty_memory = record { lists = λ k. []; values = λ k. none }

empty_memory-WellKept : WellKept memory codec settings empty_memory
empty_memory-WellKept c = ([], record { stored = refl; settled = tt; bounded = omega arith })

first-IsSettled : IsSettled codec first
unfolding load validate
first-IsSettled = refl

get_history-append_history_example :
    get_history memory codec settings "c1" 20
      (append_history memory codec settings first empty_memory)
    ≡ some (take 20 (take max_history_len (first ∷ [])))
unfolding empty_memory-WellKept
get_history-append_history_example =
    get_history-append_history memory codec settings memory-IsRedis (omega arith) first 20 []
      empty_memory (omega arith) first-IsSettled (empty_memory-WellKept "c1").1

abbrev row_of : Transaction Micros → StreamRow Micros
row_of t = record {
  transaction_id = some t.transaction_id;
  card_id = some t.card_id;
  user_id = some t.user_id;
  amount = some t.amount;
  currency = some t.currency;
  merchant_id = some t.merchant_id;
  merchant_category = some t.merchant_category;
  transaction_type = some "purchase";
  channel = some "online";
  latitude = some t.latitude;
  longitude = some t.longitude;
  country = some t.country;
  device_id = t.device_id;
  ip_address = t.ip_address;
  event_time = some t.event_time;
  zone = t.zone;
  is_simulated_fraud = some "false";
}

abbrev to_bool : String → Option Bool
to_bool s = if str_eq s "false" then some false else none

abbrev rows : List (StreamRow Micros)
rows = row_of second ∷ record (row_of first) { amount = none } ∷ row_of first ∷ []

rows-IsStable : All (IsStable codec to_bool) rows
unfolding validate_row validate load
rows-IsStable = (refl, (tt, (refl, tt)))

abbrev stamp : Stamp
stamp = record { id = "a1"; now = 200 }

get_features-process_rows_example :
    let (s1, valid_txns, invalid_count) =
      process_rows memory codec settings to_bool [] rows empty_memory in
    get_features memory codec settings "c1" s1
    ≡ served memory codec settings "c1" [] valid_txns
        (get_features memory codec settings "c1" empty_memory)
get_features-process_rows_example =
    get_features-process_rows memory codec settings to_bool memory-IsRedis (omega arith) [] rows
      "c1" empty_memory

process_batch_lem_example :
    let ((s1, db1), result) =
      process_batch memory codec settings to_bool
        (λ n. "")
        (λ t. true)
        stamp
        rows
        7
        (empty_memory, empty_database {A = Micros} {R = String}) in
    (v : List (Transaction Micros)) × (n : ℕ) × Digest memory codec settings to_bool
      (λ q. count q rows)
      empty_memory
      s1
      v
      n
    × AllStored db1 v
    × (length db1.audit_logs ≡ 0 + min 1 n)
    × (result ≡ observe_lag (λ t. true) v)
process_batch_lem_example =
    process_batch_lem memory codec settings to_bool memory-IsRedis (omega arith) (λ n. "")
      (λ t. true) stamp rows 7 empty_memory empty_database rows-IsStable (refl, (refl, (refl, tt)))
      empty_memory-WellKept
