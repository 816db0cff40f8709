-- ===== src/Schemas.antt =====
-- src/common/schemas.py and src/feature_engineering/validation.py: the transaction and the
-- constraints that its fields declare. A `datetime` is `event_time` and `zone`: the microseconds since the
-- last day before year 1, in UTC or by the clock where there is no zone, and the zone's offset in microseconds.
pub mod Constraints
use Prim.Native.String.{count as chars}
use realtime_fraud_detection.Common.{
  ℕ, String, Bool, true, not, ◌&&◌, Option, none, some, leb, if◌then◌else◌,
}
use realtime_fraud_detection.Common.Int.{ℤ, negsuc}
use realtime_fraud_detection.Common.Floating.{Floating, ◌≤ᶠ◌, ◌<ᶠ◌, lit}

pub data TransactionType : Type 0 where
  purchase withdrawal refund transfer : TransactionType

pub data TransactionChannel : Type 0 where
  online in_store atm mobile : TransactionChannel

pub record Transaction (A : Type 0) : Type 0 where
  pub transaction_id : String
  pub card_id : String
  pub user_id : String
  pub amount : A
  pub currency : String
  pub merchant_id : String
  pub merchant_category : String
  pub transaction_type : TransactionType
  pub channel : TransactionChannel
  pub latitude : A
  pub longitude : A
  pub country : String
  pub device_id : Option String
  pub ip_address : Option String
  pub event_time : ℕ
  pub zone : Option ℤ
  pub is_simulated_fraud : Bool

-- `Field(min_length=lo, max_length=hi)`
abbrev pub fits : ℕ → ℕ → String → Bool
fits lo hi s = leb lo (chars s) && leb (chars s) hi

abbrev pub fits_option : ℕ → Option String → Bool
fits_option hi none = true
fits_option hi (some s) = leb (chars s) hi

module _ {A : Type 0} ⦃f : Floating A⦄ where
  texts_ok : Transaction A → Bool
  texts_ok t =
      fits 1 64 t.transaction_id
      && fits 1 64 t.card_id
      && fits 1 64 t.user_id
      && fits 3 3 t.currency
      && fits 1 64 t.merchant_id
      && fits 1 32 t.merchant_category
      && fits 2 2 t.country
      && fits_option 64 t.device_id
      && fits_option 45 t.ip_address

  -- a bound refuses what is past it, which NaN is not
  numbers_ok : Transaction A → Bool
  numbers_ok t =
      not (t.amount ≤ᶠ lit 0 0)
      && not (lit 1000000 0 <ᶠ t.amount)
      && not (t.latitude <ᶠ f.of_int (negsuc 89))
      && not (lit 90 0 <ᶠ t.latitude)
      && not (t.longitude <ᶠ f.of_int (negsuc 179))
      && not (lit 180 0 <ᶠ t.longitude)

  -- The constraints of the fields, then the two validators. `none` is a `ValidationError`; the
  -- conversion of raw values to the fields' types is pydantic's, and has been done.
  unfoldable pub validate : (String → String) → Transaction A → Option (Transaction A)
  unfolding texts_ok numbers_ok
  validate upper t =
      if texts_ok t && numbers_ok t
      then some (record t { currency = upper t.currency; country = upper t.country })
      else none
