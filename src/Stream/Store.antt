-- ===== src/Stream/Store.antt =====
-- src/feature_engineering/feature_store.py: the history of each card, newest first, and its latest
-- features. The texts are pydantic's and json's (`Codec`); `load` ends in the constraints of the schema.
pub mod Bounded
use realtime_fraud_detection.Common.{
  ℕ, String, Option, none, some, List, [], ◌∷◌, concat, if◌then◌else◌, str_eq,
}
use realtime_fraud_detection.Common.Floating.{Floating}
use realtime_fraud_detection.Config.{Settings}
use realtime_fraud_detection.Schemas.{Transaction, validate}
use realtime_fraud_detection.Features.{FeatureVector}
use realtime_fraud_detection.Stream.Redis.{Redis}

-- `read` is the conversion of the JSON text to the fields' types, before their constraints
pub record Codec (A : Type 0) : Type 0 where
  pub dump : Transaction A → String
  pub read : String → Option (Transaction A)
  pub upper : String → String
  pub dump_features : FeatureVector A → String

unfoldable pub feature_key : String → String
unfolding concat
feature_key card_id = concat ("features:card:" ∷ card_id ∷ [])

unfoldable pub history_key : String → String
unfolding concat
history_key card_id = concat ("history:card:" ∷ card_id ∷ [])

abbrev pub max_history_len : ℕ
max_history_len = 500

module _ {A : Type 0} ⦃f : Floating A⦄ (codec : Codec A) where
  -- `Transaction.model_validate_json`
  unfoldable pub load : String → Option (Transaction A)
  load item = elim (codec.read item) [ none ↦ none | some t ↦ validate codec.upper t ]

  -- the comprehension; `none` is the exception of one item
  unfoldable pub load_all : List String → Option (List (Transaction A))
  load_all [] = some []
  load_all (item ∷ items) = elim (load item) [
    | none ↦ none
    | some t ↦ elim (load_all items) [ none ↦ none | some ts ↦ some (t ∷ ts) ]
  ]

module _ {A S : Type 0} ⦃f : Floating A⦄ (redis : Redis S) (codec : Codec A)
    (settings : Settings A) where
  unfoldable pub write_features : FeatureVector A → S → S
  write_features v s =
      redis.set (feature_key v.card_id) (codec.dump_features v) settings.feature_ttl_seconds s

  unfoldable pub get_features : String → S → Option String
  get_features card_id s = redis.get (feature_key card_id) s

  unfoldable pub append_history : Transaction A → S → S
  append_history txn s =
      let key = history_key txn.card_id in
      redis.expire key settings.feature_ttl_seconds
        (redis.ltrim key max_history_len (redis.lpush key (codec.dump txn) s))

  unfoldable pub get_history : String → ℕ → S → Option (List (Transaction A))
  get_history card_id limit s = load_all codec (redis.lrange (history_key card_id) limit s)
