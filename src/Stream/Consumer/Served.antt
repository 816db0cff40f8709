-- ===== src/Stream/Consumer/Served.antt =====
-- The features that the store serves for a card after its rows.
use realtime_fraud_detection.Common.{
  ◌<◌, ◌≡◌, refl, ap, ◌∙◌, String, Bool, Option, some, List, [], ◌∷◌, ◌++◌, str_eq, if◌then◌else◌,
  inl, inr,
}
use realtime_fraud_detection.Common.Floating.{Floating}
use realtime_fraud_detection.Common.Result.{Result-cases}
use realtime_fraud_detection.Config.{Settings}
use realtime_fraud_detection.Schemas.{Transaction}
use realtime_fraud_detection.Features.{compute_features}
use realtime_fraud_detection.Stream.Redis.{Redis, IsRedis}
use realtime_fraud_detection.Stream.Store.{Codec, write_features, append_history, get_features}
use realtime_fraud_detection.Stream.Store.Bounded.{
  get_features-write_features, get_features-append_history,
}
use realtime_fraud_detection.Stream.Consumer.{StreamRow, validate_row, process_rows}

module _ {A S : Type 0} ⦃f : Floating A⦄ (redis : Redis S) (codec : Codec A)
    (settings : Settings A) where
  -- What is served for the card after the transactions: for the last one of the card, its features over
  -- the history and all transactions before it.
  abbrev pub served :
      String → List (Transaction A) → List (Transaction A) → Option String → Option String
  served card_id history [] old = old
  served card_id history (t ∷ ts) old = served card_id (history ++ t ∷ []) ts (
      if str_eq t.card_id card_id
      then some (codec.dump_features (compute_features history t))
      else old)

  compute_features_card :
      (history : List (Transaction A)) (t : Transaction A)
      → (compute_features history t).card_id ≡ t.card_id
  unfolding compute_features
  compute_features_card history t = refl

  module _ (to_bool : String → Option Bool) (laws : IsRedis redis)
      (lives : 0 < settings.feature_ttl_seconds) where
    -- After the rows of a card the store serves, for every card, the features that the last valid
    -- transaction of that card has over the history and the valid transactions before it; without one, it
    -- serves what it served before.
    pub get_features-process_rows :
        (history : List (Transaction A)) (rows : List (StreamRow A)) (c : String) (s : S)
        → let (s1, valid_txns, invalid_count) =
            process_rows redis codec settings to_bool history rows s in
          get_features redis codec settings c s1
          ≡ served c history valid_txns (get_features redis codec settings c s)
    unfolding process_rows
    get_features-process_rows history [] c s = refl
    get_features-process_rows history (row ∷ rows) c s =
        elim (Result-cases (validate_row codec.upper to_bool row)) [
          | inl (t, e) ↦
              let s1 = write_features redis codec settings (compute_features history t) s in
              let s2 = append_history redis codec settings t s1 in
              rw (e, process_rows)
                (get_features-process_rows (history ++ t ∷ []) rows c s2
                  ∙ ap
                      (served c (history ++ t ∷ [])
                        (process_rows redis codec settings to_bool (history ++ t ∷ []) rows s2).1)
                      (get_features-append_history redis codec settings laws lives t c s1
                        ∙ get_features-write_features redis codec settings laws lives
                            (compute_features history t) c s
                        ∙ rw (compute_features_card history t) refl))
          | inr (x, e) ↦ rw (e, process_rows) (get_features-process_rows history rows c s)
        ]
