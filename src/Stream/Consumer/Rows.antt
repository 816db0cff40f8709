-- ===== src/Stream/Consumer/Rows.antt =====
-- The rows of one card: what the feature store remembers of them, and what it serves.
use realtime_fraud_detection.Common.{
  ◌<◌, ◌≡◌, refl, subst, String, Bool, true, false, count, Option, List, [], ◌∷◌, ◌++◌, All, inl,
  inr, arith,
}
use realtime_fraud_detection.Common.Floating.{Floating}
use realtime_fraud_detection.Common.Result.{Result, ok, err, Result-cases}
use realtime_fraud_detection.Config.{Settings}
use realtime_fraud_detection.Schemas.{Transaction}
use realtime_fraud_detection.Features.{compute_features}
use realtime_fraud_detection.Stream.Redis.{Redis, IsRedis}
use realtime_fraud_detection.Stream.Store.{Codec, write_features, append_history}
use realtime_fraud_detection.Stream.Store.Bounded.{
  Holds, IsSettled, pushed, append_history-Holds, write_features-Holds,
}
use realtime_fraud_detection.Stream.Consumer.{StreamRow, Invalid, validate_row, process_rows}

module _ {A : Type 0} where
  -- The history of a card after the transactions, one pushed after another.
  abbrev pub remembered :
      List (Transaction A) → String → List (Transaction A) → List (Transaction A)
  remembered [] card_id h = h
  remembered (t ∷ ts) card_id h = remembered ts card_id (pushed t card_id h)

  pub remembered-append :
      (ts us : List (Transaction A)) (c : String) (h : List (Transaction A))
      → remembered (ts ++ us) c h ≡ remembered us c (remembered ts c h)
  remembered-append [] us c h = refl
  remembered-append (t ∷ ts) us c h = remembered-append ts us c (pushed t c h)

abbrev pub Settles :
    {A : Type 0} ⦃f : Floating A⦄ → Codec A → Result Invalid (Transaction A) → Type 0
Settles codec (err e) = Unit
Settles codec (ok t) = IsSettled codec t

module _ {A : Type 0} ⦃f : Floating A⦄ (codec : Codec A) (to_bool : String → Option Bool) where
  -- the row is valid, and its transaction passes the test
  abbrev pub validates : (Transaction A → Bool) → StreamRow A → Bool
  validates p row = elim (validate_row codec.upper to_bool row) [ err e ↦ false | ok t ↦ p t ]

  abbrev pub is_invalid : StreamRow A → Bool
  is_invalid row = elim (validate_row codec.upper to_bool row) [ err e ↦ true | ok t ↦ false ]

  -- A row that is invalid, or whose transaction a second validation leaves as it is.
  abbrev pub IsStable : StreamRow A → Type 0
  IsStable row = Settles codec (validate_row codec.upper to_bool row)

module _ {A S : Type 0} ⦃f : Floating A⦄ (redis : Redis S) (codec : Codec A) (settings : Settings A)
    (to_bool : String → Option Bool) where
  -- the transactions of the valid rows, and the number of the others
  pub count-process_rows :
      (p : Transaction A → Bool) (history : List (Transaction A)) (rows : List (StreamRow A))
      (s : S)
      → let (s1, valid_txns, invalid_count) =
          process_rows redis codec settings to_bool history rows s in
        (count p valid_txns ≡ count (validates codec to_bool p) rows)
        × (invalid_count ≡ count (is_invalid codec to_bool) rows)
  unfolding process_rows count
  count-process_rows p history [] s = (refl, refl)
  count-process_rows p history (row ∷ rows) s =
      elim (Result-cases (validate_row codec.upper to_bool row)) [
        | inl (t, e) ↦ ground (
          arith,
          e,
          count-process_rows p (history ++ t ∷ []) rows (
              append_history redis codec settings t
                (write_features redis codec settings (compute_features history t) s)),
        )
        | inr (x, e) ↦ ground (arith, e, count-process_rows p history rows s)
      ]

  module _ (laws : IsRedis redis) (lives : 0 < settings.feature_ttl_seconds) where
    pub process_rows-Holds :
        (history : List (Transaction A)) (rows : List (StreamRow A)) (c : String)
        (h : List (Transaction A)) (s : S)
        → All (IsStable codec to_bool) rows
        → Holds redis codec settings c h s
        → let (s1, valid_txns, invalid_count) =
            process_rows redis codec settings to_bool history rows s in
          Holds redis codec settings c (remembered valid_txns c h) s1
    unfolding process_rows
    process_rows-Holds history [] c h s stable held = held
    process_rows-Holds history (row ∷ rows) c h s stable held =
        elim (Result-cases (validate_row codec.upper to_bool row)) [
          | inl (t, e) ↦
              rw (e, process_rows)
                (process_rows-Holds (history ++ t ∷ []) rows c (pushed t c h)
                  (append_history redis codec settings t
                    (write_features redis codec settings (compute_features history t) s))
                  stable.1
                  (append_history-Holds redis codec settings laws lives t c h _
                    (subst (Settles codec) e stable.0)
                    (write_features-Holds redis codec settings laws lives
                      (compute_features history t) c h s held)))
          | inr (x, e) ↦ rw (e, process_rows) (process_rows-Holds history rows c h s stable.1 held)
        ]
