-- ===== src/Stream/Store/Bounded.antt =====
-- The feature store keeps, for each card, its newest 500 transactions.
use Prim.Native.String.{◌++◌ as str_append}
use text.Mathlib.TextLemmas.{cons-append, append_cancel_left, append_cancel_right}
use realtime_fraud_detection.Common.{
  ℕ, ◌<◌, ◌≤◌, ◌≡◌, ◌≢◌, refl, sym, ap, ◌∙◌, String, Bool, true, false, some, List, [], ◌∷◌, map,
  take, length, length-take-le, take-map, All-take, All, str_eq, eq_iff, eq_refl, subst, arith,
  if◌then◌else◌, Bool-cases, inl, inr,
}
use realtime_fraud_detection.Common.Floating.{Floating}
use realtime_fraud_detection.Config.{Settings}
use realtime_fraud_detection.Schemas.{Transaction}
use realtime_fraud_detection.Features.{FeatureVector}
use realtime_fraud_detection.Stream.Redis.{Redis, IsRedis}
use realtime_fraud_detection.Stream.Store.{
  get_features, Codec, feature_key, history_key, max_history_len, load, load_all, write_features,
  append_history, get_history,
}

abbrev is_feature_key : String → Bool
is_feature_key String.[] = false
is_feature_key (String.◌∷◌ c s) = str_eq (String.◌∷◌ c String.[]) "f"

feature_key-IsFeature : (c : String) → is_feature_key (feature_key c) ≡ true
unfolding feature_key
feature_key-IsFeature c = ap is_feature_key (cons-append "f" "eatures:card:" (str_append c ""))

history_key-IsFeature : (c : String) → is_feature_key (history_key c) ≡ false
unfolding history_key
history_key-IsFeature c = ap is_feature_key (cons-append "h" "istory:card:" (str_append c ""))

feature_key_inj : (c d : String) → feature_key c ≡ feature_key d → c ≡ d
unfolding feature_key
feature_key_inj c d e = append_cancel_right c d "" (append_cancel_left "features:card:" _ _ e)

feature_key-eq : (c d : String) → str_eq (feature_key c) (feature_key d) ≡ str_eq c d
feature_key-eq c d =
    ground (arith, eq_iff c d, eq_iff (feature_key c) (feature_key d), feature_key_inj c d)

feature_key-ne-history_key : (c d : String) → feature_key c ≢ history_key d
feature_key-ne-history_key c d e =
    cc (feature_key-IsFeature c, history_key-IsFeature d, ap is_feature_key e)

history_key_inj : (c d : String) → history_key c ≡ history_key d → c ≡ d
unfolding history_key
history_key_inj c d e = append_cancel_right c d "" (append_cancel_left "history:card:" _ _ e)

-- equality of two keys is that of the cards
history_key-eq : (c d : String) → str_eq (history_key c) (history_key d) ≡ str_eq c d
history_key-eq c d =
    ground (arith, eq_iff c d, eq_iff (history_key c) (history_key d), history_key_inj c d)

module _ {A : Type 0} ⦃f : Floating A⦄ (codec : Codec A) where
  -- The text of the transaction loads back as it: pydantic reads what it dumped, and validation, which
  -- rewrites two fields, leaves the transaction as it is.
  abbrev pub IsSettled : Transaction A → Type 0
  IsSettled t = load codec (codec.dump t) ≡ some t

  load_all-dump :
      (ts : List (Transaction A)) → All IsSettled ts → load_all codec (map codec.dump ts) ≡ some ts
  unfolding load_all
  load_all-dump [] h = refl
  load_all-dump (t ∷ ts) h = ground (arith, h.0, load_all-dump ts h.1)

module _ {A : Type 0} where
  -- what an append makes of the history of a card
  abbrev pub pushed : Transaction A → String → List (Transaction A) → List (Transaction A)
  pushed t card_id h = if str_eq t.card_id card_id then take max_history_len (t ∷ h) else h

module _ {A S : Type 0} ⦃f : Floating A⦄ (redis : Redis S) (codec : Codec A)
    (settings : Settings A) where
  -- In the store the card has the history `h`, newest first, of at most 500 settled transactions.
  pub record Holds (card_id : String) (h : List (Transaction A)) (s : S) : Type 0 where
    pub stored : redis.lrange (history_key card_id) 0 s ≡ map codec.dump h
    pub settled : All (IsSettled codec) h
    pub bounded : length h ≤ max_history_len

  -- Every card has a history in the store.
  abbrev pub WellKept : S → Type 0
  WellKept s = (c : String) → (h : List (Transaction A)) × Holds c h s

  module _ (laws : IsRedis redis) (lives : 0 < settings.feature_ttl_seconds) where
    open laws use {
      lrange_lem, lrange-lpush, lrange-ltrim, lrange-expire, lrange-set, get-set, get-lpush,
      get-ltrim, get-expire,
    }

    lrange-append_history :
        (t : Transaction A) (c : String) (s : S)
        → let key = history_key c in
          redis.lrange key 0 (append_history redis codec settings t s) ≡ (
            if str_eq t.card_id c
            then take max_history_len (codec.dump t ∷ redis.lrange key 0 s)
            else redis.lrange key 0 s)
    unfolding append_history
    lrange-append_history t c s =
        let k = history_key t.card_id in
        let s1 = redis.lpush k (codec.dump t) s in
        let s2 = redis.ltrim k max_history_len s1 in
        ground (
          arith,
          history_key-eq t.card_id c,
          lrange-expire (history_key c) k settings.feature_ttl_seconds s2 lives,
          lrange-ltrim (history_key c) k max_history_len s1,
          lrange-lpush (history_key c) k (codec.dump t) s,
        )

    -- An append refines a push on the list of the transaction's card, cut off at 500; the other
    -- cards keep theirs.
    pub append_history-Holds :
        (t : Transaction A) (c : String) (h : List (Transaction A)) (s : S)
        → IsSettled codec t
        → Holds c h s
        → Holds c (pushed t c h) (append_history redis codec settings t s)
    append_history-Holds t c h s ok held = elim (Bool-cases (str_eq t.card_id c)) [
      | inl this ↦ rw this (record {
        stored =
            lrange-append_history t c s ∙ rw (this, held.stored, take-map codec.dump 499 h) refl;
        settled = All-take (IsSettled codec) 500 (t ∷ h) (ok, held.settled);
        bounded = length-take-le 500 (t ∷ h);
      })
      | inr other ↦ rw other (record {
        stored = lrange-append_history t c s ∙ rw other held.stored;
        settled = held.settled;
        bounded = held.bounded;
      })
    ]

    pub write_features-Holds :
        (v : FeatureVector A) (c : String) (h : List (Transaction A)) (s : S)
        → Holds c h s
        → Holds c h (write_features redis codec settings v s)
    unfolding write_features
    write_features-Holds v c h s held = record {
      stored =
          lrange-set (history_key c) (feature_key v.card_id) (codec.dump_features v)
            settings.feature_ttl_seconds s lives (feature_key-ne-history_key v.card_id c)
          ∙ held.stored;
      settled = held.settled;
      bounded = held.bounded;
    }

    pub get_history_lem :
        (c : String) (n : ℕ) (h : List (Transaction A)) (s : S)
        → 0 < n
        → Holds c h s
        → get_history redis codec settings c n s ≡ some (take n h)
    unfolding get_history
    get_history_lem c n h s p held =
        rw (lrange_lem (history_key c) n s p, held.stored, take-map codec.dump n h)
          (load_all-dump codec (take n h) (All-take (IsSettled codec) n h held.settled))

    -- what is served for a card is what was written last for it
    pub get_features-write_features :
        (v : FeatureVector A) (c : String) (s : S)
        → get_features redis codec settings c (write_features redis codec settings v s) ≡ (
            if str_eq v.card_id c
            then some (codec.dump_features v)
            else get_features redis codec settings c s)
    unfolding get_features write_features
    get_features-write_features v c s = ground (
      arith,
      get-set (feature_key c) (feature_key v.card_id) (codec.dump_features v)
          settings.feature_ttl_seconds s lives,
      feature_key-eq v.card_id c,
    )

    pub get_features-append_history :
        (t : Transaction A) (c : String) (s : S)
        → get_features redis codec settings c (append_history redis codec settings t s)
          ≡ get_features redis codec settings c s
    unfolding get_features append_history
    get_features-append_history t c s =
        let k = history_key t.card_id in
        let apart : k ≢ feature_key c = λ e. feature_key-ne-history_key c t.card_id (sym e) in
        let s1 = redis.lpush k (codec.dump t) s in
        get-expire (feature_key c) k settings.feature_ttl_seconds (redis.ltrim k max_history_len s1)
          lives
        ∙ get-ltrim (feature_key c) k max_history_len s1 apart
        ∙ get-lpush (feature_key c) k (codec.dump t) s apart

    -- What was appended last is what the card's history gives first: with a settled history `h` of the
    -- transaction's card, reading `n` items after the append gives the first `n` of the transaction and `h`,
    -- cut off at 500.
    pub get_history-append_history :
        (t : Transaction A) (n : ℕ) (h : List (Transaction A)) (s : S)
        → 0 < n
        → IsSettled codec t
        → Holds t.card_id h s
        → get_history redis codec settings t.card_id n (append_history redis codec settings t s)
          ≡ some (take n (take max_history_len (t ∷ h)))
    get_history-append_history t n h s p ok held =
        get_history_lem t.card_id n (take max_history_len (t ∷ h))
          (append_history redis codec settings t s) p
          (subst (λ l. Holds t.card_id l (append_history redis codec settings t s))
            (rw (eq_refl t.card_id) refl) (append_history-Holds t t.card_id h s ok held))
