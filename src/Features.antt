-- ===== src/Features.antt =====
-- src/feature_engineering/features.py. `compute_features` is what is computed where nothing raises;
-- `try_features` is the function with its exceptions.
pub mod Windows
pub mod History
pub mod Clean
use realtime_fraud_detection.Common.{
  ℕ, ◌+◌, ◌-◌, ◌*◌, String, Bool, true, false, not, ◌&&◌, Option, none, some, List, [], ◌∷◌, ◌++◌,
  map, ltb, leb, str_eq, length, last, filter, any, is_some, if◌then◌else◌,
}
use realtime_fraud_detection.Common.Sort.{sort, by_key}
use realtime_fraud_detection.Common.Int.{ℤ, sub_ℕ, pos_part, neg_part}
use realtime_fraud_detection.Common.Floating.{Floating, ◌≤ᶠ◌, ◌<ᶠ◌, lit, fmin}
use realtime_fraud_detection.Schemas.{Transaction}

pub record FeatureVector (A : Type 0) : Type 0 where
  pub card_id : String
  pub as_of : ℕ
  pub txn_count_1h : ℕ
  pub txn_count_24h : ℕ
  pub avg_amount_1h : A
  pub avg_amount_24h : A
  pub sum_amount_1h : A
  pub sum_amount_24h : A
  pub distinct_merchants_24h : ℕ
  pub velocity_5min : ℕ
  pub seconds_since_last_txn : Option A
  pub distance_from_last_txn_km : Option A
  pub implied_speed_kmh : Option A
  pub amount_zscore_24h : A
  pub is_new_device : Bool

-- `timedelta` in microseconds
abbrev pub minutes : ℕ → ℕ
minutes n = n * 60000000

abbrev pub hours : ℕ → ℕ
hours n = n * 3600000000

abbrev pub contains : String → List String → Bool
contains s [] = false
contains s (x ∷ xs) = if str_eq x s then true else contains s xs

-- A set as the list of its members, each once.
unfoldable pub distinct : List String → List String
distinct [] = []
distinct (x ∷ xs) = let rest = distinct xs in if contains x rest then rest else x ∷ rest

-- `xs[:-1]`
abbrev pub but_last {ℓ} : {X : Type ℓ} → List X → List X
but_last [] = []
but_last (x ∷ []) = []
but_last (x ∷ y ∷ ys) = x ∷ but_last (y ∷ ys)

-- a text that Python takes for true: there, and not empty
abbrev pub truthy : Option String → List String
truthy none = []
truthy (some s) = if str_eq s "" then [] else s ∷ []

abbrev pub is_empty {ℓ} : {X : Type ℓ} → List X → Bool
is_empty [] = true
is_empty (x ∷ xs) = false

module _ {A : Type 0} where
  -- one of the two times has a zone and the other has none
  abbrev pub other_kind : Transaction A → Transaction A → Bool
  other_kind t u = if is_some t.zone then not (is_some u.zone) else is_some u.zone

  -- on the first day of year 1 by its own clock, where a day less is out of range
  abbrev pub is_early : Transaction A → Bool
  is_early t = elim t.zone [
    | none ↦ ltb t.event_time (hours 48)
    | some offset ↦ ltb (t.event_time + pos_part offset) (hours 48 + neg_part offset)
  ]

  abbrev pub in_window : ℕ → ℕ → Transaction A → Bool
  in_window as_of window t = leb (as_of - window) t.event_time && leb t.event_time as_of

  -- `{t.device_id for t in past if t.device_id}`
  abbrev pub devices : List (Transaction A) → List String
  devices [] = []
  devices (t ∷ ts) = truthy t.device_id ++ devices ts

  -- `current` itself, should the history hold it, is left out
  abbrev pub other_than : Transaction A → Transaction A → Bool
  other_than current t = not (str_eq t.transaction_id current.transaction_id)

  unfoldable pub past_of : List (Transaction A) → Transaction A → List (Transaction A)
  past_of history current = sort (by_key (λ t. t.event_time)) (filter (other_than current) history)

  abbrev pub alike : List (Transaction A) → Bool
  alike [] = true
  alike (t ∷ ts) = not (any (other_kind t) ts)

  -- `sorted(…, key=lambda t: t.event_time)`, a `TypeError` where times of both kinds are compared
  unfoldable pub sort_by_time : List (Transaction A) → Option (List (Transaction A))
  sort_by_time l = if alike l then some (sort (by_key (λ t. t.event_time)) l) else none

module _ {A : Type 0} ⦃f : Floating A⦄ where
  unfoldable pub haversine_km : A → A → A → A → A
  haversine_km lat1 lon1 lat2 lon2 =
      let phi1 = f.radians lat1 in
      let phi2 = f.radians lat2 in
      let d_phi = f.radians (f.sub lat2 lat1) in
      let d_lambda = f.radians (f.sub lon2 lon1) in
      let a =
        f.add (f.pow (f.sin (f.div d_phi (lit 2 0))) 2)
          (f.mul (f.mul (f.cos phi1) (f.cos phi2)) (f.pow (f.sin (f.div d_lambda (lit 2 0))) 2)) in
      f.mul (f.mul (lit 2 0) (lit 6371 0)) (f.asin (fmin (lit 1 0) (f.sqrt a)))

  abbrev pub total_seconds : ℤ → A
  total_seconds us = f.div (f.of_int us) (lit 1000000 0)

  -- what is computed from the last transaction: seconds, distance and speed
  unfoldable pub since_last :
      Option (Transaction A) → Transaction A → Option A × Option A × Option A
  since_last none current = (none, none, none)
  since_last (some t) current =
      let seconds = total_seconds (sub_ℕ current.event_time t.event_time) in
      let km = haversine_km t.latitude t.longitude current.latitude current.longitude in
      let speed =
        if lit 0 0 <ᶠ seconds then some (f.div km (f.div seconds (lit 3600 0))) else none in
      (some seconds, some km, speed)

  abbrev pub round_option : Option A → ℕ → Option A
  round_option none n = none
  round_option (some x) n = some (f.round x n)

  unfoldable pub zscore_of : List A → A → A
  zscore_of amounts_24h amount =
      let history_only = but_last amounts_24h in
      let mean_24h = f.fmean history_only in
      let std_24h = f.pstdev history_only in
      if leb 3 (length amounts_24h)
      then (if lit 0 0 <ᶠ std_24h then f.div (f.sub amount mean_24h) std_24h else lit 0 0)
      else lit 0 0

  unfoldable pub new_device : List (Transaction A) → Transaction A → Bool
  new_device past current =
      let known = devices past in
      elim (truthy current.device_id) [
        | [] ↦ false
        | d ∷ _ ↦ not (contains d known) && not (is_empty known)
      ]

  -- the vector of `current` from the sorted past
  unfoldable pub features_of : List (Transaction A) → Transaction A → FeatureVector A
  features_of past current =
      let as_of = current.event_time in
      let window_1h = filter (in_window as_of (hours 1)) past in
      let window_24h = filter (in_window as_of (hours 24)) past in
      let window_5min = filter (in_window as_of (minutes 5)) past ++ current ∷ [] in
      let amounts_1h = map (λ t. t.amount) window_1h ++ current.amount ∷ [] in
      let amounts_24h = map (λ t. t.amount) window_24h ++ current.amount ∷ [] in
      let (seconds, km, speed) = since_last (last past) current in
      record {
        card_id = current.card_id;
        as_of = as_of;
        txn_count_1h = length amounts_1h;
        txn_count_24h = length amounts_24h;
        avg_amount_1h = f.round (f.fmean amounts_1h) 2;
        avg_amount_24h = f.round (f.fmean amounts_24h) 2;
        sum_amount_1h = f.round (f.sum amounts_1h) 2;
        sum_amount_24h = f.round (f.sum amounts_24h) 2;
        distinct_merchants_24h =
            length (distinct (map (λ t. t.merchant_id) window_24h ++ current.merchant_id ∷ []));
        velocity_5min = length window_5min;
        seconds_since_last_txn = seconds;
        distance_from_last_txn_km = round_option km 2;
        implied_speed_kmh = round_option speed 2;
        amount_zscore_24h = f.round (zscore_of amounts_24h current.amount) 4;
        is_new_device = new_device past current;
      }

  -- what `compute_features` gives where it raises nothing
  unfoldable pub compute_features : List (Transaction A) → Transaction A → FeatureVector A
  unfolding features_of past_of
  compute_features history current = features_of (past_of history current) current

  -- with two earlier amounts in the window, `pstdev` raises for a NaN among them
  abbrev pub has_nan : List A → Bool
  has_nan amounts = leb 2 (length amounts) && any (λ x. not (x ≤ᶠ x)) amounts

  -- The exceptions: a `TypeError` of the comparison with a time of the other kind, the `OverflowError` of
  -- `as_of - window`, and that of `pstdev`.
  unfoldable pub comparable : List (Transaction A) → Transaction A → Bool
  comparable history current =
      let past = past_of history current in
      not (any (other_kind current) past)
      && not (is_early current)
      && not (has_nan (map (λ t. t.amount) (filter (in_window current.event_time (hours 24)) past)))

  unfoldable pub try_features : List (Transaction A) → Transaction A → Option (FeatureVector A)
  unfolding comparable compute_features
  try_features history current =
      if comparable history current then some (compute_features history current) else none

  -- strictly faster than plausible; without a speed, no
  unfoldable pub is_impossible_travel : FeatureVector A → A → Bool
  is_impossible_travel v max_plausible_speed_kmh = elim v.implied_speed_kmh [
    | none ↦ false
    | some speed ↦ max_plausible_speed_kmh <ᶠ speed
  ]

  unfoldable pub is_velocity_abuse : FeatureVector A → ℕ → Bool
  is_velocity_abuse v max_txns_per_5min = ltb max_txns_per_5min v.velocity_5min
