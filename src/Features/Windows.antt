-- ===== src/Features/Windows.antt =====
-- The trailing windows of `compute_features`: how the counts bound one another.
use realtime_fraud_detection.Common.{
  ℕ, ◌+◌, ◌≤◌, String, ◌≡◌, Bool, true, List, [], ◌∷◌, ◌++◌, map, arith, length, filter, count,
  length-append, length-map, length-filter, count_mono, count-le-length,
}
use realtime_fraud_detection.Common.Sort.{by_key, length-sort}
use realtime_fraud_detection.Common.Floating.{Floating}
use realtime_fraud_detection.Schemas.{Transaction}
use realtime_fraud_detection.Features.{
  FeatureVector, hours, minutes, in_window, other_than, distinct, past_of, compute_features,
}

length-distinct-le : (xs : List String) → length (distinct xs) ≤ length xs
unfolding distinct
length-distinct-le [] = omega arith
length-distinct-le (x ∷ xs) = ground (arith, length-distinct-le xs)

length-distinct-pos : (x : String) (xs : List String) → 1 ≤ length (distinct (xs ++ x ∷ []))
unfolding distinct
length-distinct-pos x [] = omega arith
length-distinct-pos x (y ∷ xs) = ground (arith, length-distinct-pos x xs)

-- The counts of a feature vector, from the narrowest to the widest.
pub record IsNested {A : Type 0} (bound : ℕ) (v : FeatureVector A) : Type 0 where
  pub self : 1 ≤ v.velocity_5min
  pub five_minutes : v.velocity_5min ≤ v.txn_count_1h
  pub one_hour : v.txn_count_1h ≤ v.txn_count_24h
  pub merchants : v.distinct_merchants_24h ≤ v.txn_count_24h
  pub a_merchant : 1 ≤ v.distinct_merchants_24h
  pub day : v.txn_count_24h ≤ bound

module _ {A : Type 0} where
  in_window_mono :
      (as_of v w : ℕ) (t : Transaction A)
      → v ≤ w
      → in_window as_of v t ≡ true
      → in_window as_of w t ≡ true
  in_window_mono as_of v w t h e = ground arith

  pub window_mono :
      (as_of v w : ℕ) (l : List (Transaction A))
      → v ≤ w
      → count (in_window as_of v) l ≤ count (in_window as_of w) l
  window_mono as_of v w l h =
      count_mono (in_window as_of v) (in_window as_of w) l (λ t. in_window_mono as_of v w t h)

  pub length-past_of-le :
      (history : List (Transaction A)) (current : Transaction A)
      → length (past_of history current) ≤ length history
  unfolding past_of
  length-past_of-le history current = omega (
    arith,
    length-sort (by_key (λ (t : Transaction A). t.event_time))
        (filter (other_than current) history),
    length-filter (other_than current) history,
    count-le-length (other_than current) history,
  )

  -- a window's items and the transaction itself
  length-window :
      {B : Type 0} (g : Transaction A → B) (b : B) (p : Transaction A → Bool)
      (l : List (Transaction A))
      → length (map g (filter p l) ++ b ∷ []) ≡ count p l + 1
  length-window g b p l = omega (
    arith,
    length-append (map g (filter p l)) (b ∷ []),
    length-map g (filter p l),
    length-filter p l,
  )

  length-window_self :
      (b : Transaction A) (p : Transaction A → Bool) (l : List (Transaction A))
      → length (filter p l ++ b ∷ []) ≡ count p l + 1
  length-window_self b p l = omega (arith, length-append (filter p l) (b ∷ []), length-filter p l)

module _ {A : Type 0} ⦃f : Floating A⦄ where
  -- For every history: the five-minute velocity is at least 1 (the transaction itself) and at most
  -- the one-hour count, that is at most the 24-hour count, which exceeds the length of the history
  -- by one at most; there is at least one merchant and no more of them than 24-hour transactions.
  pub compute_features-IsNested :
      (history : List (Transaction A)) (current : Transaction A)
      → IsNested (length history + 1) (compute_features history current)
  unfolding compute_features
  compute_features-IsNested history current =
      let past = past_of history current in
      let now = current.event_time in
      let p5 = in_window now (minutes 5) in
      let p1 = in_window now (hours 1) in
      let p24 = in_window now (hours 24) in
      let v = length-window_self current p5 past in
      let c1 = length-window (λ t. t.amount) current.amount p1 past in
      let c24 = length-window (λ t. t.amount) current.amount p24 past in
      let m24 = length-window (λ t. t.merchant_id) current.merchant_id p24 past in
      record {
        self = omega (arith, v);
        five_minutes =
            omega (arith, v, c1, window_mono now (minutes 5) (hours 1) past (omega arith));
        one_hour = omega (arith, c1, c24, window_mono now (hours 1) (hours 24) past (omega arith));
        merchants = omega (
          arith,
          c24,
          m24,
          length-distinct-le
              (map (λ t. t.merchant_id) (filter p24 past) ++ current.merchant_id ∷ []),
        );
        a_merchant =
            length-distinct-pos current.merchant_id (map (λ t. t.merchant_id) (filter p24 past));
        day = omega (arith, c24, count-le-length p24 past, length-past_of-le history current);
      }
