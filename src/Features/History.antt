-- ===== src/Features/History.antt =====
-- What of the history `compute_features` depends on.
use mathlib.Core.List.{Permᴰ}
use realtime_fraud_detection.Common.{◌≡◌, ap, List, [], ◌∷◌, ◌++◌, arith, filter, eq_iff}
use realtime_fraud_detection.Common.Sort.{sort, by_key, DistinctKeys, sort-filter_of_perm}
use realtime_fraud_detection.Common.Floating.{Floating}
use realtime_fraud_detection.Schemas.{Transaction}
use realtime_fraud_detection.Features.{features_of, other_than, compute_features}

module _ {A : Type 0} where
  filter-other_than :
      (xs ys : List (Transaction A)) (copy current : Transaction A)
      → copy.transaction_id ≡ current.transaction_id
      → filter (other_than current) (xs ++ copy ∷ ys) ≡ filter (other_than current) (xs ++ ys)
  unfolding filter
  filter-other_than [] ys copy current h =
      ground (arith, eq_iff copy.transaction_id current.transaction_id)
  filter-other_than (x ∷ xs) ys copy current h =
      ground (arith, filter-other_than xs ys copy current h)

module _ {A : Type 0} ⦃f : Floating A⦄ where
  -- A copy of the transaction in its own history, wherever it stands and whatever else it says,
  -- changes no feature of it.
  pub compute_features_redelivery :
      (xs ys : List (Transaction A)) (copy current : Transaction A)
      → copy.transaction_id ≡ current.transaction_id
      → compute_features (xs ++ copy ∷ ys) current ≡ compute_features (xs ++ ys) current
  unfolding compute_features
  compute_features_redelivery xs ys copy current h =
      ap (λ l. features_of (sort (by_key (λ t. t.event_time)) l) current)
        (filter-other_than xs ys copy current h)

  -- The history may come in any order: where no two of its events have one time, a permutation of
  -- it gives the same feature vector.
  compute_features-perm :
      {history other : List (Transaction A)} (current : Transaction A)
      → Permᴰ history other
      → DistinctKeys (λ t. t.event_time) history
      → compute_features history current ≡ compute_features other current
  unfolding compute_features
  compute_features-perm current p h =
      ap (λ past. features_of past current)
        (sort-filter_of_perm (λ t. t.event_time) (other_than current) p h)
