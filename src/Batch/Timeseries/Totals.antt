-- ===== src/Batch/Timeseries/Totals.antt =====
-- The buckets hold every alert once.
use realtime_fraud_detection.Common.{
  ℕ, zero, suc, ◌+◌, ◌-◌, ◌<◌, ◌≡◌, refl, List, [], ◌∷◌, map, arith, length, count, ap,
}
use realtime_fraud_detection.Common.Floating.{Floating}
use realtime_fraud_detection.Scoring.FeatureRow.{local_time}
use realtime_fraud_detection.Batch.Score.{ScoredTransaction}
use realtime_fraud_detection.Batch.Timeseries.{
  Calendar, Bucket, bump, zeros, earliest, latest, bucket_of, fill, labelled, zone_at,
  bucket_timeseries,
}

abbrev pub sum : List ℕ → ℕ
sum [] = 0
sum (n ∷ ns) = n + sum ns

abbrev pub alerts : List Bucket → ℕ
alerts [] = 0
alerts (b ∷ bs) = b.alert_count + alerts bs

sum-bump : (i : ℕ) (ns : List ℕ) → i < length ns → sum (bump i ns) ≡ suc (sum ns)
sum-bump i [] h = absurd (omega arith)
sum-bump zero (n ∷ ns) h = omega arith
sum-bump (suc i) (n ∷ ns) h = omega (arith, sum-bump i ns)

length-bump : (i : ℕ) (ns : List ℕ) → length (bump i ns) ≡ length ns
length-bump i [] = refl
length-bump zero (n ∷ ns) = refl
length-bump (suc i) (n ∷ ns) = ap suc (length-bump i ns)

sum-zeros : (n : ℕ) → sum (zeros n) ≡ 0
sum-zeros zero = refl
sum-zeros (suc n) = omega (arith, sum-zeros n)

length-zeros : (n : ℕ) → length (zeros n) ≡ n
length-zeros zero = refl
length-zeros (suc n) = ap suc (length-zeros n)

module _ {A : Type 0} ⦃f : Floating A⦄ (cal : Calendar A) where
  bucket_of-lt : (n start end t : ℕ) → 0 < n → bucket_of cal n start end t < n
  unfolding bucket_of
  bucket_of-lt n start end t h = omega arith

  fill-keeps :
      (n start end : ℕ) (l : List (ScoredTransaction A)) (buckets : List ℕ)
      → 0 < n
      → length buckets ≡ n
      → (length (fill cal n start end l buckets) ≡ n)
        × (sum (fill cal n start end l buckets) ≡ sum buckets + count (λ s. s.routed_to_review) l)
  unfolding fill count
  fill-keeps n start end [] buckets h k = (k, omega arith)
  fill-keeps n start end (s ∷ rest) buckets h k =
      let i = bucket_of cal n start end s.txn.event_time in
      ground (
        arith,
        bucket_of-lt n start end s.txn.event_time,
        sum-bump i buckets,
        length-bump i buckets,
        fill-keeps n start end rest (bump i buckets) h,
        fill-keeps n start end rest buckets h,
      )

  labelled-keeps :
      (n first last span i : ℕ) (ns : List ℕ)
      → (length (labelled cal n first last span i ns) ≡ length ns)
        × (alerts (labelled cal n first last span i ns) ≡ sum ns)
  unfolding labelled
  labelled-keeps n first last span i [] = (refl, refl)
  labelled-keeps n first last span i (m ∷ ns) =
      ground (arith, labelled-keeps n first last span (suc i) ns)

  -- With at least one bucket asked for, the series of a file that is not empty has exactly as many
  -- buckets as asked for, and their counts add up to the number of rows routed to review: no alert
  -- falls outside, the last one's own included.
  pub bucket_timeseries_total :
      (n : ℕ) (s : ScoredTransaction A) (rest : List (ScoredTransaction A))
      → 0 < n
      → let series = bucket_timeseries cal n (s ∷ rest) in
        (length series ≡ n) × (alerts series ≡ count (λ r. r.routed_to_review) (s ∷ rest))
  unfolding bucket_timeseries
  bucket_timeseries_total n s rest h =
      let times = map (λ (r : ScoredTransaction A). r.txn.event_time) rest in
      let start = earliest s.txn.event_time times in
      let end = latest s.txn.event_time times in
      let filled = fill cal n start end (s ∷ rest) (zeros n) in
      omega (
        arith,
        fill-keeps n start end (s ∷ rest) (zeros n) h (length-zeros n),
        labelled-keeps n (local_time start (zone_at start (s ∷ rest)))
            (local_time end (zone_at end (s ∷ rest))) (end - start) 0 filled,
        sum-zeros n,
      )
