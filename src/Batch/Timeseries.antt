-- ===== src/Batch/Timeseries.antt =====
-- src/api/batch.py, `bucket_timeseries`. `Calendar` holds `strftime` in its two formats, of a local
-- time, and the product of a timedelta and a float, in microseconds.
pub mod Totals
use realtime_fraud_detection.Common.{
  ℕ, zero, suc, ◌+◌, ◌-◌, ◌/◌, min, max, String, Bool, true, false, Option, none, List, [], ◌∷◌,
  map, ◌==◌, ltb, if◌then◌else◌,
}
use realtime_fraud_detection.Common.Int.{ℤ, pos}
use realtime_fraud_detection.Common.Floating.{Floating, lit}
use realtime_fraud_detection.Features.{total_seconds}
use realtime_fraud_detection.Scoring.FeatureRow.{local_time}
use realtime_fraud_detection.Batch.Score.{ScoredTransaction}

pub record Calendar (A : Type 0) : Type 0 where
  pub hour_minute : ℕ → String
  pub month_day : ℕ → String
  pub scale : ℕ → A → ℕ

pub record Bucket : Type 0 where
  pub label : String
  pub alert_count : ℕ

-- `buckets[i] += 1`
abbrev pub bump : ℕ → List ℕ → List ℕ
bump i [] = []
bump zero (n ∷ ns) = suc n ∷ ns
bump (suc i) (n ∷ ns) = n ∷ bump i ns

abbrev pub zeros : ℕ → List ℕ
zeros zero = []
zeros (suc n) = 0 ∷ zeros n

-- `min` and `max` of a list that starts with `t`
abbrev pub earliest : ℕ → List ℕ → ℕ
earliest t [] = t
earliest t (u ∷ us) = min t (earliest u us)

abbrev pub latest : ℕ → List ℕ → ℕ
latest t [] = t
latest t (u ∷ us) = max t (latest u us)

-- The zone that `min` or `max` returns with its result: the one of the first transaction at that time.
unfoldable pub zone_at : {A : Type 0} → ℕ → List (ScoredTransaction A) → Option ℤ
zone_at t [] = none
zone_at t (s ∷ rest) =
    let found = zone_at t rest in if s.txn.event_time == t then s.txn.zone else found

abbrev pub day : ℕ → ℕ
day t = t / 86400000000

module _ {A : Type 0} ⦃f : Floating A⦄ (cal : Calendar A) where
  -- the bucket of a time; a span of no time counts as one second
  unfoldable pub bucket_of : ℕ → ℕ → ℕ → ℕ → ℕ
  bucket_of num_buckets start end t =
      let span : A = if end == start then lit 1 0 else total_seconds (pos (end - start)) in
      let bucket_seconds = f.div span (f.of_int (pos num_buckets)) in
      let offset = total_seconds (pos (t - start)) in
      min (f.to_nat (f.div offset bucket_seconds)) (num_buckets - 1)

  unfoldable pub fill : ℕ → ℕ → ℕ → List (ScoredTransaction A) → List ℕ → List ℕ
  fill num_buckets start end [] buckets = buckets
  fill num_buckets start end (s ∷ rest) buckets = fill num_buckets start end rest (
      if s.routed_to_review
      then bump (bucket_of num_buckets start end s.txn.event_time) buckets
      else buckets)

  -- the label of a bucket, between the local times of the first and the last transaction
  label_of : ℕ → ℕ → ℕ → ℕ → ℕ → String
  label_of num_buckets first last span i =
      let part = f.div (f.of_int (pos i)) (f.of_int (pos (max (num_buckets - 1) 1))) in
      let bucket_time = first + cal.scale span part in
      if day first == day last then cal.hour_minute bucket_time else cal.month_day bucket_time

  labelled : ℕ → ℕ → ℕ → ℕ → ℕ → List ℕ → List Bucket
  labelled num_buckets first last span i [] = []
  labelled num_buckets first last span i (n ∷ ns) =
      record { label = label_of num_buckets first last span i; alert_count = n }
      ∷ labelled num_buckets first last span (suc i) ns

  unfoldable pub bucket_timeseries : ℕ → List (ScoredTransaction A) → List Bucket
  unfolding labelled label_of
  bucket_timeseries num_buckets [] = []
  bucket_timeseries num_buckets (s ∷ rest) =
      let times = map (λ (r : ScoredTransaction A). r.txn.event_time) rest in
      let start = earliest s.txn.event_time times in
      let end = latest s.txn.event_time times in
      labelled num_buckets (local_time start (zone_at start (s ∷ rest)))
        (local_time end (zone_at end (s ∷ rest))) (end - start) 0
        (fill num_buckets start end (s ∷ rest) (zeros num_buckets))
