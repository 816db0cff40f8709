-- ===== src/Batch/Payload/Counts.antt =====
-- The numbers of the dashboard agree with one another.
use realtime_fraud_detection.Common.{
  ℕ, suc, ◌+◌, ◌≤◌, ◌≡◌, refl, sym, ◌∙◌, Bool, true, List, [], ◌∷◌, map, arith, length, take,
  filter, count, length-filter, length-map, length-take, count-le-length, min, All, leb,
}
use realtime_fraud_detection.Common.Dict.{Dict}
use realtime_fraud_detection.Common.Sort.{sort, insert, length-sort}
use realtime_fraud_detection.Common.Floating.{Floating}
use realtime_fraud_detection.Scoring.Inference.{ModelState}
use realtime_fraud_detection.Batch.Parse.{RowError}
use realtime_fraud_detection.Batch.Score.{ScoredTransaction, ReasonTag}
use realtime_fraud_detection.Batch.Timeseries.{Calendar, bucket_timeseries}
use realtime_fraud_detection.Batch.Timeseries.Totals.{alerts, bucket_timeseries_total}
use realtime_fraud_detection.Batch.Payload.{
  Payload, ReasonShare, is_block, is_alert, count_tag, count_reasons, reason_shares, by_score,
  build_dashboard_payload, reason_share, top_alert, geo_point,
}

abbrev pub tallied : List (ReasonTag × ℕ) → ℕ
tallied [] = 0
tallied ((t, n) ∷ rest) = n + tallied rest

abbrev pub occurrences : {A : Type 0} → List (ReasonShare A) → ℕ
occurrences [] = 0
occurrences (r ∷ rs) = r.occurrences + occurrences rs

tallied-count_tag :
    (tag : ReasonTag) (counts : List (ReasonTag × ℕ))
    → tallied (count_tag tag counts) ≡ suc (tallied counts)
unfolding count_tag
tallied-count_tag tag [] = omega arith
tallied-count_tag tag ((t, n) ∷ rest) = ground (arith, tallied-count_tag tag rest)

tallied-count_reasons :
    {A : Type 0} (rows : List (ScoredTransaction A)) (counts : List (ReasonTag × ℕ))
    → tallied (count_reasons rows counts) ≡ tallied counts + length rows
unfolding count_reasons
tallied-count_reasons [] counts = omega arith
tallied-count_reasons (s ∷ rest) counts = omega (
  arith,
  tallied-count_reasons rest (count_tag s.reason_tag counts),
  tallied-count_tag s.reason_tag counts,
)

tallied-insert :
    (before : ReasonTag × ℕ → ReasonTag × ℕ → Bool) (c : ReasonTag × ℕ)
    (counts : List (ReasonTag × ℕ))
    → tallied (insert before c counts) ≡ c.1 + tallied counts
unfolding insert
tallied-insert before c [] = omega arith
tallied-insert before c (d ∷ rest) = ground (arith, tallied-insert before c rest)

tallied-sort :
    (before : ReasonTag × ℕ → ReasonTag × ℕ → Bool) (counts : List (ReasonTag × ℕ))
    → tallied (sort before counts) ≡ tallied counts
unfolding sort
tallied-sort before [] = refl
tallied-sort before (c ∷ rest) =
    omega (arith, tallied-insert before c (sort before rest), tallied-sort before rest)

-- a row that is blocked is an alert, as the policy makes it
abbrev pub BlocksAreAlerts : {A : Type 0} → List (ScoredTransaction A) → Type 0
BlocksAreAlerts = All (λ s. is_block s ≡ true → is_alert s ≡ true)

block-le-alert :
    {A : Type 0} (l : List (ScoredTransaction A))
    → BlocksAreAlerts l
    → count is_block l ≤ count is_alert l
unfolding count
block-le-alert [] h = omega arith
block-le-alert (s ∷ l) h = ground (arith, h.0, block-le-alert l h.1)

-- What the payload of some scored rows says.
pub record IsTallied {A : Type 0} (p : Payload A) : Type 0 where
  pub fraud : p.kpis.fraudulent_transactions ≤ p.kpis.alerts_triggered
  pub alerted : p.kpis.alerts_triggered ≤ p.kpis.total_transactions
  pub reasons : occurrences p.reasons ≡ p.kpis.fraudulent_transactions
  pub series : alerts p.timeseries ≡ p.kpis.alerts_triggered
  pub listed : length p.top_alerts ≡ min 200 p.kpis.alerts_triggered
  pub mapped : length p.geo_points ≡ min 300 p.kpis.alerts_triggered
  pub scored : p.upload_meta.rows_scored ≡ p.kpis.total_transactions

occurrences-map :
    (A : Type 0) ⦃f : Floating A⦄ (n : ℕ) (counts : List (ReasonTag × ℕ))
    → occurrences (map (reason_share {A = A} n) counts) ≡ tallied counts
occurrences-map A n [] = refl
occurrences-map A n (c ∷ rest) = omega (arith, occurrences-map A n rest)

module _ {A : Type 0} ⦃f : Floating A⦄ where
  occurrences-reason_shares :
      (rows : List (ScoredTransaction A))
      → occurrences (reason_shares {A = A} (length rows) (count_reasons rows [])) ≡ length rows
  unfolding reason_shares
  occurrences-reason_shares rows =
      let counts = count_reasons rows [] in
      omega (
        arith,
        occurrences-map A (length rows) (sort (λ c d. leb d.1 c.1) counts),
        tallied-sort (λ c d. leb d.1 c.1) counts,
        tallied-count_reasons rows [],
      )

  length-by_score : (rows : List (ScoredTransaction A)) → length (by_score rows) ≡ length rows
  unfolding by_score
  length-by_score rows = length-sort _ rows

  alerts-series :
      (cal : Calendar A) (scored : List (ScoredTransaction A))
      → alerts (bucket_timeseries cal 12 scored) ≡ count is_alert scored
  alerts-series cal [] = unfold bucket_timeseries count in refl
  alerts-series cal (s ∷ rest) = (bucket_timeseries_total cal 12 s rest (omega arith)).1

  length-listed :
      {B : Type 0} (g : ScoredTransaction A → B) (n : ℕ) (rows : List (ScoredTransaction A))
      → length (map g (take n (by_score rows))) ≡ min n (length rows)
  length-listed g n rows = omega (
    arith,
    length-map g (take n (by_score rows)),
    length-take n (by_score rows),
    length-by_score rows,
  )

module _ {A M E : Type 0} ⦃f : Floating A⦄ (cal : Calendar A) (state : ModelState A M E) where
  -- If every blocked row is an alert, the numbers of the dashboard agree: blocked rows are at most
  -- the alerts, and these at most the rows; the reasons' counts add up to the blocked rows and the
  -- series' counts to the alerts; the table lists every alert, up to 200, and the map up to 300.
  pub build_dashboard_payload-IsTallied :
      (scored : List (ScoredTransaction A)) (row_errors : List RowError) (rows_in_file : ℕ)
      (truncated : Bool) (metrics : Dict A)
      → BlocksAreAlerts scored
      → IsTallied
          (build_dashboard_payload cal state scored row_errors rows_in_file truncated metrics)
  unfolding build_dashboard_payload
  build_dashboard_payload-IsTallied scored row_errors rows_in_file truncated metrics h = record {
    fraud = omega (
      arith,
      length-filter is_block scored,
      length-filter is_alert scored,
      block-le-alert scored h,
    );
    alerted = omega (arith, length-filter is_alert scored, count-le-length is_alert scored);
    reasons = occurrences-reason_shares (filter is_block scored);
    series = alerts-series cal scored ∙ sym (length-filter is_alert scored);
    listed = length-listed top_alert 200 (filter is_alert scored);
    mapped = length-listed geo_point 300 (filter is_alert scored);
    scored = refl;
  }
