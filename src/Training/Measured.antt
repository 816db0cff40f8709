-- ===== src/Training/Measured.antt =====
-- What the promotion gate reads of a run that has been trained.
use Prim.Native.String.{◌++◌ as str_append}
use text.Mathlib.Text.{starts_with}
use realtime_fraud_detection.Common.{
  ◌≡◌, ◌≢◌, refl, ap, subst, ◌∙◌, String, Bool, false, ◌||◌, Option, none, some, List, [], ◌∷◌,
  ◌++◌, map, inl, inr, arith, All, count, ◌==◌, str_eq, eq_iff, eq_refl, if◌then◌else◌, Bool-cases,
  concat,
}
use realtime_fraud_detection.Common.Dict.{Dict, get}
use realtime_fraud_detection.Common.Floating.{Floating}
use realtime_fraud_detection.Governance.Registry.{Mlflow}
use realtime_fraud_detection.Governance.Promotion.{is_fairness, fairness_from}
use realtime_fraud_detection.Governance.Promotion.Countries.{
  Distinct, IsReadable, recall_key, eq-recall_key, other-recall_key, count-is_fairness,
  precision-is_fairness, positive_rate-is_fairness, other-fairness_key, get-fairness_from, else_get,
}
use realtime_fraud_detection.Training.{
  Metrics, TestRow, SliceStats, in_country, predicted, evaluate, slice_stats, slices_of,
  fairness_report, unique,
}
use realtime_fraud_detection.Common.Sort.{sort}
use realtime_fraud_detection.Training.Slices.{countries-once}
use realtime_fraud_detection.Training.Tracking.{
  Tracking, IsTracking, fairness_key, fairness_metrics, log_metrics,
}

module _ {A : Type 0} where
  -- the value that a run is left with
  last_of : String → Dict A → Option A → Option A
  last_of k [] o = o
  last_of k ((j, v) ∷ d) o = last_of k d (if str_eq j k then some v else o)

  last_of-append :
      (k : String) (d e : Dict A) (o : Option A)
      → last_of k (d ++ e) o ≡ last_of k e (last_of k d o)
  unfolding last_of
  last_of-append k [] e o = refl
  last_of-append k ((j, v) ∷ d) e o = last_of-append k d e (if str_eq j k then some v else o)

  -- what is no recall changes none
  last_of-recall_key :
      (c : String) (d : Dict A) (o : Option A)
      → All (λ (e : String × A). is_fairness e.0 ≡ false) d
      → last_of (recall_key c) d o ≡ o
  unfolding last_of
  last_of-recall_key c [] o h = refl
  last_of-recall_key c ((j, v) ∷ d) o h =
      rw (other-recall_key j c h.0) (last_of-recall_key c d o h.1)

  last_of-IsReadable :
      (k : String) (d : Dict A) (o : Option A)
      → All (λ (e : String × A). IsReadable e.0) d
      → (o ≢ none → IsReadable k)
      → last_of k d o ≢ none
      → IsReadable k
  unfolding last_of
  last_of-IsReadable k [] o h first there = first there
  last_of-IsReadable k ((j, v) ∷ d) o h first there = elim (Bool-cases (str_eq j k)) [
    | inl e ↦ subst IsReadable ((eq_iff j k).0 e) h.0
    | inr e ↦
        last_of-IsReadable k d o h.1 first
          (subst (λ b. last_of k d (if b then some v else o) ≢ none) e there)
  ]

  get-IsReadable :
      (d : Dict A)
      → ((k : String) → get k d ≢ none → IsReadable k)
      → All (λ (e : String × A). IsReadable e.0) d
  unfolding get
  get-IsReadable [] h = tt
  get-IsReadable ((j, v) ∷ d) h = (
    h j (λ e. ground (arith, e, eq_refl j)),
    get-IsReadable d (λ k there. h k (λ e. there (ground (arith, e)))),
  )

module _ {A S : Type 0} (t : Tracking A S) (m : Mlflow S) (laws : IsTracking t m)
    (run : String) where
  log_metrics_lem :
      (d : Dict A) (s : S) (ms : Dict A)
      → t.run_metrics run s ≡ some ms
      → Distinct ms
      → (ms' : Dict A) × (t.run_metrics run (log_metrics t run d s) ≡ some ms')
        × Distinct ms'
        × ((k : String) → get k ms' ≡ last_of k d (get k ms))
  unfolding log_metrics last_of
  log_metrics_lem [] s ms h u = (ms, h, u, λ k. refl)
  log_metrics_lem ((j, v) ∷ d) s ms h u =
      let (ms1, h1, u1, g1) = laws.metric_lem run j v s ms h u in
      let (ms2, h2, u2, g2) = log_metrics_lem d (t.log_metric run j v s) ms1 h1 u1 in
      (ms2, h2, u2, λ k. g2 k ∙ ap (last_of k d) (g1 k))

module _ {A : Type 0} ⦃f : Floating A⦄ where
  -- the keys of the evaluation are none of a country
  evaluate-keys :
      (metrics : Metrics A) (threshold : A) (rows : List (TestRow A))
      → All (λ (e : String × A). is_fairness e.0 ≡ false) (evaluate metrics threshold rows)
  unfolding evaluate
  evaluate-keys metrics threshold rows = (refl, (refl, (refl, (refl, (refl, (refl, (refl, tt)))))))

  fairness_metrics-keys :
      (report : Dict (SliceStats A))
      → All (λ (e : String × A). IsReadable e.0) (fairness_metrics report)
  unfolding fairness_metrics concat
  fairness_metrics-keys [] = tt
  fairness_metrics-keys ((c, stats) ∷ report) = (
    inl (count-is_fairness c),
    (
      inr (c, refl),
      (
        inl (precision-is_fairness c),
        (inl (positive_rate-is_fairness c), fairness_metrics-keys report),
      ),
    ),
  )

  -- one country's figures
  last_of-stats :
      (c d : String) (stats : SliceStats A) (report : Dict (SliceStats A)) (o : Option A)
      → last_of (recall_key c) (fairness_metrics ((d, stats) ∷ report)) o
        ≡ last_of
            (recall_key c)
            (fairness_metrics report)
            (if str_eq d c then some stats.recall else o)
  unfolding last_of fairness_metrics concat
  last_of-stats c d stats report o =
      let counts : str_eq (fairness_key d "count") (recall_key c) ≡ false =
        other-recall_key _ c (count-is_fairness d) in
      let precisions : str_eq (fairness_key d "precision") (recall_key c) ≡ false =
        other-recall_key _ c (precision-is_fairness d) in
      let rates : str_eq (fairness_key d "positive_rate") (recall_key c) ≡ false =
        other-recall_key _ c (positive_rate-is_fairness d) in
      let recalls : str_eq (fairness_key d "recall") (recall_key c) ≡ str_eq d c =
        eq-recall_key d c in
      rw (counts, precisions, rates, recalls)

  last_of-figure :
      (k : String) (report : Dict (SliceStats A)) (o : Option A)
      → starts_with k "fairness_" ≡ false
      → last_of k (fairness_metrics report) o ≡ o
  unfolding last_of fairness_metrics concat
  last_of-figure k [] o h = refl
  last_of-figure k ((c, stats) ∷ report) o h =
      let counts : str_eq (fairness_key c "count") k ≡ false =
        other-fairness_key (str_append c "_count") k h in
      let recalls : str_eq (fairness_key c "recall") k ≡ false =
        other-fairness_key (str_append c "_recall") k h in
      let precisions : str_eq (fairness_key c "precision") k ≡ false =
        other-fairness_key (str_append c "_precision") k h in
      let rates : str_eq (fairness_key c "positive_rate") k ≡ false =
        other-fairness_key (str_append c "_positive_rate") k h in
      rw (counts, recalls, precisions, rates) (last_of-figure k report o h)

  last_of-nothing : (k : String) (o : Option A) → last_of k (fairness_metrics []) o ≡ o
  unfolding last_of fairness_metrics
  last_of-nothing k o = refl

module _ {A : Type 0} ⦃f : Floating A⦄ (metrics : Metrics A) (threshold : A)
    (rows : List (TestRow A)) where
  last_of-slices :
      (cs : List String) (c : String) (o : Option A)
      → last_of (recall_key c) (fairness_metrics (slices_of metrics threshold rows cs)) o ≡ (
          if count (in_country c) rows == 0 || count (str_eq c) cs == 0
          then o
          else some (slice_stats metrics threshold rows c).recall)
  unfolding slices_of count
  last_of-slices [] c o = ground (arith, last_of-nothing (recall_key c) o)
  last_of-slices (d ∷ cs) c o =
      let figures = slice_stats metrics threshold rows d in
      let rest = slices_of metrics threshold rows cs in
      ground (
        arith,
        last_of-slices cs c o,
        last_of-stats c d figures rest o,
        last_of-slices cs c (if str_eq d c then some figures.recall else o),
        eq_iff c d,
        eq_iff d c,
      )

-- What the gate reads is the evaluation on the test rows: their recall, their precision, and for each country the
-- recall on its rows.
pub record IsMeasured {A : Type 0} ⦃f : Floating A⦄ (metrics : Metrics A) (threshold : A)
    (rows : List (TestRow A)) (ms : Dict A) : Type 0 where
  pub recall :
      get "recall" ms
      ≡ some
          (metrics.recall_score (map (λ r. r.y_true) rows) (map (predicted metrics threshold) rows))
  pub precision :
      get "precision" ms
      ≡ some (
          metrics.precision_score
            (map (λ r. r.y_true) rows)
            (map (predicted metrics threshold) rows))
  pub countries :
      (c : String)
      → get c (fairness_from [] ms) ≡ (
          if count (in_country c) rows == 0
          then none
          else some (slice_stats metrics threshold rows c).recall)

module _ {A : Type 0} where
  All-inl :
      (d : Dict A)
      → All (λ (e : String × A). is_fairness e.0 ≡ false) d
      → All (λ (e : String × A). IsReadable e.0) d
  All-inl [] h = tt
  All-inl (e ∷ d) h = (inl h.0, All-inl d h.1)

  else_get-none : (o : Option A) → else_get o none ≡ o
  else_get-none none = refl
  else_get-none (some v) = refl

module _ {A : Type 0} ⦃f : Floating A⦄ (metrics : Metrics A) (threshold : A)
    (in_order : String → String → Bool) (rows : List (TestRow A)) (ms : Dict A)
    (distinct : Distinct ms)
    (found : (k : String)
      → get k ms
        ≡ last_of k
            (fairness_metrics (fairness_report metrics in_order threshold rows))
            (last_of k (evaluate metrics threshold rows) none)) where
  found-IsReadable : All (λ (e : String × A). IsReadable e.0) ms
  found-IsReadable =
      let evaluation = evaluate metrics threshold rows in
      let figures = fairness_metrics (fairness_report metrics in_order threshold rows) in
      let readable = All-inl evaluation (evaluate-keys metrics threshold rows) in
      get-IsReadable ms λ k there.
        last_of-IsReadable k figures (last_of k evaluation none)
          (fairness_metrics-keys (fairness_report metrics in_order threshold rows))
          (last_of-IsReadable k evaluation none readable (λ e. absurd (e refl)))
          (λ e. there (found k ∙ e))

  get-recall_key :
      (c : String)
      → get (recall_key c) ms ≡ (
          if count (in_country c) rows == 0
          then none
          else some (slice_stats metrics threshold rows c).recall)
  unfolding fairness_report
  get-recall_key c =
      let cs = sort in_order (unique str_eq (map (λ r. r.country) rows)) in
      found (recall_key c)
      ∙ ap (last_of (recall_key c) (fairness_metrics (slices_of metrics threshold rows cs))) (
          last_of-recall_key c (evaluate metrics threshold rows) none
            (evaluate-keys metrics threshold rows))
      ∙ last_of-slices metrics threshold rows cs c none
      ∙ ground (arith, countries-once in_order c rows)

  found-IsMeasured : IsMeasured metrics threshold rows ms
  unfolding evaluate last_of get
  found-IsMeasured =
      let report = fairness_report metrics in_order threshold rows in
      record {
        recall = found "recall" ∙ last_of-figure "recall" report _ refl;
        precision = found "precision" ∙ last_of-figure "precision" report _ refl;
        countries = λ c.
            get-fairness_from c [] ms distinct found-IsReadable
            ∙ else_get-none (get (recall_key c) ms)
            ∙ get-recall_key c;
      }

module _ {A S : Type 0} ⦃f : Floating A⦄ (t : Tracking A S) (m : Mlflow S) (laws : IsTracking t m)
    (run : String) (metrics : Metrics A) (threshold : A) (in_order : String → String → Bool)
    (rows : List (TestRow A)) where
  -- the two calls of `log_metrics` in a run without metrics
  pub logged-IsMeasured :
      (s : S)
      → t.run_metrics run s ≡ some []
      → (ms : Dict A) × (t.run_metrics run (
            log_metrics t run
              (fairness_metrics (fairness_report metrics in_order threshold rows))
              (log_metrics t run (evaluate metrics threshold rows) s))
          ≡ some ms)
        × IsMeasured metrics threshold rows ms
  unfolding get
  logged-IsMeasured s fresh =
      let evaluation = evaluate metrics threshold rows in
      let report = fairness_report metrics in_order threshold rows in
      let (ms1, h1, u1, g1) = log_metrics_lem t m laws run evaluation s [] fresh tt in
      let (ms2, h2, u2, g2) =
        log_metrics_lem t m laws run (fairness_metrics report) (log_metrics t run evaluation s) ms1
          h1 u1 in
      (
        ms2,
        h2,
        found-IsMeasured metrics threshold in_order rows ms2 u2
            (λ k. g2 k ∙ ap (last_of k (fairness_metrics report)) (g1 k)),
      )
