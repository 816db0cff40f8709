-- ===== src/Training/Slices.antt =====
-- The countries' slices of a fairness report.
use realtime_fraud_detection.Common.{
  ℕ, ◌+◌, ◌≤◌, String, ◌≡◌, refl, ◌∙◌, Bool, false, ◌||◌, not, none, some, List, [], ◌∷◌, map,
  arith, count, filter, length, ◌==◌, str_eq, eq_iff, eq_refl, min, if◌then◌else◌,
}
use realtime_fraud_detection.Common.Sort.{sort, count-sort}
use realtime_fraud_detection.Common.Dict.{Dict, get}
use realtime_fraud_detection.Common.Floating.{Floating}
use realtime_fraud_detection.Training.{
  Metrics, TestRow, SliceStats, unique, in_country, slice_stats, slices_of, fairness_report,
}

count-filter_same :
    (c : String) (l : List String) → count (str_eq c) (filter (λ y. not (str_eq c y)) l) ≡ 0
unfolding count filter
count-filter_same c [] = refl
count-filter_same c (y ∷ l) = ground (arith, count-filter_same c l)

count-filter_other :
    (c x : String) (l : List String)
    → str_eq c x ≡ false
    → count (str_eq c) (filter (λ y. not (str_eq x y)) l) ≡ count (str_eq c) l
unfolding count filter
count-filter_other c x [] h = refl
count-filter_other c x (y ∷ l) h =
    ground (arith, count-filter_other c x l h, eq_iff c x, eq_iff c y, eq_iff x y)

-- the distinct texts have each text once that is there
count-unique :
    (c : String) (l : List String) → count (str_eq c) (unique str_eq l) ≡ min 1 (count (str_eq c) l)
unfolding unique count
count-unique c [] = refl
count-unique c (x ∷ l) = ground (
  arith,
  count-unique c l,
  eq_iff c x,
  count-filter_same c (unique str_eq l),
  count-filter_other c x (unique str_eq l),
)

module _ {A : Type 0} where
  count-country :
      (c : String) (rows : List (TestRow A))
      → count (str_eq c) (map (λ r. r.country) rows) ≡ count (in_country c) rows
  unfolding count in_country
  count-country c [] = refl
  count-country c (r ∷ rows) =
      ground (arith, count-country c rows, eq_iff c r.country, eq_iff r.country c)

  -- the rows in each of the countries, added up
  sum_in : List String → List (TestRow A) → ℕ
  sum_in [] rows = 0
  sum_in (c ∷ cs) rows = count (in_country c) rows + sum_in cs rows

sum_in-nil : (A : Type 0) (cs : List String) → sum_in {A = A} cs [] ≡ 0
unfolding sum_in count
sum_in-nil A [] = refl
sum_in-nil A (c ∷ cs) = omega (arith, sum_in-nil A cs)

module _ {A : Type 0} where
  sum_in-cons :
      (r : TestRow A) (cs : List String) (rows : List (TestRow A))
      → sum_in cs (r ∷ rows) ≡ count (str_eq r.country) cs + sum_in cs rows
  unfolding sum_in count in_country
  sum_in-cons r [] rows = refl
  sum_in-cons r (c ∷ cs) rows = ground (arith, sum_in-cons r cs rows)

  -- countries that have each one of `all` once have each row once
  sum_in-length :
      (cs : List String) (all rows : List (TestRow A))
      → ((c : String) → count (str_eq c) cs ≡ min 1 (count (in_country c) all))
      → ((c : String) → count (in_country c) rows ≤ count (in_country c) all)
      → sum_in cs rows ≡ length rows
  unfolding count in_country
  sum_in-length cs all [] h k = sum_in-nil A cs
  sum_in-length cs all (r ∷ rows) h k =
      let rest = sum_in-length cs all rows h (λ c. ground (arith, k c)) in
      ground (arith, rest, sum_in-cons r cs rows, h r.country, k r.country, eq_refl r.country)

  pub countries-once :
      (in_order : String → String → Bool) (c : String) (rows : List (TestRow A))
      → count (str_eq c) (sort in_order (unique str_eq (map (λ r. r.country) rows)))
        ≡ min 1 (count (in_country c) rows)
  countries-once in_order c rows =
      let countries = map (λ r. r.country) rows in
      grind (
        arith,
        count-sort in_order (str_eq c) (unique str_eq countries),
        count-unique c countries,
        count-country c rows,
      )

-- the rows that a report is about
unfoldable pub total : {A : Type 0} → Dict (SliceStats A) → ℕ
total [] = 0
total ((c, s) ∷ report) = s.count + total report

module _ {A : Type 0} ⦃f : Floating A⦄ (metrics : Metrics A) (threshold : A) where
  total-slices_of :
      (rows : List (TestRow A)) (cs : List String)
      → total (slices_of metrics threshold rows cs) ≡ sum_in cs rows
  unfolding total slices_of slice_stats sum_in
  total-slices_of rows [] = refl
  total-slices_of rows (c ∷ cs) = ground (arith, total-slices_of rows cs)

  get-slices_from :
      (rows : List (TestRow A)) (cs : List String) (c : String)
      → get c (slices_of metrics threshold rows cs) ≡ (
          if count (in_country c) rows == 0 || count (str_eq c) cs == 0
          then none
          else some (slice_stats metrics threshold rows c))
  unfolding get slices_of count
  get-slices_from rows [] c = ground arith
  get-slices_from rows (x ∷ cs) c =
      ground (arith, get-slices_from rows cs c, eq_iff x c, eq_iff c x)

  -- The report gives for each country the figures of the country's rows, none where it has no row, and every row
  -- of the test split counts in exactly one country: the counts add up to the number of rows.
  fairness_report_lem :
      (in_order : String → String → Bool) (rows : List (TestRow A))
      → ((c : String)
          → get c (fairness_report metrics in_order threshold rows) ≡ (
              if count (in_country c) rows == 0
              then none
              else some (slice_stats metrics threshold rows c)))
        × (total (fairness_report metrics in_order threshold rows) ≡ length rows)
  unfolding fairness_report
  fairness_report_lem in_order rows =
      let cs = sort in_order (unique str_eq (map (λ r. r.country) rows)) in
      (
        λ c. ground (arith, get-slices_from rows cs c, countries-once in_order c rows),
        total-slices_of rows cs
            ∙ sum_in-length cs rows rows (λ c. countries-once in_order c rows) (λ c. omega arith),
      )
