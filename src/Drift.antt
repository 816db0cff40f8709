-- ===== src/Drift.antt =====
-- src/ml/drift.py: KS test and PSI on the features and the scores, and the report of them. scipy and numpy
-- are an interface; a frame gives the values of a column, NaN where there is none.
pub mod Report
pub mod Check
use realtime_fraud_detection.Common.{
  ℕ, String, Bool, true, false, not, ◌&&◌, ◌||◌, Option, none, some, List, [], ◌∷◌, ◌++◌, map,
  length, filter, ltb, leb, if◌then◌else◌,
}
use realtime_fraud_detection.Common.Dict.{Dict}
use realtime_fraud_detection.Common.Int.{pos}
use realtime_fraud_detection.Common.Floating.{Floating, ◌<ᶠ◌, lit, fmax}
use realtime_fraud_detection.Features.{is_empty}

pub record Stats (A : Type 0) : Type 0 where
  -- `stats.ks_2samp`: the statistic and its p-value
  pub ks_2samp : List A → List A → A × A
  pub is_nan : A → Bool
  pub nan : A
  -- `np.unique(np.percentile(xs, np.linspace(0, 100, buckets + 1)))`
  pub breakpoints : List A → ℕ → List A
  -- `np.histogram(xs, bins=…)[0]`
  pub histogram : List A → List A → List ℕ
  pub minus_infinity : A
  pub plus_infinity : A
  pub log : A → A
  -- `np.sum`, `np.mean` and `np.percentile`
  pub sum : List A → A
  pub mean : List A → A
  pub percentile : List A → ℕ → A

abbrev pub Frame : Type 0 → Type 0
Frame A = String → Option (List A)

pub record FeatureDriftResult (A : Type 0) : Type 0 where
  pub feature : String
  pub ks_statistic : A
  pub ks_p_value : A
  pub psi : A
  pub reference_mean : A
  pub current_mean : A
  pub is_drifted : Bool

pub record DriftReport (A : Type 0) : Type 0 where
  pub model_name : String
  pub reference_window : String
  pub current_window : String
  pub feature_results : List (FeatureDriftResult A)
  pub score_ks_statistic : Option A
  pub score_ks_p_value : Option A
  pub score_psi : Option A
  pub score_drifted : Bool

-- `to_dict()`
pub record ReportDict (A : Type 0) : Type 0 where
  pub model_name : String
  pub reference_window : String
  pub current_window : String
  pub any_drift_detected : Bool
  pub drifted_features : List String
  pub max_psi : A
  pub score_ks_statistic : Option A
  pub score_ks_p_value : Option A
  pub score_psi : Option A
  pub score_drifted : Bool
  pub features : List (FeatureDriftResult A)

module _ {A : Type 0} where
  unfoldable pub drifted_features : DriftReport A → List String
  drifted_features r = map (λ x. x.feature) (filter (λ x. x.is_drifted) r.feature_results)

  unfoldable pub any_drift_detected : DriftReport A → Bool
  unfolding drifted_features
  any_drift_detected r = not (is_empty (drifted_features r)) || r.score_drifted

  abbrev pub optional : Option A → List A
  optional none = []
  optional (some x) = x ∷ []

  -- the end points become infinite
  abbrev pub set_last : A → List A → List A
  set_last x [] = []
  set_last x (y ∷ []) = x ∷ []
  set_last x (y ∷ z ∷ ys) = y ∷ set_last x (z ∷ ys)

  abbrev pub set_ends : A → A → List A → List A
  set_ends lo hi [] = []
  set_ends lo hi (y ∷ ys) = set_last hi (lo ∷ ys)

  abbrev pub zip_with : (A → A → A) → List A → List A → List A
  zip_with g [] ys = []
  zip_with g (x ∷ xs) [] = []
  zip_with g (x ∷ xs) (y ∷ ys) = g x y ∷ zip_with g xs ys

module _ {A : Type 0} ⦃f : Floating A⦄ where
  -- Python's `max` of a list that is not empty
  abbrev pub max_from : A → List A → A
  max_from x [] = x
  max_from x (y ∷ ys) = max_from (fmax x y) ys

  abbrev pub max_or_zero : List A → A
  max_or_zero [] = lit 0 0
  max_or_zero (x ∷ xs) = max_from x xs

  unfoldable pub max_psi : DriftReport A → A
  max_psi r = max_or_zero (map (λ x. x.psi) r.feature_results ++ optional r.score_psi)

  abbrev pub rounded_result : FeatureDriftResult A → FeatureDriftResult A
  rounded_result r = record r {
    ks_statistic = f.round r.ks_statistic 4;
    ks_p_value = f.round r.ks_p_value 6;
    psi = f.round r.psi 4;
    reference_mean = f.round r.reference_mean 4;
    current_mean = f.round r.current_mean 4;
  }

  unfoldable pub to_dict : DriftReport A → ReportDict A
  unfolding any_drift_detected drifted_features max_psi
  to_dict r = record {
    model_name = r.model_name;
    reference_window = r.reference_window;
    current_window = r.current_window;
    any_drift_detected = any_drift_detected r;
    drifted_features = drifted_features r;
    max_psi = f.round (max_psi r) 4;
    score_ks_statistic = r.score_ks_statistic;
    score_ks_p_value = r.score_ks_p_value;
    score_psi = r.score_psi;
    score_drifted = r.score_drifted;
    features = map rounded_result r.feature_results;
  }

  -- the gauges that `push_drift_metrics` sets, before the push
  unfoldable pub drift_gauges : DriftReport A → Dict A
  unfolding any_drift_detected drifted_features max_psi
  drift_gauges r =
      ("fraud_drift_any_detected", if any_drift_detected r then lit 1 0 else lit 0 0)
      ∷ ("fraud_drift_max_psi", max_psi r)
      ∷ ("fraud_drift_drifted_feature_count", f.of_int (pos (length (drifted_features r))))
      ∷ (map (λ x. ("fraud_drift_score_psi", x)) (optional r.score_psi)
          ++ map (λ x. ("fraud_drift_score_ks_p_value", x)) (optional r.score_ks_p_value))

module _ {A : Type 0} ⦃f : Floating A⦄ (stats : Stats A) where
  abbrev pub dropna : List A → List A
  dropna xs = filter (λ x. not (stats.is_nan x)) xs

  -- the share of each bucket, of at least 0.0001
  abbrev pub shares : List A → List A → List A
  shares xs bins =
      map (λ n. fmax (f.div (f.of_int (pos n)) (f.of_int (pos (length xs)))) (lit 1 4))
        (stats.histogram xs bins)

  abbrev pub psi_of : List A → List A → List A → A
  psi_of reference current bins = stats.sum (
      zip_with (λ c r. f.mul (f.sub c r) (stats.log (f.div c r))) (shares current bins)
        (shares reference bins))

  unfoldable pub population_stability_index : List A → List A → ℕ → A
  population_stability_index all_reference all_current buckets =
      let reference = dropna all_reference in
      let current = dropna all_current in
      let breakpoints = stats.breakpoints reference buckets in
      if ltb (length reference) buckets || is_empty current
      then lit 0 0
      else if ltb (length breakpoints) 3
      then lit 0 0
      else psi_of reference current (set_ends stats.minus_infinity stats.plus_infinity breakpoints)

  -- either test crosses its threshold
  abbrev pub crosses : A → A → A → A → Bool
  crosses ks_p psi ks_p_value_threshold psi_threshold =
      ks_p <ᶠ ks_p_value_threshold || psi_threshold <ᶠ psi

  unfoldable pub feature_drift : String → List A → List A → A → A → FeatureDriftResult A
  unfolding population_stability_index
  feature_drift col ref_values cur_values ks_p_value_threshold psi_threshold =
      let (ks_stat, ks_p) = stats.ks_2samp ref_values cur_values in
      let psi = population_stability_index ref_values cur_values 10 in
      record {
        feature = col;
        ks_statistic = ks_stat;
        ks_p_value = ks_p;
        psi = psi;
        reference_mean = stats.mean ref_values;
        current_mean = stats.mean cur_values;
        is_drifted = crosses ks_p psi ks_p_value_threshold psi_threshold;
      }

  -- a column of a frame without its missing values; a column that is not there counts as empty
  abbrev pub values_of : Frame A → String → List A
  values_of df col = elim (df col) [ none ↦ [] | some xs ↦ dropna xs ]

  unfoldable pub compute_feature_drift :
      Frame A → Frame A → List String → A → A → List (FeatureDriftResult A)
  unfolding feature_drift
  compute_feature_drift reference_df current_df [] ks_p_value_threshold psi_threshold = []
  compute_feature_drift reference_df current_df (col ∷ cols) ks_p_value_threshold psi_threshold =
      let ref_values = values_of reference_df col in
      let cur_values = values_of current_df col in
      let rest =
        compute_feature_drift reference_df current_df cols ks_p_value_threshold psi_threshold in
      if ltb (length ref_values) 2 || ltb (length cur_values) 2
      then rest
      else feature_drift col ref_values cur_values ks_p_value_threshold psi_threshold ∷ rest

  unfoldable pub compute_score_drift : List A → List A → A → A → A × A × A × Bool
  unfolding population_stability_index
  compute_score_drift ref cur ks_p_value_threshold psi_threshold =
      let (ks_stat, ks_p) = stats.ks_2samp ref cur in
      let psi = population_stability_index ref cur 10 in
      if ltb (length ref) 2 || ltb (length cur) 2
      then (lit 0 0, lit 1 0, lit 0 0, false)
      else (ks_stat, ks_p, psi, crosses ks_p psi ks_p_value_threshold psi_threshold)

  -- with the thresholds' defaults
  unfoldable pub build_drift_report :
      String
      → Frame A
      → Frame A
      → List String
      → String
      → String
      → Option (List A)
      → Option (List A)
      → DriftReport A
  unfolding compute_feature_drift compute_score_drift
  build_drift_report model_name reference_df current_df feature_columns reference_window
        current_window reference_scores current_scores =
      let report : DriftReport A = record {
        model_name = model_name;
        reference_window = reference_window;
        current_window = current_window;
        feature_results =
            compute_feature_drift reference_df current_df feature_columns (lit 5 2) (lit 25 2);
        score_ks_statistic = none;
        score_ks_p_value = none;
        score_psi = none;
        score_drifted = false;
      } in
      elim reference_scores [
        | none ↦ report
        | some ref ↦ elim current_scores [
          | none ↦ report
          | some cur ↦
              let (ks_stat, ks_p, psi, drifted) =
                compute_score_drift ref cur (lit 5 2) (lit 25 2) in
              record report {
                score_ks_statistic = some ks_stat;
                score_ks_p_value = some ks_p;
                score_psi = some psi;
                score_drifted = drifted;
              }
        ]
      ]
