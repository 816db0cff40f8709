-- ===== src/Training.antt =====
-- src/ml/train.py: how a trained model is judged, on the rows of the test split.
pub mod Slices
pub mod Tracking
pub mod Learning
pub mod Run
pub mod Pipeline
pub mod Measured
pub mod Trained
pub mod Governed
use realtime_fraud_detection.Common.{
  ℕ, String, List, [], ◌∷◌, map, Bool, not, length, count, filter, ltb, ◌==◌, str_eq, if◌then◌else◌,
}
use realtime_fraud_detection.Common.Sort.{sort}
use realtime_fraud_detection.Common.Dict.{Dict}
use realtime_fraud_detection.Common.Floating.{Floating, ◌≤ᶠ◌, lit}

-- scikit-learn's metrics of the labels and the predictions (or the scores), and NumPy's mean
pub record Metrics (A : Type 0) : Type 0 where
  pub precision_score : List ℕ → List ℕ → A
  pub recall_score : List ℕ → List ℕ → A
  pub f1_score : List ℕ → List ℕ → A
  pub roc_auc_score : List ℕ → List A → A
  pub average_precision_score : List ℕ → List A → A
  pub mean : List ℕ → A
  -- `confusion_matrix(…, labels=[0, 1]).tolist()`, as a text
  pub confusion_matrix : List ℕ → List ℕ → String

-- a row of the test split: what is read of `df_test`, `y_true` and `y_prob`
pub record TestRow (A : Type 0) : Type 0 where
  pub country : String
  pub y_true : ℕ
  pub y_prob : A

pub record SliceStats (A : Type 0) : Type 0 where
  pub count : ℕ
  pub recall : A
  pub precision : A
  pub positive_rate : A

-- the distinct items, as of `Series.unique()` and of a set
unfoldable pub unique {ℓ} : {A : Type ℓ} → (A → A → Bool) → List A → List A
unique same [] = []
unique same (x ∷ xs) = x ∷ filter (λ y. not (same x y)) (unique same xs)

unfoldable pub in_country : {A : Type 0} → String → TestRow A → Bool
in_country c r = str_eq r.country c

module _ {A : Type 0} ⦃f : Floating A⦄ (metrics : Metrics A) where
  unfoldable pub predicted : A → TestRow A → ℕ
  predicted threshold r = if threshold ≤ᶠ r.y_prob then 1 else 0

  unfoldable pub evaluate : A → List (TestRow A) → Dict A
  unfolding predicted unique
  evaluate threshold rows =
      let y_true = map (λ r. r.y_true) rows in
      let y_prob = map (λ r. r.y_prob) rows in
      let y_pred = map (predicted threshold) rows in
      let both = ltb 1 (length (unique ◌==◌ y_true)) in
      ("precision", metrics.precision_score y_true y_pred)
      ∷ ("recall", metrics.recall_score y_true y_pred)
      ∷ ("f1", metrics.f1_score y_true y_pred)
      ∷ ("roc_auc", if both then metrics.roc_auc_score y_true y_prob else lit 0 0)
      ∷ ("pr_auc", if both then metrics.average_precision_score y_true y_prob else lit 0 0)
      ∷ ("positive_rate_predicted", metrics.mean y_pred)
      ∷ ("positive_rate_actual", metrics.mean y_true)
      ∷ []

  -- one country's figures
  unfoldable pub slice_stats : A → List (TestRow A) → String → SliceStats A
  unfolding predicted in_country
  slice_stats threshold rows c =
      let slice = filter (in_country c) rows in
      let yt = map (λ r. r.y_true) slice in
      let yp = map (predicted threshold) slice in
      record {
        count = count (in_country c) rows;
        recall = metrics.recall_score yt yp;
        precision = metrics.precision_score yt yp;
        positive_rate = metrics.mean yp;
      }

  -- the loop over the countries
  unfoldable pub slices_of : A → List (TestRow A) → List String → Dict (SliceStats A)
  unfolding slice_stats in_country
  slices_of threshold rows [] = []
  slices_of threshold rows (c ∷ cs) =
      let rest = slices_of threshold rows cs in
      if count (in_country c) rows == 0 then rest else (c, slice_stats threshold rows c) ∷ rest

  -- `in_order` is the order of texts that `sorted` goes by
  unfoldable pub fairness_report :
      (String → String → Bool) → A → List (TestRow A) → Dict (SliceStats A)
  unfolding slices_of unique
  fairness_report in_order threshold rows =
      slices_of threshold rows (sort in_order (unique str_eq (map (λ r. r.country) rows)))
