-- ===== src/ModelCard.antt =====
-- src/ml/model_card.py: the model card of a training run, as a text.
use realtime_fraud_detection.Common.{ℕ, String, List, [], ◌∷◌, map, concat, join}
use realtime_fraud_detection.Common.Dict.{Dict}
use realtime_fraud_detection.Common.Floating.{Floating}
use realtime_fraud_detection.Training.{SliceStats}

-- the entries of the summary that the card shows
pub record DatasetSummary (A : Type 0) : Type 0 where
  pub description : String
  pub total_rows : ℕ
  pub positive_rate : A
  pub train_test_split : String
  pub num_cardholders : ℕ
  pub num_features : ℕ
  pub synthetic_rows : ℕ
  pub analyst_feedback_rows : ℕ

pub record CardFields (A P : Type 0) : Type 0 where
  pub model_name : String
  pub model_version : String
  pub algorithm : String
  pub imbalance_technique : String
  pub training_params : Dict P
  pub metrics : Dict A
  pub fairness_report : Dict (SliceStats A)
  pub dataset_summary : DatasetSummary A
  pub limitations : List String

limitations_list : List String → String
limitations_list limitations = join "\n" (map (λ item. concat ("- " ∷ item ∷ [])) limitations)

-- `show` is the text of a parameter's value
params_table : {P : Type 0} → (P → String) → Dict P → String
params_table show params =
    join "\n" (map (λ p. concat ("| " ∷ p.0 ∷ " | " ∷ show p.1 ∷ " |" ∷ [])) params)

module _ {A : Type 0} ⦃f : Floating A⦄ where
  metrics_table : Dict A → String
  metrics_table metrics =
      join "\n" (map (λ m. concat ("| " ∷ m.0 ∷ " | " ∷ f.fixed m.1 4 ∷ " |" ∷ [])) metrics)

  -- `count` is a whole number, so its text has no decimals
  fairness_table : (ℕ → String) → Dict (SliceStats A) → String
  fairness_table show_int report = join "\n" (
      map
        (λ g. concat (
          "| "
          ∷ g.0
          ∷ " | "
          ∷ show_int g.1.count
          ∷ " | "
          ∷ f.fixed g.1.recall 4
          ∷ " | "
          ∷ f.fixed g.1.precision 4
          ∷ " | "
          ∷ f.fixed g.1.positive_rate 4
          ∷ " |"
          ∷ []))
        report)

  unfoldable pub render_model_card :
      {P : Type 0} → (ℕ → String) → (P → String) → String → CardFields A P → String
  unfolding limitations_list params_table metrics_table fairness_table concat join
  render_model_card show_int show generated_at card =
      let s = card.dataset_summary in
      concat (
        "# Model Card: "
        ∷ card.model_name
        ∷ " (v"
        ∷ card.model_version
        ∷ ")\n\nGenerated automatically by `src/ml/train.py` at "
        ∷ generated_at
        ∷ ".\n\n## Model Details\n\n- **Algorithm**: "
        ∷ card.algorithm
        ∷ "\n- **Model name (MLflow registry)**: `"
        ∷ card.model_name
        ∷ "`\n- **Version**: "
        ∷ card.model_version
        ∷ "\n- **Task**: Binary classification -- probability that a credit-card\n"
        ∷ "  transaction is fraudulent, scored in real time at transaction time.\n"
        ∷ "- **Class imbalance handling**: "
        ∷ card.imbalance_technique
        ∷ "\n\n## Intended Use\n\n"
        ∷ "Real-time risk scoring for individual credit-card transactions in the\n"
        ∷ "fraud detection platform's `/score` API. Output is a probability in\n"
        ∷ "[0, 1] plus a derived risk level (`low`/`medium`/`high`) and a decision\n"
        ∷ "(`approve`/`review`/`block`) computed from configured thresholds\n"
        ∷ "(`src/common/config.py`). This model is **one input to a decision that\n"
        ∷ "also includes rule-based fallback logic and, for medium/high-risk or\n"
        ∷ "low-confidence cases, mandatory human analyst review** -- it is not\n"
        ∷ "intended to auto-block transactions without that surrounding workflow.\n\n"
        ∷ "## Training Data\n\n"
        ∷ s.description
        ∷ "\n\n| | |\n|---|---|\n| Total transactions | "
        ∷ show_int s.total_rows
        ∷ " |\n| Positive rate (fraud) | "
        ∷ f.text s.positive_rate
        ∷ " |\n| Train / test split | "
        ∷ s.train_test_split
        ∷ " |\n| Cardholder population | "
        ∷ show_int s.num_cardholders
        ∷ " |\n| Feature count | "
        ∷ show_int s.num_features
        ∷ " |\n\n**Important**: training labels come from `TransactionGenerator`'s injected\n"
        ∷ "edge cases (high-value spikes, impossible travel, velocity bursts,\n"
        ∷ "new-device+high-value -- see Phase 1 `src/ingestion/transaction_generator.py`),\n"
        ∷ "not from analyst-confirmed real-world fraud. See Known Limitations.\n\n"
        ∷ "## Training Parameters\n\n| Parameter | Value |\n|---|---|\n"
        ∷ params_table show card.training_params
        ∷ "\n\n## Performance Metrics (held-out test set)\n\n| Metric | Value |\n|---|---|\n"
        ∷ metrics_table card.metrics
        ∷ "\n\n## Fairness / Subgroup Evaluation\n\n"
        ∷ "Recall, precision, and predicted-positive rate broken out by cardholder\n"
        ∷ "home country, as a proxy protected-attribute slice (no demographic data\n"
        ∷ "is collected by this platform). Large gaps between groups would indicate\n"
        ∷ "the model performs unevenly across cardholder populations and should\n"
        ∷ "block promotion pending investigation.\n\n"
        ∷ "| Country | Support (n) | Recall | Precision | Positive rate |\n|---|---|---|---|---|\n"
        ∷ fairness_table show_int card.fairness_report
        ∷ "\n\n## Known Limitations\n\n"
        ∷ limitations_list card.limitations
        ∷ "\n\n## Governance\n\n"
        ∷ "Promotion of this model version from `Staging` to `Production` requires\n"
        ∷ "an explicit, logged approval (`model_approvals` table / `src/ml/registry.py::promote_model`)\n"
        ∷ "-- there is no automatic promotion path. See `scripts/promote_model.py`.\n"
        ∷ [])
