-- ===== src/Batch/Payload.antt =====
-- src/api/batch.py, `build_dashboard_payload`.
pub mod Counts
use realtime_fraud_detection.Common.{
  ℕ, suc, ◌+◌, String, Bool, true, false, not, Option, none, some, List, [], ◌∷◌, map, length, take,
  filter, leb, ◌==◌, if◌then◌else◌,
}
use realtime_fraud_detection.Common.Int.{pos}
use realtime_fraud_detection.Common.Dict.{Dict, get}
use realtime_fraud_detection.Common.Sort.{sort}
use realtime_fraud_detection.Common.Floating.{Floating, ◌<ᶠ◌, lit}
use realtime_fraud_detection.Scoring.Decision.{Decision, RiskLevel, approve, review, block}
use realtime_fraud_detection.Scoring.Fallback.{fallback_name, fallback_version}
use realtime_fraud_detection.Scoring.Inference.{ModelSource, ModelState, is_model_available}
use realtime_fraud_detection.Batch.Parse.{RowError}
use realtime_fraud_detection.Batch.Score.{
  ScoredTransaction, ReasonTag, high_velocity, amount_outlier, impossible_travel,
  new_device_high_spend, model_signal, no_signal, reason_label,
}
use realtime_fraud_detection.Batch.Timeseries.{Calendar, Bucket, bucket_timeseries}

abbrev pub max_batch_rows : ℕ
max_batch_rows = 5000

pub record Kpis (A : Type 0) : Type 0 where
  pub total_transactions : ℕ
  pub fraudulent_transactions : ℕ
  pub blocked_amount : A
  pub alerts_triggered : ℕ
  pub fraud_rate_pct : A

pub record ReasonShare (A : Type 0) : Type 0 where
  pub reason_tag : ReasonTag
  pub label : String
  pub occurrences : ℕ
  pub pct : A

pub record GeoPoint (A : Type 0) : Type 0 where
  pub transaction_id : String
  pub latitude : A
  pub longitude : A
  pub country : String
  pub fraud_score : A
  pub decision : Decision

pub record TopAlert (A : Type 0) : Type 0 where
  pub transaction_id : String
  pub event_time : ℕ
  pub card_id : String
  pub user_id : String
  pub country : String
  pub reason_tag : ReasonTag
  pub label : String
  pub amount : A
  pub currency : String
  pub fraud_score : A
  pub risk_level : RiskLevel
  pub decision : Decision
  pub model_source : ModelSource

pub data PerformanceSource : Type 0 where
  last_validated_run unavailable fallback_active : PerformanceSource

pub record ModelPerformance (A : Type 0) : Type 0 where
  pub source : PerformanceSource
  pub model_name : Option String
  pub model_version : Option String
  pub model_type : String
  pub precision : Option A
  pub recall : Option A
  pub f1 : Option A
  pub roc_auc : Option A

pub record UploadMeta : Type 0 where
  pub rows_in_file : ℕ
  pub rows_scored : ℕ
  pub rows_skipped : ℕ
  pub truncated : Bool
  pub max_rows : ℕ
  pub row_errors : List RowError

pub record Payload (A : Type 0) : Type 0 where
  pub kpis : Kpis A
  pub timeseries : List Bucket
  pub reasons : List (ReasonShare A)
  pub geo_points : List (GeoPoint A)
  pub top_alerts : List (TopAlert A)
  pub model_performance : ModelPerformance A
  pub upload_meta : UploadMeta

abbrev pub is_block : {A : Type 0} → ScoredTransaction A → Bool
is_block s = elim s.decision [ block ↦ true | _ ↦ false ]

abbrev pub is_alert : {A : Type 0} → ScoredTransaction A → Bool
is_alert s = s.routed_to_review

abbrev pub tag_number : ReasonTag → ℕ
tag_number high_velocity = 0
tag_number amount_outlier = 1
tag_number impossible_travel = 2
tag_number new_device_high_spend = 3
tag_number model_signal = 4
tag_number no_signal = 5

-- `reason_counts.setdefault(tag, …)["count"] += 1`
unfoldable pub count_tag : ReasonTag → List (ReasonTag × ℕ) → List (ReasonTag × ℕ)
count_tag tag [] = (tag, 1) ∷ []
count_tag tag ((t, n) ∷ rest) =
    if tag_number t == tag_number tag then (t, suc n) ∷ rest else (t, n) ∷ count_tag tag rest

unfoldable pub count_reasons :
    {A : Type 0} → List (ScoredTransaction A) → List (ReasonTag × ℕ) → List (ReasonTag × ℕ)
unfolding count_tag
count_reasons [] counts = counts
count_reasons (s ∷ rest) counts = count_reasons rest (count_tag s.reason_tag counts)

module _ {A : Type 0} ⦃f : Floating A⦄ where
  abbrev percent : ℕ → ℕ → A
  percent part whole =
      if whole == 0
      then lit 0 0
      else f.mul (f.div (f.of_int (pos part)) (f.of_int (pos whole))) (lit 100 0)

  abbrev pub reason_share : ℕ → ReasonTag × ℕ → ReasonShare A
  reason_share fraud_count (tag, n) = record {
    reason_tag = tag;
    label = reason_label tag;
    occurrences = n;
    pct = if fraud_count == 0 then lit 0 0 else f.round (percent n fraud_count) 1;
  }

  -- most frequent first
  reason_shares : ℕ → List (ReasonTag × ℕ) → List (ReasonShare A)
  reason_shares fraud_count counts =
      map (reason_share fraud_count) (sort (λ c d. leb d.1 c.1) counts)

  geo_point : ScoredTransaction A → GeoPoint A
  geo_point s = record {
    transaction_id = s.txn.transaction_id;
    latitude = s.txn.latitude;
    longitude = s.txn.longitude;
    country = s.txn.country;
    fraud_score = f.round s.fraud_score 4;
    decision = s.decision;
  }

  top_alert : ScoredTransaction A → TopAlert A
  top_alert s = record {
    transaction_id = s.txn.transaction_id;
    event_time = s.txn.event_time;
    card_id = s.txn.card_id;
    user_id = s.txn.user_id;
    country = s.txn.country;
    reason_tag = s.reason_tag;
    label = reason_label s.reason_tag;
    amount = s.txn.amount;
    currency = s.txn.currency;
    fraud_score = f.round s.fraud_score 4;
    risk_level = s.risk_level;
    decision = s.decision;
    model_source = s.model_source;
  }

  -- highest score first; `sorted(…, reverse=True)` keeps ties in their order
  unfoldable pub by_score : List (ScoredTransaction A) → List (ScoredTransaction A)
  by_score = sort (λ s t. not (s.fraud_score <ᶠ t.fraud_score))

module _ {A M E : Type 0} ⦃f : Floating A⦄ where
  -- an empty dict of metrics counts as none
  unfoldable pub performance : ModelState A M E → Dict A → ModelPerformance A
  performance state metrics = elim state.model [
    | none ↦ record {
      source = fallback_active;
      model_name = some fallback_name;
      model_version = some fallback_version;
      model_type = "Rule-based";
      precision = none;
      recall = none;
      f1 = none;
      roc_auc = none;
    }
    | some m ↦ elim metrics [
      | [] ↦ record {
        source = unavailable;
        model_name = state.model_name;
        model_version = state.model_version;
        model_type = "Classification";
        precision = none;
        recall = none;
        f1 = none;
        roc_auc = none;
      }
      | e ∷ es ↦ record {
        source = last_validated_run;
        model_name = state.model_name;
        model_version = state.model_version;
        model_type = "Classification";
        precision = get "precision" (e ∷ es);
        recall = get "recall" (e ∷ es);
        f1 = get "f1" (e ∷ es);
        roc_auc = get "roc_auc" (e ∷ es);
      }
    ]
  ]

  unfoldable pub build_dashboard_payload :
      Calendar A
      → ModelState A M E
      → List (ScoredTransaction A)
      → List RowError
      → ℕ
      → Bool
      → Dict A
      → Payload A
  unfolding reason_shares geo_point top_alert performance
  build_dashboard_payload cal state scored row_errors rows_in_file truncated metrics =
      let total = length scored in
      let fraud_rows = filter is_block scored in
      let alert_rows = filter is_alert scored in
      let fraud_count = length fraud_rows in
      let blocked_amount = f.sum (map (λ (s : ScoredTransaction A). s.txn.amount) fraud_rows) in
      record {
        kpis = record {
          total_transactions = total;
          fraudulent_transactions = fraud_count;
          blocked_amount = f.round blocked_amount 2;
          alerts_triggered = length alert_rows;
          fraud_rate_pct = f.round (percent fraud_count total) 2;
        };
        timeseries = bucket_timeseries cal 12 scored;
        reasons = reason_shares fraud_count (count_reasons fraud_rows []);
        geo_points = map geo_point (take 300 (by_score alert_rows));
        top_alerts = map top_alert (take 200 (by_score alert_rows));
        model_performance = performance state metrics;
        upload_meta = record {
          rows_in_file = rows_in_file;
          rows_scored = total;
          rows_skipped = length row_errors;
          truncated = truncated;
          max_rows = max_batch_rows;
          row_errors = take 50 row_errors;
        };
      }
