-- ===== src/Storage/Review.antt =====
-- src/storage/postgres_client.py: predictions, the review queue and the analysts' feedback.
-- `ORDER BY created_at DESC` is a stable sort here; PostgreSQL leaves the order of equal times open.
pub mod Queue
use realtime_fraud_detection.Common.{
  ℕ, String, Bool, true, false, Option, none, some, List, [], ◌∷◌, ◌++◌, map, length, take, filter,
  leb, str_eq, if◌then◌else◌,
}
use realtime_fraud_detection.Common.Sort.{sort}
use realtime_fraud_detection.Scoring.Decision.{Decision, RiskLevel}
use realtime_fraud_detection.Scoring.FeatureRow.{Row}
use realtime_fraud_detection.Scoring.Inference.{ModelSource}
use realtime_fraud_detection.Storage.Tables.{
  Database, PredictionRecord, ReviewCaseRecord, AnalystFeedbackRecord, Stamp,
}

module _ {A : Type 0} where
  -- `session.get(PredictionRecord, id)`
  unfoldable pub find_prediction : String → List (PredictionRecord A) → Option (PredictionRecord A)
  find_prediction id [] = none
  find_prediction id (r ∷ rs) = if str_eq r.id id then some r else find_prediction id rs

  -- `session.get(ReviewCaseRecord, id)`
  unfoldable pub find_case : String → List (ReviewCaseRecord A) → Option (ReviewCaseRecord A)
  find_case id [] = none
  find_case id (r ∷ rs) = if str_eq r.id id then some r else find_case id rs

  abbrev pub resolve : String → ℕ → ReviewCaseRecord A → ReviewCaseRecord A
  resolve analyst_id now c = record c {
    status = "resolved";
    assigned_analyst = some analyst_id;
    resolved_at = some now;
  }

  -- the update of the one row with the primary key
  unfoldable pub resolve_case :
      String → String → ℕ → List (ReviewCaseRecord A) → List (ReviewCaseRecord A)
  resolve_case id analyst_id now [] = []
  resolve_case id analyst_id now (r ∷ rs) =
      if str_eq r.id id
      then resolve analyst_id now r ∷ rs
      else r ∷ resolve_case id analyst_id now rs

  abbrev pub has_status : String → ReviewCaseRecord A → Bool
  has_status status r = str_eq r.status status

  abbrev pub newer : ReviewCaseRecord A → ReviewCaseRecord A → Bool
  newer r s = leb s.created_at r.created_at

-- `newest first` of the feedback rows
abbrev pub newer_feedback : AnalystFeedbackRecord → AnalystFeedbackRecord → Bool
newer_feedback r s = leb s.created_at r.created_at

module _ {A R : Type 0} where
  unfoldable pub write_prediction :
      Stamp
      → String
      → String
      → String
      → String
      → Row A
      → A
      → RiskLevel
      → Decision
      → A
      → ModelSource
      → Bool
      → Database A R
      → Database A R × String
  write_prediction stamp transaction_id card_id model_name model_version input_features fraud_score
        risk_level decision latency_ms model_source routed_to_review db =
      let row : PredictionRecord A = record {
        id = stamp.id;
        transaction_id = transaction_id;
        card_id = card_id;
        model_name = model_name;
        model_version = model_version;
        model_source = model_source;
        input_features = input_features;
        fraud_score = fraud_score;
        risk_level = risk_level;
        decision = decision;
        routed_to_review = routed_to_review;
        latency_ms = latency_ms;
        created_at = stamp.now;
      } in
      (record db { predictions = db.predictions ++ row ∷ [] }, stamp.id)

  unfoldable pub create_review_case :
      Stamp → String → String → A → RiskLevel → String → Database A R → Database A R × String
  create_review_case stamp prediction_id transaction_id fraud_score risk_level reason db =
      let row : ReviewCaseRecord A = record {
        id = stamp.id;
        prediction_id = prediction_id;
        transaction_id = transaction_id;
        fraud_score = fraud_score;
        risk_level = risk_level;
        reason = reason;
        status = "pending";
        assigned_analyst = none;
        created_at = stamp.now;
        resolved_at = none;
      } in
      (record db { review_cases = db.review_cases ++ row ∷ [] }, stamp.id)

  unfoldable pub list_review_cases : String → ℕ → Database A R → List (ReviewCaseRecord A)
  list_review_cases status limit db =
      take limit (sort newer (filter (has_status status) db.review_cases))

  unfoldable pub get_review_case : String → Database A R → Option (ReviewCaseRecord A)
  unfolding find_case
  get_review_case case_id db = find_case case_id db.review_cases

  unfoldable pub get_prediction : String → Database A R → Option (PredictionRecord A)
  unfolding find_prediction
  get_prediction prediction_id db = find_prediction prediction_id db.predictions

  -- the new row, and the case resolved if there is one
  unfoldable pub submit_feedback :
      Stamp
      → String
      → String
      → String
      → String
      → Option String
      → Database A R
      → Database A R × String
  unfolding resolve_case
  submit_feedback stamp case_id transaction_id analyst_id label notes db =
      let row : AnalystFeedbackRecord = record {
        id = stamp.id;
        case_id = case_id;
        transaction_id = transaction_id;
        analyst_id = analyst_id;
        label = label;
        notes = notes;
        created_at = stamp.now;
      } in
      (
        record db {
          analyst_feedback = db.analyst_feedback ++ row ∷ [];
          review_cases = resolve_case case_id analyst_id stamp.now db.review_cases;
        },
        stamp.id,
      )

  unfoldable pub list_feedback : ℕ → Database A R → List AnalystFeedbackRecord
  list_feedback limit db = take limit (sort newer_feedback db.analyst_feedback)

  unfoldable pub count_review_cases : String → Database A R → ℕ
  count_review_cases status db = length (filter (has_status status) db.review_cases)
