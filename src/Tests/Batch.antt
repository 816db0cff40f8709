-- ===== src/Tests/Batch.antt =====
-- A batch at concrete data: a frame of two rows, whose conversion is by hand.
use realtime_fraud_detection.Common.{ℕ, ◌≡◌, refl, true, false, some, [], ◌∷◌, filter, any}
use realtime_fraud_detection.Common.Dict.{get, set}
use realtime_fraud_detection.Common.Result.{Result, ok}
use realtime_fraud_detection.Common.Sort.{sort, by_key}
use realtime_fraud_detection.Common.Floating.{Micros, micros_floating, lit}
use realtime_fraud_detection.Schemas.{validate}
use realtime_fraud_detection.Scoring.Decision.{decide}
use realtime_fraud_detection.Scoring.Inference.{score_transaction}
use realtime_fraud_detection.Features.Clean.{IsClean}
use mathlib.Core.Option
use realtime_fraud_detection.Batch.Parse.{
  parse_row, Csv, ParsedFile, required_columns, parse_transactions_csv,
}
use realtime_fraud_detection.Batch.Parse.Rows.{IsParsed, parse_transactions_csv-IsParsed}
use realtime_fraud_detection.Batch.Score.{ScoredTransaction, batch_score_of, score_one, score_batch}
use realtime_fraud_detection.Batch.Score.Agreement.{
  rows_after, row_of, score_batch_lem, score_one-score_transaction, batch_view, live_view,
}
use realtime_fraud_detection.Batch.Timeseries.{Calendar}
use realtime_fraud_detection.Batch.Payload.{is_alert, build_dashboard_payload}
use realtime_fraud_detection.Batch.Payload.Counts.{IsTallied, build_dashboard_payload-IsTallied}
use realtime_fraud_detection.Tests.{settings, first, second, other_card, engine, with_model}

-- the content is the number of its rows
abbrev csv : Csv ℕ Micros
csv = record {
  read_csv = λ n. ok (record { columns = required_columns; records = [] ∷ [] ∷ [] });
  float_of = λ s. ok (lit 1 0);
  strip_lower = λ s. s;
  upper = λ s. s;
  convert = λ row. ok first;
  constraint_error = λ row. "";
}

abbrev parsed : ParsedFile Micros
parsed = record { transactions = first ∷ first ∷ []; row_errors = []; rows_in_file = 2 }

abbrev calendar : Calendar Micros
calendar = record { hour_minute = λ t. ""; month_day = λ t. ""; scale = λ n x. 0 }

abbrev alert : ScoredTransaction Micros
alert = row_of engine with_model settings (first ∷ []) second

parse_two : parse_transactions_csv csv 2 ≡ ok parsed
unfolding parse_transactions_csv parse_row filter any get set validate
parse_two = refl

parse_transactions_csv-IsParsed_example : IsParsed parsed
parse_transactions_csv-IsParsed_example = parse_transactions_csv-IsParsed csv 2 parsed parse_two

first-IsClean : IsClean true first
first-IsClean = record { kind = refl; late = refl; number = refl }

second-IsClean : IsClean true second
second-IsClean = record { kind = refl; late = refl; number = refl }

other-IsClean : IsClean true other_card
other-IsClean = record { kind = refl; late = refl; number = refl }

score_batch_lem_example :
    score_batch engine with_model settings (second ∷ other_card ∷ first ∷ [])
    ≡ some (
        rows_after engine with_model settings []
          (sort (by_key (λ t. t.event_time)) (second ∷ other_card ∷ first ∷ [])))
score_batch_lem_example =
    score_batch_lem engine with_model settings true (second ∷ other_card ∷ first ∷ [])
      (second-IsClean, (other-IsClean, (first-IsClean, tt)))

score_one-score_transaction_example :
    Option.map batch_view (score_one engine with_model with_model.settings (first ∷ []) second)
    ≡ Option.map live_view
        (score_transaction engine with_model (some (first ∷ [])) (lit 0 0) (lit 1 0) second)
score_one-score_transaction_example =
    score_one-score_transaction engine with_model (first ∷ []) (lit 0 0) (lit 1 0) second

alert-is_alert : is_alert alert ≡ true
unfolding row_of decide batch_score_of
alert-is_alert = refl

build_dashboard_payload-IsTallied_example :
    IsTallied (build_dashboard_payload calendar with_model (alert ∷ alert ∷ []) [] 2 false [])
build_dashboard_payload-IsTallied_example =
    build_dashboard_payload-IsTallied calendar with_model (alert ∷ alert ∷ []) [] 2 false []
      ((λ h. alert-is_alert), ((λ h. alert-is_alert), tt))
