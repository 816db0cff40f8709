-- ===== src/Tests/Api.antt =====
-- The endpoint of a score, on a service that has just loaded a model.
use realtime_fraud_detection.Common.{ℕ, ◌≡◌, refl, true, some, [], ◌∷◌, filter, any}
use realtime_fraud_detection.Common.Sort.{sort}
use realtime_fraud_detection.Features.{comparable, past_of}
use realtime_fraud_detection.Common.Floating.{Micros, micros_floating, lit}
use realtime_fraud_detection.Scoring.Inference.{
  ModelState, ScoringResult, reload, score_transaction,
}
use realtime_fraud_detection.Scoring.Inference.Paths.{reload-IsCoherent}
use realtime_fraud_detection.Storage.Tables.{Database, Stamp, empty_database}
use realtime_fraud_detection.Api.Score.{score_endpoint}
use realtime_fraud_detection.Api.Score.Records.{IsRecorded, score_endpoint-IsRecorded}
use realtime_fraud_detection.Tests.{first, second, engine, loaded, without_model}

abbrev service : ModelState Micros ℕ ℕ
service = (reload engine (some loaded) without_model).0

abbrev prediction_stamp : Stamp
prediction_stamp = record { id = "p1"; now = 1 }

abbrev case_stamp : Stamp
case_stamp = record { id = "case1"; now = 2 }

abbrev db : Database Micros ℕ
db = empty_database

comparable_lem : comparable (first ∷ []) second ≡ true
unfolding comparable past_of sort filter any
comparable_lem = refl

score_endpoint-IsRecorded_example :
    (r : ScoringResult Micros) × (score_transaction engine service
        (some (first ∷ []))
        (lit 0 0)
        (lit 1 0)
        second
      ≡ some r)
    × IsRecorded second r db
        (score_endpoint engine service
          (λ row. true)
          (some (first ∷ []))
          (lit 0 0)
          (lit 1 0)
          prediction_stamp
          case_stamp
          second
          db).1
score_endpoint-IsRecorded_example =
    score_endpoint-IsRecorded engine service (λ row. true) (first ∷ []) (lit 0 0) (lit 1 0)
      prediction_stamp case_stamp second db (reload-IsCoherent engine (some loaded) without_model).0
      comparable_lem refl
