-- ===== src/Tests/Clients.antt =====
-- The service's clients: the review page and the producer.
use realtime_fraud_detection.Common.{
  ℕ, ◌≡◌, ◌<◌, refl, subst, String, true, false, some, List, [], ◌∷◌, ◌++◌, ltb, suc, arith, any,
  str_eq, filter,
}
use realtime_fraud_detection.Common.Dict.{get}
use realtime_fraud_detection.Common.Floating.{Micros}
use realtime_fraud_detection.Common.Result.{Result, ok}
use realtime_fraud_detection.Common.Sort.{sort}
use realtime_fraud_detection.Http.{HttpException}
use realtime_fraud_detection.Features.{contains}
use realtime_fraud_detection.Schemas.{Transaction}
use realtime_fraud_detection.Storage.Review.{list_review_cases, get_review_case}
use realtime_fraud_detection.Api.Auth.{authenticate_demo_user, create_access_token}
use realtime_fraud_detection.Api.Review.{review_roles}
use realtime_fraud_detection.Producer.{Message, Kafka, IsKafka, run}
use realtime_fraud_detection.Producer.Copies.{IsHanded}
use realtime_fraud_detection.Producer.Rounds.{flat, run-IsHanded}
use realtime_fraud_detection.ReviewUi.{up, logged_out, log_in, log_out, send_feedback, act_all}
use realtime_fraud_detection.ReviewUi.Roles.{act_all-outsider}
use realtime_fraud_detection.ReviewUi.Submission.{act_all-reviewer, IsResolvedBy}
use realtime_fraud_detection.Storage.Tables.{Database}
use realtime_fraud_detection.Tests.{settings, first, second, other_card}
use realtime_fraud_detection.Tests.Endpoints.{jwt, jwt-IsJwt, response, issued, stamp, feedback}
use realtime_fraud_detection.Tests.Storage.{db, pending_case}

-- the first call of `poll` raises, so the first message is handed over twice
abbrev kafka : Kafka (ℕ × List Message)
kafka = record {
  produce = λ msg k. (true, (k.0, k.1 ++ msg ∷ []));
  poll = λ k. (ltb 0 k.0, (suc k.0, k.1));
  flush = λ k. k;
  queued = λ k. k.1;
}

kafka-IsKafka : IsKafka kafka
kafka-IsKafka = record { produce_lem = λ msg k. refl; poll_lem = λ k. refl; flush_lem = λ k. refl }

abbrev batches : List (List (Transaction Micros))
batches = (first ∷ second ∷ []) ∷ (other_card ∷ []) ∷ []

run-IsHanded_example :
    IsHanded kafka kafka-IsKafka
      (λ t. t.transaction_id)
      "transactions"
      (flat batches)
      (0, [])
      (run kafka (λ t. t.transaction_id) "transactions" (λ n. false) 0 batches (0, []))
run-IsHanded_example =
    run-IsHanded kafka kafka-IsKafka (λ t. t.transaction_id) "transactions" (λ n. false) 0 batches
      (0, [])

ok_inj : (a b : String) → ◌≡◌ {A = Result HttpException String} (ok a) (ok b) → a ≡ b
ok_inj a b h = cc

-- the service's own user is no reviewer
service-outside :
    (role : String)
    → authenticate_demo_user "service-account" "service-demo-pass" ≡ ok role
    → contains role review_roles ≡ false
unfolding authenticate_demo_user get
service-outside role h = subst (λ r. contains r review_roles ≡ false) (ok_inj "service" role h) refl

act_all-outsider_example :
    (act_all jwt settings
      (λ n. "")
      ((up, 1000, log_in "service-account" "service-demo-pass")
        ∷ (up, 1001, send_feedback up "pending" 50 "case1" feedback "" stamp)
        ∷ (up, 1002, log_out)
        ∷ [])
      (logged_out, db)).1
    ≡ db
act_all-outsider_example =
    act_all-outsider jwt jwt-IsJwt settings (λ n. "")
      ((up, 1000, log_in "service-account" "service-demo-pass")
        ∷ (up, 1001, send_feedback up "pending" 50 "case1" feedback "" stamp)
        ∷ (up, 1002, log_out)
        ∷ [])
      db (service-outside, (tt, (tt, tt)))

reviewer_lem : contains response.role review_roles ≡ true
reviewer_lem = refl

listed_lem : any (λ c. str_eq c.id "case1") (list_review_cases "pending" 50 db) ≡ true
unfolding any list_review_cases sort filter
listed_lem = refl

found_lem : get_review_case "case1" db ≡ some pending_case
unfolding get_review_case
found_lem = refl

early_lem : 2000 < response.expires_at
unfolding create_access_token
early_lem = omega arith

act_all-reviewer_example :
    (db1 : Database Micros ℕ) × (act_all jwt settings
        (λ n. "")
        ((up, 1000, log_in "analyst1" "analyst-demo-pass")
          ∷ (up, 2000, send_feedback up "pending" 50 "case1" feedback "" stamp)
          ∷ [])
        (logged_out, db)
      ≡ (record { access_token = some response.access_token; role = some response.role }, db1))
    × IsResolvedBy stamp "case1" feedback pending_case db db1
act_all-reviewer_example =
    act_all-reviewer jwt jwt-IsJwt settings (λ n. "") "analyst1" "analyst-demo-pass" 1000 2000
      response "pending" 50 "case1" feedback "" stamp db pending_case issued reviewer_lem early_lem
      listed_lem found_lem refl
