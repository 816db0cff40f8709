-- ===== src/Tests/Startup.antt =====
-- What a container waits for.
use realtime_fraud_detection.Common.{
  ℕ, ◌+◌, ◌*◌, ◌≡◌, refl, String, Option, some, List, [], ◌∷◌, ltb, arith, concat, if◌then◌else◌,
}
use realtime_fraud_detection.Common.Floating.{Micros}
use realtime_fraud_detection.Common.Int.{ℤ, pos, negsuc}
use realtime_fraud_detection.Common.Result.{Result, ok, err}
use realtime_fraud_detection.Config.{Settings}
use realtime_fraud_detection.Pii.{split}
use realtime_fraud_detection.Startup.{
  accepted, os_error, Platform, IsClock, StartError, value_error, Process, main,
}
use realtime_fraud_detection.Startup.Brokers.{main-brokers}
use realtime_fraud_detection.Startup.Launch.{main-Ended, main-IsReady, IsReady}
use realtime_fraud_detection.Tests.{settings}

-- every port refuses for the first three seconds; the state is the clock
abbrev os : Platform ℕ
os = record {
  time = λ e. (e, e);
  create_connection =
      λ host port timeout e. (if ltb e 3000000 then os_error "refused" else accepted, e);
  sleep = λ n e. e + n * 1000000;
}

os-IsClock : IsClock os
os-IsClock = record {
  clock = λ e. e;
  time_le = λ e. omega arith;
  le_time = λ e. omega arith;
  connection_le = λ host port timeout e. omega arith;
  sleep_le = λ n e. omega arith;
}

abbrev show_int : ℤ → String
show_int (pos n) = "a port"
show_int (negsuc n) = "no port"

abbrev int : String → Option ℤ
int s = some (pos 9092)

abbrev process : Process ℕ
process = record { system = 0; output = [] }

abbrev command : List String
command = "uvicorn" ∷ []

abbrev waited : Process ℕ
waited = record {
  system = 3000000;
  output =
      "OK: localhost:a port is accepting connections"
      ∷ "OK: localhost:a port is accepting connections"
      ∷ "OK: localhost:a port is accepting connections" ∷ [];
}

main_lem : main os show_int int settings command process ≡ some (ok command, waited)
unfolding main split concat
main_lem = refl

main-Ended_example :
    (r : Result StartError (List String) × Process ℕ) × (main os show_int int settings command
        process
      ≡ some r)
main-Ended_example = main-Ended os show_int int settings os-IsClock command process

main-IsReady_example : IsReady os show_int int settings command command process waited
main-IsReady_example = main-IsReady os show_int int settings command command process waited main_lem

abbrev two_brokers : Settings Micros
two_brokers = record settings { kafka_bootstrap_servers = "b-1:9094,b-2:9094" }

two_brokers_lem :
    two_brokers.kafka_bootstrap_servers ≡ concat ("b-1" ∷ ":" ∷ "9094,b-2" ∷ ":" ∷ "9094" ∷ [])
unfolding concat
two_brokers_lem = refl

main-brokers_example :
    main os show_int int two_brokers command process ≡ some (err value_error, process)
main-brokers_example =
    main-brokers os show_int int two_brokers "b-1" "9094,b-2" "9094" command process two_brokers_lem
