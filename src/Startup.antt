-- ===== src/Startup.antt =====
-- scripts/wait_for_services.py: what a container does before it runs its command. The operating system is the
-- interface `Platform` over its state `E`: the clock, in microseconds, sockets and `time.sleep`.
pub mod Waiting
pub mod Ready
pub mod Launch
pub mod Brokers
use realtime_fraud_detection.Common.{
  ℕ, zero, suc, ◌+◌, ◌*◌, ◌≤◌, String, true, false, Option, none, some, List, [], ◌∷◌, ◌++◌, ltb,
  concat, if◌then◌else◌,
}
use realtime_fraud_detection.Common.Int.{ℤ, pos}
use realtime_fraud_detection.Common.Result.{Result, ok, err}
use realtime_fraud_detection.Config.{Settings}
use realtime_fraud_detection.Pii.{split}

-- how `socket.create_connection` ended: an `OSError` with its text, or what else it raised
pub data Connection : Type 0 where
  accepted : Connection
  os_error : String → Connection
  raised : String → Connection

pub record Platform (E : Type 0) : Type 0 where
  pub time : E → ℕ × E
  -- host, port and the timeout in seconds
  pub create_connection : String → ℤ → ℕ → E → Connection × E
  pub sleep : ℕ → E → E

-- the clock does not go back, and `time.sleep` takes no less than it is told
pub record IsClock {E : Type 0} (os : Platform E) : Type 0 where
  pub clock : E → ℕ
  pub time_le : (e : E) → clock e ≤ (os.time e).0
  pub le_time : (e : E) → (os.time e).0 ≤ clock (os.time e).1
  pub connection_le :
      (host : String) (port : ℤ) (timeout : ℕ) (e : E)
      → clock e ≤ clock (os.create_connection host port timeout e).1
  pub sleep_le : (n : ℕ) (e : E) → clock e + n * 1000000 ≤ clock (os.sleep n e)

pub data StartError : Type 0 where
  -- a text that is not one host and one port
  value_error : StartError
  -- host, port and the last error
  timeout_error : String → ℤ → Option String → StartError
  runtime_error : StartError
  other_error : String → StartError

-- the system, and the lines printed so far
pub record Process (E : Type 0) : Type 0 where
  pub system : E
  pub output : List String

abbrev pub Target : Type 0
Target = String × ℤ

module _ {E : Type 0} (os : Platform E) (show_int : ℤ → String) where
  unfoldable pub ok_line : Target → String
  unfolding concat
  ok_line (host, port) =
      concat ("OK: " ∷ host ∷ ":" ∷ show_int port ∷ " is accepting connections" ∷ [])

  -- the loop, with the tests of its condition that are left; `none` where there are no more
  unfoldable pub wait_until :
      ℕ → ℕ → Option String → Target → Process E → Option (Result StartError (Unit {0}) × Process E)
  unfolding ok_line
  wait_until zero deadline last_error target p = none
  wait_until (suc n) deadline last_error (host, port) p =
      let (now, e1) = os.time p.system in
      let (connection, e2) = os.create_connection host port 2 e1 in
      elim (ltb now deadline) [
        | true ↦ elim connection [
          | accepted ↦
              some (ok tt, record { system = e2; output = p.output ++ ok_line (host, port) ∷ [] })
          | os_error text ↦
              wait_until n deadline (some text) (host, port) (record p { system = os.sleep 1 e2 })
          | raised text ↦ some (err (other_error text), record p { system = e2 })
        ]
        | false ↦ some (err (timeout_error host port last_error), record p { system = e1 })
      ]

  -- one test for each second of the timeout, and the last one
  unfoldable pub wait_for_tcp :
      ℕ → Target → Process E → Option (Result StartError (Unit {0}) × Process E)
  unfolding wait_until
  wait_for_tcp timeout target p =
      let (start, e) = os.time p.system in
      wait_until (suc timeout) (start + timeout * 1000000) none target (record p { system = e })

  unfoldable pub wait_for_all :
      List Target → Process E → Option (Result StartError (Unit {0}) × Process E)
  unfolding wait_for_tcp
  wait_for_all [] p = some (ok tt, p)
  wait_for_all (target ∷ targets) p = elim (wait_for_tcp 60 target p) [
    | none ↦ none
    | some (r, p1) ↦ elim r [ ok _ ↦ wait_for_all targets p1 | err e ↦ some (err e, p1) ]
  ]

-- `int` of a text, `none` where it raises
unfoldable pub kafka_target : (String → Option ℤ) → List String → Option Target
kafka_target int [] = none
kafka_target int (host ∷ []) = none
kafka_target int (host ∷ port ∷ []) = elim (int port) [ none ↦ none | some n ↦ some (host, n) ]
kafka_target int (host ∷ port ∷ part ∷ parts) = none

unfoldable pub targets_of : {A : Type 0} → (String → Option ℤ) → Settings A → Option (List Target)
unfolding split kafka_target
targets_of int settings = elim (kafka_target int (split ":" settings.kafka_bootstrap_servers)) [
  | none ↦ none
  | some kafka ↦ some (
      kafka
      ∷ (settings.postgres_host, pos settings.postgres_port)
      ∷ (settings.redis_host, pos settings.redis_port)
      ∷ [])
]

module _ {A E : Type 0} (os : Platform E) (show_int : ℤ → String) (int : String → Option ℤ)
    (settings : Settings A) where
  -- with `sys.argv[1:]`; a value is the command that `os.execvp` is given
  unfoldable pub main :
      List String → Process E → Option (Result StartError (List String) × Process E)
  unfolding targets_of wait_for_all
  main command p = elim (targets_of int settings) [
    | none ↦ some (err value_error, p)
    | some targets ↦ elim (wait_for_all os show_int targets p) [
      | none ↦ none
      | some (r, p1) ↦ elim r [
        | err e ↦ some (err e, p1)
        | ok _ ↦ elim command [
          | [] ↦ some (err runtime_error, p1)
          | word ∷ words ↦ some (ok (word ∷ words), p1)
        ]
      ]
    ]
  ]
