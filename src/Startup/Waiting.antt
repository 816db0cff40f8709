-- ===== src/Startup/Waiting.antt =====
-- That waiting for the services ends.
use realtime_fraud_detection.Common.{
  ℕ, zero, suc, ◌+◌, ◌*◌, ◌≤◌, ◌⊎◌, ◌≡◌, refl, String, Option, none, some, arith, ltb, inl, inr,
  Bool-cases, ltb→lt, true, false, [], ◌∷◌, ◌++◌, ◌∙◌,
}
use realtime_fraud_detection.Startup.{
  Platform, IsClock, StartError, Process, Target, Connection, accepted, os_error, raised,
  wait_until, wait_for_tcp, timeout_error, other_error, ok_line,
}
use realtime_fraud_detection.Common.Result.{Result, ok, err}
use realtime_fraud_detection.Common.Int.{ℤ}

pub Connection-cases :
    (c : Connection)
    → (c ≡ accepted)
      ⊎ (((text : String) × (c ≡ os_error text)) ⊎ ((text : String) × (c ≡ raised text)))
Connection-cases accepted = inl refl
Connection-cases (os_error text) = inr (inl (text, refl))
Connection-cases (raised text) = inr (inr (text, refl))

-- one round of the loop
module _ {E : Type 0} (os : Platform E) (show_int : ℤ → String) (n deadline : ℕ)
    (last_error : Option String) (host : String) (port : ℤ) (p : Process E) where
  abbrev pub wait : ℕ → Option (Result StartError (Unit {0}) × Process E)
  wait fuel = wait_until os show_int fuel deadline last_error (host, port) p

  abbrev pub now : ℕ
  now = (os.time p.system).0

  abbrev pub e1 : E
  e1 = (os.time p.system).1

  abbrev pub connection : Connection
  connection = (os.create_connection host port 2 e1).0

  abbrev pub e2 : E
  e2 = (os.create_connection host port 2 e1).1

  pub wait_until-late :
      ltb now deadline ≡ false
      → wait (suc n) ≡ some (err (timeout_error host port last_error), record p { system = e1 })
  unfolding wait_until
  wait_until-late e = rw (e, wait_until) refl

  pub wait_until-accepted :
      ltb now deadline ≡ true
      → connection ≡ accepted
      → wait (suc n)
        ≡ some (
          ok tt,
          record { system = e2; output = p.output ++ ok_line os show_int (host, port) ∷ [] },
        )
  unfolding wait_until
  wait_until-accepted e c = rw (e, c, wait_until) refl

  pub wait_until-raised :
      (text : String)
      → ltb now deadline ≡ true
      → connection ≡ raised text
      → wait (suc n) ≡ some (err (other_error text), record p { system = e2 })
  unfolding wait_until
  wait_until-raised text e c = rw (e, c, wait_until) refl

  pub wait_until-again :
      (text : String)
      → ltb now deadline ≡ true
      → connection ≡ os_error text
      → wait (suc n)
        ≡ wait_until os show_int n deadline
            (some text)
            (host, port)
            (record p { system = os.sleep 1 e2 })
  unfolding wait_until
  wait_until-again text e c = rw (e, c, wait_until) refl

module _ {E : Type 0} (os : Platform E) (laws : IsClock os) (show_int : ℤ → String) where
  abbrev pub Ended : Option (Result StartError (Unit {0}) × Process E) → Type 0
  Ended o = (r : Result StartError (Unit {0}) × Process E) × (o ≡ some r)

  wait_until-Ended :
      (n deadline : ℕ) (last_error : Option String) (target : Target) (p : Process E)
      → deadline ≤ laws.clock p.system + n * 1000000
      → Ended (wait_until os show_int (suc n) deadline last_error target p)
  unfolding wait_until
  wait_until-Ended zero deadline last_error (host, port) p h =
      elim (Bool-cases (ltb (os.time p.system).0 deadline)) [
        | inl e ↦
            absurd (omega (arith, ltb→lt (os.time p.system).0 deadline e, laws.time_le p.system))
        | inr e ↦ (_, wait_until-late os show_int 0 deadline last_error host port p e)
      ]
  wait_until-Ended (suc n) deadline last_error (host, port) p h =
      let start = p.system in
      let (now, e1) = os.time start in
      let e2 = (os.create_connection host port 2 e1).1 in
      let later : deadline ≤ laws.clock (os.sleep 1 e2) + n * 1000000 = omega (
        arith,
        laws.time_le start,
        laws.le_time start,
        laws.connection_le host port 2 e1,
        laws.sleep_le 1 e2,
      ) in
      elim (Bool-cases (ltb now deadline)) [
        | inl e ↦ elim (Connection-cases (os.create_connection host port 2 e1).0) [
          | inl c ↦ (_, wait_until-accepted os show_int (suc n) deadline last_error host port p e c)
          | inr (inl (text, c)) ↦
              let (r, done) =
                wait_until-Ended n deadline (some text) (host, port)
                  (record p { system = os.sleep 1 e2 }) later in
              (
                r,
                wait_until-again os show_int (suc n) deadline last_error host port p text e c
                    ∙ done,
              )
          | inr (inr (text, c)) ↦
              (_, wait_until-raised os show_int (suc n) deadline last_error host port p text e c)
        ]
        | inr e ↦ (_, wait_until-late os show_int (suc n) deadline last_error host port p e)
      ]

  pub wait_for_tcp-Ended :
      (timeout : ℕ) (target : Target) (p : Process E)
      → Ended (wait_for_tcp os show_int timeout target p)
  unfolding wait_for_tcp
  wait_for_tcp-Ended timeout target p =
      wait_until-Ended timeout _ none target _ (omega (arith, laws.le_time p.system))
