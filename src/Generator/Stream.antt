-- ===== src/Generator/Stream.antt =====
-- How much traffic the generator gives.
use realtime_fraud_detection.Common.{
  ℕ, zero, suc, ◌+◌, ◌≤◌, ◌<◌, ◌≡◌, ◌⊎◌, refl, List, [], ◌∷◌, ◌++◌, length, length-append, All, ltb,
  ltb→lt, arith, Bool-cases, inl, inr,
}
use realtime_fraud_detection.Common.Floating.{Floating, lit, ◌<ᶠ◌}
use realtime_fraud_detection.Schemas.{Transaction}
use realtime_fraud_detection.Generator.{
  Rng, IsRng, Gen, ◌>>=◌, pure, draw, choice, CardholderProfile,
}
use realtime_fraud_detection.Generator.Traffic.{
  impossible_travel_pair, burst_from, velocity_abuse_burst, round_of, stream_from, stream, single,
}
use realtime_fraud_detection.Generator.Total.{
  Gives, Gives-map, pure-Gives, draw-Gives, >>=-Gives, choice-Gives,
}
use realtime_fraud_detection.Generator.EdgeCases.{
  IsSpender, high_value_transaction-Gives, new_device_high_value-Gives, burst_from-Gives,
  impossible_travel_pair-IsTravel,
}

module _ {G A : Type 0} ⦃f : Floating A⦄ (rng : Rng G A) (laws : IsRng rng) where
  -- what a round yields: one transaction at least, and fifteen at most
  abbrev Few : List (Transaction A) → Type 0
  Few ts = (1 ≤ length ts) × (length ts ≤ 15)

  single-Few :
      (P : Transaction A → Type 0) (m : Gen G (Transaction A)) → Gives P m → Gives Few (single m)
  single-Few P m h =
      >>=-Gives P Few m (λ t. pure (t ∷ [])) h
        (λ t u. pure-Gives Few (t ∷ []) (omega arith, omega arith))

  velocity_abuse_burst-Few :
      (p : CardholderProfile A) (time : ℕ)
      → IsSpender rng p
      → Gives Few (velocity_abuse_burst rng p time)
  unfolding velocity_abuse_burst
  velocity_abuse_burst-Few p time h =
      >>=-Gives (λ n. (6 ≤ n) × (n ≤ 15)) Few (draw (rng.randint 6 15))
        (λ n. burst_from rng 0 n p time)
        (draw-Gives _ _ (λ g. laws.randint_le 6 15 g (omega arith)))
        (λ n u.
          Gives-map _ Few (burst_from rng 0 n p time) (burst_from-Gives rng laws 0 n p time h)
            (λ ts v. (omega (arith, u, v.0), omega (arith, u, v.0))))

  impossible_travel_pair-Few :
      (p : CardholderProfile A) (time : ℕ)
      → IsSpender rng p
      → Gives Few (impossible_travel_pair rng p time)
  impossible_travel_pair-Few p time h =
      Gives-map _ Few (impossible_travel_pair rng p time)
        (impossible_travel_pair-IsTravel rng laws p time h)
        (λ ts v. rw (v.both) (omega arith, omega arith))

  round_of-Few :
      (ratio : A) (p : CardholderProfile A) (time : ℕ) (roll : A)
      → IsSpender rng p
      → Gives Few (round_of rng ratio p time roll)
  unfolding round_of
  round_of-Few ratio p time roll h = elim (Bool-cases (roll <ᶠ f.mul ratio (lit 35 2))) [
    | inl a ↦ rw a (velocity_abuse_burst-Few p time h)
    | inr a ↦ elim (Bool-cases (roll <ᶠ f.mul ratio (lit 65 2))) [
      | inl b ↦ rw (a, b) (impossible_travel_pair-Few p time h)
      | inr b ↦ elim (Bool-cases (roll <ᶠ f.mul ratio (lit 85 2))) [
        | inl c ↦ rw (a, b, c) (single-Few _ _ (high_value_transaction-Gives rng laws p time h))
        | inr c ↦ elim (Bool-cases (roll <ᶠ ratio)) [
          | inl d ↦ rw (a, b, c, d) (single-Few _ _ (new_device_high_value-Gives rng laws p time h))
          | inr d ↦ rw (a, b, c, d) (single-Few _ _ (h time))
        ]
      ]
    ]
  ]

  -- how much the rest of a run yields, after `emitted` of `n`
  abbrev Enough : ℕ → ℕ → List (Transaction A) → Type 0
  Enough n emitted ts =
      (n ≤ emitted + length ts) × ((emitted + length ts ≤ n + 14) ⊎ (length ts ≡ 0))

  Enough-append :
      (n emitted : ℕ) (ts rest : List (Transaction A))
      → emitted < n
      → Few ts
      → Enough n (emitted + length ts) rest
      → Enough n emitted (ts ++ rest)
  Enough-append n emitted ts rest more few h = (
    omega (arith, length-append ts rest, h.0),
    inl (elim h.1 [
      | inl bound ↦ omega (arith, length-append ts rest, bound)
      | inr none_left ↦ omega (arith, length-append ts rest, none_left, few.1)
    ]),
  )

  -- a round and what follows it
  yield-Enough :
      (n emitted : ℕ) (ratio : A) (p : CardholderProfile A) (end : ℕ) (roll : A)
      (go : ℕ → Gen G (List (Transaction A)))
      → emitted < n
      → IsSpender rng p
      → ((k : ℕ) → 1 ≤ k → Gives (Enough n (emitted + k)) (go (emitted + k)))
      → Gives (Enough n emitted) (
          round_of rng ratio p end roll >>= λ ts.
          go (emitted + length ts) >>= λ rest. pure (ts ++ rest))
  yield-Enough n emitted ratio p end roll go more h rest_of =
      >>=-Gives Few (Enough n emitted) (round_of rng ratio p end roll)
        (λ ts. go (emitted + length ts) >>= λ rest. pure (ts ++ rest))
        (round_of-Few ratio p end roll h)
        (λ ts few.
          >>=-Gives (Enough n (emitted + length ts)) (Enough n emitted) (go (emitted + length ts))
            (λ rest. pure (ts ++ rest)) (rest_of (length ts) few.0)
            (λ rest v.
              pure-Gives (Enough n emitted) (ts ++ rest)
                (Enough-append n emitted ts rest more few v)))

  stream_from-Enough :
      (rounds : ℕ) (ratio : A) (profiles : List (CardholderProfile A)) (n clock emitted : ℕ)
      → 0 < length profiles
      → All (IsSpender rng) profiles
      → n ≤ emitted + rounds
      → Gives (Enough n emitted) (stream_from rng rounds ratio profiles n clock emitted)
  unfolding stream_from
  stream_from-Enough zero ratio profiles n clock emitted some_card spenders enough =
      pure-Gives (Enough n emitted) [] (omega arith, inr refl)
  stream_from-Enough (suc rounds) ratio profiles n clock emitted some_card spenders enough =
      elim (Bool-cases (ltb emitted n)) [
        | inr over ↦ rw over (pure-Gives (Enough n emitted) [] (ground (arith, over), inr refl))
        | inl more ↦ rw more (
            >>=-Gives (IsSpender rng) (Enough n emitted) (choice rng profiles) _
              (choice-Gives rng laws (IsSpender rng) profiles some_card spenders)
              (λ p h.
                >>=-Gives (λ x. Unit {0}) (Enough n emitted)
                  (draw (rng.uniform (lit 5 0) (lit 250 0)))
                  (λ ms. draw rng.random >>= λ roll.
                    round_of rng ratio p (clock + rng.milliseconds ms) roll >>= λ ts.
                    stream_from rng rounds ratio profiles n (clock + rng.milliseconds ms)
                      (emitted + length ts)
                    >>= λ rest. pure (ts ++ rest))
                  (draw-Gives _ _ (λ g. tt))
                  (λ ms u.
                    >>=-Gives (λ x. Unit {0}) (Enough n emitted) (draw rng.random)
                      (λ roll. round_of rng ratio p (clock + rng.milliseconds ms) roll >>= λ ts.
                        stream_from rng rounds ratio profiles n (clock + rng.milliseconds ms)
                          (emitted + length ts)
                        >>= λ rest. pure (ts ++ rest))
                      (draw-Gives _ _ (λ g. tt))
                      (λ roll w.
                        yield-Enough n emitted ratio p (clock + rng.milliseconds ms) roll
                          (stream_from rng rounds ratio profiles n (clock + rng.milliseconds ms))
                          (ltb→lt emitted n more) h
                          (λ k pos_k.
                            stream_from-Enough rounds ratio profiles n (clock + rng.milliseconds ms)
                              (emitted + k) some_card spenders (omega arith))))))
      ]

  -- Where whatever is drawn gives valid normal transactions, the traffic of at least one cardholder ends: it
  -- raises nothing and has at least the `n` transactions that were asked for, and at most 14 more.
  pub stream-Gives :
      (ratio : A) (profiles : List (CardholderProfile A)) (n start_time : ℕ)
      → 0 < length profiles
      → All (IsSpender rng) profiles
      → Gives
          (λ ts. (n ≤ length ts) × (length ts ≤ n + 14))
          (stream rng ratio profiles n start_time)
  unfolding stream
  stream-Gives ratio profiles n start_time some_card spenders =
      Gives-map (Enough n 0) _ (stream_from rng n ratio profiles n start_time 0)
        (stream_from-Enough n ratio profiles n start_time 0 some_card spenders (omega arith))
        (λ ts v. (
          omega (arith, v.0),
          elim v.1 [ inl bound ↦ omega (arith, bound) | inr nothing ↦ omega (arith, nothing) ],
        ))
