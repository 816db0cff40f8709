-- ===== src/Generator/EdgeCases.antt =====
-- The edge cases of the generator, each with its label.
use realtime_fraud_detection.Common.{
  ℕ, zero, suc, ◌+◌, ◌≤◌, ◌≡◌, ◌≢◌, refl, ap, true, List, [], ◌∷◌, length, All, arith,
}
use realtime_fraud_detection.Common.Int.{pos}
use realtime_fraud_detection.Features.{minutes}
use realtime_fraud_detection.Common.Floating.{Floating, lit}
use realtime_fraud_detection.Schemas.{Transaction}
use realtime_fraud_detection.Generator.{
  Rng, IsRng, ◌>>=◌, pure, draw, choice, rand_hex, CardholderProfile, GeoAnchor, anchors_abroad,
}
use realtime_fraud_detection.Generator.Traffic.{
  normal_transaction, high_value_transaction, impossible_travel_pair, burst_from,
  new_device_high_value, as_fraud, spiked, moved, on_new_device,
}
use realtime_fraud_detection.Generator.Total.{
  Gives, pure-Gives, draw-Gives, >>=-Gives, choice-Gives, rand_hex-Gives, anchors_abroad-All,
  anchors_abroad_pos,
}

-- a card that is at home and then abroad
pub record IsTravel {A : Type 0} (p : CardholderProfile A) (time : ℕ) (pair : List (Transaction A))
    : Type 0 where
  pub near : Transaction A
  pub far : Transaction A
  pub both : pair ≡ near ∷ far ∷ []
  pub same_card : far.card_id ≡ near.card_id
  pub abroad : far.country ≢ p.home_country
  pub flagged : far.is_simulated_fraud ≡ true
  pub soonest : time + minutes 2 ≤ far.event_time
  pub latest : far.event_time ≤ time + minutes 20

module _ {G A : Type 0} ⦃f : Floating A⦄ (rng : Rng G A) where
  -- whatever is drawn, a normal transaction of the profile passes validation
  abbrev pub IsSpender : CardholderProfile A → Type 0
  IsSpender p = (time : ℕ) → Gives (λ (t : Transaction A). Unit {0}) (normal_transaction rng p time)

  module _ (laws : IsRng rng) where
    pub high_value_transaction-Gives :
        (p : CardholderProfile A) (time : ℕ)
        → IsSpender p
        → Gives
            (λ (t : Transaction A). t.is_simulated_fraud ≡ true)
            (high_value_transaction rng p time)
    unfolding high_value_transaction
    high_value_transaction-Gives p time h =
        >>=-Gives _ _ (normal_transaction rng p time) _ (h time) (λ t u.
          >>=-Gives (λ x. Unit {0}) _ (draw (rng.uniform (lit 15 0) (lit 40 0)))
            (λ x. pure (spiked p t x)) (draw-Gives _ _ (λ g. tt)) (λ x v. pure-Gives _ _ refl))

    pub new_device_high_value-Gives :
        (p : CardholderProfile A) (time : ℕ)
        → IsSpender p
        → Gives
            (λ (t : Transaction A). t.is_simulated_fraud ≡ true)
            (new_device_high_value rng p time)
    unfolding new_device_high_value
    new_device_high_value-Gives p time h =
        >>=-Gives _ _ (high_value_transaction rng p time) _ (high_value_transaction-Gives p time h)
          (λ t u.
            >>=-Gives (λ x. Unit {0}) _ (rand_hex rng 10) (λ x. pure (on_new_device t x))
              (rand_hex-Gives rng laws 10) (λ x v. pure-Gives _ _ u))

    pub burst_from-Gives :
        (i n : ℕ) (p : CardholderProfile A) (time : ℕ)
        → IsSpender p
        → Gives
            (λ (ts : List (Transaction A)).
              (length ts ≡ n) × All (λ t. t.is_simulated_fraud ≡ true) ts)
            (burst_from rng i n p time)
    unfolding burst_from
    burst_from-Gives i zero p time h = pure-Gives _ [] (refl, tt)
    burst_from-Gives i (suc n) p time h =
        >>=-Gives (λ x. Unit {0}) _ (draw (rng.uniform (lit 1 0) (lit 8 0))) _
          (draw-Gives _ _ (λ g. tt))
          (λ gap u.
            >>=-Gives _ _
              (normal_transaction rng p (time + rng.seconds (f.mul (f.of_int (pos i)) gap))) _ (h _)
              (λ t v.
                >>=-Gives _ _ (burst_from rng (suc i) n p time) (λ rest. pure (as_fraud t ∷ rest))
                  (burst_from-Gives (suc i) n p time h)
                  (λ rest w. pure-Gives _ _ (ap suc w.0, (refl, w.1)))))

    -- Where whatever is drawn gives valid normal transactions of the profile, an impossible travel raises
    -- nothing and gives two transactions of one card, of which the second is labelled and in another country than
    -- the profile's, 2 to 20 minutes after the time of the round.
    pub impossible_travel_pair-IsTravel :
        (p : CardholderProfile A) (time : ℕ)
        → IsSpender p
        → Gives (IsTravel p time) (impossible_travel_pair rng p time)
    unfolding impossible_travel_pair
    impossible_travel_pair-IsTravel p time h =
        >>=-Gives (λ t. Unit {0}) _ (normal_transaction rng p time) _ (h time)
          (λ first u.
            >>=-Gives (λ (a : GeoAnchor A). a.country ≢ p.home_country) _
              (choice rng (anchors_abroad p.home_country))
              (λ far. rand_hex rng 32 >>= λ hex. draw (rng.randint 2 20) >>= λ m.
                pure (first ∷ moved first far hex (time + minutes m) ∷ []))
              (choice-Gives rng laws _ _ (anchors_abroad_pos A p.home_country)
                (anchors_abroad-All A p.home_country))
              (λ far v.
                >>=-Gives (λ x. Unit {0}) _ (rand_hex rng 32)
                  (λ hex. draw (rng.randint 2 20) >>= λ m.
                    pure (first ∷ moved first far hex (time + minutes m) ∷ []))
                  (rand_hex-Gives rng laws 32)
                  (λ hex w.
                    >>=-Gives (λ m. (2 ≤ m) × (m ≤ 20)) _ (draw (rng.randint 2 20))
                      (λ m. pure (first ∷ moved first far hex (time + minutes m) ∷ []))
                      (draw-Gives _ _ (λ g. laws.randint_le 2 20 g (omega arith)))
                      (λ m x. pure-Gives _ _ (record {
                        near = first;
                        far = moved first far hex (time + minutes m);
                        both = refl;
                        same_card = refl;
                        abroad = v;
                        flagged = refl;
                        soonest = omega (arith, x);
                        latest = omega (arith, x);
                      })))))
