-- ===== src/Generator/Traffic.antt =====
-- src/ingestion/transaction_generator.py: the transactions of a profile, and the stream.
use realtime_fraud_detection.Common.{
  ℕ, zero, suc, ◌+◌, String, true, false, some, List, [], ◌∷◌, ◌++◌, length, ltb, concat,
  if◌then◌else◌,
}
use realtime_fraud_detection.Common.Int.{pos}
use realtime_fraud_detection.Common.Floating.{Floating, lit, fmax, ◌<ᶠ◌}
use realtime_fraud_detection.Features.{minutes}
use realtime_fraud_detection.Schemas.{Transaction, purchase, validate}
use realtime_fraud_detection.Generator.{
  Rng, GeoAnchor, CardholderProfile, Gen, ◌>>=◌, pure, draw, lift, choice, rand_hex, negative,
  anchors_abroad, channels,
}

abbrev pub single : {G X : Type 0} → Gen G X → Gen G (List X)
single m = m >>= λ t. pure (t ∷ [])

-- the copies that the edge cases make
abbrev pub as_fraud : {A : Type 0} → Transaction A → Transaction A
as_fraud txn = record txn { is_simulated_fraud = true }

abbrev pub on_new_device : {A : Type 0} → Transaction A → String → Transaction A
on_new_device txn hex = record txn { device_id = some (concat ("device_" ∷ hex ∷ [])) }

abbrev pub moved : {A : Type 0} → Transaction A → GeoAnchor A → String → ℕ → Transaction A
moved txn far hex event_time = record txn {
  transaction_id = concat ("txn_" ∷ hex ∷ []);
  latitude = far.lat;
  longitude = far.lon;
  country = far.country;
  event_time = event_time;
  is_simulated_fraud = true;
}

module _ {A : Type 0} ⦃f : Floating A⦄ where
  abbrev pub spiked : CardholderProfile A → Transaction A → A → Transaction A
  spiked profile txn factor = record txn {
    amount =
        f.round (f.add profile.typical_amount_mean (f.mul profile.typical_amount_std factor)) 2;
    is_simulated_fraud = true;
  }

module _ {G A : Type 0} ⦃f : Floating A⦄ (rng : Rng G A) where
  -- the constructor validates
  unfoldable pub normal_transaction : CardholderProfile A → ℕ → Gen G (Transaction A)
  normal_transaction profile event_time = do
    drawn ← draw (rng.gauss profile.typical_amount_mean profile.typical_amount_std)
    transaction_id ← rand_hex rng 32
    merchant ← draw (rng.randint 1 5000)
    merchant_category ← choice rng profile.preferred_categories
    channel ← choice rng channels
    d_lat ← draw (rng.uniform (negative (lit 1 1)) (lit 1 1))
    d_lon ← draw (rng.uniform (negative (lit 1 1)) (lit 1 1))
    device_id ← choice rng profile.device_ids
    ip_address ← draw rng.ipv4_public
    lift (
        validate rng.upper (record {
          transaction_id = concat ("txn_" ∷ transaction_id ∷ []);
          card_id = profile.card_id;
          user_id = profile.user_id;
          amount = f.round (fmax (lit 1 0) drawn) 2;
          currency = "USD";
          merchant_id = concat ("merchant_" ∷ rng.show_int merchant ∷ []);
          merchant_category = merchant_category;
          transaction_type = purchase;
          channel = channel;
          latitude = f.add profile.home_lat d_lat;
          longitude = f.add profile.home_lon d_lon;
          country = profile.home_country;
          device_id = some device_id;
          ip_address = some ip_address;
          event_time = event_time;
          zone = some (pos 0);
          is_simulated_fraud = false;
        }))

  -- `model_copy` does not validate
  unfoldable pub high_value_transaction : CardholderProfile A → ℕ → Gen G (Transaction A)
  high_value_transaction profile event_time = do
    txn ← normal_transaction profile event_time
    factor ← draw (rng.uniform (lit 15 0) (lit 40 0))
    pure (spiked profile txn factor)

  unfoldable pub impossible_travel_pair : CardholderProfile A → ℕ → Gen G (List (Transaction A))
  impossible_travel_pair profile event_time = do
    first ← normal_transaction profile event_time
    far ← choice rng (anchors_abroad profile.home_country)
    transaction_id ← rand_hex rng 32
    minutes_later ← draw (rng.randint 2 20)
    pure (first ∷ moved first far transaction_id (event_time + minutes minutes_later) ∷ [])

  -- the transactions from the i-th on
  unfoldable pub burst_from : ℕ → ℕ → CardholderProfile A → ℕ → Gen G (List (Transaction A))
  burst_from i zero profile event_time = pure []
  burst_from i (suc n) profile event_time = do
    gap ← draw (rng.uniform (lit 1 0) (lit 8 0))
    t ← normal_transaction profile (event_time + rng.seconds (f.mul (f.of_int (pos i)) gap))
    rest ← burst_from (suc i) n profile event_time
    pure (as_fraud t ∷ rest)

  unfoldable pub velocity_abuse_burst : CardholderProfile A → ℕ → Gen G (List (Transaction A))
  velocity_abuse_burst profile event_time = do
    burst_size ← draw (rng.randint 6 15)
    burst_from 0 burst_size profile event_time

  unfoldable pub new_device_high_value : CardholderProfile A → ℕ → Gen G (Transaction A)
  new_device_high_value profile event_time = do
    txn ← high_value_transaction profile event_time
    hex ← rand_hex rng 10
    pure (on_new_device txn hex)

  -- what one round yields
  unfoldable pub round_of : A → CardholderProfile A → ℕ → A → Gen G (List (Transaction A))
  round_of edge_case_ratio profile clock roll =
      if roll <ᶠ f.mul edge_case_ratio (lit 35 2)
      then velocity_abuse_burst profile clock
      else if roll <ᶠ f.mul edge_case_ratio (lit 65 2)
      then impossible_travel_pair profile clock
      else if roll <ᶠ f.mul edge_case_ratio (lit 85 2)
      then single (high_value_transaction profile clock)
      else if roll <ᶠ edge_case_ratio
      then single (new_device_high_value profile clock)
      else single (normal_transaction profile clock)

  -- the loop, with a bound on its rounds
  unfoldable pub stream_from :
      ℕ → A → List (CardholderProfile A) → ℕ → ℕ → ℕ → Gen G (List (Transaction A))
  stream_from zero edge_case_ratio profiles n clock emitted = pure []
  stream_from (suc rounds) edge_case_ratio profiles n clock emitted =
      if ltb emitted n
      then (do
        profile ← choice rng profiles
        ms ← draw (rng.uniform (lit 5 0) (lit 250 0))
        roll ← draw rng.random
        yielded ← round_of edge_case_ratio profile (clock + rng.milliseconds ms) roll
        rest ←
            stream_from rounds edge_case_ratio profiles n (clock + rng.milliseconds ms)
              (emitted + length yielded)
        pure (yielded ++ rest))
      else pure []

  -- all that the iterator gives; each round yields something, so that `n` rounds are enough
  unfoldable pub stream : A → List (CardholderProfile A) → ℕ → ℕ → Gen G (List (Transaction A))
  unfolding stream_from
  stream edge_case_ratio profiles n start_time =
      stream_from n edge_case_ratio profiles n start_time 0
