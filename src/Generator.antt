-- ===== src/Generator.antt =====
-- src/ingestion/transaction_generator.py: simulated traffic with labelled edge cases. `random.Random` and
-- Faker are an interface over the state `G` of the two; `none` is an exception.
pub mod Traffic
pub mod Total
pub mod EdgeCases
pub mod Stream
use realtime_fraud_detection.Common.{
  ℕ, zero, suc, ◌≤◌, ◌<◌, ◌+◌, ◌*◌, String, Bool, true, false, not, Option, none, some, List, [],
  ◌∷◌, ◌++◌, length, filter, map, ltb, str_eq, concat, if◌then◌else◌,
}
use realtime_fraud_detection.Common.Int.{pos}
use realtime_fraud_detection.Common.Floating.{Floating, lit, fmax, ◌<ᶠ◌}
use realtime_fraud_detection.Features.{minutes}
use realtime_fraud_detection.Schemas.{
  Transaction, TransactionChannel, purchase, online, in_store, atm, mobile, validate,
}

pub record Rng (G A : Type 0) : Type 0 where
  pub uniform : A → A → G → A × G
  pub random : G → A × G
  pub gauss : A → A → G → A × G
  pub randint : ℕ → ℕ → G → ℕ × G
  -- the position that `choice` takes in a sequence of this length
  pub position : ℕ → G → ℕ × G
  pub sample : List String → ℕ → G → List String × G
  -- `faker.ipv4_public()`
  pub ipv4_public : G → String × G
  -- `timedelta(milliseconds=x)` and `timedelta(seconds=x)` in microseconds
  pub milliseconds : A → ℕ
  pub seconds : A → ℕ
  pub show_int : ℕ → String
  pub upper : String → String

-- what `randint` and `choice` are documented to give
pub record IsRng {G A : Type 0} (rng : Rng G A) : Type 0 where
  pub randint_le :
      (lo hi : ℕ) (g : G)
      → lo ≤ hi
      → (lo ≤ (rng.randint lo hi g).0) × ((rng.randint lo hi g).0 ≤ hi)
  pub position_lt : (n : ℕ) (g : G) → 0 < n → (rng.position n g).0 < n

pub record GeoAnchor (A : Type 0) : Type 0 where
  pub country : String
  pub lat : A
  pub lon : A

pub record CardholderProfile (A : Type 0) : Type 0 where
  pub card_id : String
  pub user_id : String
  pub home_country : String
  pub home_lat : A
  pub home_lon : A
  pub typical_amount_mean : A
  pub typical_amount_std : A
  pub preferred_categories : List String
  pub device_ids : List String

abbrev pub merchant_categories : List String
merchant_categories =
    "grocery" ∷ "electronics" ∷ "restaurant" ∷ "gas_station" ∷ "travel" ∷ "entertainment"
    ∷ "utilities" ∷ "clothing" ∷ "pharmacy" ∷ "online_marketplace" ∷ []

abbrev pub hex_characters : List String
hex_characters =
    "0" ∷ "1" ∷ "2" ∷ "3" ∷ "4" ∷ "5" ∷ "6" ∷ "7" ∷ "8" ∷ "9" ∷ "a" ∷ "b" ∷ "c" ∷ "d" ∷ "e" ∷ "f"
    ∷ []

-- a computation on the state that may raise
abbrev pub Gen : Type 0 → Type 0 → Type 0
Gen G X = G → Option (X × G)

abbrev pub after : {G X Y : Type 0} → (X → Gen G Y) → Option (X × G) → Option (Y × G)
after k none = none
after k (some (x, g)) = k x g

infixl 5 ◌>>=◌
abbrev pub ◌>>=◌ : {G X Y : Type 0} → Gen G X → (X → Gen G Y) → Gen G Y
(m >>= k) g = after k (m g)

abbrev pub pure : {G X : Type 0} → X → Gen G X
pure x g = some (x, g)

abbrev pub draw : {G X : Type 0} → (G → X × G) → Gen G X
draw m g = some (m g)

abbrev pub raise : {G X : Type 0} → Gen G X
raise g = none

abbrev pub lift : {G X : Type 0} → Option X → Gen G X
lift none = raise
lift (some x) = pure x

-- `xs[i]`
abbrev pub item : {X : Type 0} → List X → ℕ → Option X
item [] i = none
item (x ∷ xs) zero = some x
item (x ∷ xs) (suc i) = item xs i

module _ {G A : Type 0} (rng : Rng G A) where
  -- `rng.choice(xs)`; `IndexError` of an empty sequence
  unfoldable pub choice : {X : Type 0} → List X → Gen G X
  choice xs = do i ← draw (rng.position (length xs)); lift (item xs i)

  unfoldable pub rand_hex : ℕ → Gen G String
  rand_hex zero = pure ""
  rand_hex (suc n_chars) = do
    c ← choice hex_characters
    rest ← rand_hex n_chars
    pure (concat (c ∷ rest ∷ []))

  -- `[f"device_{self._rand_hex(10)}" for _ in range(n)]`
  abbrev pub device_names : ℕ → Gen G (List String)
  device_names zero = pure []
  device_names (suc n) = do
    hex ← rand_hex 10
    rest ← device_names n
    pure (concat ("device_" ∷ hex ∷ []) ∷ rest)

module _ {A : Type 0} ⦃f : Floating A⦄ where
  abbrev pub negative : A → A
  negative x = f.sub (lit 0 0) x

  -- `_GEO_ANCHORS`
  abbrev pub geo_anchors : List (GeoAnchor A)
  geo_anchors =
      record { country = "US"; lat = lit 377749 4; lon = negative (lit 1224194 4) }
      ∷ record { country = "US"; lat = lit 407128 4; lon = negative (lit 740060 4) }
      ∷ record { country = "GB"; lat = lit 515074 4; lon = negative (lit 1278 4) }
      ∷ record { country = "DE"; lat = lit 525200 4; lon = lit 134050 4 }
      ∷ record { country = "JP"; lat = lit 356762 4; lon = lit 1396503 4 }
      ∷ record { country = "AU"; lat = negative (lit 338688 4); lon = lit 1512093 4 }
      ∷ record { country = "BR"; lat = negative (lit 235505 4); lon = negative (lit 466333 4) }
      ∷ record { country = "ZA"; lat = negative (lit 262041 4); lon = lit 280473 4 }
      ∷ []

  -- the anchors of other countries
  abbrev pub anchors_abroad : String → List (GeoAnchor A)
  anchors_abroad home_country = filter (λ a. not (str_eq a.country home_country)) geo_anchors

abbrev pub channels : List TransactionChannel
channels = online ∷ in_store ∷ atm ∷ mobile ∷ []

module _ {G A : Type 0} ⦃f : Floating A⦄ (rng : Rng G A) where
  unfoldable pub build_profile : Gen G (CardholderProfile A)
  build_profile = do
    anchor ← choice rng geo_anchors
    d_lat ← draw (rng.uniform (negative (lit 5 1)) (lit 5 1))
    d_lon ← draw (rng.uniform (negative (lit 5 1)) (lit 5 1))
    card ← rand_hex rng 12
    user ← rand_hex rng 12
    mean ← draw (rng.uniform (lit 15 0) (lit 150 0))
    std ← draw (rng.uniform (lit 5 0) (lit 40 0))
    categories ← draw (rng.sample merchant_categories 3)
    n ← draw (rng.randint 1 3)
    devices ← device_names rng n
    pure (record {
      card_id = concat ("card_" ∷ card ∷ []);
      user_id = concat ("user_" ∷ user ∷ []);
      home_country = anchor.country;
      home_lat = f.add anchor.lat d_lat;
      home_lon = f.add anchor.lon d_lon;
      typical_amount_mean = mean;
      typical_amount_std = std;
      preferred_categories = categories;
      device_ids = devices;
    })

  -- `[self._build_profile() for _ in range(n)]`
  unfoldable pub build_profiles : ℕ → Gen G (List (CardholderProfile A))
  build_profiles zero = pure []
  build_profiles (suc n) = do
    profile ← build_profile
    rest ← build_profiles n
    pure (profile ∷ rest)
