-- ===== src/Generator/Total.antt =====
-- Total correctness of computations on the generator's state: they raise nothing, and what they give has a
-- property.
use realtime_fraud_detection.Common.{
  ℕ, zero, suc, ◌<◌, String, ◌≡◌, ◌≢◌, ◌⊎◌, refl, ap, ◌∙◌, Bool, true, not, some, List, [], ◌∷◌,
  length, All, All-map, filter, str_eq, eq_iff, arith, Bool-cases, inl, inr,
}
use realtime_fraud_detection.Common.Floating.{Floating}
use realtime_fraud_detection.Generator.{
  Rng, IsRng, Gen, ◌>>=◌, after, pure, draw, lift, item, choice, rand_hex, hex_characters,
  GeoAnchor, geo_anchors, anchors_abroad,
}

pub record Gives {G X : Type 0} (P : X → Type 0) (m : Gen G X) : Type 0 where
  pub run : (g : G) → (x : X) × (g1 : G) × (m g ≡ some (x, g1)) × P x

module _ {G X : Type 0} where
  pub pure-Gives : (P : X → Type 0) (x : X) → P x → Gives P (pure {G = G} x)
  pure-Gives P x p = record { run = λ g. (x, g, refl, p) }

  pub draw-Gives : (P : X → Type 0) (m : G → X × G) → ((g : G) → P (m g).0) → Gives P (draw m)
  draw-Gives P m h = record { run = λ g. ((m g).0, (m g).1, refl, h g) }

  pub Gives-map : (P Q : X → Type 0) (m : Gen G X) → Gives P m → ((x : X) → P x → Q x) → Gives Q m
  Gives-map P Q m h k = record { run = λ g. let (x, g1, e, p) = h.run g in (x, g1, e, k x p) }

pub >>=-Gives :
    {G X Y : Type 0} (P : X → Type 0) (Q : Y → Type 0) (m : Gen G X) (k : X → Gen G Y)
    → Gives P m
    → ((x : X) → P x → Gives Q (k x))
    → Gives Q (m >>= k)
>>=-Gives P Q m k h j = record {
  run = λ g.
      let (x, g1, e, p) = h.run g in
      let (y, g2, d, q) = (j x p).run g1 in (y, g2, ap (after k) e ∙ d, q);
}

All-Unit : {X : Type 0} (xs : List X) → All (λ x. Unit {0}) xs
All-Unit [] = tt
All-Unit (x ∷ xs) = (tt, All-Unit xs)

-- an item of a list that has one at the position
item-All :
    {X : Type 0} (P : X → Type 0) (xs : List X) (i : ℕ)
    → i < length xs
    → All P xs
    → (x : X) × (item xs i ≡ some x) × P x
item-All P [] i h a = absurd (omega arith)
item-All P (x ∷ xs) zero h a = (x, refl, a.0)
item-All P (x ∷ xs) (suc i) h a = item-All P xs i (omega arith) a.1

module _ {G A : Type 0} (rng : Rng G A) (laws : IsRng rng) where
  -- a choice among some items that all have a property
  pub choice-Gives :
      {X : Type 0} (P : X → Type 0) (xs : List X)
      → 0 < length xs
      → All P xs
      → Gives P (choice rng xs)
  unfolding choice
  choice-Gives P xs h a = record {
    run = λ g.
        let (i, g1) = rng.position (length xs) g in
        let (x, e, p) = item-All P xs i (laws.position_lt (length xs) g h) a in
        (x, g1, ap (λ o. lift o g1) e, p);
  }

  pub rand_hex-Gives : (n : ℕ) → Gives (λ s. Unit {0}) (rand_hex rng n)
  unfolding rand_hex
  rand_hex-Gives zero = pure-Gives _ "" tt
  rand_hex-Gives (suc n) =
      >>=-Gives (λ c. Unit {0}) _ (choice rng hex_characters) _
        (choice-Gives (λ c. Unit) hex_characters (omega arith) (All-Unit hex_characters))
        (λ c p.
          >>=-Gives (λ s. Unit {0}) _ (rand_hex rng n) _ (rand_hex-Gives n)
            (λ rest q. pure-Gives _ _ tt))

filter-All : {X : Type 0} (p : X → Bool) (xs : List X) → All (λ x. p x ≡ true) (filter p xs)
unfolding filter
filter-All p [] = tt
filter-All p (x ∷ xs) = elim (Bool-cases (p x)) [
  | inl e ↦ rw e (e, filter-All p xs)
  | inr e ↦ rw e (filter-All p xs)
]

filter_pos :
    {X : Type 0} (p : X → Bool) (x y z : X) (rest : List X)
    → (p x ≡ true) ⊎ (p z ≡ true)
    → 0 < length (filter p (x ∷ y ∷ z ∷ rest))
unfolding filter
filter_pos p x y z rest h = ground (arith, h)

-- "US" or "GB" is abroad
two_countries : (home : String) → (not (str_eq "US" home) ≡ true) ⊎ (not (str_eq "GB" home) ≡ true)
two_countries home = ground (arith, eq_iff "US" home, eq_iff "GB" home, eq_iff "US" "GB")

module _ (A : Type 0) ⦃f : Floating A⦄ (home : String) where
  pub anchors_abroad-All : All (λ (a : GeoAnchor A). a.country ≢ home) (anchors_abroad home)
  anchors_abroad-All =
      All-map (anchors_abroad home) (λ a h. ground (arith, h, eq_iff a.country home))
        (filter-All (λ (a : GeoAnchor A). not (str_eq a.country home)) geo_anchors)

  pub anchors_abroad_pos : 0 < length (anchors_abroad {A = A} home)
  anchors_abroad_pos =
      filter_pos (λ (a : GeoAnchor A). not (str_eq a.country home)) _ _ _ _ (two_countries home)
