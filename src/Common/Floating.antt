-- ===== src/Common/Floating.antt =====
-- Python's `float`, and what the program calls of `math`, `statistics` and text formatting on it,
-- as an interface: `IsOrdered` states what IEEE 754 says of its comparisons, NaN included.
use Prim.Native.Nat.{ℕ, zero, suc, ◌-◌, ◌*◌, ◌^◌, ◌<◌, ◌≤◌}
use Prim.Native.String.{String}
use mathlib.Core.Path.{◌≡◌}
use mathlib.Core.Logic.{◌⊎◌}
use mathlib.Core.Bool.{Bool, true, not, ◌&&◌}
use mathlib.Core.List.{List, [], ◌∷◌}
use native.Mathlib.Nat.{pow-suc}
use native.Mathlib.Omega.{arith}
use realtime_fraud_detection.Common.Tests.{if◌then◌else◌}
use realtime_fraud_detection.Common.Int.{ℤ, pos, pos_part, ◌+ℤ◌, ◌-ℤ◌, ◌*ℤ◌, ◌/ℤ◌, ltb_ℤ, leb_ℤ}

pub record Floating (A : Type 0) : Type 0 where
  pub le : A → A → Bool
  pub lt : A → A → Bool
  -- `lit n k` is the literal n / 10^k
  pub lit : ℕ → ℕ → A
  pub of_int : ℤ → A
  -- `int(x)`, at 0 or above
  pub to_nat : A → ℕ
  pub add : A → A → A
  pub sub : A → A → A
  pub mul : A → A → A
  pub div : A → A → A
  pub abs : A → A
  pub sqrt : A → A
  pub sin : A → A
  pub cos : A → A
  pub asin : A → A
  pub radians : A → A
  pub pow : A → ℕ → A
  -- `round(x, n)`
  pub round : A → ℕ → A
  pub sum : List A → A
  pub fmean : List A → A
  pub pstdev : List A → A
  -- `f"{x:.{n}f}"` and `f"{x}"`
  pub fixed : A → ℕ → String
  pub text : A → String

module _ {A : Type 0} ⦃f : Floating A⦄ where
  infix 50 ◌≤ᶠ◌ ◌<ᶠ◌
  abbrev pub ◌≤ᶠ◌ : A → A → Bool
  x ≤ᶠ y = f.le x y

  abbrev pub ◌<ᶠ◌ : A → A → Bool
  x <ᶠ y = f.lt x y

  abbrev pub lit : ℕ → ℕ → A
  lit n k = f.lit n k

  -- Python's `max(x, y)` and `min(x, y)`: the first argument stays unless the second is beyond it.
  abbrev pub fmax : A → A → A
  fmax x y = if x <ᶠ y then y else x

  abbrev pub fmin : A → A → A
  fmin x y = if y <ᶠ x then y else x

-- NaN is the value that is not `<=` itself.
pub record IsOrdered (A : Type 0) ⦃f : Floating A⦄ : Type 0 where
  pub refl_of_le : (x y : A) → f.le x y ≡ true → (f.le x x ≡ true) × (f.le y y ≡ true)
  pub le_trans : (x y z : A) → f.le x y ≡ true → f.le y z ≡ true → f.le x z ≡ true
  pub le_total :
      (x y : A) → f.le x x ≡ true → f.le y y ≡ true → (f.le x y ≡ true) ⊎ (f.le y x ≡ true)
  pub lt-eq : (x y : A) → f.lt x y ≡ (f.le x y && not (f.le y x))
  -- literals of at most six digits keep their order
  pub lt-lit : (a b k : ℕ) → a < b → b ≤ 999999 → k ≤ 6 → f.lt (f.lit a k) (f.lit b k) ≡ true

-- The laws can be met: integers count millionths.
abbrev pub Micros : Type 0
Micros = ℤ

abbrev pub total : List ℤ → ℤ
total [] = pos 0
total (x ∷ xs) = x +ℤ total xs

abbrev pub size : List ℤ → ℤ
size [] = pos 0
size (x ∷ xs) = pos 1 +ℤ size xs

abbrev pub mean : List ℤ → ℤ
mean xs = total xs /ℤ size xs

-- No theorem looks into the functions of `math`, which here are the identity.
instance abbrev pub micros_floating : Floating Micros
micros_floating = record {
  le = leb_ℤ;
  lt = ltb_ℤ;
  lit = λ n k. pos (n * 10 ^ (6 - k));
  of_int = λ n. n *ℤ pos 1000000;
  to_nat = λ x. pos_part (x /ℤ pos 1000000);
  add = ◌+ℤ◌;
  sub = ◌-ℤ◌;
  mul = λ x y. (x *ℤ y) /ℤ pos 1000000;
  div = λ x y. (x *ℤ pos 1000000) /ℤ y;
  abs = λ x. if ltb_ℤ x (pos 0) then pos 0 -ℤ x else x;
  sqrt = λ x. x;
  sin = λ x. x;
  cos = λ x. x;
  asin = λ x. x;
  radians = λ x. x;
  pow = λ x n. x;
  round = λ x n. x;
  sum = total;
  fmean = mean;
  pstdev = λ xs. pos 0;
  fixed = λ x n. "";
  text = λ x. "";
}

pow_ten-pos : (n : ℕ) → 0 < 10 ^ n
pow_ten-pos zero = omega arith
pow_ten-pos (suc n) = rw pow-suc (omega (arith, pow_ten-pos n))

lit_lt : (a b p : ℕ) → a < b → 0 < p → a * p < b * p
lit_lt a b p h q = grind arith

pub Micros-IsOrdered : IsOrdered Micros
Micros-IsOrdered = record {
  refl_of_le = λ x y h. ground arith;
  le_trans = λ x y z h k. ground arith;
  le_total = λ x y h k. ground arith;
  lt-eq = λ x y. ground arith;
  lt-lit = λ a b k h l m. ground (arith, lit_lt a b (10 ^ (6 - k)) h (pow_ten-pos (6 - k)));
}
