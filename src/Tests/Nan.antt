-- ===== src/Tests/Nan.antt =====
-- The policy at a score that is not a number: millionths, or NaN, which compares false with all.
use realtime_fraud_detection.Common.{◌≡◌, refl, ℕ, Bool, true, false, Option, none, some, arith}
use realtime_fraud_detection.Common.Int.{ℤ}
use realtime_fraud_detection.Common.Floating.{
  Floating, IsOrdered, micros_floating, Micros-IsOrdered,
}
use realtime_fraud_detection.Config.{default_settings}
use realtime_fraud_detection.Scoring.Decision.{decide, review, medium}
use realtime_fraud_detection.Scoring.Decision.Policy.{decide_nan}

abbrev Number : Type 0
Number = Option ℤ

abbrev test : (ℤ → ℤ → Bool) → Number → Number → Bool
test p (some x) (some y) = p x y
test p _ _ = false

abbrev both : (ℤ → ℤ → ℤ) → Number → Number → Number
both g (some x) (some y) = some (g x y)
both g _ _ = none

abbrev whole : Number → ℕ
whole none = 0
whole (some x) = micros_floating.to_nat x

-- The laws are about comparisons and literals only; what is left of the arithmetic is not a number.
instance abbrev number_floating : Floating Number
number_floating = record {
  le = test micros_floating.le;
  lt = test micros_floating.lt;
  lit = λ n k. some (micros_floating.lit n k);
  of_int = λ n. some (micros_floating.of_int n);
  to_nat = whole;
  add = both micros_floating.add;
  sub = both micros_floating.sub;
  mul = both micros_floating.mul;
  div = both micros_floating.div;
  abs = λ x. none;
  sqrt = λ x. none;
  sin = λ x. none;
  cos = λ x. none;
  asin = λ x. none;
  radians = λ x. none;
  pow = λ x n. none;
  round = λ x n. x;
  sum = λ xs. none;
  fmean = λ xs. none;
  pstdev = λ xs. none;
  fixed = λ x n. "";
  text = λ x. "";
}

Number-IsOrdered : IsOrdered Number
Number-IsOrdered = record {
  refl_of_le = λ x y h. ground arith;
  le_trans = λ x y z h k. ground arith;
  le_total = λ x y h k. ground arith;
  lt-eq = λ x y. ground arith;
  lt-lit = λ a b k h l m. Micros-IsOrdered.lt-lit a b k h l m;
}

decide_nan_example :
    ((decide {A = Number} none default_settings).decision ≡ review)
    × ((decide {A = Number} none default_settings).risk_level ≡ medium)
    × ((decide {A = Number} none default_settings).routed_to_review ≡ true)
decide_nan_example = decide_nan Number-IsOrdered none default_settings refl
