-- ===== src/Float/Fixed.antt =====
-- A concrete value of the float interface for tests and witnesses: decimal fixed point with four
-- places, and `none` for NaN. Division truncates, and by zero gives NaN.
use native.Mathlib.Nat.{
  mul-le-mul, le_refl, div-mul-le_self, le-div_iff_mul-le, le_of_mul-le-mul_right, pow-suc,
}
use distributed_gpu_training.Base.{
  ℕ, zero, suc, ◌+◌, ◌*◌, ◌/◌, ◌^◌, ◌≤◌, ◌<◌, ◌≡◌, Bool, true, false, Option, none, some, arith,
  leb, ◌==◌, if◌then◌else◌,
}
use distributed_gpu_training.Base.Int.{
  ℤ, pos, negsuc, pos_part, neg_part, sub_ℕ, ltb_ℤ, leb_ℤ, eqb_ℤ,
}
use distributed_gpu_training.Float.{Float64, IsFloat64}

abbrev pub Fixed : Type 0
Fixed = Option ℤ

abbrev test_both : (ℤ → ℤ → Bool) → Fixed → Fixed → Bool
test_both f (some a) (some b) = f a b
test_both f _ _ = false

abbrev on_both : (ℤ → ℤ → Fixed) → Fixed → Fixed → Fixed
on_both f (some a) (some b) = f a b
on_both f _ _ = none

-- The integer square root, two bits a round.
unfoldable pub root : ℕ → ℕ → ℕ
root zero n = 0
root (suc fuel) n =
    let r = 2 * root fuel (n / 4) in
    let next = r + 1 in if n == 0 then 0 else (if leb (next * next) n then next else r)

-- The product of two integers that are scaled by 10 ^ 4.
unfoldable pub product : ℤ → ℤ → Fixed
product a b = some (
    sub_ℕ ((pos_part a * pos_part b + neg_part a * neg_part b) / 10 ^ 4)
      ((pos_part a * neg_part b + neg_part a * pos_part b) / 10 ^ 4))

unfoldable pub quotient : ℤ → ℤ → Fixed
quotient a (pos zero) = none
quotient a (pos (suc n)) = some (sub_ℕ (pos_part a * 10 ^ 4 / suc n) (neg_part a * 10 ^ 4 / suc n))
quotient a (negsuc n) = some (sub_ℕ (neg_part a * 10 ^ 4 / suc n) (pos_part a * 10 ^ 4 / suc n))

unfoldable pub square_root : Fixed → Fixed
unfolding root
square_root (some (pos n)) = some (pos (root 64 (n * 10 ^ 4)))
square_root _ = none

unfoldable pub absolute : Fixed → Fixed
absolute (some a) = some (pos (pos_part a + neg_part a))
absolute none = none

unfoldable pub whole : Fixed → ℤ
whole (some a) = sub_ℕ (pos_part a / 10 ^ 4) (neg_part a / 10 ^ 4)
whole none = pos 0

instance abbrev pub fixed_float : Float64 Fixed
fixed_float = record {
  lit = λ m k. some (pos (m * 10 ^ 4 / 10 ^ k));
  of_int = λ z. some (sub_ℕ (pos_part z * 10 ^ 4) (neg_part z * 10 ^ 4));
  to_int = whole;
  add = on_both (λ a b. some (sub_ℕ (pos_part a + pos_part b) (neg_part a + neg_part b)));
  sub = on_both (λ a b. some (sub_ℕ (pos_part a + neg_part b) (neg_part a + pos_part b)));
  mul = on_both product;
  div = on_both quotient;
  sqrt = square_root;
  abs = absolute;
  fmax = on_both (λ a b. if ltb_ℤ a b then some b else some a);
  fmin = on_both (λ a b. if ltb_ℤ b a then some b else some a);
  lt = test_both ltb_ℤ;
  le = test_both leb_ℤ;
  eq = test_both eqb_ℤ;
}

-- What a test has to unfold for the operations to run.
unfoldable pub running : Unit {0}
unfolding product quotient square_root absolute whole
running = tt

ratio_le : (m n a b s : ℕ) → 0 < a → 0 < b → m * b ≤ n * a → m * s / a ≤ n * s / b
ratio_le m n a b s ha hb h =
    let q = m * s / a in
    let over : q * a * b ≤ m * s * b = mul-le-mul (div-mul-le_self (m * s) a) (le_refl b) in
    let cross : m * b * s ≤ n * a * s = mul-le-mul h (le_refl s) in
    let wide : q * b * a ≤ n * s * a = omega (arith, over, cross) in
    (le-div_iff_mul-le hb).1 (le_of_mul-le-mul_right wide ha)

ten_pos : (k : ℕ) → 0 < 10 ^ k
ten_pos zero = omega arith
ten_pos (suc k) = rw pow-suc (omega (arith, ten_pos k))

scaled_le : (m k n j : ℕ) → m * 10 ^ j ≤ n * 10 ^ k → m * 10 ^ 4 / 10 ^ k ≤ n * 10 ^ 4 / 10 ^ j
scaled_le m k n j h = ratio_le m n (10 ^ k) (10 ^ j) (10 ^ 4) (ten_pos k) (ten_pos j) h

fixed_asym : (x y : Fixed) → test_both ltb_ℤ x y ≡ true → test_both ltb_ℤ y x ≡ false
fixed_asym x y h = ground arith

pub Fixed-IsFloat64 : IsFloat64 Fixed
Fixed-IsFloat64 = record {
  lt_asym = fixed_asym;
  lt_number = λ x y h. ground arith;
  le_number = λ x y h. ground arith;
  le-eq-not-lt = λ x y p q. ground arith;
  le_trans = λ x y z p q. ground arith;
  fmin_right = λ x y. ground arith;
  lit_number = λ m k. ground arith;
  lit_le = λ m k n j h. ground (arith, scaled_le m k n j h);
}
