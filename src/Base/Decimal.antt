-- ===== src/Base/Decimal.antt =====
-- Go's `%d`: integers in decimal. Twenty digits are enough for 64 bits (`value-decimal`).
use native.Mathlib.Nat.{pow-suc}
use distributed_gpu_training.Base.{
  ℕ, zero, suc, ◌+◌, ◌-◌, ◌*◌, ◌/◌, ◌%◌, ◌^◌, ◌<◌, ◌≡◌, refl, ◌∙◌, Bytes, inl, inr, [], ◌∷◌, ◌++◌,
  arith, ltb, if◌then◌else◌, Bool-cases,
}
use distributed_gpu_training.Base.Int.{ℤ, pos, negsuc}

unfoldable pub digits : ℕ → ℕ → Bytes
digits zero n = []
digits (suc fuel) n =
    let front = digits fuel (n / 10) in
    if ltb n 10 then (48 + n) ∷ [] else front ++ (48 + n % 10) ∷ []

abbrev pub decimal : ℕ → Bytes
decimal n = digits 20 n

abbrev pub decimal_int : ℤ → Bytes
decimal_int (pos n) = decimal n
decimal_int (negsuc n) = 45 ∷ decimal (suc n)

-- The number that a text of digits stands for, after the number `a`.
abbrev pub value_from : ℕ → Bytes → ℕ
value_from a [] = a
value_from a (b ∷ bs) = value_from (a * 10 + (b - 48)) bs

value_from-snoc :
    (a : ℕ) (bs : Bytes) (b : ℕ) → value_from a (bs ++ b ∷ []) ≡ value_from a bs * 10 + (b - 48)
value_from-snoc a [] b = refl
value_from-snoc a (c ∷ cs) b = value_from-snoc (a * 10 + (c - 48)) cs b

value-digits : (fuel n : ℕ) → n < 10 ^ fuel → value_from 0 (digits fuel n) ≡ n
unfolding digits
value-digits zero n h = omega arith
value-digits (suc fuel) n h = elim (Bool-cases (ltb n 10)) [
  | inl e ↦ rw e (omega arith)
  | inr e ↦
      let more : 10 ^ suc fuel ≡ 10 ^ fuel * 10 = pow-suc 10 fuel in
      let rest = value-digits fuel (n / 10) (omega (arith, more)) in
      rw e (value_from-snoc 0 (digits fuel (n / 10)) (48 + n % 10) ∙ omega (arith, rest))
]

pub value-decimal : (n : ℕ) → n < 10 ^ 20 → value_from 0 (decimal n) ≡ n
value-decimal n h = value-digits 20 n h
