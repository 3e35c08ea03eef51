-- ===== src/Base/Int.antt =====
-- Go's `int64` over the native numbers: signed integers, their order, and wrapping subtraction.
use distributed_gpu_training.Base.{
  ℕ, suc, ◌+◌, ◌-◌, ◌%◌, ◌^◌, ◌≤◌, ◌<◌, ◌≡◌, Bool, arith, ltb, leb, ◌==◌, if◌then◌else◌,
}

-- `negsuc n` is -(n + 1).
pub data ℤ : Type 0 where
  pos : ℕ → ℤ
  negsuc : ℕ → ℤ

abbrev pub pos_part : ℤ → ℕ
pos_part (pos n) = n
pos_part (negsuc n) = 0

abbrev pub neg_part : ℤ → ℕ
neg_part (pos n) = 0
neg_part (negsuc n) = suc n

abbrev pub sub_ℕ : ℕ → ℕ → ℤ
sub_ℕ a b = if leb b a then pos (a - b) else negsuc (b - a - 1)

infixl 65 ◌+ℤ◌ ◌-ℤ◌
infix 50 ◌≤ℤ◌ ◌<ℤ◌
unfoldable pub ◌+ℤ◌ : ℤ → ℤ → ℤ
a +ℤ b = sub_ℕ (pos_part a + pos_part b) (neg_part a + neg_part b)

unfoldable pub ◌-ℤ◌ : ℤ → ℤ → ℤ
a -ℤ b = sub_ℕ (pos_part a + neg_part b) (neg_part a + pos_part b)

abbrev pub ◌≤ℤ◌ : ℤ → ℤ → Type 0
a ≤ℤ b = pos_part a + neg_part b ≤ pos_part b + neg_part a

abbrev pub ◌<ℤ◌ : ℤ → ℤ → Type 0
a <ℤ b = pos_part a + neg_part b < pos_part b + neg_part a

abbrev pub ltb_ℤ : ℤ → ℤ → Bool
ltb_ℤ a b = ltb (pos_part a + neg_part b) (pos_part b + neg_part a)

abbrev pub leb_ℤ : ℤ → ℤ → Bool
leb_ℤ a b = leb (pos_part a + neg_part b) (pos_part b + neg_part a)

abbrev pub eqb_ℤ : ℤ → ℤ → Bool
eqb_ℤ a b = (pos_part a + neg_part b) == (pos_part b + neg_part a)

-- The bit pattern of an integer in `2 ^ w` values, and the signed integer of a bit pattern.
abbrev pub to_word : ℕ → ℤ → ℕ
to_word modulus (pos n) = n % modulus
to_word modulus (negsuc n) = modulus - 1 - n % modulus

abbrev pub of_word : ℕ → ℕ → ℤ
of_word modulus w = if ltb (w + w) modulus then pos w else negsuc (modulus - w - 1)

-- Conversion to a signed type of 64 or 32 bits keeps the low bits.
unfoldable pub wrap_64 : ℤ → ℤ
wrap_64 z = of_word (2 ^ 64) (to_word (2 ^ 64) z)

unfoldable pub wrap_32 : ℤ → ℤ
wrap_32 z = of_word (2 ^ 32) (to_word (2 ^ 32) z)

-- `a - b` on `int64`.
unfoldable pub sub_64 : ℤ → ℤ → ℤ
unfolding ◌-ℤ◌ wrap_64
sub_64 a b = wrap_64 (a -ℤ b)

abbrev pub IsInt64 : ℤ → Type 0
IsInt64 z = (pos_part z < 2 ^ 63) × (neg_part z ≤ 2 ^ 63)

abbrev pub IsInt32 : ℤ → Type 0
IsInt32 z = (pos_part z < 2 ^ 31) × (neg_part z ≤ 2 ^ 31)

pub wrap_64_self : (z : ℤ) → IsInt64 z → wrap_64 z ≡ z
unfolding wrap_64
wrap_64_self (pos n) h = ground arith
wrap_64_self (negsuc n) h = ground arith

pub wrap_32_self : (z : ℤ) → IsInt32 z → wrap_32 z ≡ z
unfolding wrap_32
wrap_32_self (pos n) h = ground arith
wrap_32_self (negsuc n) h = ground arith

pub wrap_32-IsInt32 : (z : ℤ) → IsInt32 (wrap_32 z)
unfolding wrap_32
wrap_32-IsInt32 (pos n) = ground arith
wrap_32-IsInt32 (negsuc n) = ground arith

pub -ℤ_parts :
    (a b : ℤ)
    → pos_part (a -ℤ b) + neg_part a + pos_part b ≡ neg_part (a -ℤ b) + pos_part a + neg_part b
unfolding ◌-ℤ◌
-ℤ_parts a b = ground arith

pub eq_of_parts : (a b : ℤ) → pos_part a + neg_part b ≡ pos_part b + neg_part a → a ≡ b
eq_of_parts a b h = ground arith

-- Where the true difference fits, the machine's is exact.
pub sub_64-eq : (a b : ℤ) → IsInt64 (a -ℤ b) → sub_64 a b ≡ a -ℤ b
unfolding sub_64
sub_64-eq a b h = wrap_64_self (a -ℤ b) h
