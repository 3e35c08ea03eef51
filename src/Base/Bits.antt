-- ===== src/Base/Bits.antt =====
-- A mask of low ones is a remainder by a power of two, at every width.
use Prim.Native.Nat.{digits, bit_and, bit_and-bitwise}
use native.Mathlib.Decide.{dec_lt}
use native.Mathlib.Nat.{
  pow-suc, mul-le-mul_left, div-add-mod, mod-lt, mul-add-mod_self_left, mod-eq_of_lt,
}
use distributed_gpu_training.Base.{
  ℕ, zero, suc, ◌+◌, ◌-◌, ◌*◌, ◌/◌, ◌%◌, ◌^◌, ◌≤◌, ◌<◌, ◌≡◌, ◌≢◌, refl, sym, ap, ◌∙◌, arith, min,
}

-- The recursion that the native `bit_and` stands for, on fuel.
abbrev conj : ℕ → ℕ → ℕ → ℕ
conj fuel a b = digits (λ b. zero) min fuel a b

conj-fuel : (s t a b : ℕ) → a ≤ s → a ≤ t → conj s a b ≡ conj t a b
conj-fuel zero zero a b p q = refl
conj-fuel zero (suc t) zero b p q = refl
conj-fuel zero (suc t) (suc a) b p q = absurd (omega arith)
conj-fuel (suc s) zero zero b p q = refl
conj-fuel (suc s) zero (suc a) b p q = absurd (omega arith)
conj-fuel (suc s) (suc t) zero b p q = refl
conj-fuel (suc s) (suc t) (suc a) b p q =
    omega (arith, conj-fuel s t (suc a / 2) (b / 2) (omega arith) (omega arith))

nothing : (b : ℕ) → bit_and 0 b ≡ 0
nothing b = bit_and-bitwise 0 b

pub bit_and_halves : (a b : ℕ) → bit_and a b ≡ bit_and (a / 2) (b / 2) * 2 + min (a % 2) (b % 2)
bit_and_halves zero b = omega (arith, nothing b, nothing (b / 2))
bit_and_halves (suc a) b = omega (
  arith,
  bit_and-bitwise (suc a) b,
  bit_and-bitwise (suc a / 2) (b / 2),
  conj-fuel a (suc a / 2) (suc a / 2) (b / 2) (omega arith) (omega arith),
)

no_bits : (fuel a : ℕ) → a ≤ fuel → bit_and a 0 ≡ 0
no_bits zero zero h = nothing 0
no_bits zero (suc a) h = absurd (omega arith)
no_bits (suc fuel) zero h = nothing 0
no_bits (suc fuel) (suc a) h =
    omega (arith, bit_and_halves (suc a) 0, no_bits fuel (suc a / 2) (omega arith))

pub two_pow_pos : (k : ℕ) → 0 < 2 ^ k
two_pow_pos zero = omega arith
two_pow_pos (suc k) = rw pow-suc (omega (arith, two_pow_pos k))

-- Two numbers less than `n` apart have different remainders by `n`.
pub mod-ne : (i l n : ℕ) → i < l → l < i + n → i % n ≢ l % n
mod-ne i l n lo hi e = elim (dec_lt (i / n) (l / n)) [
  | yes p ↦
      let wide : n * suc (i / n) ≤ n * (l / n) = mul-le-mul_left n p in
      omega (arith, wide, div-add-mod i n, div-add-mod l n)
  | no p ↦
      let flat : n * (l / n) ≤ n * (i / n) = mul-le-mul_left n (omega arith) in
      omega (arith, flat, div-add-mod i n, div-add-mod l n)
]

mod_double : (a p : ℕ) → 0 < p → a / 2 % p * 2 + a % 2 ≡ a % (2 * p)
mod_double a p h =
    let r : ℕ = a / 2 % p * 2 + a % 2 in
    let small : r < 2 * p = omega (arith, mod-lt (a / 2) h) in
    let whole : a ≡ 2 * p * (a / 2 / p) + r = omega (arith, div-add-mod (a / 2) p) in
    sym (
      ap (λ t. t % (2 * p)) whole
      ∙ mul-add-mod_self_left (2 * p) (a / 2 / p) r
      ∙ mod-eq_of_lt small)

pub bit_and_mask : (k a : ℕ) → bit_and a (2 ^ k - 1) ≡ a % 2 ^ k
bit_and_mask zero a = omega (arith, no_bits a a (omega arith))
bit_and_mask (suc k) a =
    let odd : 2 ^ suc k ≡ 2 * 2 ^ k = omega (arith, pow-suc 2 k) in
    let upper : (2 * 2 ^ k - 1) / 2 ≡ 2 ^ k - 1 = omega (arith, two_pow_pos k) in
    let lower : (2 * 2 ^ k - 1) % 2 ≡ 1 = omega (arith, two_pow_pos k) in
    rw (odd, bit_and_halves a (2 * 2 ^ k - 1), upper, lower, bit_and_mask k (a / 2))
      (omega (arith, mod_double a (2 ^ k) (two_pow_pos k)))
