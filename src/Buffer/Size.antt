-- ===== src/Buffer/Size.antt =====
-- `NewRingBuffer` (internal/buffer/ringbuffer.go): the size that it picks.
use Prim.Native.Nat.{max}
use native.Mathlib.Nat.{pow-suc, mod-eq_of_lt}
use distributed_gpu_training.Base.{
  ℕ, zero, suc, ◌-◌, ◌*◌, ◌/◌, ◌%◌, ◌^◌, ◌≤◌, ◌<◌, ◌≡◌, inl, inr, some, none, arith, ◌==◌,
  if◌then◌else◌, Bool-cases, lt→ltb, length, replicate, length-replicate, Option,
}
use distributed_gpu_training.Base.Int.{ℤ, pos, pos_part, ltb_ℤ, ◌≤ℤ◌}
use distributed_gpu_training.Buffer.{RingBuffer, len_bits, len_64, new, cap}

-- `bits.Len64(x)` is the least number of digits that holds `x`.
len_bits_lem :
    (fuel x : ℕ) → x < 2 ^ fuel → (x < 2 ^ len_bits fuel x) × (2 ^ len_bits fuel x ≤ max 1 (2 * x))
unfolding len_bits
len_bits_lem zero x h = omega arith
len_bits_lem (suc fuel) x h = elim (Bool-cases (x == 0)) [
  | inl e ↦ rw e (ground arith)
  | inr e ↦
      let (lo, hi) = len_bits_lem fuel (x / 2) (omega (arith, pow-suc 2 fuel)) in
      let positive : 0 < x = ground arith in
      rw e (rw (pow-suc 2 (len_bits fuel (x / 2))) (omega (arith, lo, hi)))
]

-- The capacity that a request asks for: at least one.
abbrev pub wanted : ℤ → ℕ
wanted c = max 1 (pos_part c)

pub size_bounds :
    (n : ℕ) → 0 < n → n ≤ 2 ^ 62 → (n ≤ 2 ^ len_64 (n - 1)) × (2 ^ len_64 (n - 1) < 2 * n)
size_bounds n p h = omega (arith, len_bits_lem 64 (n - 1) (omega arith))

-- The buffer that `NewRingBuffer` returns for a request of `n`.
abbrev pub fresh : (A : Type 0) → ℕ → RingBuffer A
fresh A n =
    let size = 2 ^ len_64 (n - 1) in
    record { events = replicate size none; mask = size - 1; written = 0 }

pub wanted-le : (c : ℤ) → c ≤ℤ pos (2 ^ 62) → wanted c ≤ 2 ^ 62
wanted-le c h = ground arith

request-wanted : (c : ℤ) → pos_part (if ltb_ℤ c (pos 1) then pos 1 else c) ≡ wanted c
request-wanted c = ground arith

pub new-fresh : (A : Type 0) (c : ℤ) → c ≤ℤ pos (2 ^ 62) → new {A = A} c ≡ some (fresh A (wanted c))
unfolding new
new-fresh A c h =
    let n = wanted c in
    let (lo, hi) = size_bounds n (omega arith) (wanted-le c h) in
    let small : 2 ^ len_64 (n - 1) < 2 ^ 63 = omega (arith, wanted-le c h) in
    let same : 2 ^ len_64 (n - 1) % 2 ^ 64 ≡ 2 ^ len_64 (n - 1) = mod-eq_of_lt (omega arith) in
    rw (request-wanted c, same, lt→ltb _ _ small)

-- For a request of at most 2^62 events `NewRingBuffer` does not panic, and the capacity is a power
-- of two that is at least the request and at least one, and less than twice the larger of these.
new-cap :
    (A : Type 0) (c : ℤ)
    → c ≤ℤ pos (2 ^ 62)
    → (rb : RingBuffer A) × (k : ℕ) × (new c ≡ some rb)
      × (cap rb ≡ 2 ^ k)
      × (wanted c ≤ cap rb)
      × (cap rb < 2 * wanted c)
unfolding cap
new-cap A c h =
    let n = wanted c in
    let (lo, hi) = size_bounds n (omega arith) (wanted-le c h) in
    let size : length (replicate {A = Option A} (2 ^ len_64 (n - 1)) none) ≡ 2 ^ len_64 (n - 1) =
      length-replicate _ none in
    (fresh A n, len_64 (n - 1), new-fresh A c h, size, omega arith, omega arith)
