-- ===== src/Buffer.antt =====
-- internal/buffer/ringbuffer.go: the overwrite-oldest ring buffer. The mutex makes each method one
-- step, so a method is a function of the buffer. A slot that was never written holds nil (`none`);
-- `none` as the result of a method is a Go panic (an index or a size out of range).
pub mod Size
pub mod Refine
use Prim.Native.Nat.{bit_and}
use mathlib.Core.Option
use distributed_gpu_training.Base.{
  ℕ, zero, suc, ◌+◌, ◌-◌, ◌/◌, ◌%◌, ◌^◌, Bool, true, false, Option, none, some, List, [], ◌∷◌, ltb,
  ◌==◌, if◌then◌else◌, length, get_elem?, set, replicate,
}
use distributed_gpu_training.Base.Int.{ℤ, pos, ltb_ℤ, pos_part}

infixl 5 ◌>>=◌
abbrev pub ◌>>=◌ {ℓ κ} : {A : Type ℓ} {B : Type κ} → Option A → (A → Option B) → Option B
none >>= f = none
some a >>= f = f a

pub record RingBuffer (A : Type 0) : Type 0 where
  pub events : List (Option A)
  pub mask : ℕ
  pub written : ℕ

-- `bits.Len64`: the number of binary digits, at most 64 of them.
unfoldable pub len_bits : ℕ → ℕ → ℕ
len_bits zero x = 0
len_bits (suc fuel) x = let more = suc (len_bits fuel (x / 2)) in if x == 0 then 0 else more

abbrev pub len_64 : ℕ → ℕ
len_64 x = len_bits 64 x

module _ {A : Type 0} where
  -- `make` refuses a size that does not fit an `int`.
  unfoldable pub new : ℤ → Option (RingBuffer A)
  unfolding len_bits
  new capacity =
      let n = pos_part (if ltb_ℤ capacity (pos 1) then pos 1 else capacity) in
      let size = 2 ^ len_64 (n - 1) % 2 ^ 64 in
      if ltb size (2 ^ 63)
      then some (record { events = replicate size none; mask = size - 1; written = 0 })
      else none

  unfoldable pub cap : RingBuffer A → ℕ
  cap rb = length rb.events

  unfoldable pub push : RingBuffer A → A → Option (RingBuffer A)
  push rb event =
      let i = bit_and rb.written rb.mask in
      if ltb i (length rb.events)
      then some
          (record rb { events = set rb.events i (some event); written = (rb.written + 1) % 2 ^ 64 })
      else none

  unfoldable pub len_locked : RingBuffer A → ℕ
  len_locked rb = if ltb (length rb.events) rb.written then length rb.events else rb.written

  unfoldable pub len : RingBuffer A → ℕ
  unfolding len_locked
  len rb = len_locked rb

  unfoldable pub dropped : RingBuffer A → ℕ
  unfolding len_locked
  dropped rb = (rb.written + 2 ^ 64 - len_locked rb) % 2 ^ 64

  -- The loop of `Snapshot`, with `m` rounds to go: `rb.events[(start+i) & rb.mask]`.
  unfoldable pub read_from : RingBuffer A → ℕ → ℕ → ℕ → Option (List (Option A))
  read_from rb start i zero = some []
  read_from rb start i (suc m) = do
    e ← get_elem? rb.events (bit_and ((start + i) % 2 ^ 64) rb.mask)
    out ← read_from rb start (i + 1) m
    some (e ∷ out)

  unfoldable pub snapshot : RingBuffer A → Option (List (Option A))
  unfolding read_from len_locked
  snapshot rb =
      let n = len_locked rb in
      let start = (rb.written + 2 ^ 64 - n) % 2 ^ 64 in read_from rb start 0 n

  -- The loop of `Range`: `fn` with its own state, until it returns false.
  unfoldable pub walk : {S : Type 0} → (S → Option A → S × Bool) → S → List (Option A) → S
  walk fn s [] = s
  walk fn s (e ∷ es) =
      let (s', more) = fn s e in let rest = walk fn s' es in if more then rest else s'

  unfoldable pub range : {S : Type 0} → (S → Option A → S × Bool) → S → RingBuffer A → Option S
  unfolding snapshot walk
  range fn s rb = do es ← snapshot rb; some (walk fn s es)
