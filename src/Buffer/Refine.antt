-- ===== src/Buffer/Refine.antt =====
-- The ring buffer of internal/buffer/ringbuffer.go against its history: what `Snapshot`, `Len` and
-- `Dropped` say after any sequence of pushes.
use Prim.Native.Nat.{bit_and}
use native.Mathlib.Nat.{mod-eq_of_lt, mod-lt}
use native.Mathlib.Decide.{dec_lt}
use distributed_gpu_training.Base.{
  ℕ, zero, suc, ◌+◌, ◌-◌, ◌%◌, ◌^◌, ◌≤◌, ◌<◌, ◌≡◌, refl, sym, ◌∙◌, ap, Option, some, none, arith,
  lt→ltb, length, length-append, length-set, length-replicate, get_elem?, get_elem?-set_self,
  get_elem?-set_ne, get_elem?_of_lt, set, append-nil, drop_of_length-le, drop, List, [], ◌∷◌, ◌++◌,
  map, append_assoc, min,
}
use distributed_gpu_training.Base.Int.{ℤ, pos, ◌≤ℤ◌}
use distributed_gpu_training.Base.Bits.{bit_and_mask, mod-ne, two_pow_pos}
use distributed_gpu_training.Buffer.{
  RingBuffer, len_64, new, push, cap, len_locked, len, dropped, read_from, snapshot, ◌>>=◌,
}
use distributed_gpu_training.Buffer.Size.{wanted, wanted-le, fresh, new-fresh, size_bounds}

module _ {A : Type 0} where
  -- Events pushed one after the other.
  unfoldable pub push_all : RingBuffer A → List A → Option (RingBuffer A)
  push_all rb [] = some rb
  push_all rb (x ∷ xs) = do rb' ← push rb x; push_all rb' xs

  -- The buffer has `2 ^ k` slots, and each of the last `2 ^ k` events stands in its slot.
  pub record Holds (k : ℕ) (xs : List A) (rb : RingBuffer A) : Type 0 where
    pub slots : length rb.events ≡ 2 ^ k
    pub masked : rb.mask ≡ 2 ^ k - 1
    pub counted : rb.written ≡ length xs
    pub fits : length xs < 2 ^ 64
    pub small : 2 ^ k < 2 ^ 63
    pub kept :
        (i : ℕ)
        → i < length xs
        → length xs ≤ i + 2 ^ k
        → get_elem? rb.events (i % 2 ^ k) ≡ some (get_elem? xs i)

  get_elem?-snoc_last : (xs : List A) (x : A) → get_elem? (xs ++ x ∷ []) (length xs) ≡ some x
  get_elem?-snoc_last [] x = refl
  get_elem?-snoc_last (y ∷ ys) x = get_elem?-snoc_last ys x

  get_elem?-snoc_lt :
      (xs : List A) (x : A) (i : ℕ) → i < length xs → get_elem? (xs ++ x ∷ []) i ≡ get_elem? xs i
  get_elem?-snoc_lt [] x i h = elim h [ ]
  get_elem?-snoc_lt (y ∷ ys) x zero h = refl
  get_elem?-snoc_lt (y ∷ ys) x (suc i) h = get_elem?-snoc_lt ys x i (omega arith)

  -- The buffer after one push.
  abbrev pushed : ℕ → RingBuffer A → A → RingBuffer A
  pushed k rb x = record rb {
    events = set rb.events (rb.written % 2 ^ k) (some x);
    written = rb.written + 1;
  }

  push-pushed :
      (k : ℕ) (xs : List A) (x : A) (rb : RingBuffer A)
      → Holds k xs rb
      → length xs + 1 < 2 ^ 64
      → push rb x ≡ some (pushed k rb x)
  unfolding push
  push-pushed k xs x rb h room =
      let slot : bit_and rb.written rb.mask ≡ rb.written % 2 ^ k =
        rw h.masked (bit_and_mask k rb.written) in
      let inside : rb.written % 2 ^ k < length rb.events =
        omega (arith, h.slots, mod-lt rb.written (two_pow_pos k)) in
      let next : (rb.written + 1) % 2 ^ 64 ≡ rb.written + 1 =
        mod-eq_of_lt (omega (arith, h.counted)) in
      rw (slot, lt→ltb _ _ inside, next)

  pushed-Holds :
      (k : ℕ) (xs : List A) (x : A) (rb : RingBuffer A)
      → Holds k xs rb
      → length xs + 1 < 2 ^ 64
      → Holds k (xs ++ x ∷ []) (pushed k rb x)
  pushed-Holds k xs x rb h room = record {
    slots = length-set rb.events _ _ ∙ h.slots;
    masked = h.masked;
    counted = omega (arith, h.counted, length-append xs (x ∷ []));
    fits = omega (arith, length-append xs (x ∷ []));
    small = h.small;
    kept = λ i lt near. elim (dec_lt i (length xs)) [
      | yes old ↦
          rw
            (
              h.counted,
              get_elem?-set_ne rb.events (length xs % 2 ^ k) (i % 2 ^ k) (some x) (λ e.
                  mod-ne i (length xs) (2 ^ k) old (omega (arith, length-append xs (x ∷ [])))
                    (sym e)),
              get_elem?-snoc_lt xs x i old,
            )
            (h.kept i old (omega (arith, length-append xs (x ∷ []))))
      | no late ↦
          let e : i ≡ length xs = omega (arith, length-append xs (x ∷ [])) in
          rw (e, h.counted, get_elem?-snoc_last xs x)
            (get_elem?-set_self rb.events (length xs % 2 ^ k) (some x)
              (omega (arith, h.slots, mod-lt (length xs) (two_pow_pos k))))
    ];
  }

  push_all-Holds :
      (k : ℕ) (ys xs : List A) (rb : RingBuffer A)
      → Holds k xs rb
      → length xs + length ys < 2 ^ 64
      → (rb' : RingBuffer A) × (push_all rb ys ≡ some rb') × Holds k (xs ++ ys) rb'
  unfolding push_all
  push_all-Holds k [] xs rb h room = (rb, refl, rw append-nil h)
  push_all-Holds k (y ∷ ys) xs rb h room =
      let (rb', run, held) =
        push_all-Holds k ys (xs ++ y ∷ []) (pushed k rb y) (pushed-Holds k xs y rb h (omega arith))
          (omega (arith, length-append xs (y ∷ []))) in
      (
        rb',
        rw (push-pushed k xs y rb h (omega arith)) run,
        rw (append_assoc xs (y ∷ []) ys) at held,
      )

  drop_at :
      (xs : List A) (i : ℕ) (a : A) → get_elem? xs i ≡ some a → drop i xs ≡ a ∷ drop (suc i) xs
  drop_at [] i a h = cc
  drop_at (x ∷ xs) zero a h = cc
  drop_at (x ∷ xs) (suc i) a h = drop_at xs i a h

  read_from-drop :
      (k : ℕ) (xs : List A) (rb : RingBuffer A)
      → Holds k xs rb
      → (start m i : ℕ) → start + i + m ≡ length xs
      → length xs ≤ start + i + 2 ^ k
      → read_from rb start i m ≡ some (map some (drop (start + i) xs))
  unfolding read_from
  read_from-drop k xs rb h start zero i total near =
      rw (drop_of_length-le (start + i) xs (omega arith))
  read_from-drop k xs rb h start (suc m) i total near =
      let j = start + i in
      let (a, here) = get_elem?_of_lt xs j (omega arith) in
      let wide : j % 2 ^ 64 ≡ j = mod-eq_of_lt (omega (arith, h.fits)) in
      let slot : bit_and j rb.mask ≡ j % 2 ^ k = rw h.masked (bit_and_mask k j) in
      let rest : read_from rb start (i + 1) m ≡ some (map some (drop (suc j) xs)) =
        read_from-drop k xs rb h start m (i + 1) (omega arith) (omega arith)
        ∙ ap (λ n. some (map some (drop n xs))) {y = suc j} (omega arith) in
      rw (wide, slot, h.kept j (omega arith) near, here, rest, drop_at xs j a here)

  len_locked-Holds :
      (k : ℕ) (xs : List A) (rb : RingBuffer A)
      → Holds k xs rb
      → len_locked rb ≡ min (length xs) (2 ^ k)
  unfolding len_locked
  len_locked-Holds k xs rb h = ground (arith, h.slots, h.counted)

  snapshot-Holds :
      (k : ℕ) (xs : List A) (rb : RingBuffer A)
      → Holds k xs rb
      → snapshot rb ≡ some (map some (drop (length xs - 2 ^ k) xs))
  unfolding snapshot
  snapshot-Holds k xs rb h =
      let n = len_locked rb in
      let locked : n ≡ min (length xs) (2 ^ k) = len_locked-Holds k xs rb h in
      let back : (rb.written + 2 ^ 64 - n) % 2 ^ 64 ≡ length xs - 2 ^ k =
        omega (arith, locked, h.counted, h.fits) in
      rw back (
        read_from-drop k xs rb h (length xs - 2 ^ k) n 0 (omega (arith, locked)) (omega arith)
        ∙ ap (λ i. some (map some (drop i xs))) {y = length xs - 2 ^ k} (omega arith))

  dropped-Holds :
      (k : ℕ) (xs : List A) (rb : RingBuffer A) → Holds k xs rb → dropped rb ≡ length xs - 2 ^ k
  unfolding dropped
  dropped-Holds k xs rb h = omega (arith, len_locked-Holds k xs rb h, h.counted, h.fits)

  fresh-Holds : (c : ℤ) → c ≤ℤ pos (2 ^ 62) → Holds (len_64 (wanted c - 1)) [] (fresh A (wanted c))
  fresh-Holds c h = record {
    slots = length-replicate _ none;
    masked = refl;
    counted = refl;
    fits = omega arith;
    small = omega (arith, size_bounds (wanted c) (omega arith) (wanted-le c h), wanted-le c h);
    kept = λ i lt near. elim lt [ ];
  }

  -- For a requested capacity of at most 2^62 and fewer than 2^64 events, no push and no read of
  -- the buffer panics. After the pushes, `Snapshot` returns the last `Cap()` of the events, oldest
  -- first, `Len` their number, and `Dropped` the number of the events before them.
  pub snapshot-push_all :
      (c : ℤ) (xs : List A)
      → c ≤ℤ pos (2 ^ 62)
      → length xs < 2 ^ 64
      → (rb rb' : RingBuffer A) × (new c ≡ some rb)
        × (push_all rb xs ≡ some rb')
        × (cap rb' ≡ cap rb)
        × (snapshot rb' ≡ some (map some (drop (length xs - cap rb) xs)))
        × (len rb' ≡ min (length xs) (cap rb))
        × (dropped rb' ≡ length xs - cap rb)
  unfolding cap len
  snapshot-push_all c xs h fits =
      let k = len_64 (wanted c - 1) in
      let start = fresh-Holds c h in
      let (rb', run, held) = push_all-Holds k xs [] (fresh A (wanted c)) start (omega arith) in
      (
        fresh A (wanted c),
        rb',
        new-fresh A c h,
        run,
        held.slots ∙ sym start.slots,
        rw start.slots (snapshot-Holds k xs rb' held),
        rw start.slots (len_locked-Holds k xs rb' held),
        rw start.slots (dropped-Holds k xs rb' held),
      )
