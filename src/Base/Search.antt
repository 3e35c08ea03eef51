-- ===== src/Base/Search.antt =====
-- `sort.Search(n, f)`: the binary search of the standard library, over a test of the indices.
-- Where the test never goes back from true to false, the result is the first index that passes.
use distributed_gpu_training.Base.{
  ℕ, zero, suc, ◌+◌, ◌-◌, ◌/◌, ◌≤◌, ◌<◌, ◌≡◌, Bool, true, false, inl, inr, arith, ltb,
  if◌then◌else◌, Bool-cases,
}

-- Each round halves `[i, j)`; one round of fuel for each index is more than enough.
search_loop : ℕ → (ℕ → Bool) → ℕ → ℕ → ℕ
search_loop zero f i j = i
search_loop (suc fuel) f i j =
    let h = (i + j) / 2 in
    let left = search_loop fuel f i h in
    let right = search_loop fuel f (h + 1) j in if ltb i j then (if f h then left else right) else i

unfoldable pub search : ℕ → (ℕ → Bool) → ℕ
unfolding search_loop
search n f = search_loop n f 0 n

abbrev pub IsMonotone : ℕ → (ℕ → Bool) → Type 0
IsMonotone n f = (a b : ℕ) → a ≤ b → b < n → f a ≡ true → f b ≡ true

-- `k` is the boundary of the test in `[0, n)`.
pub record IsFirst (n : ℕ) (f : ℕ → Bool) (k : ℕ) : Type 0 where
  pub bounded : k ≤ n
  pub before : (a : ℕ) → a < k → f a ≡ false
  pub after : (a : ℕ) → k ≤ a → a < n → f a ≡ true

module _ (n : ℕ) (f : ℕ → Bool) (mono : IsMonotone n f) where
  not_before : (a b : ℕ) → a ≤ b → b < n → f b ≡ false → f a ≡ false
  not_before a b le lt e = elim (Bool-cases (f a)) [
    | inl t ↦ ground (arith, mono a b le lt t)
    | inr u ↦ u
  ]

  search_loop-IsFirst :
      (fuel i j : ℕ)
      → j - i ≤ fuel
      → i ≤ j
      → j ≤ n
      → ((a : ℕ) → a < i → f a ≡ false)
      → ((a : ℕ) → j ≤ a → a < n → f a ≡ true)
      → IsFirst n f (search_loop fuel f i j)
  unfolding search_loop
  search_loop-IsFirst zero i j enough le bound lo hi = record {
    bounded = omega arith;
    before = lo;
    after = λ a p q. hi a (omega arith) q;
  }
  search_loop-IsFirst (suc fuel) i j enough le bound lo hi = elim (Bool-cases (ltb i j)) [
    | inr done ↦
        rw done
          (record { bounded = omega arith; before = lo; after = λ a p q. hi a (ground arith) q })
    | inl more ↦ rw more (elim (Bool-cases (f ((i + j) / 2))) [
      | inl t ↦ rw t (
          search_loop-IsFirst fuel i ((i + j) / 2) (ground arith) (omega arith) (omega arith) lo
            (λ a p q. mono ((i + j) / 2) a p q t))
      | inr u ↦ rw u (
          search_loop-IsFirst fuel ((i + j) / 2 + 1) j (ground arith) (ground arith) bound
            (λ a p. not_before a ((i + j) / 2) (omega arith) (ground arith) u) hi)
    ])
  ]

  pub search-IsFirst : IsFirst n f (search n f)
  unfolding search
  search-IsFirst =
      search_loop-IsFirst n 0 n (omega arith) (omega arith) (omega arith)
        (λ a p. absurd (omega arith)) (λ a p q. absurd (omega arith))
