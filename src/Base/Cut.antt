-- ===== src/Base/Cut.antt =====
-- `sort.Search` over the elements of a slice that a test splits into a front and a back: cutting
-- the slice there is filtering it.
use distributed_gpu_training.Base.{
  ℕ, zero, suc, ◌≡◌, refl, sym, ap, Bool, true, not, inl, inr, List, [], ◌∷◌, ◌++◌, arith,
  Bool-cases, length, take, drop, keep, All,
}
use distributed_gpu_training.Base.Search.{search, IsMonotone, IsFirst, search-IsFirst}

module _ {ℓ} {A : Type ℓ} (p : A → Bool) where
  -- `func(i int) bool { return p(l[i]) }`. `sort.Search` asks inside the slice only.
  abbrev pub test_at : List A → ℕ → Bool
  test_at [] i = true
  test_at (x ∷ xs) zero = p x
  test_at (x ∷ xs) (suc i) = test_at xs i

  unfoldable pub cut : List A → ℕ
  cut l = search (length l) (test_at l)

  -- Once an element passes, all later ones do.
  abbrev pub IsUp : List A → Type 0
  IsUp [] = Unit
  IsUp (x ∷ xs) = (p x ≡ true → All (λ y. p y ≡ true) xs) × IsUp xs

  test_at-All : (l : List A) (i : ℕ) → All (λ y. p y ≡ true) l → test_at l i ≡ true
  test_at-All [] i h = refl
  test_at-All (x ∷ xs) zero h = h.0
  test_at-All (x ∷ xs) (suc i) h = test_at-All xs i h.1

  test_at-IsMonotone : (l : List A) → IsUp l → IsMonotone (length l) (test_at l)
  test_at-IsMonotone [] u a b le lt t = refl
  test_at-IsMonotone (x ∷ xs) u zero zero le lt t = t
  test_at-IsMonotone (x ∷ xs) u zero (suc b) le lt t = test_at-All xs b (u.0 t)
  test_at-IsMonotone (x ∷ xs) u (suc a) zero le lt t = absurd (omega arith)
  test_at-IsMonotone (x ∷ xs) u (suc a) (suc b) le lt t =
      test_at-IsMonotone xs u.1 a b (omega arith) (omega arith) t

  keep_of-All : (l : List A) → All (λ y. p y ≡ true) l → keep p l ≡ l
  keep_of-All [] h = refl
  keep_of-All (x ∷ xs) h = rw h.0 (ap (◌∷◌ x) (keep_of-All xs h.1))

  keep_none : (l : List A) → All (λ y. p y ≡ true) l → keep (λ y. not (p y)) l ≡ []
  keep_none [] h = refl
  keep_none (x ∷ xs) h = rw h.0 (keep_none xs h.1)

  tail-IsFirst :
      (x : A) (xs : List A) (k : ℕ)
      → IsFirst (suc (length xs)) (test_at (x ∷ xs)) (suc k)
      → IsFirst (length xs) (test_at xs) k
  tail-IsFirst x xs k f = record {
    bounded = omega (arith, f.bounded);
    before = λ a h. f.before (suc a) (omega arith);
    after = λ a h lt. f.after (suc a) (omega arith) (omega arith);
  }

  drop-keep : (l : List A) (k : ℕ) → IsUp l → IsFirst (length l) (test_at l) k → drop k l ≡ keep p l
  drop-keep [] zero u f = refl
  drop-keep [] (suc k) u f = refl
  drop-keep (x ∷ xs) zero u f =
      let t = f.after 0 (omega arith) (omega arith) in
      rw t (ap (◌∷◌ x) (sym (keep_of-All xs (u.0 t))))
  drop-keep (x ∷ xs) (suc k) u f =
      rw (f.before 0 (omega arith)) (drop-keep xs k u.1 (tail-IsFirst x xs k f))

  take-keep :
      (l : List A) (k : ℕ)
      → IsUp l
      → IsFirst (length l) (test_at l) k
      → take k l ≡ keep (λ y. not (p y)) l
  take-keep [] zero u f = refl
  take-keep [] (suc k) u f = refl
  take-keep (x ∷ xs) zero u f =
      let t = f.after 0 (omega arith) (omega arith) in rw t (sym (keep_none xs (u.0 t)))
  take-keep (x ∷ xs) (suc k) u f =
      rw (f.before 0 (omega arith)) (ap (◌∷◌ x) (take-keep xs k u.1 (tail-IsFirst x xs k f)))

  pub cut-IsFirst : (l : List A) → IsUp l → IsFirst (length l) (test_at l) (cut l)
  unfolding cut
  cut-IsFirst l u = search-IsFirst (length l) (test_at l) (test_at-IsMonotone l u)

  pub drop-cut : (l : List A) → IsUp l → drop (cut l) l ≡ keep p l
  drop-cut l u = drop-keep l (cut l) u (cut-IsFirst l u)

  pub take-cut : (l : List A) → IsUp l → take (cut l) l ≡ keep (λ y. not (p y)) l
  take-cut l u = take-keep l (cut l) u (cut-IsFirst l u)

module _ {ℓ} {A : Type ℓ} where
  pub All-keep {κ} : (P : A → Type κ) (p : A → Bool) (l : List A) → All P l → All P (keep p l)
  All-keep P p [] h = tt
  All-keep P p (x ∷ xs) h = elim (Bool-cases (p x)) [
    | inl e ↦ rw e (h.0, All-keep P p xs h.1)
    | inr e ↦ rw e (All-keep P p xs h.1)
  ]

  pub keep-All : (p : A → Bool) (l : List A) → All (λ y. p y ≡ true) (keep p l)
  keep-All p [] = tt
  keep-All p (x ∷ xs) = elim (Bool-cases (p x)) [
    | inl e ↦ rw e (e, keep-All p xs)
    | inr e ↦ rw e (keep-All p xs)
  ]

  pub keep-append : (p : A → Bool) (xs ys : List A) → keep p (xs ++ ys) ≡ keep p xs ++ keep p ys
  keep-append p [] ys = refl
  keep-append p (x ∷ xs) ys = elim (Bool-cases (p x)) [
    | inl e ↦ rw e (ap (◌∷◌ x) (keep-append p xs ys))
    | inr e ↦ rw e (keep-append p xs ys)
  ]
