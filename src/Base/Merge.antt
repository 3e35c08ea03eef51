-- ===== src/Base/Merge.antt =====
-- A log of several authors against what each of them put into it.
use mathlib.Core.List.{Perm, perm_middle}
use mathlib.Core.List.Perm
use mathlib.Core.Path.{subst}
use distributed_gpu_training.Base.{
  ℕ, zero, suc, ◌≤◌, ◌<◌, ◌≡◌, refl, sym, ap₂, true, false, inl, inr, Bool-cases, List, [], ◌∷◌,
  ◌++◌, append-nil, ◌==◌, if◌then◌else◌, All, arith,
}
use distributed_gpu_training.Base.Family.{by_author, entries}

-- The lists of the first `n`, one behind the other.
abbrev pub concat_to {ℓ} : {A : Type ℓ} → ℕ → (ℕ → List A) → List A
concat_to zero f = []
concat_to (suc n) f = concat_to n f ++ f n

pub concat_to-same {ℓ} :
    {A : Type ℓ} (n : ℕ) (f g : ℕ → List A)
    → ((i : ℕ) → i < n → f i ≡ g i)
    → concat_to n f ≡ concat_to n g
concat_to-same zero f g h = refl
concat_to-same (suc n) f g h =
    ap₂ ◌++◌ (concat_to-same n f g (λ i lt. h i (omega (arith, lt)))) (h n (omega arith))

module _ {A : Type 0} where
  -- The lists with one more element in front of one of them.
  abbrev put : ℕ → A → (ℕ → List A) → ℕ → List A
  put j a f i = if j == i then a ∷ f i else f i

  concat_to-put_above :
      (n j : ℕ) (a : A) (f : ℕ → List A) → n ≤ j → concat_to n (put j a f) ≡ concat_to n f
  concat_to-put_above n j a f h =
      concat_to-same n (put j a f) f
        (λ i lt. let other : (j == i) ≡ false = ground arith in rw other)

  concat_to-put :
      (n j : ℕ) (a : A) (f : ℕ → List A)
      → j < n
      → Perm (concat_to n (put j a f)) (a ∷ concat_to n f)
  concat_to-put zero j a f h = elim h [ ]
  concat_to-put (suc n) j a f h = elim (Bool-cases (j == n)) [
    | inl q ↦
        let below : concat_to n (put j a f) ≡ concat_to n f =
          concat_to-put_above n j a f (ground arith) in
        rw (q, below) (perm_middle (concat_to n f) (f n))
    | inr q ↦ rw q (Perm.append_right (f n) (concat_to-put n j a f (ground arith)))
  ]

  -- A log is, up to the order, what its authors put into it.
  pub entries-concat_to :
      (n : ℕ) (log : List (ℕ × A))
      → All (λ e. e.0 < n) log
      → Perm (entries log) (concat_to n (λ i. by_author i log))
  entries-concat_to n [] h = subst (Perm []) (sym (concat_to-nil n)) (Perm.refl [])
    where
      concat_to-nil : (n : ℕ) → concat_to {A = A} n (λ i. []) ≡ []
      concat_to-nil zero = refl
      concat_to-nil (suc n) = rw append-nil (concat_to-nil n)
  entries-concat_to n ((j, a) ∷ log) h =
      Perm.trans (Perm.cons a (entries-concat_to n log h.1))
        (Perm.symm (concat_to-put n j a (λ i. by_author i log) h.0))

  -- What holds of all that each author put into a log holds of all its entries.
  pub All-entries {κ} :
      (P : A → Type κ) (n : ℕ) (log : List (ℕ × A))
      → All (λ e. e.0 < n) log
      → ((i : ℕ) → i < n → All P (by_author i log))
      → All P (entries log)
  All-entries P n [] few h = tt
  All-entries P n ((j, a) ∷ log) few h =
      let self : (j == j) ≡ true = ground arith in
      (
        (rw self at (h j few.0)).0,
        All-entries P n log few.1 (λ i lt. elim (Bool-cases (j == i)) [
          | inl q ↦ (rw q at (h i lt)).1
          | inr q ↦ rw q at (h i lt)
        ]),
      )

  pub concat_to-perm :
      (n : ℕ) (f g : ℕ → List A)
      → ((i : ℕ) → i < n → Perm (f i) (g i))
      → Perm (concat_to n f) (concat_to n g)
  concat_to-perm zero f g h = Perm.refl []
  concat_to-perm (suc n) f g h =
      Perm.append (concat_to-perm n f g (λ i lt. h i (omega (arith, lt)))) (h n (omega arith))
