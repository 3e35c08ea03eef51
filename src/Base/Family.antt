-- ===== src/Base/Family.antt =====
-- Families indexed by a number, as the goroutines of a component are, and the log of what they did,
-- each entry with the index of its author.
use mathlib.Core.Path.{subst}
use distributed_gpu_training.Base.{
  ℕ, zero, suc, ◌+◌, ◌≤◌, ◌<◌, ◌≡◌, refl, ap, inl, inr, List, [], ◌∷◌, ◌++◌, ◌==◌, ==_iff,
  Bool-cases, if◌then◌else◌, arith,
}

-- The family with another member at `i`.
abbrev pub replace {ℓ} : {A : Type ℓ} → (ℕ → A) → ℕ → A → ℕ → A
replace f i a j = if i == j then a else f j

-- The sum of the weights of the first `n`.
abbrev pub sum_to {ℓ} : {A : Type ℓ} → (A → ℕ) → ℕ → (ℕ → A) → ℕ
sum_to w zero f = 0
sum_to w (suc n) f = sum_to w n f + w (f n)

module _ {ℓ} {A : Type ℓ} (w : A → ℕ) where
  sum_to-replace_above :
      (n : ℕ) (f : ℕ → A) (i : ℕ) (a : A) → n ≤ i → sum_to w n (replace f i a) ≡ sum_to w n f
  sum_to-replace_above zero f i a h = refl
  sum_to-replace_above (suc n) f i a h = ground (arith, sum_to-replace_above n f i a)

  pub sum_to-replace :
      (n : ℕ) (f : ℕ → A) (i : ℕ) (a : A)
      → i < n
      → sum_to w n (replace f i a) + w (f i) ≡ sum_to w n f + w a
  sum_to-replace zero f i a h = absurd (omega arith)
  sum_to-replace (suc n) f i a h = elim (Bool-cases (i == n)) [
    | inl q ↦ let same : i ≡ n = (==_iff i n).0 q in ground (arith, sum_to-replace_above n f i a)
    | inr q ↦ ground (arith, sum_to-replace n f i a)
  ]

-- What one author has put into a log.
abbrev pub by_author : {A : Type 0} → ℕ → List (ℕ × A) → List A
by_author i [] = []
by_author i ((j, a) ∷ log) = if j == i then a ∷ by_author i log else by_author i log

-- A log without its authors.
abbrev pub entries : {A : Type 0} → List (ℕ × A) → List A
entries [] = []
entries ((j, a) ∷ log) = a ∷ entries log

module _ {A : Type 0} where
  pub by_author-snoc :
      (i j : ℕ) (a : A) (log : List (ℕ × A))
      → by_author i (log ++ (j, a) ∷ []) ≡ by_author i log ++ (if j == i then a ∷ [] else [])
  by_author-snoc i j a [] = elim (Bool-cases (j == i)) [ inl q ↦ rw q | inr q ↦ rw q ]
  by_author-snoc i j a ((k, b) ∷ log) = elim (Bool-cases (k == i)) [
    | inl q ↦ rw q (ap (◌∷◌ b) (by_author-snoc i j a log))
    | inr q ↦ rw q (by_author-snoc i j a log)
  ]

  pub entries-snoc :
      (j : ℕ) (a : A) (log : List (ℕ × A)) → entries (log ++ (j, a) ∷ []) ≡ entries log ++ a ∷ []
  entries-snoc j a [] = refl
  entries-snoc j a ((k, b) ∷ log) = ap (◌∷◌ b) (entries-snoc j a log)

-- What holds of the members with an index holds when one is replaced by another of which it holds.
pub replace-All {ℓ κ} :
    {A : Type ℓ} (P : ℕ → A → Type κ) (f : ℕ → A) (i : ℕ) (a : A)
    → P i a
    → ((j : ℕ) → P j (f j))
    → (j : ℕ) → P j (replace f i a j)
replace-All P f i a p all j = elim (Bool-cases (i == j)) [
  | inl q ↦ rw q (subst (λ k. P k a) ((==_iff i j).0 q) p)
  | inr q ↦ rw q (all j)
]

pub sum_to-map {ℓ κ} :
    {A : Type ℓ} {B : Type κ} (w : B → ℕ) (g : A → B) (n : ℕ) (f : ℕ → A)
    → sum_to w n (λ i. g (f i)) ≡ sum_to (λ x. w (g x)) n f
sum_to-map w g zero f = refl
sum_to-map w g (suc n) f = omega (arith, sum_to-map w g n f)

pub sum_to-zero {ℓ} :
    {A : Type ℓ} (w : A → ℕ) (n : ℕ) (f : ℕ → A)
    → ((i : ℕ) → i < n → w (f i) ≡ 0)
    → sum_to w n f ≡ 0
sum_to-zero w zero f h = refl
sum_to-zero w (suc n) f h =
    omega (arith, h n (omega arith), sum_to-zero w n f (λ i lt. h i (omega (arith, lt))))
