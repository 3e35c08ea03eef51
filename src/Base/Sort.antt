-- ===== src/Base/Sort.antt =====
-- `sort.Slice` and its relatives as insertion sort by a `less` test, with what they promise: the
-- result is a permutation of the input, and ascending where `less` is a strict weak order.
-- Equal elements keep their order, as `sort.SliceStable` promises.
use mathlib.Core.List.{Perm}
use mathlib.Core.List.Perm
use distributed_gpu_training.Base.{
  ◌≡◌, refl, ap, ◌∙◌, Bool, true, false, inl, inr, List, [], ◌∷◌, if◌then◌else◌, Bool-cases, All,
  length, suc,
}

module _ {ℓ} {A : Type ℓ} (less : A → A → Bool) where
  abbrev pub insert_by : A → List A → List A
  insert_by x [] = x ∷ []
  insert_by x (y ∷ ys) = if less y x then y ∷ insert_by x ys else x ∷ y ∷ ys

  abbrev pub sort_by : List A → List A
  sort_by [] = []
  sort_by (x ∷ xs) = insert_by x (sort_by xs)

  -- Nothing that stands later is less than what stands earlier.
  abbrev pub IsSorted : List A → Type 0
  IsSorted [] = Unit
  IsSorted (x ∷ xs) = All (λ y. less y x ≡ false) xs × IsSorted xs

  pub insert_by-perm : (x : A) (l : List A) → Perm (insert_by x l) (x ∷ l)
  insert_by-perm x [] = Perm.refl (x ∷ [])
  insert_by-perm x (y ∷ ys) = elim (Bool-cases (less y x)) [
    | inl e ↦ rw e (Perm.trans (Perm.cons y (insert_by-perm x ys)) (Perm.swap x y ys))
    | inr e ↦ rw e (Perm.refl (x ∷ y ∷ ys))
  ]

  pub sort_by-perm : (l : List A) → Perm (sort_by l) l
  sort_by-perm [] = Perm.refl []
  sort_by-perm (x ∷ xs) = Perm.trans (insert_by-perm x (sort_by xs)) (Perm.cons x (sort_by-perm xs))

  pub All-insert_by {κ} :
      (P : A → Type κ) (x : A) (l : List A) → P x → All P l → All P (insert_by x l)
  All-insert_by P x [] px h = (px, tt)
  All-insert_by P x (y ∷ ys) px h = elim (Bool-cases (less y x)) [
    | inl e ↦ rw e (h.0, All-insert_by P x ys px h.1)
    | inr e ↦ rw e (px, h)
  ]

  pub All-sort_by {κ} : (P : A → Type κ) (l : List A) → All P l → All P (sort_by l)
  All-sort_by P [] h = tt
  All-sort_by P (x ∷ xs) h = All-insert_by P x (sort_by xs) h.0 (All-sort_by P xs h.1)

  pub length-insert_by : (x : A) (l : List A) → length (insert_by x l) ≡ suc (length l)
  length-insert_by x [] = refl
  length-insert_by x (y ∷ ys) = elim (Bool-cases (less y x)) [
    | inl e ↦ rw e (ap suc (length-insert_by x ys))
    | inr e ↦ rw e
  ]

  pub length-sort_by : (l : List A) → length (sort_by l) ≡ length l
  length-sort_by [] = refl
  length-sort_by (x ∷ xs) = length-insert_by x (sort_by xs) ∙ ap suc (length-sort_by xs)

-- What a `less` function has to satisfy, on the elements that `P` admits.
pub record IsWeakOrder {ℓ κ} {A : Type ℓ} (P : A → Type κ) (less : A → A → Bool)
    : Type (ℓ ⊔ κ) where
  pub asym : (x y : A) → P x → P y → less x y ≡ true → less y x ≡ false
  pub neg_trans :
      (x y z : A) → P x → P y → P z → less y x ≡ false → less z y ≡ false → less z x ≡ false

module _ {ℓ κ} {A : Type ℓ} {P : A → Type κ} {less : A → A → Bool} (o : IsWeakOrder P less) where
  above-All :
      (x y : A) (ys : List A)
      → P x
      → P y
      → All P ys
      → less y x ≡ false
      → All (λ z. less z y ≡ false) ys
      → All (λ z. less z x ≡ false) ys
  above-All x y [] px py h e s = tt
  above-All x y (z ∷ zs) px py h e s =
      (o.neg_trans x y z px py h.0 e s.0, above-All x y zs px py h.1 e s.1)

  insert_by-IsSorted :
      (x : A) (l : List A) → P x → All P l → IsSorted less l → IsSorted less (insert_by less x l)
  insert_by-IsSorted x [] px h s = (tt, tt)
  insert_by-IsSorted x (y ∷ ys) px h s = elim (Bool-cases (less y x)) [
    | inl e ↦ rw e (
      All-insert_by less (λ z. less z y ≡ false) x ys (o.asym y x h.0 px e) s.0,
      insert_by-IsSorted x ys px h.1 s.1,
    )
    | inr e ↦ rw e ((e, above-All x y ys px h.0 h.1 e s.0), s)
  ]

  pub sort_by-IsSorted : (l : List A) → All P l → IsSorted less (sort_by less l)
  sort_by-IsSorted [] h = tt
  sort_by-IsSorted (x ∷ xs) h =
      insert_by-IsSorted x (sort_by less xs) h.0 (All-sort_by less P xs h.1)
        (sort_by-IsSorted xs h.1)
