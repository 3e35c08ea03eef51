-- ===== src/Base/Pick.antt =====
-- Lists through a partial function, and the ends of a list.
use distributed_gpu_training.Base.{
  Bool, true, false, ◌||◌, Option, none, some, List, [], ◌∷◌, ◌++◌, ◌≡◌, refl, ap, inl, inr, ◌⊎◌,
  Option-cases,
}

-- The values that a partial function gives on a list.
abbrev pub pick : {A B : Type 0} → (A → Option B) → List A → List B
pick f [] = []
pick f (x ∷ xs) = elim (f x) [ none ↦ pick f xs | some y ↦ y ∷ pick f xs ]

-- Whether a partial function has a value.
abbrev pub gives : {A B : Type 0} → (A → Option B) → A → Bool
gives f x = elim (f x) [ none ↦ false | some y ↦ true ]

-- The last element, or else `o`.
abbrev pub final_or : {A : Type 0} → Option A → List A → Option A
final_or o [] = o
final_or o (x ∷ xs) = final_or (some x) xs

abbrev pub final : {A : Type 0} → List A → Option A
final l = final_or none l

-- The last element of `x` and a list behind it.
abbrev pub final_after : {A : Type 0} → A → List A → A
final_after x [] = x
final_after x (y ∷ ys) = final_after y ys

abbrev pub any : {A : Type 0} → (A → Bool) → List A → Bool
any p [] = false
any p (x ∷ xs) = p x || any p xs

-- An option as a list of one element at most.
abbrev pub listed : {A : Type 0} → Option A → List A
listed none = []
listed (some x) = x ∷ []

pub pick-append :
    {A B : Type 0} (f : A → Option B) (xs ys : List A) → pick f (xs ++ ys) ≡ pick f xs ++ pick f ys
pick-append f [] ys = refl
pick-append f (x ∷ xs) ys = elim (Option-cases (f x)) [
  | inl q ↦ rw (q, pick) (pick-append f xs ys)
  | inr (y, q) ↦ rw (q, pick) (ap (◌∷◌ y) (pick-append f xs ys))
]

pub final_or-some : {A : Type 0} (x : A) (l : List A) → final_or (some x) l ≡ some (final_after x l)
final_or-some x [] = refl
final_or-some x (y ∷ l) = final_or-some y l

pub listed_again : {A : Type 0} (l : List A) → elim l [ x ∷ xs ↦ x ∷ xs | [] ↦ [] ] ≡ l
listed_again [] = refl
listed_again (x ∷ xs) = refl

-- One of the list, and one with the property.
abbrev pub IsIn : {A : Type 0} → A → List A → Type 0
IsIn x [] = ⊥
IsIn x (y ∷ ys) = (x ≡ y) ⊎ IsIn x ys

abbrev pub Some : {A : Type 0} → (A → Type 0) → List A → Type 0
Some P [] = ⊥
Some P (x ∷ xs) = P x ⊎ Some P xs
