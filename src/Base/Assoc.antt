-- ===== src/Base/Assoc.antt =====
-- A Go map as an association list, over an equality test of the keys. A write to a new key goes to
-- the end, so a `range` over the model visits the keys in the order in which they came; Go leaves
-- the order open.
use distributed_gpu_training.Base.{
  ◌≡◌, refl, Bool, true, false, inl, inr, Option, none, some, List, [], ◌∷◌, arith, if◌then◌else◌,
  Bool-cases, ◌==◌, ==_iff, All,
}

pub record IsEquality {ℓ} {K : Type ℓ} (eq : K → K → Bool) : Type ℓ where
  pub sound : (a b : K) → eq a b ≡ true → a ≡ b
  pub self : (a : K) → eq a a ≡ true

pub nat-IsEquality : IsEquality ◌==◌
nat-IsEquality = record { sound = λ a b h. (==_iff a b).0 h; self = λ a. ground arith }

pub sym_false {ℓ} :
    {K : Type ℓ} (eq : K → K → Bool) → IsEquality eq → (a b : K) → eq a b ≡ false → eq b a ≡ false
sym_false eq laws a b h = elim (Bool-cases (eq b a)) [
  | inl e ↦ ground (arith, laws.sound b a e, laws.self b)
  | inr e ↦ e
]

module _ {ℓ} {K V : Type ℓ} (eq : K → K → Bool) where
  abbrev pub lookup : K → List (K × V) → Option V
  lookup k [] = none
  lookup k ((j, v) ∷ m) = if eq j k then some v else lookup k m

  -- `m[k] = v`
  abbrev pub insert : K → V → List (K × V) → List (K × V)
  insert k v [] = (k, v) ∷ []
  insert k v ((j, w) ∷ m) = if eq j k then (j, v) ∷ m else (j, w) ∷ insert k v m

  abbrev pub IsFresh : K → List (K × V) → Type 0
  IsFresh k = All (λ e. eq e.0 k ≡ false)

  -- No key stands twice.
  abbrev pub IsMap : List (K × V) → Type 0
  IsMap [] = Unit
  IsMap (e ∷ m) = All (λ e'. eq e'.0 e.0 ≡ false) m × IsMap m

  pub All-insert {κ} :
      (P : K × V → Type κ) (k : K) (v : V) (m : List (K × V))
      → ((j : K) → eq j k ≡ true → P (j, v))
      → P (k, v)
      → All P m
      → All P (insert k v m)
  All-insert P k v [] f p h = (p, tt)
  All-insert P k v ((j, w) ∷ m) f p h = elim (Bool-cases (eq j k)) [
    | inl e ↦ rw e (f j e, h.1)
    | inr e ↦ rw e (h.0, All-insert P k v m f p h.1)
  ]

  module _ (laws : IsEquality eq) where
    pub lookup-insert :
        (k j : K) (v : V) (m : List (K × V))
        → lookup j (insert k v m) ≡ (if eq k j then some v else lookup j m)
    lookup-insert k j v [] = refl
    lookup-insert k j v ((i, w) ∷ m) = elim (Bool-cases (eq i k)) [
      | inl e ↦ ground (arith, laws.sound i k e, lookup-insert k j v m)
      | inr e ↦ elim (Bool-cases (eq i j)) [
        | inl d ↦ elim (Bool-cases (eq k j)) [
          | inl c ↦ ground (arith, laws.sound i j d, laws.sound k j c, laws.self j)
          | inr c ↦ rw (e, c, d)
        ]
        | inr d ↦ rw (e, d) (lookup-insert k j v m)
      ]
    ]

    pub insert-IsMap : (k : K) (v : V) (m : List (K × V)) → IsMap m → IsMap (insert k v m)
    insert-IsMap k v [] h = (tt, tt)
    insert-IsMap k v ((j, w) ∷ m) h = elim (Bool-cases (eq j k)) [
      | inl e ↦ rw e h
      | inr e ↦ rw e (
        All-insert (λ e'. eq e'.0 j ≡ false) k v m
            (λ i d. rw (laws.sound i k d) (sym_false eq laws j k e)) (sym_false eq laws j k e) h.0,
        insert-IsMap k v m h.1,
      )
    ]
