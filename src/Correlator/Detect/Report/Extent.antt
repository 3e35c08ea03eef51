-- ===== src/Correlator/Detect/Report/Extent.antt =====
-- internal/correlator/correlator.go: the extent of an anomaly, in blocks and in time.
use distributed_gpu_training.Base.{
  ℕ, zero, suc, ◌≤◌, ◌<◌, ◌≡◌, refl, false, inl, inr, some, List, [], ◌∷◌, arith, length, get_elem?,
  get_elem?_of_lt, All, All-map_imp, All-both,
}
use distributed_gpu_training.Base.Int.{ℤ, ◌≤ℤ◌}
use distributed_gpu_training.Base.Pick.{Some}
use distributed_gpu_training.Base.Sort.{IsSorted, IsWeakOrder}
use distributed_gpu_training.Correlator.Detect.{GroupInfo, Flag, info_less, ts_at, last_block}
use distributed_gpu_training.Correlator.Detect.Blocks.{IsIncreasing}

module _ {F : Type 0} where
  abbrev pub Any : GroupInfo F → Type 0
  Any g = Unit

  pub All-Any : (l : List (GroupInfo F)) → All Any l
  All-Any [] = tt
  All-Any (x ∷ xs) = (tt, All-Any xs)

  pub info_less-IsWeakOrder : IsWeakOrder Any info_less
  info_less-IsWeakOrder = record {
    asym = λ x y p q h. ground arith;
    neg_trans = λ x y z p q r h k. ground arith;
  }

  abbrev pub IsTimed : List (GroupInfo F) → Type 0
  IsTimed [] = Unit
  IsTimed (x ∷ xs) = All (λ y. x.ts ≤ℤ y.ts) xs × IsTimed xs

  above_of_sorted :
      (x : GroupInfo F) (xs : List (GroupInfo F))
      → All (λ y. info_less y x ≡ false) xs
      → All (λ y. x.ts ≤ℤ y.ts) xs
  above_of_sorted x [] h = tt
  above_of_sorted x (y ∷ ys) h = (let e = h.0 in ground arith, above_of_sorted x ys h.1)

  pub sorted-IsTimed : (l : List (GroupInfo F)) → IsSorted info_less l → IsTimed l
  sorted-IsTimed [] h = tt
  sorted-IsTimed (x ∷ xs) h = (above_of_sorted x xs h.0, sorted-IsTimed xs h.1)

  ts_at-above :
      (x : GroupInfo F) (l : List (GroupInfo F)) (j : ℕ)
      → All (λ y. x.ts ≤ℤ y.ts) l
      → j < length l
      → x.ts ≤ℤ ts_at l j
  ts_at-above x [] j h lt = elim lt [ ]
  ts_at-above x (y ∷ ys) zero h lt = h.0
  ts_at-above x (y ∷ ys) (suc j) h lt = ts_at-above x ys j h.1 (omega arith)

  pub ts_at_mono :
      (l : List (GroupInfo F)) (i j : ℕ) → IsTimed l → i ≤ j → j < length l → ts_at l i ≤ℤ ts_at l j
  ts_at_mono [] i j h le lt = elim lt [ ]
  ts_at_mono (x ∷ xs) zero zero h le lt = omega arith
  ts_at_mono (x ∷ xs) zero (suc j) h le lt = ts_at-above x xs j h.0 (omega arith)
  ts_at_mono (x ∷ xs) (suc i) zero h le lt = absurd (omega arith)
  ts_at_mono (x ∷ xs) (suc i) (suc j) h le lt = ts_at_mono xs i j h.1 (omega arith) (omega arith)

  -- The time is that of a group which the index finds.
  abbrev pub IsTimeAt : List (GroupInfo F) → ℕ → ℤ → Type 0
  IsTimeAt gs i t = (g : GroupInfo F) × (get_elem? gs i ≡ some g) × (t ≡ g.ts)

  pub ts_at-IsTimeAt :
      (gs : List (GroupInfo F)) (i : ℕ) → i < length gs → IsTimeAt gs i (ts_at gs i)
  ts_at-IsTimeAt gs i h = let (g, q) = get_elem?_of_lt gs i h in (g, q, rw (q, ts_at))

module _ {F : Type 0} where
  pub last_block-Some :
      (f : Flag F) (fl : List (Flag F)) → Some (λ g. last_block (f ∷ fl) ≡ g.block) (f ∷ fl)
  last_block-Some f [] = inl refl
  last_block-Some f (g ∷ fl) = inr (last_block-Some g fl)

  last_block-above :
      (f : Flag F) (fl : List (Flag F))
      → IsIncreasing (f ∷ fl)
      → All (λ g. g.block ≤ last_block (f ∷ fl)) (f ∷ fl)
  last_block-above f [] h = (omega arith, tt)
  last_block-above f (g ∷ fl) h =
      let rest = last_block-above g fl h.1 in (omega (arith, h.0.0, rest.0), rest)

  -- The blocks of ascending flags lie between the first and the last of them.
  pub extent :
      (f : Flag F) (fl : List (Flag F))
      → IsIncreasing (f ∷ fl)
      → All (λ g. (f.block ≤ g.block) × (g.block ≤ last_block (f ∷ fl))) (f ∷ fl)
  extent f fl h =
      All-both (λ g. f.block ≤ g.block) (λ g. g.block ≤ last_block (f ∷ fl)) (f ∷ fl)
        (
          omega arith,
          All-map_imp (λ g. f.block < g.block) (λ g. f.block ≤ g.block) fl (λ g lt. omega arith)
              h.0,
        )
        (last_block-above f fl h)
