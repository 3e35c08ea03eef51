-- ===== src/Correlator/Detect/Blocks.antt =====
-- internal/correlator/correlator.go: the flags that the loop over the blocks collects. For one rank
-- they come from different blocks, in ascending order.
use native.Mathlib.Nat.{add-zero}
use mathlib.Core.Path.{subst}
use distributed_gpu_training.Base.{
  ℕ, zero, suc, ◌+◌, ◌*◌, ◌/◌, ◌≤◌, ◌<◌, ◌≡◌, refl, Bool, true, false, ◌||◌, inl, inr, Option, none,
  some, List, [], ◌∷◌, ◌++◌, arith, Bool-cases, Option-cases, length, length-append, All,
  All-append, All-map_imp, ◌==◌, ==_iff, leb, take, drop,
}
use distributed_gpu_training.Base.Assoc.{
  nat-IsEquality, lookup, insert, IsMap, IsFresh, All-insert, insert-IsMap,
}
use distributed_gpu_training.Float.{Float64}
use distributed_gpu_training.Correlator.Store.{or_empty}
use distributed_gpu_training.Correlator.Store.Invariant.{lookup-All_key}
use distributed_gpu_training.Correlator.Detect.{
  GroupInfo, Flag, add_lags, per_rank, medians, flag_rank, add_flag, flag_all, flag_block,
  flag_blocks, last_block,
}

module _ {F : Type 0} where
  abbrev pub IsIncreasing : List (Flag F) → Type 0
  IsIncreasing [] = Unit
  IsIncreasing (f ∷ fl) = All (λ g. f.block < g.block) fl × IsIncreasing fl

  -- Flags of one rank from blocks below `b`.
  pub record IsFlagged (b : ℕ) (fl : List (Flag F)) : Type 0 where
    pub below : All (λ f. f.block < b) fl
    pub increasing : IsIncreasing fl

  pub last_block-lt :
      (b : ℕ) (f : Flag F) (fl : List (Flag F))
      → All (λ g. g.block < b) (f ∷ fl)
      → last_block (f ∷ fl) < b
  last_block-lt b f [] h = h.0
  last_block-lt b f (g ∷ fl) h = last_block-lt b g fl h.1

  -- Different blocks: no more flags than blocks between the first and the last.
  pub length-le-span :
      (f : Flag F) (fl : List (Flag F))
      → IsIncreasing (f ∷ fl)
      → f.block + length (f ∷ fl) ≤ last_block (f ∷ fl) + 1
  length-le-span f [] h = omega arith
  length-le-span f (g ∷ fl) h = omega (arith, length-le-span g fl h.1, h.0.0)

  snoc-IsIncreasing :
      (b : ℕ) (fl : List (Flag F)) (f : Flag F)
      → All (λ g. g.block < b) fl
      → IsIncreasing fl
      → f.block ≡ b
      → IsIncreasing (fl ++ (f ∷ []))
  snoc-IsIncreasing b [] f h i e = (tt, tt)
  snoc-IsIncreasing b (g ∷ fl) f h i e = (
    All-append (λ k. g.block < k.block) fl (f ∷ []) i.0 (rw e h.0, tt),
    snoc-IsIncreasing b fl f h.1 i.1 e,
  )

  snoc-IsFlagged :
      (b : ℕ) (fl : List (Flag F)) (f : Flag F)
      → IsFlagged b fl
      → f.block ≡ b
      → IsFlagged (suc b) (fl ++ (f ∷ []))
  snoc-IsFlagged b fl f h e = record {
    below =
        All-append (λ g. g.block < suc b) fl (f ∷ [])
          (All-map_imp (λ g. g.block < b) (λ g. g.block < suc b) fl (λ g lt. omega arith) h.below)
          (omega arith, tt);
    increasing = snoc-IsIncreasing b fl f h.below h.increasing e;
  }

  later-IsFlagged : (b : ℕ) (fl : List (Flag F)) → IsFlagged b fl → IsFlagged (suc b) fl
  later-IsFlagged b fl h = record {
    below = All-map_imp (λ g. g.block < b) (λ g. g.block < suc b) fl (λ g lt. omega arith) h.below;
    increasing = h.increasing;
  }

  -- The rank stands among the medians that are still to be tested.
  abbrev is_left : ℕ → List (ℕ × F) → Bool
  is_left r [] = false
  is_left r (e ∷ med) = e.0 == r || is_left r med

  is_left_fresh : (r : ℕ) (med : List (ℕ × F)) → IsFresh ◌==◌ r med → is_left r med ≡ false
  is_left_fresh r [] h = refl
  is_left_fresh r (e ∷ med) h = ground (arith, is_left_fresh r med h.1)

  -- Inside block `b`: a rank still to be tested has flags from earlier blocks only.
  pub record IsMidway (b : ℕ) (med : List (ℕ × F)) (e : ℕ × List (Flag F)) : Type 0 where
    pub some_flag : 0 < length e.1
    pub flagged : IsFlagged (suc b) e.1
    pub untouched : is_left e.0 med ≡ true → IsFlagged b e.1

  tail-IsMidway :
      (b r : ℕ) (m : F) (med : List (ℕ × F)) (flags : List (ℕ × List (Flag F)))
      → All (IsMidway b ((r, m) ∷ med)) flags
      → All (IsMidway b med) flags
  tail-IsMidway b r m med flags h =
      All-map_imp (IsMidway b ((r, m) ∷ med)) (IsMidway b med) flags
        (λ e w. record {
          some_flag = w.some_flag;
          flagged = w.flagged;
          untouched = λ t. w.untouched (ground arith);
        })
        h

  add_flag-IsMidway :
      (b r : ℕ) (m : F) (med : List (ℕ × F)) (o : Option (Flag F))
      (flags : List (ℕ × List (Flag F)))
      → IsFresh ◌==◌ r med
      → ((f : Flag F) → o ≡ some f → f.block ≡ b)
      → All (IsMidway b ((r, m) ∷ med)) flags
      → All (IsMidway b med) (add_flag r o flags)
  add_flag-IsMidway b r m med none flags fresh at_b h = tail-IsMidway b r m med flags h
  add_flag-IsMidway b r m med (some f) flags fresh at_b h =
      let old = or_empty (lookup ◌==◌ r flags) in
      let before : IsFlagged b old = elim (Option-cases (lookup ◌==◌ r flags)) [
        | inl q ↦ rw q (record { below = tt; increasing = tt })
        | inr (l, q) ↦ rw q (
            (lookup-All_key ◌==◌ nat-IsEquality (IsMidway b ((r, m) ∷ med)) r flags l h q).untouched
              (ground arith))
      ] in
      let new : IsMidway b med (r, old ++ (f ∷ [])) = record {
        some_flag = omega (arith, length-append old (f ∷ []));
        flagged = snoc-IsFlagged b old f before (at_b f refl);
        untouched = λ t. cc (is_left_fresh r med fresh);
      } in
      All-insert ◌==◌ (IsMidway b med) r (old ++ (f ∷ [])) flags (λ j q. rw ((==_iff j r).0 q) new)
        new (tail-IsMidway b r m med flags h)

  flag_all-IsMidway :
      (b : ℕ) (test : ℕ → F → Option (Flag F)) (med : List (ℕ × F))
      (flags : List (ℕ × List (Flag F)))
      → ((r : ℕ) (m : F) (f : Flag F) → test r m ≡ some f → f.block ≡ b)
      → IsMap ◌==◌ med
      → All (IsMidway b med) flags
      → All (IsMidway b []) (flag_all test med flags)
  flag_all-IsMidway b test [] flags at_b u h = h
  flag_all-IsMidway b test ((r, m) ∷ med) flags at_b u h =
      flag_all-IsMidway b test med (add_flag r (test r m) flags) at_b u.1
        (add_flag-IsMidway b r m med (test r m) flags u.0 (at_b r m) h)

  between_blocks :
      (b : ℕ) (flags : List (ℕ × List (Flag F)))
      → All (IsMidway b []) flags
      → All (λ e. (0 < length e.1) × IsFlagged (suc b) e.1) flags
  between_blocks b flags h =
      All-map_imp (IsMidway b []) (λ e. (0 < length e.1) × IsFlagged (suc b) e.1) flags
        (λ e w. (w.some_flag, w.flagged)) h

  into_block :
      (b : ℕ) (med : List (ℕ × F)) (flags : List (ℕ × List (Flag F)))
      → All (λ e. (0 < length e.1) × IsFlagged b e.1) flags
      → All (IsMidway b med) flags
  into_block b med flags h =
      All-map_imp (λ e. (0 < length e.1) × IsFlagged b e.1) (IsMidway b med) flags
        (λ e w. record {
          some_flag = w.0;
          flagged = later-IsFlagged b e.1 w.1;
          untouched = λ t. w.1;
        })
        h

  add_lags-IsMap :
      (m : List (ℕ × List F)) (ls : List (ℕ × F)) → IsMap ◌==◌ m → IsMap ◌==◌ (add_lags m ls)
  add_lags-IsMap m [] h = h
  add_lags-IsMap m ((r, l) ∷ ls) h =
      let v = or_empty (lookup ◌==◌ r m) ++ (l ∷ []) in
      add_lags-IsMap (insert ◌==◌ r v m) ls (insert-IsMap ◌==◌ nat-IsEquality r v m h)

  pub per_rank-IsMap :
      (m : List (ℕ × List F)) (gs : List (GroupInfo F)) → IsMap ◌==◌ m → IsMap ◌==◌ (per_rank m gs)
  per_rank-IsMap m [] h = h
  per_rank-IsMap m (g ∷ gs) h = per_rank-IsMap (add_lags m g.lags) gs (add_lags-IsMap m g.lags h)

module _ {F : Type 0} ⦃d : Float64 F⦄ where
  medians-IsFresh :
      (bs k : ℕ) (m : List (ℕ × List F)) → IsFresh ◌==◌ k m → IsFresh ◌==◌ k (medians bs m)
  medians-IsFresh bs k [] h = tt
  medians-IsFresh bs k ((r, ls) ∷ m) h = elim (Bool-cases (leb (bs / 2) (length ls))) [
    | inl t ↦ rw t (h.0, medians-IsFresh bs k m h.1)
    | inr t ↦ rw t (medians-IsFresh bs k m h.1)
  ]

  pub medians-IsMap : (bs : ℕ) (m : List (ℕ × List F)) → IsMap ◌==◌ m → IsMap ◌==◌ (medians bs m)
  medians-IsMap bs [] h = tt
  medians-IsMap bs ((r, ls) ∷ m) h = elim (Bool-cases (leb (bs / 2) (length ls))) [
    | inl t ↦ rw t (medians-IsFresh bs r m h.0, medians-IsMap bs m h.1)
    | inr t ↦ rw t (medians-IsMap bs m h.1)
  ]

  flag_rank-block :
      (threshold floor : F) (b : ℕ) (blk : List (GroupInfo F)) (lags : List (ℕ × List F))
      (med : List (ℕ × F)) (r : ℕ) (m : F) (f : Flag F)
      → flag_rank threshold floor b blk lags med r m ≡ some f
      → f.block ≡ b
  unfolding flag_rank
  flag_rank-block threshold floor b blk lags med r m f h = ground arith

  -- Every rank with flags has at least one, and they come from different blocks before `b`, in
  -- ascending order.
  abbrev pub AreFlagged : ℕ → List (ℕ × List (Flag F)) → Type 0
  AreFlagged b = All (λ e. (0 < length e.1) × IsFlagged b e.1)

  pub flag_block-AreFlagged :
      (threshold floor : F) (bs : ℕ) (gs : List (GroupInfo F)) (b : ℕ)
      (flags : List (ℕ × List (Flag F)))
      → AreFlagged b flags
      → AreFlagged (suc b) (flag_block threshold floor bs gs b flags)
  unfolding flag_block
  flag_block-AreFlagged threshold floor bs gs b flags h =
      let blk = take bs (drop (b * bs) gs) in
      let lags = per_rank [] blk in
      let med = medians bs lags in
      let test = flag_rank threshold floor b blk lags med in
      between_blocks b (flag_all test med flags) (
        flag_all-IsMidway b test med flags (flag_rank-block threshold floor b blk lags med)
          (medians-IsMap bs lags (per_rank-IsMap [] blk tt)) (into_block b med flags h))

  pub flag_blocks-AreFlagged :
      (threshold floor : F) (bs : ℕ) (gs : List (GroupInfo F)) (b n : ℕ)
      (flags : List (ℕ × List (Flag F)))
      → AreFlagged b flags
      → AreFlagged (b + n) (flag_blocks threshold floor bs gs b n flags)
  unfolding flag_blocks
  flag_blocks-AreFlagged threshold floor bs gs b zero flags h = rw add-zero h
  flag_blocks-AreFlagged threshold floor bs gs b (suc n) flags h =
      let e : b + 1 + n ≡ b + suc n = omega arith in
      let one : suc b ≡ b + 1 = omega arith in
      subst (λ k. AreFlagged k (flag_blocks threshold floor bs gs b (suc n) flags)) e
        (flag_blocks-AreFlagged threshold floor bs gs (b + 1) n
          (flag_block threshold floor bs gs b flags)
          (rw one at (flag_block-AreFlagged threshold floor bs gs b flags h)))
