-- ===== src/Correlator/Detect/Held.antt =====
-- internal/correlator/correlator.go: the flags that the loop over the blocks of `DetectAnomalies`
-- collects for one rank.
use mathlib.Core.Path.{subst}
use distributed_gpu_training.Base.{
  ℕ, zero, suc, ◌+◌, ◌*◌, ◌≡◌, refl, sym, ap, ◌∙◌, inl, inr, Option, none, some, List, [], ◌∷◌,
  ◌++◌, append-nil, append_assoc, Bool-cases, ◌==◌, ==_iff, take, drop, if◌then◌else◌,
}
use distributed_gpu_training.Base.Assoc.{
  nat-IsEquality, lookup, lookup-insert, IsMap, IsFresh, insert-IsMap,
}
use distributed_gpu_training.Float.{Float64}
use distributed_gpu_training.Correlator.Store.{or_empty}
use distributed_gpu_training.Correlator.Detect.{
  GroupInfo, Flag, per_rank, medians, flag_rank, add_flag, flag_all, flag_block, flag_blocks,
}
use distributed_gpu_training.Correlator.Detect.Blocks.{medians-IsMap, per_rank-IsMap}

abbrev pub option_list : {A : Type 0} → Option A → List A
option_list none = []
option_list (some a) = a ∷ []

lookup_fresh : {V : Type 0} (r : ℕ) (m : List (ℕ × V)) → IsFresh ◌==◌ r m → lookup ◌==◌ r m ≡ none
lookup_fresh r [] h = refl
lookup_fresh r ((k, v) ∷ m) h = rw h.0 (lookup_fresh r m h.1)

module _ {F : Type 0} where
  -- The flags that a rank has so far.
  abbrev pub held : ℕ → List (ℕ × List (Flag F)) → List (Flag F)
  held r flags = or_empty (lookup ◌==◌ r flags)

  -- The flag of a rank in one block, by its median.
  abbrev flag_of : (ℕ → F → Option (Flag F)) → ℕ → Option F → List (Flag F)
  flag_of test r none = []
  flag_of test r (some m) = option_list (test r m)

  held-add_flag :
      (r k : ℕ) (o : Option (Flag F)) (flags : List (ℕ × List (Flag F)))
      → held r (add_flag k o flags) ≡ held r flags ++ (if k == r then option_list o else [])
  held-add_flag r k none flags = elim (Bool-cases (k == r)) [
    | inl q ↦ rw (q, append-nil)
    | inr q ↦ rw (q, append-nil)
  ]
  held-add_flag r k (some f) flags = elim (Bool-cases (k == r)) [
    | inl q ↦
        let same : k ≡ r = (==_iff k r).0 q in
        rw (lookup-insert ◌==◌ nat-IsEquality k r (held k flags ++ f ∷ []) flags, q, same)
    | inr q ↦
        rw (lookup-insert ◌==◌ nat-IsEquality k r (held k flags ++ f ∷ []) flags, q, append-nil)
  ]

  held-flag_all :
      (r : ℕ) (test : ℕ → F → Option (Flag F)) (med : List (ℕ × F))
      (flags : List (ℕ × List (Flag F)))
      → IsMap ◌==◌ med
      → held r (flag_all test med flags) ≡ held r flags ++ flag_of test r (lookup ◌==◌ r med)
  held-flag_all r test [] flags u = sym (append-nil (held r flags))
  held-flag_all r test ((k, m) ∷ med) flags u =
      let rest = held-flag_all r test med (add_flag k (test k m) flags) u.1 in
      let first = held-add_flag r k (test k m) flags in
      let both = rest ∙ ap (λ l. l ++ flag_of test r (lookup ◌==◌ r med)) first in
      elim (Bool-cases (k == r)) [
        | inl q ↦
            let same : k ≡ r = (==_iff k r).0 q in
            let gone : lookup ◌==◌ r med ≡ none =
              subst (λ i. lookup ◌==◌ i med ≡ none) same (lookup_fresh k med u.0) in
            both ∙ rw (q, gone, append-nil, same)
        | inr q ↦ both ∙ rw (q, append-nil)
      ]

  add_flag-IsMap :
      (k : ℕ) (o : Option (Flag F)) (flags : List (ℕ × List (Flag F)))
      → IsMap ◌==◌ flags
      → IsMap ◌==◌ (add_flag k o flags)
  add_flag-IsMap k none flags h = h
  add_flag-IsMap k (some f) flags h =
      insert-IsMap ◌==◌ nat-IsEquality k (held k flags ++ f ∷ []) flags h

  flag_all-IsMap :
      (test : ℕ → F → Option (Flag F)) (med : List (ℕ × F)) (flags : List (ℕ × List (Flag F)))
      → IsMap ◌==◌ flags
      → IsMap ◌==◌ (flag_all test med flags)
  flag_all-IsMap test [] flags h = h
  flag_all-IsMap test ((k, m) ∷ med) flags h =
      flag_all-IsMap test med (add_flag k (test k m) flags) (add_flag-IsMap k (test k m) flags h)

module _ {F : Type 0} ⦃d : Float64 F⦄ (threshold floor : F) (bs : ℕ) (gs : List (GroupInfo F))
    (r : ℕ) where
  -- The flag of the rank in block `b`: it has one if it has enough groups there, and passes the test.
  abbrev pub block_flag : ℕ → List (Flag F)
  block_flag b =
      let blk = take bs (drop (b * bs) gs) in
      let lags = per_rank [] blk in
      let med = medians bs lags in
      flag_of (flag_rank threshold floor b blk lags med) r (lookup ◌==◌ r med)

  -- The flags of the rank in the blocks from `b` on, `n` of them.
  unfoldable pub rank_flags : ℕ → ℕ → List (Flag F)
  rank_flags b zero = []
  rank_flags b (suc n) = block_flag b ++ rank_flags (b + 1) n

  pub held-flag_blocks :
      (b n : ℕ) (flags : List (ℕ × List (Flag F)))
      → held r (flag_blocks threshold floor bs gs b n flags) ≡ held r flags ++ rank_flags b n
  unfolding flag_blocks flag_block rank_flags
  held-flag_blocks b zero flags = sym (append-nil (held r flags))
  held-flag_blocks b (suc n) flags =
      let blk = take bs (drop (b * bs) gs) in
      let lags = per_rank [] blk in
      let med = medians bs lags in
      held-flag_blocks (b + 1) n (flag_block threshold floor bs gs b flags)
      ∙ ap (λ l. l ++ rank_flags (b + 1) n)
          (held-flag_all r (flag_rank threshold floor b blk lags med) med flags
            (medians-IsMap bs lags (per_rank-IsMap [] blk tt)))
      ∙ append_assoc (held r flags) (block_flag b) (rank_flags (b + 1) n)

module _ {F : Type 0} ⦃d : Float64 F⦄ where
  pub flag_blocks-IsMap :
      (threshold floor : F) (bs : ℕ) (gs : List (GroupInfo F)) (b n : ℕ)
      (flags : List (ℕ × List (Flag F)))
      → IsMap ◌==◌ flags
      → IsMap ◌==◌ (flag_blocks threshold floor bs gs b n flags)
  unfolding flag_blocks flag_block
  flag_blocks-IsMap threshold floor bs gs b zero flags h = h
  flag_blocks-IsMap threshold floor bs gs b (suc n) flags h =
      let blk = take bs (drop (b * bs) gs) in
      let lags = per_rank [] blk in
      let med = medians bs lags in
      flag_blocks-IsMap threshold floor bs gs (b + 1) n (flag_block threshold floor bs gs b flags)
        (flag_all-IsMap (flag_rank threshold floor b blk lags med) med flags h)
