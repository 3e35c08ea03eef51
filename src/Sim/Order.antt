-- ===== src/Sim/Order.antt =====
-- internal/sim/sim.go: the order of the events of a generated trace.
use distributed_gpu_training.Base.{
  ℕ, zero, suc, ◌+◌, ◌*◌, ◌/◌, ◌%◌, ◌^◌, ◌≤◌, ◌<◌, ◌≡◌, refl, ap, ◌∙◌, Bool, false, some, List, [],
  ◌∷◌, ◌++◌, All, All-append, All-map_imp, arith,
}
use distributed_gpu_training.Base.Int.{ℤ, pos, pos_part, ltb_ℤ, wrap_64_self}
use distributed_gpu_training.Base.Sort.{IsSorted}
use distributed_gpu_training.Float.{Float64}
use distributed_gpu_training.Event.{Event, rank, timestamp_ns}
use distributed_gpu_training.Sim.{
  Fault, Params, GroundTruth, Rng, SimState, time_of, step_ns, onset_div, with_defaults, rank_loop,
  step_loop, generate,
}
use distributed_gpu_training.Sim.Loops.{rank_loop-All, step_loop-All}
use distributed_gpu_training.Sim.Round.{IsRound, plain, sampled, emit_rank-IsRound}
use distributed_gpu_training.Sim.Truth.{generate-IsRun}

module _ {F : Type 0} where
  -- `e` is earlier than `f`.
  abbrev pub earlier : Event F → Event F → Bool
  earlier e f = ltb_ℤ (timestamp_ns e) (timestamp_ns f)

  -- An event of one of the ranks, with the time of a step from `first` to `last`, without `last`.
  abbrev pub IsPlaced : ℕ → ℕ → ℕ → Event F → Type 0
  IsPlaced top first last e =
      (rank e < top) × ((s : ℕ) × (first ≤ s) × (s < last) × (timestamp_ns e ≡ time_of s))

module _ {F : Type 0} ⦃d : Float64 F⦄ where
  IsRound-IsPlaced :
      (f : Fault) (hit : Bool) (s r top first last : ℕ) (es : List (Event F))
      → r < top
      → top ≤ 2 ^ 32
      → first ≤ s
      → s < last
      → IsRound f hit s r es
      → All (IsPlaced top first last) es
  IsRound-IsPlaced f hit s r top first last es a b c e (plain t) =
      let lt : r % 2 ^ 32 < top = omega arith in ((lt, (s, c, e, refl)), tt)
  IsRound-IsPlaced f hit s r top first last es a b c e (sampled t m) =
      let lt : r % 2 ^ 32 < top = omega arith in
      let here : (r % 2 ^ 32 < top)
          × ((k : ℕ) × (first ≤ k) × (k < last) × (time_of s ≡ time_of k)) =
        (lt, (s, c, e, refl)) in
      (here, ((rw m.0 lt, (s, c, e, ap (λ x. x.timestamp) m.0)), (here, (here, tt))))

later :
    (s k last : ℕ)
    → s ≤ k
    → k < last
    → last * step_ns ≤ 2 ^ 63
    → ltb_ℤ (time_of k) (time_of s) ≡ false
later s k last le lt small =
    rw
      (
        wrap_64_self (pos (s * step_ns)) (ground arith),
        wrap_64_self (pos (k * step_ns)) (ground arith),
      )
      (ground arith)

append-IsSorted :
    {A : Type 0} (less : A → A → Bool) (xs ys : List A)
    → IsSorted less xs
    → IsSorted less ys
    → All (λ x. All (λ y. less y x ≡ false) ys) xs
    → IsSorted less (xs ++ ys)
append-IsSorted less [] ys hx hy h = hy
append-IsSorted less (x ∷ xs) ys hx hy h =
    (All-append _ xs ys hx.0 h.0, append-IsSorted less xs ys hx.1 hy h.1)

module _ {F : Type 0} (last : ℕ) where
  -- Events of one step are in order, and before those of later steps.
  abbrev AtStep : ℕ → Event F → Type 0
  AtStep s e = (s < last) × (timestamp_ns e ≡ time_of s)

  abbrev FromStep : ℕ → Event F → Type 0
  FromStep s e = (k : ℕ) × (s ≤ k) × (k < last) × (timestamp_ns e ≡ time_of k)

module _ {F : Type 0} (last : ℕ) (small : last * step_ns ≤ 2 ^ 63) where
  before_All :
      (s : ℕ) (e : Event F) (es : List (Event F))
      → AtStep last s e
      → All (FromStep last s) es
      → All (λ y. earlier y e ≡ false) es
  before_All s e es a h =
      All-map_imp (FromStep last s) (λ y. earlier y e ≡ false) es
        (λ y b. let (k, le, lt, q) = b in rw (q, a.1) (later s k last le lt small)) h

  step-IsSorted : (s : ℕ) (es : List (Event F)) → All (AtStep last s) es → IsSorted earlier es
  step-IsSorted s [] h = tt
  step-IsSorted s (e ∷ es) h = (
    before_All s e es h.0
        (All-map_imp (AtStep last s) (FromStep last s) es (λ y b. (s, omega arith, b.0, b.1)) h.1),
    step-IsSorted s es h.1,
  )

module _ {F S : Type 0} ⦃d : Float64 F⦄ (g : Rng S F) (p : Params F) (straggler : ℤ)
    (onset last : ℕ) (small : last * step_ns ≤ 2 ^ 63) (narrow : pos_part p.ranks ≤ 2 ^ 32) where
  rank_loop-AtStep :
      (s : ℕ) (st : SimState S)
      → s < last
      → All (AtStep last s) (rank_loop g p straggler onset s 0 (pos_part p.ranks) st).0
  rank_loop-AtStep s st lt =
      let top = pos_part p.ranks in
      rank_loop-All g p straggler onset (AtStep last s) s top 0 top st
        (λ r st' c.
          All-map_imp (IsPlaced top s (suc s)) (AtStep last s) _
            (λ e b.
              let (k, le, less, q) = b.1 in
              let same : k ≡ s = omega arith in (lt, q ∙ ap time_of same))
            (IsRound-IsPlaced p.fault _ s r top s (suc s) _ c narrow (omega arith) (omega arith)
              (emit_rank-IsRound g p straggler onset s r st')))
        (omega arith)

  step_loop-FromStep :
      (s n : ℕ) (st : SimState S)
      → s + n ≤ last
      → All (FromStep last s) (step_loop g p straggler onset s n st).0
  step_loop-FromStep s n st le =
      step_loop-All g p straggler onset (FromStep last s) s last n st
        (λ k r st' a b c.
          All-map_imp (IsPlaced (pos_part p.ranks) s last) (FromStep last s) _ (λ e x. x.1)
            (IsRound-IsPlaced p.fault _ k r (pos_part p.ranks) s last _ c narrow a b
              (emit_rank-IsRound g p straggler onset k r st')))
        le

  step_loop-IsSorted :
      (s n : ℕ) (st : SimState S)
      → s + n ≤ last
      → IsSorted earlier (step_loop g p straggler onset s n st).0
  unfolding step_loop
  step_loop-IsSorted s zero st le = tt
  step_loop-IsSorted s (suc n) st le =
      let round = rank_loop g p straggler onset s 0 (pos_part p.ranks) st in
      let rest = step_loop g p straggler onset (suc s) n round.1 in
      let here = rank_loop-AtStep s st (omega arith) in
      append-IsSorted earlier round.0 rest.0 (step-IsSorted last small s round.0 here)
        (step_loop-IsSorted (suc s) n round.1 (omega arith))
        (All-map_imp (AtStep last s) (λ x. All (λ y. earlier y x ≡ false) rest.0) round.0
          (λ x a. before_All last small s x rest.0 a (
            All-map_imp (FromStep last (suc s)) (FromStep last s) rest.0
              (λ y b. let (k, from, lt, q) = b in (k, omega arith, lt, q))
              (step_loop-FromStep (suc s) n round.1 (omega arith))))
          here)

module _ {F S : Type 0} ⦃d : Float64 F⦄ (g : Rng S F) where
  -- The events of a generated trace are in time order, each of one of the ranks and at the time of
  -- one of the steps, if ranks are 32 bits wide and the times of all steps fit 63 bits.
  pub generate-IsSorted :
      (params : Params F) (es : List (Event F)) (t : GroundTruth)
      → generate g params ≡ some (es, t)
      → pos_part (with_defaults params).steps * step_ns ≤ 2 ^ 63
      → pos_part (with_defaults params).ranks ≤ 2 ^ 32
      → IsSorted earlier es
        × All
            (IsPlaced
              (pos_part (with_defaults params).ranks)
              0
              (pos_part (with_defaults params).steps))
            es
  generate-IsSorted params es t h small narrow =
      let p = with_defaults params in
      let n = pos_part p.steps in
      let x = generate-IsRun g params es t h in
      let onset = n / onset_div in
      rw x.emitted (
        step_loop-IsSorted g p t.straggler onset n small narrow 0 n x.start (omega arith),
        step_loop-All g p t.straggler onset (IsPlaced (pos_part p.ranks) 0 n) 0 n n x.start
            (λ k r st a b c.
              IsRound-IsPlaced p.fault _ k r (pos_part p.ranks) 0 n _ c narrow a b
                (emit_rank-IsRound g p t.straggler onset k r st))
            (omega arith),
      )
