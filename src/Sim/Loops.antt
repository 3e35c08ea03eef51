-- ===== src/Sim/Loops.antt =====
-- internal/sim/sim.go: the two loops of `Generate`, for any property of what one round emits.
use native.Mathlib.Nat.{mul-add, mul-zero, zero-mul, suc-mul}
use distributed_gpu_training.Base.{
  ℕ, zero, suc, ◌+◌, ◌*◌, ◌≤◌, ◌<◌, ◌≡◌, refl, sym, ap, ap₂, ◌∙◌, true, false, inl, inr, Option,
  List, [], ◌++◌, ◌==◌, ltb, leb, ◌&&◌, if◌then◌else◌, Bool-cases, length, length-append, All,
  All-append, append-nil, arith,
}
use distributed_gpu_training.Base.Pick.{pick, pick-append}
use distributed_gpu_training.Base.Int.{ℤ, pos_part}
use distributed_gpu_training.Float.{Float64}
use distributed_gpu_training.Event.{Event}
use distributed_gpu_training.Sim.{Params, Rng, SimState, emit_rank, rank_loop, step_loop}

-- The steps from `s` on, `n` of them, each with what it yields.
abbrev pub steps_from : {B : Type 0} → (ℕ → List B) → ℕ → ℕ → List B
steps_from out s zero = []
steps_from out s (suc n) = out s ++ steps_from out (suc s) n

-- The sum of the weights of the steps from `s` on, `n` of them.
abbrev pub total : (ℕ → ℕ) → ℕ → ℕ → ℕ
total w s zero = 0
total w s (suc n) = w s + total w (suc s) n

either :
    {B : Type 0} (r own n : ℕ) (out : List B)
    → (if r == own then out else []) ++ (if leb (suc r) own && ltb own (suc r + n) then out else [])
      ≡ (if leb r own && ltb own (r + suc n) then out else [])
either r own n out = elim (Bool-cases (r == own)) [
  | inl e ↦
      let no : (leb (suc r) own && ltb own (suc r + n)) ≡ false = ground arith in
      let yes : (leb r own && ltb own (r + suc n)) ≡ true = ground arith in
      rw (e, no, yes) (append-nil out)
  | inr e ↦
      let same : (leb (suc r) own && ltb own (suc r + n)) ≡ (leb r own && ltb own (r + suc n)) =
        ground arith in
      rw (e, same)
]

module _ {F S : Type 0} ⦃d : Float64 F⦄ (g : Rng S F) (p : Params F) (straggler : ℤ)
    (onset : ℕ) where
  -- What holds of the events of every round holds of all.
  pub rank_loop-All :
      (P : Event F → Type 0) (s top r n : ℕ) (st : SimState S)
      → ((r : ℕ) (st : SimState S) → r < top → All P (emit_rank g p straggler onset s r st).0)
      → r + n ≤ top
      → All P (rank_loop g p straggler onset s r n st).0
  unfolding rank_loop
  rank_loop-All P s top r zero st h le = tt
  rank_loop-All P s top r (suc n) st h le =
      All-append P (emit_rank g p straggler onset s r st).0 _ (h r st (omega arith))
        (rank_loop-All P s top (suc r) n (emit_rank g p straggler onset s r st).1 h (omega arith))

  pub step_loop-All :
      (P : Event F → Type 0) (s last n : ℕ) (st : SimState S)
      → ((k r : ℕ) (st : SimState S)
          → s ≤ k
          → k < last
          → r < pos_part p.ranks
          → All P (emit_rank g p straggler onset k r st).0)
      → s + n ≤ last
      → All P (step_loop g p straggler onset s n st).0
  unfolding step_loop
  step_loop-All P s last zero st h le = tt
  step_loop-All P s last (suc n) st h le =
      let top = pos_part p.ranks in
      let round = rank_loop g p straggler onset s 0 top st in
      All-append P round.0 _
        (rank_loop-All P s top 0 top st (λ r st' lt. h s r st' (omega arith) (omega arith) lt)
          (omega arith))
        (step_loop-All P (suc s) last n round.1 (λ k r st' a b c. h k r st' (omega arith) b c)
          (omega arith))

  -- A test that picks events of one rank only.
  rank_loop-pick :
      {B : Type 0} (f : Event F → Option B) (out : List B) (s own r n : ℕ) (st : SimState S)
      → ((r : ℕ) (st : SimState S)
          → r < pos_part p.ranks
          → pick f (emit_rank g p straggler onset s r st).0 ≡ (if r == own then out else []))
      → r + n ≤ pos_part p.ranks
      → pick f (rank_loop g p straggler onset s r n st).0
        ≡ (if leb r own && ltb own (r + n) then out else [])
  unfolding rank_loop
  rank_loop-pick f out s own r zero st h le =
      let no : (leb r own && ltb own (r + 0)) ≡ false = ground arith in rw no
  rank_loop-pick f out s own r (suc n) st h le =
      pick-append f (emit_rank g p straggler onset s r st).0 _
      ∙ ap₂ ◌++◌ (h r st (omega arith)) (
          rank_loop-pick f out s own (suc r) n (emit_rank g p straggler onset s r st).1 h
            (omega arith))
      ∙ either r own n out

  pub step_loop-pick :
      {B : Type 0} (f : Event F → Option B) (out : ℕ → List B) (own s last n : ℕ) (st : SimState S)
      → ((k r : ℕ) (st : SimState S)
          → k < last
          → r < pos_part p.ranks
          → pick f (emit_rank g p straggler onset k r st).0 ≡ (if r == own then out k else []))
      → own < pos_part p.ranks
      → s + n ≤ last
      → pick f (step_loop g p straggler onset s n st).0 ≡ steps_from out s n
  unfolding step_loop
  step_loop-pick f out own s last zero st h lt le = refl
  step_loop-pick f out own s last (suc n) st h lt le =
      let top = pos_part p.ranks in
      let round = rank_loop g p straggler onset s 0 top st in
      let here : (leb 0 own && ltb own (0 + top)) ≡ true = ground arith in
      pick-append f round.0 _
      ∙ ap₂ ◌++◌
          (rank_loop-pick f (out s) s own 0 top st (λ r st' c. h s r st' (omega arith) c)
              (omega arith)
            ∙ ap (λ b. if b then out s else []) here)
          (step_loop-pick f out own (suc s) last n round.1 h lt (omega arith))

  module _ (w : ℕ → ℕ)
      (h : (s r : ℕ) (st : SimState S)
        → length (emit_rank g p straggler onset s r st).0 ≡ w s) where
    length-rank_loop :
        (s r n : ℕ) (st : SimState S) → length (rank_loop g p straggler onset s r n st).0 ≡ n * w s
    unfolding rank_loop
    length-rank_loop s r zero st = sym (zero-mul (w s))
    length-rank_loop s r (suc n) st =
        length-append (emit_rank g p straggler onset s r st).0 _
        ∙ ap₂ ◌+◌ (h s r st) (length-rank_loop s (suc r) n (emit_rank g p straggler onset s r st).1)
        ∙ sym (suc-mul n (w s) ∙ omega arith)

    pub length-step_loop :
        (s n : ℕ) (st : SimState S)
        → length (step_loop g p straggler onset s n st).0 ≡ pos_part p.ranks * total w s n
    unfolding step_loop
    length-step_loop s zero st = sym (mul-zero (pos_part p.ranks))
    length-step_loop s (suc n) st =
        let top = pos_part p.ranks in
        let round = rank_loop g p straggler onset s 0 top st in
        length-append round.0 _
        ∙ ap₂ ◌+◌ (length-rank_loop s 0 top st) (length-step_loop (suc s) n round.1)
        ∙ sym (mul-add top (w s) (total w (suc s) n))
