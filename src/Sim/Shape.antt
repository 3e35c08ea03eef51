-- ===== src/Sim/Shape.antt =====
-- internal/sim/sim.go: which events `Generate` emits, for which ranks and in which order.
use distributed_gpu_training.Base.{
  ℕ, zero, suc, ◌+◌, ◌*◌, ◌-◌, ◌/◌, ◌%◌, ◌^◌, ◌≤◌, ◌<◌, ◌≡◌, ap, ◌∙◌, Bool, inl, inr, Option, none,
  some, List, [], ◌∷◌, ◌==◌, if◌then◌else◌, Bool-cases, length, arith,
}
use distributed_gpu_training.Base.Int.{ℤ, pos_part}
use distributed_gpu_training.Float.{Float64}
use distributed_gpu_training.Event.{Event, gpu_metric, nccl}
use distributed_gpu_training.Sim.{
  Fault, Params, GroundTruth, Rng, time_of, onset_div, with_defaults, generate,
}
use distributed_gpu_training.Base.Pick.{pick}
use distributed_gpu_training.Sim.Loops.{steps_from, step_loop-pick, total, length-step_loop}
use distributed_gpu_training.Sim.Round.{IsRound, plain, sampled, emit_rank-IsRound}
use distributed_gpu_training.Sim.Truth.{generate-IsRun}

-- The sequence number of a collective of the rank, and the time of a hardware sample of the rank.
abbrev pub seq_of_rank : {F : Type 0} → ℕ → Event F → Option ℕ
seq_of_rank r (nccl n) = if n.base.rank_id == r then some n.seq_id else none
seq_of_rank r _ = none

abbrev pub sampled_at : {F : Type 0} → ℕ → Event F → Option ℤ
sampled_at r (gpu_metric m) = if m.base.rank_id == r then some m.base.timestamp else none
sampled_at r _ = none

abbrev pub upto : ℕ → List ℕ
upto n = steps_from (λ s. s ∷ []) 0 n

abbrev pub every_fifth : ℕ → List ℤ
every_fifth n = steps_from (λ s. if (s % 5) == 0 then time_of s ∷ [] else []) 0 n

-- How many events a round emits.
abbrev weight : ℕ → ℕ
weight s = if (s % 5) == 0 then 4 else 1

total-weight : (s n : ℕ) → total weight s n ≡ n + 3 * ((s + n + 4) / 5 - (s + 4) / 5)
total-weight s zero = omega arith
total-weight s (suc n) = ground (arith, total-weight (suc s) n)

same_rank : (r : ℕ) → r < 2 ^ 32 → r % 2 ^ 32 ≡ r
same_rank r small = omega arith

module _ {F : Type 0} ⦃d : Float64 F⦄ (f : Fault) (hit : Bool) (s r : ℕ) (small : r < 2 ^ 32) where
  -- What a round yields of the rank `own`.
  IsRound-seqs :
      (own : ℕ) (es : List (Event F))
      → IsRound f hit s r es
      → pick (seq_of_rank own) es ≡ (if r == own then s ∷ [] else [])
  IsRound-seqs own es (plain t) = elim (Bool-cases (r == own)) [
    | inl q ↦ rw (same_rank r small, q, pick)
    | inr q ↦ rw (same_rank r small, q, pick)
  ]
  IsRound-seqs own es (sampled t m) = elim (Bool-cases (r == own)) [
    | inl q ↦ rw (same_rank r small, q, pick)
    | inr q ↦ rw (same_rank r small, q, pick)
  ]

  IsRound-times :
      (own : ℕ) (es : List (Event F))
      → IsRound f hit s r es
      → pick (sampled_at own) es
        ≡ (if r == own then (if (s % 5) == 0 then time_of s ∷ [] else []) else [])
  IsRound-times own es (plain t) = elim (Bool-cases (r == own)) [ inl q ↦ rw (q, t) | inr q ↦ rw q ]
  IsRound-times own es (sampled t m) = elim (Bool-cases (r == own)) [
    | inl q ↦ rw (m.0, same_rank r small, q, t, pick)
    | inr q ↦ rw (m.0, same_rank r small, q, pick)
  ]

module _ {F S : Type 0} ⦃d : Float64 F⦄ (g : Rng S F) where
  IsRound-length :
      (f : Fault) (hit : Bool) (s r : ℕ) (es : List (Event F))
      → IsRound f hit s r es
      → length es ≡ weight s
  IsRound-length f hit s r es (plain t) = rw t
  IsRound-length f hit s r es (sampled t m) = rw t

  -- A generated trace with `n` steps has, of each of its ranks, the collectives 0 to n - 1, each once
  -- and in this order, and a hardware sample at the times of the steps 0, 5, 10 and so on; ranks are
  -- 32 bits wide.
  pub generate-ranks :
      (params : Params F) (es : List (Event F)) (t : GroundTruth) (own : ℕ)
      → generate g params ≡ some (es, t)
      → own < pos_part (with_defaults params).ranks
      → pos_part (with_defaults params).ranks ≤ 2 ^ 32
      → (pick (seq_of_rank own) es ≡ upto (pos_part (with_defaults params).steps))
        × (pick (sampled_at own) es ≡ every_fifth (pos_part (with_defaults params).steps))
  generate-ranks params es t own h lt small =
      let p = with_defaults params in
      let n = pos_part p.steps in
      let x = generate-IsRun g params es t h in
      let round = emit_rank-IsRound g p t.straggler (n / onset_div) in
      rw x.emitted (
        step_loop-pick g p t.straggler (n / onset_div) (seq_of_rank own) (λ s. s ∷ []) own 0 n n
            x.start (λ s r st a b. IsRound-seqs p.fault _ s r (omega arith) own _ (round s r st)) lt
            (omega arith),
        step_loop-pick g p t.straggler (n / onset_div) (sampled_at own)
            (λ s. if (s % 5) == 0 then time_of s ∷ [] else []) own 0 n n x.start
            (λ s r st a b. IsRound-times p.fault _ s r (omega arith) own _ (round s r st)) lt
            (omega arith),
      )

  -- A generated trace has one event for each rank and step, and three more for each rank and every
  -- fifth step.
  length-generate :
      (params : Params F) (es : List (Event F)) (t : GroundTruth)
      → generate g params ≡ some (es, t)
      → let p = with_defaults params in
        length es ≡ pos_part p.ranks * (pos_part p.steps + 3 * ((pos_part p.steps + 4) / 5))
  length-generate params es t h =
      let p = with_defaults params in
      let n = pos_part p.steps in
      let x = generate-IsRun g params es t h in
      let round = emit_rank-IsRound g p t.straggler (n / onset_div) in
      ap length x.emitted
      ∙ length-step_loop g p t.straggler (n / onset_div) weight
          (λ s r st. IsRound-length p.fault _ s r _ (round s r st)) 0 n x.start
      ∙ ap (λ k. pos_part p.ranks * k) (total-weight 0 n ∙ omega arith)
