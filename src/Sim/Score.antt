-- ===== src/Sim/Score.antt =====
-- internal/sim/score.go: a generated run, analysed and scored against its ground truth.
pub mod Judged
pub mod Totals
use mathlib.Core.Option
use distributed_gpu_training.Base.{
  ℕ, suc, ◌+◌, Bool, true, false, not, ◌&&◌, Option, none, some, List, [], ◌∷◌, map, ◌==◌, ltb,
  if◌then◌else◌, length,
}
use distributed_gpu_training.Base.Int.{ℤ, pos, eqb_ℤ, ltb_ℤ}
use distributed_gpu_training.Base.Assoc.{lookup, insert}
use distributed_gpu_training.Float.{Float64, zero_f}
use distributed_gpu_training.Buffer.{◌>>=◌}
use distributed_gpu_training.Attribution.Rules.{
  CauseType, thermal_throttle, power_throttle, ecc_errors, pcie_bandwidth_drop, nvlink_degraded,
  memory_pressure, clock_reduced, gpu_contention, host_stall, unknown, CausalLink,
}
use distributed_gpu_training.Attribution.Engine.{Attribution}
use distributed_gpu_training.Attribution.Chain.{number}
use distributed_gpu_training.Coordinator.{Options, analyze}
use distributed_gpu_training.Sim.{Params, GroundTruth, Rng, generate}

pub record Outcome : Type 0 where
  pub detected : Bool
  pub false_stragglers : ℕ
  pub attr_correct : Bool
  pub exact_top : Bool

-- `==` on causes, which are distinct strings.
abbrev pub cause_eq : CauseType → CauseType → Bool
cause_eq a b = number a == number b

-- `m[c]` on a `map[CauseType]bool`.
abbrev pub holds : List (CauseType × Bool) → CauseType → Bool
holds m c = elim (lookup cause_eq c m) [ none ↦ false | some b ↦ b ]

-- `want[c] = true`, over the true causes.
abbrev pub wanted : List (CauseType × Bool) → List CauseType → List (CauseType × Bool)
wanted m [] = m
wanted m (c ∷ cs) = wanted (insert cause_eq c true m) cs

-- `o.AttrCorrect = o.AttrCorrect && got[c]`, over the keys of `want`.
abbrev pub all_got : List (CauseType × Bool) → Bool → List (CauseType × Bool) → Bool
all_got got b [] = b
all_got got b ((c, v) ∷ want) = all_got got (b && holds got c) want

abbrev pub no_outcome : Outcome
no_outcome = record {
  detected = false;
  false_stragglers = 0;
  attr_correct = false;
  exact_top = false;
}

module _ {F : Type 0} where
  -- `got[l.Cause] = true`, over the chain from its index `i` on.
  abbrev pub got_from :
      ℕ → ℕ → List (CauseType × Bool) → List (CausalLink F) → List (CauseType × Bool)
  got_from i limit m [] = m
  got_from i limit m (l ∷ ls) =
      got_from (suc i) limit (if ltb i limit then insert cause_eq l.cause true m else m) ls

  -- `CausalChain[0]` of an empty chain panics (`none`).
  unfoldable pub score_attribution : GroundTruth → Outcome → Attribution F → Option Outcome
  score_attribution truth o a =
      let want = wanted [] truth.causes in
      let got = got_from 0 (length truth.causes) [] a.causal_chain in
      if not (eqb_ℤ (pos a.anomaly.straggler_rank) truth.straggler)
      then some (record o { false_stragglers = o.false_stragglers + 1 })
      else elim a.causal_chain [
        | [] ↦ none
        | l ∷ ls ↦ some (record o {
          detected = true;
          attr_correct = all_got got (length got == length want) want;
          exact_top = holds want l.cause;
        })
      ]

  -- The loop over the attributions.
  unfoldable pub score_all : GroundTruth → Outcome → List (Attribution F) → Option Outcome
  unfolding score_attribution
  score_all truth o [] = some o
  score_all truth o (a ∷ attributions) =
      score_attribution truth o a >>= λ o'. score_all truth o' attributions

  unfoldable pub score_report : GroundTruth → List (Attribution F) → Option Outcome
  unfolding score_all
  score_report truth attributions =
      if ltb_ℤ truth.straggler (pos 0)
      then some (record no_outcome {
        detected = length attributions == 0;
        false_stragglers = length attributions;
      })
      else score_all truth no_outcome attributions

module _ {F : Type 0} ⦃d : Float64 F⦄ where
  -- `coordinator.Options{}`
  abbrev pub zero_options : Options F
  zero_options = record { threshold_sigma = zero_f; attribution_window = pos 0 }

module _ {F S : Type 0} ⦃d : Float64 F⦄ where
  unfoldable pub score : Rng S F → Params F → Option Outcome
  unfolding generate analyze score_report
  score g p = generate g p >>= λ run. score_report run.1 (analyze run.0 zero_options).attributions
