-- ===== src/Tests/Sims.antt =====
-- The theorems on generated traces and their scores, at concrete inputs.
use distributed_gpu_training.Base.{
  ℕ, suc, ◌-◌, ◌≡◌, refl, ◌⊎◌, inr, none, some, List, min, All, false, arith, if◌then◌else◌,
}
use distributed_gpu_training.Base.Int.{pos, pos_part, leb_ℤ, ◌<ℤ◌}
use distributed_gpu_training.Base.Sort.{IsSorted}
use distributed_gpu_training.Float.Fixed.{Fixed, fixed_float}
use distributed_gpu_training.Event.{Event}
use distributed_gpu_training.Coordinator.{analyze}
use distributed_gpu_training.Sim.{
  Params, GroundTruth, Rng, ecc, is_clean, with_defaults, causes_for, run, generate,
}
use distributed_gpu_training.Base.Pick.{pick}
use distributed_gpu_training.Sim.Truth.{IsRng, IsTruth, generate-IsTruth}
use distributed_gpu_training.Sim.Shape.{seq_of_rank, sampled_at, upto, every_fifth, generate-ranks}
use distributed_gpu_training.Sim.Order.{earlier, IsPlaced, generate-IsSorted}
use distributed_gpu_training.Sim.Score.{Outcome, zero_options, score}
use distributed_gpu_training.Sim.Score.Totals.{IsJudged, score-IsJudged, score_total}
use distributed_gpu_training.Tests.Data.{whole_f}

-- A generator that counts its calls.
abbrev pub counting : Rng ℕ Fixed
counting = record {
  seeded = λ seed. pos_part seed;
  intn = λ n s. if leb_ℤ n (pos 0) then none else some (pos (min s (pos_part n - 1)), suc s);
  float64 = λ s. (some (pos 5000), suc s);
  norm_float64 = λ s. (some (pos 0), suc s);
}

pub counting-IsRng : IsRng counting
counting-IsRng = record {
  panics = λ n s h. ground arith;
  draws = λ n s h. (pos (min s (pos_part n - 1)), suc s, ground arith, omega arith, ground arith);
}

-- Two ranks and twelve steps, with errors in the memory of rank 1.
abbrev pub params : Params Fixed
params = record {
  fault = ecc;
  seed = pos 1;
  ranks = pos 2;
  steps = pos 12;
  jitter = whole_f 0;
  severity = whole_f 0;
}

abbrev truth : GroundTruth
truth = record { fault = ecc; straggler = pos 1; causes = causes_for ecc }

abbrev events : List (Event Fixed)
events = (run counting (with_defaults params) truth 2).0

generated : generate counting params ≡ some (events, truth)
unfolding generate
generated = refl

generate-IsTruth_example :
    ((es : List (Event Fixed)) × (t : GroundTruth) × (generate counting params ≡ some (es, t))
      × IsTruth (with_defaults params) t)
    ⊎ ((is_clean (with_defaults params).fault ≡ false)
        × ((with_defaults params).ranks <ℤ pos 0)
        × (generate counting params ≡ none))
generate-IsTruth_example = generate-IsTruth counting counting-IsRng params

generate-ranks_example :
    (pick (seq_of_rank 1) events ≡ upto 12) × (pick (sampled_at 1) events ≡ every_fifth 12)
generate-ranks_example =
    generate-ranks counting params events truth 1 generated (omega arith) (omega arith)

generate-IsSorted_example : IsSorted earlier events × All (IsPlaced 2 0 12) events
generate-IsSorted_example =
    generate-IsSorted counting params events truth generated (omega arith) (omega arith)

score-IsJudged_example :
    (o : Outcome) × (score counting params ≡ some o)
    × IsJudged truth (analyze events zero_options).attributions o
score-IsJudged_example = score-IsJudged counting params events truth generated

score_total_example : (o : Outcome) × (score counting params ≡ some o)
score_total_example = score_total counting counting-IsRng params (inr (omega arith))
