-- ===== src/Command/Screen.antt =====
-- cmd/gfr-sim/main.go: `main`, with all that it prints. `fixed n` prints a float with `n` decimals.
pub mod Lines
use distributed_gpu_training.Base.{
  ℕ, Bool, Bytes, codes, Option, some, List, [], ◌∷◌, ◌++◌, ◌==◌, length, if◌then◌else◌,
}
use distributed_gpu_training.Base.Int.{ℤ, pos_part}
use distributed_gpu_training.Float.{Float64}
use distributed_gpu_training.Buffer.{◌>>=◌}
use distributed_gpu_training.Trace.File.{Marshal}
use distributed_gpu_training.Sim.{Rng}
use distributed_gpu_training.Command.Scorecard.{
  Target, all_faults, table, sensitivity, ratio_text, write_traces,
}

-- How `main` ends: with the lines that it has printed, or with files and an exit code.
pub data Ending : Type 0 where
  printed : List Bytes → Ending
  wrote : List (Bytes × Bytes) → ℕ → Ending

module _ {F S : Type 0} ⦃d : Float64 F⦄ (fixed : ℕ → F → Bytes) (g : Rng S F) where
  abbrev pub percent : F → Bytes
  percent x = fixed 0 (d.mul x (d.lit 100 0))

  abbrev pub table_heading : F → List Bytes
  table_heading jit =
      []
      ∷ (codes "### op-duration jitter " ++ (percent jit ++ codes "%, straggler lag 30% of op"))
      ∷ []
      ∷ codes
          "| fault | detected | attributed (all causes) | top cause correct | false stragglers |"
      ∷ codes "|---|---|---|---|---|"
      ∷ []

  -- The loop over the jitters.
  unfoldable pub tables : ℤ → List F → Option (List Bytes)
  unfolding table
  tables seeds [] = some []
  tables seeds (jit ∷ jits) = table g jit seeds all_faults >>= λ rows.
      tables seeds jits >>= λ rest. some (table_heading jit ++ (rows ++ rest))

  abbrev pub sensitivity_heading : List Bytes
  sensitivity_heading =
      []
      ∷ codes "### Sensitivity: thermal fault, jitter 3%, varying straggler lag"
      ∷ []
      ∷ codes "| lag (% of op) | detected |"
      ∷ codes "|---|---|"
      ∷ []

  -- The loop over the severities.
  unfoldable pub sensitivities : ℤ → List F → Option (List Bytes)
  unfolding sensitivity
  sensitivities seeds [] = some []
  sensitivities seeds (sev ∷ sevs) = sensitivity g sev 0 (pos_part seeds) 0 >>= λ det.
      sensitivities seeds sevs >>= λ rest. some (
        (codes "| " ++ (percent sev ++ (codes "% | " ++ (ratio_text det seeds ++ codes " |"))))
        ∷ rest)

  unfoldable pub scorecard : ℤ → Option (List Bytes)
  unfolding tables sensitivities
  scorecard seeds = tables seeds (d.lit 3 2 ∷ d.lit 10 2 ∷ []) >>= λ first.
      sensitivities seeds (d.lit 2 2 ∷ d.lit 5 2 ∷ d.lit 10 2 ∷ d.lit 20 2 ∷ d.lit 30 2 ∷ [])
      >>= λ second. some (
          codes "## Scorecard (8 ranks, 600 steps, fault at midpoint)"
          ∷ (first ++ (sensitivity_heading ++ second)))

  -- `main` by its two flags; `none` is a panic.
  unfoldable pub sim_main : Marshal F → (Bytes → Target) → Bool → ℤ → Bytes → Option Ending
  unfolding scorecard write_traces
  sim_main w target made seeds write_dir =
      if length write_dir == 0
      then (scorecard seeds >>= λ ls. some (printed ls))
      else (write_traces g w target made write_dir >>= λ r. some (wrote r.0 (if r.1 then 0 else 1)))
