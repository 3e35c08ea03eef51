-- ===== src/Command/Scorecard.antt =====
-- cmd/gfr-sim/main.go: the table of scores, and the traces that it writes.
use distributed_gpu_training.Base.{
  ℕ, zero, suc, ◌+◌, Bool, true, false, not, ◌||◌, Bytes, codes, Option, some, List, [], ◌∷◌, ◌++◌,
  if◌then◌else◌,
}
use distributed_gpu_training.Base.Int.{ℤ, pos, pos_part}
use distributed_gpu_training.Base.Decimal.{decimal, decimal_int}
use distributed_gpu_training.Float.{Float64, zero_f}
use distributed_gpu_training.Buffer.{◌>>=◌}
use distributed_gpu_training.Trace.File.{Marshal, write}
use distributed_gpu_training.Sim.{
  Fault, clean, thermal, power, ecc, pcie_fault, nvlink_fault, stalled, contention,
  contention_hidden, compound, other, is_clean, Params, Rng, generate,
}
use distributed_gpu_training.Sim.Score.{Outcome, score}

abbrev pub all_faults : List Fault
all_faults =
    clean ∷ thermal ∷ power ∷ ecc ∷ pcie_fault ∷ nvlink_fault ∷ stalled ∷ contention
    ∷ contention_hidden ∷ compound ∷ []

-- The string of a fault.
unfoldable pub fault_text : Fault → Bytes
fault_text clean = codes "clean"
fault_text thermal = codes "thermal"
fault_text power = codes "power"
fault_text ecc = codes "ecc"
fault_text pcie_fault = codes "pcie"
fault_text nvlink_fault = codes "nvlink"
fault_text stalled = codes "host_stall"
fault_text contention = codes "contention"
fault_text contention_hidden = codes "contention_hidden"
fault_text compound = codes "thermal+ecc"
fault_text (other name) = name

-- `det`, `attr`, `top` and `fp`.
pub record Row : Type 0 where
  pub detected : ℕ
  pub attributed : ℕ
  pub top : ℕ
  pub false_positives : ℕ

abbrev pub empty_row : Row
empty_row = record { detected = 0; attributed = 0; top = 0; false_positives = 0 }

abbrev pub plus_if : Bool → ℕ → ℕ
plus_if b n = if b then n + 1 else n

abbrev pub add_outcome : Row → Outcome → Row
add_outcome row o = record {
  detected = plus_if o.detected row.detected;
  attributed = plus_if o.attr_correct row.attributed;
  top = plus_if o.exact_top row.top;
  false_positives = row.false_positives + o.false_stragglers;
}

-- `%d/%d`
abbrev pub ratio_text : ℕ → ℤ → Bytes
ratio_text k n = decimal k ++ codes "/" ++ decimal_int n

-- The line of a row.
unfoldable pub row_text : Fault → ℤ → Row → Bytes
unfolding fault_text
row_text f n row =
    let attributed = if is_clean f then codes "n/a" else ratio_text row.attributed n in
    let top = if is_clean f then codes "n/a" else ratio_text row.top n in
    codes "| "
    ++ fault_text f
    ++ codes " | "
    ++ ratio_text row.detected n
    ++ codes " | "
    ++ attributed
    ++ codes " | "
    ++ top
    ++ codes " | "
    ++ decimal row.false_positives
    ++ codes " |"

-- What `os.Create` and `Close` return for a file, and how its writes fail.
pub record Target : Type 0 where
  pub opens : Bool
  pub writes : Option (ℕ × ℕ)
  pub closes : Bool

module _ {F S : Type 0} ⦃d : Float64 F⦄ (g : Rng S F) where
  -- The runs with the seeds from `s` on, `n` of them.
  unfoldable pub row_loop : Params F → ℕ → ℕ → Row → Option Row
  row_loop p s zero row = some row
  row_loop p s (suc n) row =
      score g (record p { seed = pos s }) >>= λ o. row_loop p (suc s) n (add_outcome row o)

  unfoldable pub row_of : Fault → Params F → ℤ → Option Row
  unfolding row_loop
  row_of f p n = row_loop (record p { fault = f }) 0 (pos_part n) empty_row

  -- The parameters that `main` gives, with the zero values of the others.
  abbrev pub cell : Fault → F → F → ℤ → ℤ → Params F
  cell f jitter severity seed steps = record {
    fault = f;
    seed = seed;
    ranks = pos 0;
    steps = steps;
    jitter = jitter;
    severity = severity;
  }

  -- The table for one jitter.
  unfoldable pub table : F → ℤ → List Fault → Option (List Bytes)
  unfolding row_of row_text
  table jitter n [] = some []
  table jitter n (f ∷ fs) = row_of f (cell (other []) jitter zero_f (pos 0) (pos 0)) n >>= λ row.
      table jitter n fs >>= λ rest. some (row_text f n row ∷ rest)

  -- The runs of the sensitivity table that detect the fault.
  unfoldable pub sensitivity : F → ℕ → ℕ → ℕ → Option ℕ
  sensitivity severity s zero det = some det
  sensitivity severity s (suc n) det =
      score g (cell thermal zero_f severity (pos s) (pos 0)) >>= λ o.
      sensitivity severity (suc s) n (plus_if o.detected det)

  -- The loop of `writeTraces`: the files that it has written, and whether it returns nil.
  unfoldable pub write_files :
      Marshal F → (Bytes → Target) → Bytes → List Fault → Option (List (Bytes × Bytes) × Bool)
  unfolding fault_text
  write_files w target dir [] = some ([], true)
  write_files w target dir (f ∷ fs) = generate g (cell f zero_f zero_f (pos 0) (pos 300)) >>= λ run.
      let name = dir ++ codes "/" ++ fault_text f ++ codes ".jsonl" in
      let out = target name in
      let written = write w out.writes run.0 in
      if not out.opens
      then some ([], false)
      else (if written.failed || not out.closes
          then some ((name, written.text) ∷ [], false)
          else (write_files w target dir fs >>= λ rest.
              some ((name, written.text) ∷ rest.0, rest.1)))

  -- `made` is whether `os.MkdirAll` succeeds.
  unfoldable pub write_traces :
      Marshal F → (Bytes → Target) → Bool → Bytes → Option (List (Bytes × Bytes) × Bool)
  unfolding write_files
  write_traces w target made dir =
      if made then write_files w target dir all_faults else some ([], false)
