-- ===== src/Command/Screen/Lines.antt =====
-- cmd/gfr-sim/main.go: the whole scorecard that `main` prints.
use distributed_gpu_training.Base.{
  ℕ, zero, suc, ◌+◌, ◌≤◌, ◌≡◌, refl, ap, inr, Bool, true, false, append-nil, Bytes, codes, some,
  List, [], ◌∷◌, ◌++◌, length, All, arith,
}
use distributed_gpu_training.Base.Int.{ℤ, pos, pos_part}
use distributed_gpu_training.Float.{Float64, zero_f}
use distributed_gpu_training.Sim.{Fault, Rng, thermal, other}
use distributed_gpu_training.Sim.Truth.{IsRng}
use distributed_gpu_training.Sim.Score.Totals.{score_total}
use distributed_gpu_training.Command.Scorecard.{
  Row, row_text, plus_if, ratio_text, cell, table, sensitivity, all_faults,
}
use distributed_gpu_training.Command.Rows.{IsRow, row_of-IsRow}
use distributed_gpu_training.Command.Screen.{
  percent, table_heading, tables, sensitivity_heading, sensitivities, scorecard,
}

-- The lines of a table: one for each fault.
abbrev pub row_lines : ℤ → List Fault → List Row → List Bytes
row_lines n (f ∷ fs) (r ∷ rs) = row_text f n r ∷ row_lines n fs rs
row_lines n _ _ = []

-- A row for each fault.
abbrev pub AreRows : ℤ → List Fault → List Row → Type 0
AreRows n fs rows = (length rows ≡ length fs) × All (λ r. IsRow r (pos_part n)) rows

-- A count for each severity.
abbrev pub AreCounts : {F : Type 0} → ℤ → List F → List ℕ → Type 0
AreCounts n ss ks = (length ks ≡ length ss) × All (λ k. k ≤ pos_part n) ks

plus_if_le : (b : Bool) (n : ℕ) → plus_if b n ≤ n + 1
plus_if_le true n = omega arith
plus_if_le false n = omega arith

module _ {F S : Type 0} ⦃d : Float64 F⦄ (fixed : ℕ → F → Bytes) (g : Rng S F) where
  -- The line of a severity, by the runs that detect the fault.
  abbrev pub severity_line : ℤ → F → ℕ → Bytes
  severity_line n sev det =
      codes "| " ++ (percent fixed g sev ++ (codes "% | " ++ (ratio_text det n ++ codes " |")))

  abbrev pub severity_lines : ℤ → List F → List ℕ → List Bytes
  severity_lines n (s ∷ ss) (k ∷ ks) = severity_line n s k ∷ severity_lines n ss ks
  severity_lines n _ _ = []

  table-rows :
      IsRng g
      → (jit : F) (n : ℤ) (fs : List Fault)
      → (rows : List Row) × (table g jit n fs ≡ some (row_lines n fs rows)) × AreRows n fs rows
  unfolding table
  table-rows laws jit n [] = ([], refl, (refl, tt))
  table-rows laws jit n (f ∷ fs) =
      let (r, p, x) =
        row_of-IsRow g laws f (cell g (other []) jit zero_f (pos 0) (pos 0)) n (omega arith) in
      let (rows, q, (same, all)) = table-rows laws jit n fs in
      (r ∷ rows, rw (p, q) refl, (ap suc same, (x, all)))

  sensitivity-count :
      IsRng g
      → (sev : F) (s n det : ℕ) → (k : ℕ) × (sensitivity g sev s n det ≡ some k) × (k ≤ n + det)
  unfolding sensitivity
  sensitivity-count laws sev s zero det = (det, refl, omega arith)
  sensitivity-count laws sev s (suc n) det =
      let (o, q) =
        score_total g laws (cell g thermal zero_f sev (pos s) (pos 0)) (inr (omega arith)) in
      let (k, p, le) = sensitivity-count laws sev (suc s) n (plus_if o.detected det) in
      (k, rw (q, p) refl, omega (arith, le, plus_if_le o.detected det))

  sensitivities-counts :
      IsRng g
      → (n : ℤ) (ss : List F)
      → (ks : List ℕ) × (sensitivities fixed g n ss ≡ some (severity_lines n ss ks))
        × AreCounts n ss ks
  unfolding sensitivities
  sensitivities-counts laws n [] = ([], refl, (refl, tt))
  sensitivities-counts laws n (s ∷ ss) =
      let (k, p, le) = sensitivity-count laws s 0 (pos_part n) 0 in
      let (ks, q, (same, all)) = sensitivities-counts laws n ss in
      (k ∷ ks, rw (p, q) refl, (ap suc same, (omega (arith, le), all)))

  -- The scorecard comes out for every number of seeds, with a generator as documented. It has a
  -- title, a table for each of the two jitters with a row for each of the ten faults, and a table
  -- with a line for each of the five severities. No row or line counts more detected runs than there
  -- are seeds (none if the number is negative), and no row has more runs that are attributed, or
  -- whose first cause is correct, than it has detected ones.
  pub scorecard-lines :
      IsRng g
      → (n : ℤ)
      → let low = d.lit 3 2 in
        let high = d.lit 10 2 in
        let sevs = d.lit 2 2 ∷ d.lit 5 2 ∷ d.lit 10 2 ∷ d.lit 20 2 ∷ d.lit 30 2 ∷ [] in
        (rows : List Row) × (rows' : List Row) × (counts : List ℕ) × AreRows n all_faults rows
        × AreRows n all_faults rows'
        × AreCounts n sevs counts
        × (scorecard fixed g n
            ≡ some (
                codes "## Scorecard (8 ranks, 600 steps, fault at midpoint)"
                ∷ ((table_heading fixed g low
                      ++ (row_lines n all_faults rows
                          ++ (table_heading fixed g high ++ row_lines n all_faults rows')))
                    ++ (sensitivity_heading fixed g ++ severity_lines n sevs counts))))
  unfolding scorecard tables
  scorecard-lines laws n =
      let (rows, p, x) = table-rows laws (d.lit 3 2) n all_faults in
      let (rows', p', x') = table-rows laws (d.lit 10 2) n all_faults in
      let (counts, q, y) =
        sensitivities-counts laws n
          (d.lit 2 2 ∷ d.lit 5 2 ∷ d.lit 10 2 ∷ d.lit 20 2 ∷ d.lit 30 2 ∷ []) in
      (rows, rows', counts, x, x', y, rw (p, p', q, append-nil) refl)
