-- ===== src/Command/Rows.antt =====
-- cmd/gfr-sim/main.go: what the numbers in a row of the table are.
use distributed_gpu_training.Base.{
  ℕ, zero, suc, ◌+◌, ◌≤◌, ◌≡◌, refl, ◌∙◌, ◌⊎◌, true, not, inl, inr, some, List, [], ◌∷◌, ◌==◌,
  Bool-cases, length, keep, arith,
}
use distributed_gpu_training.Base.Int.{ℤ, pos, pos_part, ◌≤ℤ◌, ◌<ℤ◌}
use distributed_gpu_training.Float.{Float64}
use distributed_gpu_training.Attribution.Engine.{Attribution}
use distributed_gpu_training.Sim.{Fault, Params, GroundTruth, Rng, is_clean}
use distributed_gpu_training.Sim.Truth.{IsRng, generate-IsTruth}
use distributed_gpu_training.Sim.Score.{Outcome, no_outcome, score}
use distributed_gpu_training.Sim.Score.Judged.{Exists, is_right, NamesAll, NamesTop}
use distributed_gpu_training.Sim.Score.Totals.{IsScored, IsJudged, score-IsJudged, no_panic}
use distributed_gpu_training.Command.Scorecard.{Row, empty_row, add_outcome, row_loop, row_of}

-- An outcome with a correct attribution or a correct first cause is one of a detected fault.
abbrev IsSound : Outcome → Type 0
IsSound o = (o.attr_correct ≡ true → o.detected ≡ true) × (o.exact_top ≡ true → o.detected ≡ true)

module _ {F : Type 0} (t : GroundTruth) where
  right_Exists :
      (P : Attribution F → Type 0) (as' : List (Attribution F))
      → ((a : Attribution F) → P a → is_right t a ≡ true)
      → Exists P as'
      → not (length (keep (is_right t) as') == 0) ≡ true
  right_Exists P [] right e = elim e [ ]
  right_Exists P (a ∷ as') right (inl h) = rw (right a h) (ground arith)
  right_Exists P (a ∷ as') right (inr h) = elim (Bool-cases (is_right t a)) [
    | inl q ↦ rw q (ground arith)
    | inr q ↦ rw q (right_Exists P as' right h)
  ]

  IsScored-IsSound :
      (as' : List (Attribution F)) (o : Outcome) → IsScored t no_outcome as' o → IsSound o
  IsScored-IsSound as' o x = (
    λ b. elim (x.correct b) [
      | inl never ↦ absurd (ground arith)
      | inr e ↦ x.found ∙ right_Exists (NamesAll t) as' (λ a h. h.0) e
    ],
    λ b. elim (x.top b) [
      | inl never ↦ absurd (ground arith)
      | inr e ↦ x.found ∙ right_Exists (NamesTop t) as' (λ a h. h.0) e
    ],
  )

  IsJudged-IsSound : (as' : List (Attribution F)) (o : Outcome) → IsJudged t as' o → IsSound o
  IsJudged-IsSound as' o x =
      let side : (t.straggler <ℤ pos 0) ⊎ (pos 0 ≤ℤ t.straggler) = ground arith in
      elim side [
        | inl low ↦ rw (x.when_clean low) (λ b. absurd (ground arith), λ b. absurd (ground arith))
        | inr high ↦ IsScored-IsSound as' o (x.when_faulty high)
      ]

-- A row of some runs: no count is above the number of the runs, and no more runs are attributed, or
-- have a correct first cause, than are detected.
pub record IsRow (row : Row) (n : ℕ) : Type 0 where
  pub detected_le : row.detected ≤ n
  pub attributed_le : row.attributed ≤ row.detected
  pub top_le : row.top ≤ row.detected

add_outcome-IsRow :
    (row : Row) (n : ℕ) (o : Outcome) → IsRow row n → IsSound o → IsRow (add_outcome row o) (suc n)
add_outcome-IsRow row n o r s = record {
  detected_le = ground (arith, r.detected_le);
  attributed_le = ground (arith, r.attributed_le, s.0);
  top_le = ground (arith, r.top_le, s.1);
}

more_runs : (row : Row) (m n : ℕ) → m ≡ n → IsRow row m → IsRow row n
more_runs row m n e r = record {
  detected_le = omega (arith, r.detected_le, e);
  attributed_le = r.attributed_le;
  top_le = r.top_le;
}

module _ {F S : Type 0} ⦃d : Float64 F⦄ (g : Rng S F) (laws : IsRng g) where
  score-IsSound :
      (p : Params F)
      → (is_clean p.fault ≡ true) ⊎ (pos 0 ≤ℤ p.ranks)
      → (o : Outcome) × (score g p ≡ some o) × IsSound o
  score-IsSound p h = elim (generate-IsTruth g laws p) [
    | inl (es, t, e, truth) ↦
        let (o, q, x) = score-IsJudged g p es t e in (o, q, IsJudged-IsSound t _ o x)
    | inr (faulty, low, e) ↦ absurd (no_panic g p h faulty low)
  ]

  row_loop-IsRow :
      (p : Params F) (s n k : ℕ) (row : Row)
      → (is_clean p.fault ≡ true) ⊎ (pos 0 ≤ℤ p.ranks)
      → IsRow row k
      → (row' : Row) × (row_loop g p s n row ≡ some row') × IsRow row' (n + k)
  unfolding row_loop
  row_loop-IsRow p s zero k row h r = (row, refl, more_runs row k (0 + k) (omega arith) r)
  row_loop-IsRow p s (suc n) k row h r =
      let (o, q, sound) = score-IsSound (record p { seed = pos s }) h in
      let (row', e, x) =
        row_loop-IsRow p (suc s) n (suc k) (add_outcome row o) h
          (add_outcome-IsRow row k o r sound) in
      (row', rw q e, more_runs row' (n + suc k) (suc n + k) (omega arith) x)

  -- A row of the table comes out for every fault and number of runs, with a generator as documented
  -- and a number of ranks that is not negative: `det` is at most the number of runs, and `attr` and
  -- `top` are at most `det`.
  pub row_of-IsRow :
      (f : Fault) (p : Params F) (n : ℤ)
      → pos 0 ≤ℤ p.ranks
      → (row : Row) × (row_of g f p n ≡ some row) × IsRow row (pos_part n)
  unfolding row_of
  row_of-IsRow f p n h =
      let (row, e, x) =
        row_loop-IsRow (record p { fault = f }) 0 (pos_part n) 0 empty_row (inr h)
          (record {
            detected_le = omega arith;
            attributed_le = omega arith;
            top_le = omega arith;
          }) in
      (row, e, more_runs row (pos_part n + 0) (pos_part n) (omega arith) x)
