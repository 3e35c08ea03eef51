-- ===== src/Correlator/Stats.antt =====
-- internal/correlator/detector.go: descriptive statistics, over any float type.
use distributed_gpu_training.Base.{
  ℕ, zero, suc, ◌-◌, ◌/◌, ◌%◌, Bool, false, List, [], ◌∷◌, map, if◌then◌else◌, ◌==◌, length,
}
use distributed_gpu_training.Base.Int.{pos}
use distributed_gpu_training.Base.Sort.{sort_by}
use distributed_gpu_training.Float.{Float64, float_less, zero_f}

pub record Stats (F : Type 0) : Type 0 where
  pub median : F
  pub mean : F
  pub std_dev : F
  pub mad : F
  pub min : F
  pub max : F
  pub count : ℕ

module _ {F : Type 0} ⦃d : Float64 F⦄ where
  -- An index of a slice that is known to be in range; the zero is never returned in the code below.
  abbrev pub at : List F → ℕ → F
  at [] i = zero_f
  at (x ∷ xs) zero = x
  at (x ∷ xs) (suc i) = at xs i

  abbrev pub sum_from : F → List F → F
  sum_from acc [] = acc
  sum_from acc (v ∷ vs) = sum_from (d.add acc v) vs

  abbrev pub squares_from : F → F → List F → F
  squares_from mean acc [] = acc
  squares_from mean acc (v ∷ vs) =
      squares_from mean (d.add acc (d.mul (d.sub v mean) (d.sub v mean))) vs

  unfoldable pub median : List F → F
  median sorted =
      let n = length sorted in
      if n % 2 == 1
      then at sorted (n / 2)
      else d.div (d.add (at sorted (n / 2 - 1)) (at sorted (n / 2))) (d.lit 2 0)

  abbrev pub zero_stats : Stats F
  zero_stats = record {
    median = zero_f;
    mean = zero_f;
    std_dev = zero_f;
    mad = zero_f;
    min = zero_f;
    max = zero_f;
    count = 0;
  }

  -- `float64(n)` of a length.
  abbrev pub of_len : ℕ → F
  of_len n = d.of_int (pos n)

  unfoldable pub sort_floats : List F → List F
  sort_floats = sort_by float_less

  unfoldable pub compute_stats : List F → Stats F
  unfolding median sort_floats
  compute_stats values =
      let n = length values in
      let sorted = sort_floats values in
      let mid = median sorted in
      let mean = d.div (sum_from zero_f sorted) (of_len n) in
      let dev = sort_floats (map (λ v. d.abs (d.sub v mid)) sorted) in
      let full : Stats F = record {
        median = mid;
        mean = mean;
        std_dev = d.sqrt (d.div (squares_from mean zero_f sorted) (of_len n));
        mad = median dev;
        min = at sorted 0;
        max = at sorted (n - 1);
        count = n;
      } in
      if n == 0 then zero_stats else full

  -- `madToSigma`
  abbrev pub mad_to_sigma : F
  mad_to_sigma = d.lit 14826 4

  unfoldable pub robust_scale : Stats F → F
  robust_scale s = d.mul s.mad mad_to_sigma

  unfoldable pub robust_z : F → Stats F → F → F
  unfolding robust_scale
  robust_z value s scale_floor =
      let scale = d.fmax (robust_scale s) scale_floor in
      if d.eq scale zero_f then zero_f else d.div (d.sub value s.median) scale

  unfoldable pub is_outlier : F → Stats F → F → Bool
  is_outlier value stats threshold =
      if d.eq stats.std_dev zero_f
      then false
      else d.lt threshold (d.div (d.sub value stats.median) stats.std_dev)
