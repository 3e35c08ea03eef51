-- ===== src/Attribution/Described.antt =====
-- internal/attribution/engine.go: `Attribute` without its loops. A description of the window, the
-- samples, the readings and the verdict of each rule by what is kept of the events.
pub mod Loops
use Prim.Native.Nat.{bit_or}
use distributed_gpu_training.Base.{
  ℕ, ◌+◌, Bool, true, false, not, ◌&&◌, ◌||◌, Option, none, some, List, [], ◌∷◌, ◌++◌, ◌==◌, length,
  keep, if◌then◌else◌,
}
use distributed_gpu_training.Base.Int.{ℤ, pos, sub_64, ltb_ℤ, leb_ℤ}
use distributed_gpu_training.Base.Pick.{pick, gives, final, final_after, any, listed}
use distributed_gpu_training.Base.Sort.{sort_by}
use distributed_gpu_training.Float.{Float64, zero_f}
use distributed_gpu_training.Event.{Event, GpuMetric, gpu_metric, timestamp_ns}
use distributed_gpu_training.Correlator.Detect.{Anomaly}
use distributed_gpu_training.Correlator.Stats.{compute_stats}
use distributed_gpu_training.Attribution.Rules.{
  CauseType, thermal_throttle, power_throttle, ecc_errors, pcie_bandwidth_drop, nvlink_degraded,
  memory_pressure, clock_reduced, gpu_contention, host_stall, CausalLink, Verdict, silent, ruled,
  link, Detail, samples, fell, rose, counters, mean_of, has_bits, thermal_mask, power_mask,
  thermal_sample, power_sample, clock_reading, procs_reading, pcie_reading, nvlink_reading,
  memory_reading, median_of, is_empty, frac, counter_delta, non_negative,
}
use distributed_gpu_training.Attribution.Engine.{
  Attribution, Engine, fired_links, ruled_causes, more_confident, or_unknown,
}

module _ {F : Type 0} where
  -- Whether the time is in the window.
  abbrev pub in_window : ℤ → ℤ → Event F → Bool
  in_window lo hi e = leb_ℤ lo (timestamp_ns e) && leb_ℤ (timestamp_ns e) hi

  abbrev pub is_before : ℤ → Event F → Bool
  is_before lo e = ltb_ℤ (timestamp_ns e) lo

  -- A sample that is a hit.
  abbrev pub is_hit : (Event F → Option Bool) → Event F → Bool
  is_hit sample e = elim (sample e) [ none ↦ false | some b ↦ b ]

  abbrev pub gpu_of : Event F → Option (GpuMetric F)
  gpu_of (gpu_metric m) = some m
  gpu_of _ = none

  abbrev pub utilization_of : Event F → Option F
  utilization_of (gpu_metric m) = some m.utilization
  utilization_of _ = none

  abbrev pub is_throttled : Event F → Bool
  is_throttled e = elim (gpu_of e) [
    | none ↦ false
    | some m ↦ has_bits (bit_or thermal_mask power_mask) m
  ]

module _ {F : Type 0} ⦃d : Float64 F⦄ where
  -- A rule on the share of the samples that are hits.
  abbrev pub by_share : CauseType → (Event F → Option Bool) → List (Event F) → Verdict F
  by_share c sample during =
      let n = length (keep (gives sample) during) in
      let hits = keep (is_hit sample) during in
      if n == 0
      then silent
      else (if length hits == 0
          then ruled
          else link c (final hits) (frac (length hits) n) (samples (length hits) n))

  -- A rule on the medians of the readings in the window and before it; `test` rules the cause out.
  abbrev pub by_medians :
      CauseType
      → (Event F → Option F)
      → (F → F → Bool)
      → (F → F → F)
      → (F → F → Detail F)
      → List (Event F)
      → List (Event F)
      → Verdict F
  by_medians c read test conf text during before =
      let v = pick read during in
      let b = pick read before in
      let dm = median_of v in
      let bm = median_of b in
      if is_empty v || is_empty b
      then silent
      else (if test dm bm
          then ruled
          else link c (final (keep (gives read) during)) (conf dm bm) (text dm bm))

  -- A rule on the mean of the readings in the window.
  abbrev pub by_mean :
      CauseType → (Event F → Option F) → (F → Bool) → (F → F) → List (Event F) → Verdict F
  by_mean c read test conf during =
      let v = pick read during in
      let mean = (compute_stats v).mean in
      if is_empty v
      then silent
      else (if test mean
          then ruled
          else link c (final (keep (gives read) during)) (conf mean) (mean_of mean))

  -- How far the median fell.
  abbrev pub drop_of : F → F → F
  drop_of dm bm = d.sub (d.lit 1 0) (d.div dm bm)

  -- The first and the last of the GPU samples.
  abbrev pub by_counters : List (GpuMetric F) → Verdict F
  by_counters [] = silent
  by_counters (m ∷ ms) =
      let last = final_after m ms in
      let ds = counter_delta last.ecc_errors_sbe m.ecc_errors_sbe in
      let dd = counter_delta last.ecc_errors_dbe m.ecc_errors_dbe in
      if leb_ℤ ds (pos 0) && leb_ℤ dd (pos 0)
      then ruled
      else link ecc_errors (some (gpu_metric last))
          (if ltb_ℤ (pos 0) dd then d.lit 9 1 else d.lit 6 1)
          (counters (non_negative ds) (non_negative dd))

  -- The fall of a bandwidth to less than half.
  abbrev pub by_bandwidth :
      CauseType → (Event F → Option F) → List (Event F) → List (Event F) → Verdict F
  by_bandwidth c read =
      by_medians c read (λ dm bm. d.le bm zero_f || d.le (d.mul bm (d.lit 5 1)) dm)
        (λ dm bm. d.fmin (d.add (d.lit 5 1) (d.div (drop_of dm bm) (d.lit 2 0))) (d.lit 95 2))
        (λ dm bm. fell (drop_of dm bm) bm dm)

  abbrev pub host_stall_verdict : List (Event F) → Verdict F
  host_stall_verdict during =
      if any is_throttled during
      then ruled
      else by_mean host_stall utilization_of (d.le (d.lit 40 0))
          (λ mean.
            d.fmin (d.add (d.lit 4 1) (d.div (d.sub (d.lit 40 0) mean) (d.lit 100 0))) (d.lit 8 1))
          during

  abbrev pub clock_verdict : List (Event F) → List (Event F) → Verdict F
  clock_verdict =
      by_medians clock_reduced clock_reading (λ dm bm. d.le (d.mul bm (d.lit 75 2)) dm)
        (λ dm bm. d.fmin (d.add (d.lit 4 1) (d.div (drop_of dm bm) (d.lit 2 0))) (d.lit 7 1))
        (λ dm bm. fell (drop_of dm bm) bm dm)

  abbrev pub contention_verdict : List (Event F) → List (Event F) → Verdict F
  contention_verdict =
      by_medians gpu_contention procs_reading d.le (λ dm bm. d.lit 7 1) (λ dm bm. rose bm dm)

  abbrev pub memory_verdict : List (Event F) → Verdict F
  memory_verdict =
      by_mean memory_pressure memory_reading (λ mean. d.lt mean (d.lit 90 0)) (λ mean. d.lit 5 1)

  -- The verdicts of the rules on the events of the window and on those before it.
  abbrev pub described_verdicts : List (Event F) → List (Event F) → List (CauseType × Verdict F)
  described_verdicts during before =
      (thermal_throttle, by_share thermal_throttle thermal_sample during)
      ∷ (power_throttle, by_share power_throttle power_sample during)
      ∷ (clock_reduced, clock_verdict during before)
      ∷ (gpu_contention, contention_verdict during before)
      ∷ (
        ecc_errors,
        by_counters (pick gpu_of (listed (final (keep (gives gpu_of) before)) ++ during)),
      )
      ∷ (pcie_bandwidth_drop, by_bandwidth pcie_bandwidth_drop pcie_reading during before)
      ∷ (nvlink_degraded, by_bandwidth nvlink_degraded nvlink_reading during before)
      ∷ (memory_pressure, memory_verdict during)
      ∷ (host_stall, host_stall_verdict during)
      ∷ []

  abbrev pub described : Engine → Anomaly F → List (Event F) → Attribution F
  described eng a events =
      let lo = sub_64 a.start_ns eng.attribution_window_ns in
      let vs =
        described_verdicts (keep (in_window lo a.end_ns) events) (keep (is_before lo) events) in
      record {
        anomaly = a;
        causal_chain = or_unknown (sort_by more_confident (fired_links vs));
        ruled_out = ruled_causes vs;
      }
