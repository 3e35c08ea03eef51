-- ===== src/Attribution/Summary.antt =====
-- internal/attribution/engine.go: the texts of an attribution: `summarize`, and the `Detail` of each
-- link. `fixed n x` is what `fmt` prints for `%.nf`.
use distributed_gpu_training.Base.{
  ℕ, not, ◌&&◌, Bytes, codes, Option, none, some, List, [], ◌∷◌, ◌++◌, ◌==◌, ltb, if◌then◌else◌,
  length, map,
}
use distributed_gpu_training.Base.Decimal.{decimal, decimal_int}
use distributed_gpu_training.Float.{Float64}
use distributed_gpu_training.Correlator.Detect.{Anomaly}
use distributed_gpu_training.Attribution.Rules.{
  CauseType, thermal_throttle, power_throttle, ecc_errors, pcie_bandwidth_drop, nvlink_degraded,
  memory_pressure, clock_reduced, gpu_contention, host_stall, unknown, CausalLink, Detail,
  no_detail, samples, fell, rose, counters, mean_of,
}
use distributed_gpu_training.Attribution.Engine.{Attribution}
use distributed_gpu_training.Attribution.Chain.{number}

-- The string of a cause.
unfoldable pub cause_text : CauseType → Bytes
cause_text thermal_throttle = codes "thermal_throttle"
cause_text power_throttle = codes "power_throttle"
cause_text ecc_errors = codes "ecc_errors"
cause_text pcie_bandwidth_drop = codes "pcie_bandwidth_drop"
cause_text nvlink_degraded = codes "nvlink_degraded"
cause_text memory_pressure = codes "memory_pressure"
cause_text clock_reduced = codes "clock_reduced"
cause_text gpu_contention = codes "gpu_contention"
cause_text host_stall = codes "host_stall"
cause_text unknown = codes "unknown"

-- `strings.Join`
abbrev pub join : Bytes → List Bytes → Bytes
join sep [] = []
join sep (s ∷ []) = s
join sep (s ∷ t ∷ ss) = s ++ sep ++ join sep (t ∷ ss)

-- The words in front of the numbers of a rule that counts samples, and of one that compares
-- throughputs.
abbrev pub counted_words : CauseType → Bytes
counted_words power_throttle = codes "power cap/brake active in "
counted_words _ = codes "thermal throttle active in "

abbrev pub link_words : CauseType → Bytes
link_words nvlink_degraded = codes "NVLink"
link_words _ = codes "PCIe"

module _ {F : Type 0} ⦃d : Float64 F⦄ (fixed : ℕ → F → Bytes) where
  -- `%.0f%%` of a fraction, times 100.
  abbrev percent : F → Bytes
  percent x = fixed 0 (d.mul x (d.lit 100 0)) ++ codes "%"

  unfoldable pub detail_text : CauseType → Detail F → Bytes
  detail_text c no_detail = codes "no hardware signal explains the lag"
  detail_text c (samples hit n) =
      counted_words c ++ decimal hit ++ codes "/" ++ decimal n ++ codes " samples"
  detail_text clock_reduced (fell drop before during) =
      codes "SM clock fell "
      ++ percent drop
      ++ codes " vs baseline ("
      ++ fixed 0 before
      ++ codes " -> "
      ++ fixed 0 during
      ++ codes " MHz)"
  detail_text c (fell drop before during) =
      link_words c
      ++ codes " throughput fell "
      ++ percent drop
      ++ codes " vs baseline ("
      ++ fixed 1 before
      ++ codes " -> "
      ++ fixed 1 during
      ++ codes ")"
  detail_text c (rose before during) =
      codes "compute processes on this GPU rose from "
      ++ fixed 0 before
      ++ codes " to "
      ++ fixed 0 during
  detail_text c (counters single double) =
      codes "ECC counters rose: +"
      ++ decimal_int single
      ++ codes " single-bit, +"
      ++ decimal_int double
      ++ codes " double-bit"
  detail_text memory_pressure (mean_of mean) =
      codes "memory bandwidth saturated (mean " ++ fixed 0 mean ++ codes "%)"
  detail_text c (mean_of mean) =
      codes "GPU mostly idle (mean util " ++ fixed 0 mean ++ codes "%) while rank lagged"

  abbrev pub link_detail : CausalLink F → Bytes
  link_detail l = detail_text l.cause l.detail

  -- `summarize`, for a chain with the link `top` at its head.
  unfoldable pub summarize : Anomaly F → CausalLink F → List (CausalLink F) → Bytes
  unfolding cause_text detail_text
  summarize a top more =
      let s =
        codes "rank "
        ++ decimal a.straggler_rank
        ++ codes " straggled on "
        ++ a.op_type
        ++ codes " ("
        ++ decimal a.hits
        ++ codes "/"
        ++ decimal a.groups
        ++ codes " collectives, ~"
        ++ fixed 1 (d.div (d.of_int a.lag_ns) (d.lit 1_000_000 0))
        ++ codes "ms lag): "
        ++ cause_text top.cause
        ++ codes " (confidence "
        ++ fixed 2 top.confidence
        ++ codes ") - "
        ++ link_detail top in
      if ltb 0 (length more) && not (number top.cause == number unknown)
      then s ++ codes "; also present: " ++ join (codes ", ") (map (λ l. cause_text l.cause) more)
      else s

  -- The `Summary` of an attribution; an empty chain panics (`none`).
  unfoldable pub summary : Attribution F → Option Bytes
  unfolding summarize
  summary r = elim r.causal_chain [ [] ↦ none | top ∷ more ↦ some (summarize r.anomaly top more) ]
