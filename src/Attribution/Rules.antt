-- ===== src/Attribution/Rules.antt =====
-- internal/attribution/engine.go: the nine rules. A rule takes the events of the window and those
-- before it and returns `(link, fired, hadData)`.
use Prim.Native.Nat.{bit_and, bit_or}
use distributed_gpu_training.Base.{
  ℕ, suc, Bool, true, false, not, ◌&&◌, ◌||◌, Option, none, some, List, [], ◌∷◌, ◌++◌, ◌==◌,
  if◌then◌else◌,
}
use distributed_gpu_training.Base.Int.{ℤ, pos, sub_64, ltb_ℤ, leb_ℤ, wrap_64}
use distributed_gpu_training.Float.{Float64, zero_f}
use distributed_gpu_training.Event.{Event, GpuMetric, gpu_metric, pcie, nvlink, thermal}
use distributed_gpu_training.Correlator.Stats.{compute_stats, of_len}

pub data CauseType : Type 0 where
  thermal_throttle power_throttle ecc_errors pcie_bandwidth_drop nvlink_degraded : CauseType
  memory_pressure clock_reduced gpu_contention host_stall unknown : CauseType

-- The bits of `thermalMask` and `powerMask`.
abbrev pub thermal_mask : ℕ
thermal_mask = bit_or (bit_or 0x20 0x40) 0x8

abbrev pub power_mask : ℕ
power_mask = bit_or 0x4 0x80

-- The numbers that a `Detail` text shows.
pub data Detail (F : Type 0) : Type 0 where
  no_detail : Detail F
  samples : ℕ → ℕ → Detail F
  fell : F → F → F → Detail F
  rose : F → F → Detail F
  counters : ℤ → ℤ → Detail F
  mean_of : F → Detail F

pub record CausalLink (F : Type 0) : Type 0 where
  pub cause : CauseType
  pub evidence : Option (Event F)
  pub confidence : F
  pub detail : Detail F

-- `(link, fired, hadData)`: `silent` is `(CausalLink{}, false, false)`, `ruled` is
-- `(CausalLink{}, false, true)`, and `fired l` is `(l, true, true)`; no rule returns another
-- combination.
pub data Verdict (F : Type 0) : Type 0 where
  silent : Verdict F
  ruled : Verdict F
  fired : CausalLink F → Verdict F

-- `int64(a) - int64(b)` on counters.
abbrev pub counter_delta : ℕ → ℕ → ℤ
counter_delta a b = sub_64 (wrap_64 (pos a)) (wrap_64 (pos b))

abbrev pub non_negative : ℤ → ℤ
non_negative a = if ltb_ℤ a (pos 0) then pos 0 else a

module _ {F : Type 0} where
  abbrev pub link : CauseType → Option (Event F) → F → Detail F → Verdict F
  link c e f t = fired (record { cause = c; evidence = e; confidence = f; detail = t })

  abbrev pub has_bits : ℕ → GpuMetric F → Bool
  has_bits mask m = not (bit_and m.throttle_reasons mask == 0)

  -- A loop that counts samples and hits, and keeps the last hit: `sample e` is whether the event
  -- is a sample, and whether it is a hit.
  abbrev pub tally :
      (Event F → Option Bool) → ℕ → ℕ → Option (Event F) → List (Event F) → ℕ × ℕ × Option (Event F)
  tally sample n hit ev [] = (n, hit, ev)
  tally sample n hit ev (e ∷ es) = elim (sample e) [
    | none ↦ tally sample n hit ev es
    | some b ↦ tally sample (suc n) (if b then suc hit else hit) (if b then some e else ev) es
  ]

  abbrev pub thermal_sample : Event F → Option Bool
  thermal_sample (gpu_metric m) = some (has_bits thermal_mask m)
  thermal_sample (thermal t) = some t.throttle_active
  thermal_sample _ = none

  abbrev pub power_sample : Event F → Option Bool
  power_sample (gpu_metric m) = some (has_bits power_mask m)
  power_sample _ = none

  -- A loop that collects readings and keeps the last event with one.
  abbrev pub gather :
      (Event F → Option F) → List F → Option (Event F) → List (Event F) → List F × Option (Event F)
  gather read v last [] = (v, last)
  gather read v last (e ∷ es) = elim (read e) [
    | none ↦ gather read v last es
    | some x ↦ gather read (v ++ (x ∷ [])) (some e) es
  ]

  abbrev pub is_empty : List F → Bool
  is_empty [] = true
  is_empty (x ∷ xs) = false

  -- The loop of `lastOf`: the last GPU sample, as a list of one event at most.
  abbrev pub last_of : List (Event F) → List (Event F)
  last_of [] = []
  last_of (e ∷ es) = elim (last_of es) [
    | l ∷ ls ↦ l ∷ ls
    | [] ↦ elim e [ gpu_metric m ↦ gpu_metric m ∷ [] | _ ↦ [] ]
  ]

  -- The loop of `ruleECC`: the first and the last GPU sample.
  abbrev pub first_last :
      Option (GpuMetric F × GpuMetric F) → List (Event F) → Option (GpuMetric F × GpuMetric F)
  first_last o [] = o
  first_last none (gpu_metric m ∷ es) = first_last (some (m, m)) es
  first_last (some (a, b)) (gpu_metric m ∷ es) = first_last (some (a, m)) es
  first_last o (e ∷ es) = first_last o es

  -- The loop of `ruleHostStall`: `none` is its early return.
  abbrev pub idle_loop :
      List F → Option (Event F) → List (Event F) → Option (List F × Option (Event F))
  idle_loop v ev [] = some (v, ev)
  idle_loop v ev (gpu_metric m ∷ es) =
      let rest = idle_loop (v ++ (m.utilization ∷ [])) (some (gpu_metric m)) es in
      if has_bits (bit_or thermal_mask power_mask) m then none else rest
  idle_loop v ev (e ∷ es) = idle_loop v ev es

module _ {F : Type 0} ⦃d : Float64 F⦄ where
  -- `frac(a, b)`
  unfoldable pub frac : ℕ → ℕ → F
  frac a b = d.fmin (d.div (of_len a) (of_len b)) (d.lit 95 2)

  abbrev pub by_tally : CauseType → ℕ × ℕ × Option (Event F) → Verdict F
  by_tally c (n, hit, ev) =
      if n == 0
      then silent
      else (if hit == 0 then ruled else link c ev (frac hit n) (samples hit n))

  unfoldable pub rule_thermal : List (Event F) → List (Event F) → Verdict F
  unfolding frac
  rule_thermal during before = by_tally thermal_throttle (tally thermal_sample 0 0 none during)

  unfoldable pub rule_power : List (Event F) → List (Event F) → Verdict F
  unfolding frac
  rule_power during before = by_tally power_throttle (tally power_sample 0 0 none during)

  abbrev pub clock_reading : Event F → Option F
  clock_reading (gpu_metric m) = if d.lt zero_f m.sm_clock_mhz then some m.sm_clock_mhz else none
  clock_reading _ = none

  abbrev pub median_of : List F → F
  median_of v = (compute_stats v).median

  unfoldable pub rule_clock : List (Event F) → List (Event F) → Verdict F
  rule_clock during before =
      let (v, ev) = gather clock_reading [] none during in
      let (b, _) = gather clock_reading [] none before in
      let dm = median_of v in
      let bm = median_of b in
      let drop = d.sub (d.lit 1 0) (d.div dm bm) in
      if is_empty v || is_empty b
      then silent
      else (if d.le (d.mul bm (d.lit 75 2)) dm
          then ruled
          else link clock_reduced ev
              (d.fmin (d.add (d.lit 4 1) (d.div drop (d.lit 2 0))) (d.lit 7 1)) (fell drop bm dm))

  abbrev pub procs_reading : Event F → Option F
  procs_reading (gpu_metric m) =
      if ltb_ℤ (pos 0) m.compute_procs then some (d.of_int m.compute_procs) else none
  procs_reading _ = none

  unfoldable pub rule_contention : List (Event F) → List (Event F) → Verdict F
  rule_contention during before =
      let (v, ev) = gather procs_reading [] none during in
      let (b, _) = gather procs_reading [] none before in
      let dm = median_of v in
      let bm = median_of b in
      if is_empty v || is_empty b
      then silent
      else (if d.le dm bm then ruled else link gpu_contention ev (d.lit 7 1) (rose bm dm))

  -- `ruleECC` behind its loop.
  abbrev pub ecc_verdict : Option (GpuMetric F × GpuMetric F) → Verdict F
  ecc_verdict none = silent
  ecc_verdict (some (first, last)) =
      let ds = counter_delta last.ecc_errors_sbe first.ecc_errors_sbe in
      let dd = counter_delta last.ecc_errors_dbe first.ecc_errors_dbe in
      let conf = if ltb_ℤ (pos 0) dd then d.lit 9 1 else d.lit 6 1 in
      if leb_ℤ ds (pos 0) && leb_ℤ dd (pos 0)
      then ruled
      else link ecc_errors (some (gpu_metric last)) conf
          (counters (non_negative ds) (non_negative dd))

  unfoldable pub rule_ecc : List (Event F) → List (Event F) → Verdict F
  rule_ecc during before = ecc_verdict (first_last none (last_of before ++ during))

  -- `bandwidthDrop`, without the name that only the text shows.
  unfoldable pub bandwidth_drop : CauseType → List F → List F → Option (Event F) → Verdict F
  bandwidth_drop c v b ev =
      let dm = median_of v in
      let bm = median_of b in
      let drop = d.sub (d.lit 1 0) (d.div dm bm) in
      if is_empty v || is_empty b
      then silent
      else (if d.le bm zero_f || d.le (d.mul bm (d.lit 5 1)) dm
          then ruled
          else link c ev (d.fmin (d.add (d.lit 5 1) (d.div drop (d.lit 2 0))) (d.lit 95 2))
              (fell drop bm dm))

  abbrev pub pcie_reading : Event F → Option F
  pcie_reading (pcie p) = some (d.add p.read_bandwidth p.write_bandwidth)
  pcie_reading _ = none

  unfoldable pub rule_pcie : List (Event F) → List (Event F) → Verdict F
  unfolding bandwidth_drop
  rule_pcie during before =
      let (v, ev) = gather pcie_reading [] none during in
      bandwidth_drop pcie_bandwidth_drop v (gather pcie_reading [] none before).0 ev

  abbrev pub nvlink_reading : Event F → Option F
  nvlink_reading (nvlink l) = some l.throughput_gb
  nvlink_reading _ = none

  unfoldable pub rule_nvlink : List (Event F) → List (Event F) → Verdict F
  unfolding bandwidth_drop
  rule_nvlink during before =
      let (v, ev) = gather nvlink_reading [] none during in
      bandwidth_drop nvlink_degraded v (gather nvlink_reading [] none before).0 ev

  abbrev pub memory_reading : Event F → Option F
  memory_reading (gpu_metric m) = some m.mem_bandwidth
  memory_reading _ = none

  unfoldable pub rule_memory : List (Event F) → List (Event F) → Verdict F
  rule_memory during before =
      let (v, ev) = gather memory_reading [] none during in
      let mean = (compute_stats v).mean in
      if is_empty v
      then silent
      else (if d.lt mean (d.lit 90 0)
          then ruled
          else link memory_pressure ev (d.lit 5 1) (mean_of mean))

  -- `ruleHostStall` behind its loop.
  abbrev pub stall_verdict : Option (List F × Option (Event F)) → Verdict F
  stall_verdict none = ruled
  stall_verdict (some (v, ev)) =
      let mean = (compute_stats v).mean in
      let conf =
        d.fmin (d.add (d.lit 4 1) (d.div (d.sub (d.lit 40 0) mean) (d.lit 100 0))) (d.lit 8 1) in
      if is_empty v
      then silent
      else (if d.le (d.lit 40 0) mean then ruled else link host_stall ev conf (mean_of mean))

  unfoldable pub rule_host_stall : List (Event F) → List (Event F) → Verdict F
  rule_host_stall during before = stall_verdict (idle_loop [] none during)
