-- ===== src/Sim.antt =====
-- internal/sim/sim.go: the generator of synthetic traces with a known fault. `math/rand` is a
-- parameter (`Rng`).
mod Scenario
pub mod Loops
pub mod Round
pub mod Shape
pub mod Order
pub mod Truth
pub mod Score
unfoldable pub use Scenario.*
use distributed_gpu_training.Base.{
  ℕ, zero, suc, ◌+◌, ◌*◌, ◌/◌, ◌%◌, ◌^◌, Bool, true, false, not, ◌&&◌, Bytes, codes, Option, none,
  some, List, [], ◌∷◌, ◌++◌, ◌==◌, leb, if◌then◌else◌,
}
use distributed_gpu_training.Base.Int.{ℤ, pos, negsuc, pos_part, eqb_ℤ, wrap_64}
use distributed_gpu_training.Float.{Float64, zero_f}
use distributed_gpu_training.Event.{
  BaseEvent, Event, GpuMetric, NcclCollective, gpu_metric, nccl, pcie, nvlink,
}
use distributed_gpu_training.Attribution.Rules.{
  CauseType, thermal_throttle, power_throttle, ecc_errors, pcie_bandwidth_drop, nvlink_degraded,
  gpu_contention, host_stall, unknown,
}

module _ {F : Type 0} ⦃d : Float64 F⦄ where
  -- The zero values pick the defaults.
  abbrev pub with_defaults : Params F → Params F
  with_defaults p = record p {
    ranks = if eqb_ℤ p.ranks (pos 0) then pos 8 else p.ranks;
    steps = if eqb_ℤ p.steps (pos 0) then pos 600 else p.steps;
    jitter = if d.eq p.jitter zero_f then d.lit 3 2 else p.jitter;
    severity = if d.eq p.severity zero_f then d.lit 3 1 else p.severity;
  }

module _ {F S : Type 0} ⦃d : Float64 F⦄ (g : Rng S F) where
  -- The `switch` on the fault, for a sample of the straggler.
  unfoldable pub afflict : Fault → Readings F → S → Readings F × S
  afflict thermal x rng = (
    record x {
      metric = record x.metric {
        throttle_reasons = 0x40;
        temperature = d.lit 88 0;
        sm_clock_mhz = d.lit 1100 0;
      };
    },
    rng,
  )
  afflict compound x rng = (
    record x {
      metric = record x.metric {
        throttle_reasons = 0x40;
        temperature = d.lit 88 0;
        sm_clock_mhz = d.lit 1100 0;
      };
    },
    rng,
  )
  afflict power x rng = (
    record x { metric = record x.metric { throttle_reasons = 0x4; sm_clock_mhz = d.lit 1300 0 } },
    rng,
  )
  afflict contention x rng = (record x { metric = record x.metric { compute_procs = pos 2 } }, rng)
  afflict stalled x rng =
      let (u, rng') = g.float64 rng in
      (
        record x {
          metric = record x.metric { utilization = d.add (d.lit 10 0) (d.mul u (d.lit 10 0)) };
        },
        rng',
      )
  afflict pcie_fault x rng = (record x { pcie_mbs = d.mul x.pcie_mbs (d.lit 25 2) }, rng)
  afflict nvlink_fault x rng = (record x { nvlink_gb = d.mul x.nvlink_gb (d.lit 2 1) }, rng)
  afflict _ x rng = (x, rng)

  -- `centre * (1 + rng.NormFloat64()*spread)`
  unfoldable pub scattered : F → F → S → F × S
  scattered centre spread rng =
      let (n, rng') = g.norm_float64 rng in
      (d.mul centre (d.add (d.lit 1 0) (d.mul n spread)), rng')

  -- `low + rng.Float64()*range`
  unfoldable pub spread_from : F → F → S → F × S
  spread_from low width rng = let (u, rng') = g.float64 rng in (d.add low (d.mul u width), rng')

  -- A sample of a healthy rank, with its bandwidths.
  unfoldable pub healthy : Fault → BaseEvent → S → Readings F × S
  unfolding spread_from scattered
  healthy f base rng =
      let (t, rng1) = spread_from (d.lit 65 0) (d.lit 3 0) rng in
      let (u, rng2) = spread_from (d.lit 92 0) (d.lit 4 0) rng1 in
      let (b, rng3) = spread_from (d.lit 55 0) (d.lit 10 0) rng2 in
      let (mbs, rng4) = scattered (d.lit 12_000 0) (d.lit 3 2) rng3 in
      let (gb, rng5) = scattered (d.lit 200 0) (d.lit 3 2) rng4 in
      let m : GpuMetric F = record {
        base = base;
        temperature = t;
        power_watts = d.lit 300 0;
        utilization = u;
        mem_bandwidth = b;
        ecc_errors_sbe = 0;
        ecc_errors_dbe = 0;
        sm_clock_mhz = d.lit 1900 0;
        throttle_reasons = 0;
        compute_procs = base_procs f;
      } in
      (record { metric = m; pcie_mbs = mbs; nvlink_gb = gb }, rng5)

  -- The last three events of a round.
  unfoldable pub sample_events : BaseEvent → SimState S → Readings F → List (Event F)
  sample_events base st x =
      gpu_metric (record x.metric { ecc_errors_sbe = st.ecc_s; ecc_errors_dbe = st.ecc_d })
      ∷ pcie (record { base = base; read_bandwidth = x.pcie_mbs; write_bandwidth = zero_f })
      ∷ nvlink (record { base = base; link_id = 0; throughput_gb = x.nvlink_gb })
      ∷ []

  -- What comes behind the collective where `s%5` is 0; `hit` is `isS`.
  unfoldable pub sample : Fault → Bool → BaseEvent → SimState S → List (Event F) × SimState S
  unfolding healthy afflict sample_events
  sample f hit base st =
      let (x, rng1) = healthy f base st.rng in
      let (y, rng2) = if hit then afflict f x rng1 else (x, rng1) in
      let st' = count_ecc (hit && has_ecc f) (record st { rng = rng2 }) in
      (sample_events base st' y, st')

  -- A collective, with what it leaves of the generator.
  unfoldable pub collective_at : Params F → ℤ → Bool → ℕ → ℕ → S → Event F × S
  unfolding scattered
  collective_at p straggler faulty s r rng =
      let (own, rng') = scattered (d.lit 10_000_000 0) p.jitter rng in
      let duration =
        if faulty && not (eqb_ℤ (pos r) straggler)
        then d.add own (d.mul (d.lit 10_000_000 0) p.severity)
        else own in
      (nccl (all_reduce s r (d.to_int duration)), rng')

  -- The body of the two loops, for the rank `r` in the step `s`.
  unfoldable pub emit_rank : Params F → ℤ → ℕ → ℕ → ℕ → SimState S → List (Event F) × SimState S
  unfolding sample collective_at
  emit_rank p straggler onset s r st =
      let faulty = is_faulty p.fault onset s in
      let (c, rng) = collective_at p straggler faulty s r st.rng in
      let st' = record st { rng = rng } in
      let (more, last) = sample p.fault (faulty && eqb_ℤ (pos r) straggler) (base_event s r) st' in
      if (s % 5) == 0 then (c ∷ more, last) else (c ∷ [], st')

  -- The ranks from `r` on, `n` of them.
  unfoldable pub rank_loop : Params F → ℤ → ℕ → ℕ → ℕ → ℕ → SimState S → List (Event F) × SimState S
  unfolding emit_rank
  rank_loop p straggler onset s r zero st = ([], st)
  rank_loop p straggler onset s r (suc n) st =
      let (es, st1) = emit_rank p straggler onset s r st in
      let (rest, st2) = rank_loop p straggler onset s (suc r) n st1 in (es ++ rest, st2)

  -- The steps from `s` on, `n` of them.
  unfoldable pub step_loop : Params F → ℤ → ℕ → ℕ → ℕ → SimState S → List (Event F) × SimState S
  unfolding rank_loop
  step_loop p straggler onset s zero st = ([], st)
  step_loop p straggler onset s (suc n) st =
      let (es, st1) = rank_loop p straggler onset s 0 (pos_part p.ranks) st in
      let (rest, st2) = step_loop p straggler onset (suc s) n st1 in (es ++ rest, st2)

  -- The loops of `Generate`, from the truth and the generator on.
  unfoldable pub run : Params F → GroundTruth → S → List (Event F) × GroundTruth
  unfolding step_loop
  run p truth rng =
      let n = pos_part p.steps in
      let start : SimState S = record { rng = rng; ecc_s = 0; ecc_d = 0 } in
      ((step_loop p truth.straggler (n / onset_div) 0 n start).0, truth)

  -- `none` is a panic.
  unfoldable pub generate : Params F → Option (List (Event F) × GroundTruth)
  unfolding run causes_for
  generate params =
      let p = with_defaults params in
      let rng = g.seeded p.seed in
      if is_clean p.fault
      then some (run p (record { fault = p.fault; straggler = negsuc 0; causes = [] }) rng)
      else elim (g.intn p.ranks rng) [
        | none ↦ none
        | some (k, rng') ↦
            some
              (run p (record { fault = p.fault; straggler = k; causes = causes_for p.fault }) rng')
      ]
