-- ===== src/Attribution/Evidence.antt =====
-- internal/attribution/engine.go: no rule fires without evidence from the window.
pub mod Loops
use distributed_gpu_training.Attribution.Evidence.Loops.{
  none-some, IsBacked, BacksOut, IsEvidence, tally-IsEvidence, gather-IsEvidence, choose-BacksOut,
  by_tally-BacksOut, IsSpan, first_last-IsSpan, last_of-IsSpan, idle_loop-IsEvidence, last_of_cases,
}
use Prim.Native.Nat.{bit_or}
use distributed_gpu_training.Base.{
  ℕ, suc, ◌≡◌, refl, ◌⊎◌, ◌++◌, Bool, true, false, ◌&&◌, ◌||◌, inl, inr, Option, none, some, List,
  [], ◌∷◌, ◌==◌, if◌then◌else◌, Bool-cases, Option-cases, arith, All,
}
use distributed_gpu_training.Base.Int.{ℤ, pos, sub_64, wrap_64, ◌-ℤ◌, leb_ℤ}
use distributed_gpu_training.Float.{Float64}
use distributed_gpu_training.Event.{Event, GpuMetric, gpu_metric, nccl}
use distributed_gpu_training.Attribution.Rules.{
  CauseType, CausalLink, Verdict, silent, ruled, fired, by_tally, tally, gather, is_empty, last_of,
  first_last, ecc_verdict, counter_delta, ecc_errors, idle_loop, stall_verdict, host_stall,
  has_bits, thermal_mask, power_mask, link, Detail, bandwidth_drop, rule_thermal, rule_power,
  rule_clock, rule_contention, rule_ecc, rule_pcie, rule_nvlink, rule_memory, rule_host_stall,
  thermal_sample, power_sample, clock_reading, procs_reading, pcie_reading, nvlink_reading,
  memory_reading, thermal_throttle, power_throttle, clock_reduced, gpu_contention,
  pcie_bandwidth_drop, nvlink_degraded, memory_pressure,
}
use distributed_gpu_training.Attribution.Engine.{verdicts}

or_left : (a b : Bool) → (a || b) ≡ false → a ≡ false
or_left a b h = ground arith

sub_64_self : (z : ℤ) → sub_64 z z ≡ pos 0
unfolding sub_64 ◌-ℤ◌ wrap_64
sub_64_self z = ground arith

module _ {F : Type 0} ⦃d : Float64 F⦄ (P : Event F → Type 0) where
  ecc_verdict-BacksOut :
      (o : Option (GpuMetric F × GpuMetric F)) → IsSpan P o → BacksOut P ecc_errors (ecc_verdict o)
  ecc_verdict-BacksOut none s = tt
  ecc_verdict-BacksOut (some (a, b)) (inl same) =
      let none_up : counter_delta b.ecc_errors_sbe a.ecc_errors_sbe ≡ pos 0 =
        rw same (sub_64_self (wrap_64 (pos b.ecc_errors_sbe))) in
      let none_up' : counter_delta b.ecc_errors_dbe a.ecc_errors_dbe ≡ pos 0 =
        rw same (sub_64_self (wrap_64 (pos b.ecc_errors_dbe))) in
      rw (none_up, none_up') tt
  ecc_verdict-BacksOut (some (a, b)) (inr w) =
      let ds = counter_delta b.ecc_errors_sbe a.ecc_errors_sbe in
      let dd = counter_delta b.ecc_errors_dbe a.ecc_errors_dbe in
      elim (Bool-cases (leb_ℤ ds (pos 0) && leb_ℤ dd (pos 0))) [
        | inl t ↦ rw t tt
        | inr t ↦ rw t (record { cause = refl; event = gpu_metric b; evidence = refl; holds = w })
      ]

  stall_verdict-BacksOut :
      (es : List (Event F))
      → All P es
      → BacksOut P host_stall (stall_verdict (idle_loop [] none es))
  stall_verdict-BacksOut es h = elim (Option-cases (idle_loop [] none es)) [
    | inl q ↦ rw q tt
    | inr ((v, ev), q) ↦ rw q (
        choose-BacksOut P host_stall (is_empty v) _ ev _ _
          (idle_loop-IsEvidence P [] none es h (λ t. cc) v ev q))
  ]

  readings-IsEvidence :
      (read : Event F → Option F) (es : List (Event F))
      → All P es
      → let (v, ev) = gather read [] none es in is_empty v ≡ false → IsEvidence P ev
  readings-IsEvidence read es h = gather-IsEvidence P read [] none es h (λ t. cc)

  hits-IsEvidence :
      (sample : Event F → Option Bool) (es : List (Event F))
      → All P es
      → let (_, hit, ev) = tally sample 0 0 none es in (hit == 0) ≡ false → IsEvidence P ev
  hits-IsEvidence sample es h = tally-IsEvidence P sample 0 0 none es h (λ t. cc)

  bandwidth_drop-BacksOut :
      (c : CauseType) (v b : List F) (ev : Option (Event F))
      → (is_empty v ≡ false → IsEvidence P ev)
      → BacksOut P c (bandwidth_drop c v b ev)
  unfolding bandwidth_drop
  bandwidth_drop-BacksOut c v b ev h =
      choose-BacksOut P c (is_empty v || is_empty b) _ ev _ _ (λ t. h (or_left _ _ t))

  -- Every rule, on the events of the window and those before it.
  pub verdicts-BacksOut :
      (during before : List (Event F))
      → All P during
      → All (λ v. BacksOut P v.0 v.1) (verdicts during before)
  unfolding rule_thermal rule_power rule_clock rule_contention rule_ecc rule_pcie rule_nvlink
      rule_memory rule_host_stall
  verdicts-BacksOut during before h = (
    by_tally-BacksOut P thermal_throttle _ _ _ (hits-IsEvidence thermal_sample during h),
    (
      by_tally-BacksOut P power_throttle _ _ _ (hits-IsEvidence power_sample during h),
      (
        choose-BacksOut P clock_reduced _ _ _ _ _
            (λ t. readings-IsEvidence clock_reading during h (or_left _ _ t)),
        (
          choose-BacksOut P gpu_contention _ _ _ _ _
              (λ t. readings-IsEvidence procs_reading during h (or_left _ _ t)),
          (
            ecc_verdict-BacksOut (first_last none (last_of before ++ during))
                (last_of-IsSpan P before during h),
            (
              bandwidth_drop-BacksOut pcie_bandwidth_drop _ _ _
                  (readings-IsEvidence pcie_reading during h),
              (
                bandwidth_drop-BacksOut nvlink_degraded _ _ _
                    (readings-IsEvidence nvlink_reading during h),
                (
                  choose-BacksOut P memory_pressure _ _ _ _ _
                      (readings-IsEvidence memory_reading during h),
                  (stall_verdict-BacksOut during h, tt),
                ),
              ),
            ),
          ),
        ),
      ),
    ),
  )
