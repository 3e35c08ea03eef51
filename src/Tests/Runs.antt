-- ===== src/Tests/Runs.antt =====
-- Runs of the model on small inputs.
use distributed_gpu_training.Base.{
  ℕ, ◌+◌, ltb, ◌≡◌, refl, some, List, [], ◌∷◌, map, codes, bytes_lt, bytes_eq,
}
use distributed_gpu_training.Base.Int.{pos, sub_64}
use distributed_gpu_training.Float.Fixed.{Fixed, fixed_float, running}
use distributed_gpu_training.Event.{Event}
use distributed_gpu_training.Buffer.{new, push, snapshot, range, ◌>>=◌}
use distributed_gpu_training.Buffer.Refine.{push_all}
use distributed_gpu_training.Correlator.Stats.{robust_scale, compute_stats}
use distributed_gpu_training.Correlator.Store.{ingest_event, new_correlator, default_config}
use distributed_gpu_training.Correlator.Store.History.{ingest_all}
use distributed_gpu_training.Correlator.Detect.{detect_anomalies, mode_key}
use distributed_gpu_training.Attribution.Rules.{
  CauseType, thermal_throttle, power_throttle, clock_reduced, ecc_errors, memory_pressure,
  host_stall, rule_thermal, rule_power, rule_clock, rule_contention, rule_ecc, rule_pcie,
  rule_nvlink, rule_memory, rule_host_stall,
}
use distributed_gpu_training.Attribution.Engine.{attribute}
use distributed_gpu_training.Coordinator.{whole_trace}
use distributed_gpu_training.Tests.Data.{mixed, whole_f, sample_of, loaded, engine, late_anomaly}

-- A buffer of five slots has eight, and keeps the last eight of ten events.
buffer_run :
    (do
      rb ← new {A = ℕ} (pos 5)
      rb' ← push_all rb (1 ∷ 2 ∷ 3 ∷ 4 ∷ 5 ∷ 6 ∷ 7 ∷ 8 ∷ 9 ∷ 10 ∷ [])
      snapshot rb')
    ≡ some (map some (3 ∷ 4 ∷ 5 ∷ 6 ∷ 7 ∷ 8 ∷ 9 ∷ 10 ∷ []))
unfolding new push_all push snapshot
buffer_run = refl

-- A walk that stops at the third event.
range_run :
    (do
      rb ← new {A = ℕ} (pos 4)
      rb' ← push_all rb (1 ∷ 2 ∷ 3 ∷ 4 ∷ [])
      range (λ n e. (n + 1, ltb n 2)) 0 rb')
    ≡ some 3
unfolding new push_all push range
range_run = refl

median_run : (compute_stats (map whole_f (4 ∷ 1 ∷ 3 ∷ 2 ∷ []))).median ≡ some (pos 25_000)
unfolding compute_stats running
median_run = refl

mad_run : (compute_stats (map whole_f (1 ∷ 2 ∷ 3 ∷ 4 ∷ 100 ∷ []))).mad ≡ whole_f 1
unfolding compute_stats running
mad_run = refl

-- The most frequent operation, and the least of those that tie.
mode_run : mode_key ((codes "B", 2) ∷ (codes "A", 2) ∷ (codes "C", 1) ∷ []) ≡ codes "A"
unfolding mode_key bytes_lt
mode_run = refl

-- One anomaly: rank 2, in both blocks.
detect_run : detect_anomalies loaded whole_trace ≡ late_anomaly ∷ []
unfolding detect_anomalies ingest_all ingest_event new_correlator default_config running bytes_lt
    sub_64 bytes_eq compute_stats robust_scale
detect_run = refl

-- The causes in the chain and the causes ruled out.
abbrev causes : List (Event Fixed) → List CauseType × List CauseType
causes es =
    let a = attribute engine late_anomaly es in (map (λ l. l.cause) a.causal_chain, a.ruled_out)

throttled_run :
    causes (sample_of 1100 2 0x20 1400 ∷ sample_of 1200 2 0x20 1400 ∷ [])
    ≡ (thermal_throttle ∷ [], power_throttle ∷ ecc_errors ∷ memory_pressure ∷ host_stall ∷ [])
unfolding attribute running sub_64 compute_stats rule_thermal rule_power rule_clock rule_contention
    rule_ecc rule_pcie rule_nvlink rule_memory rule_host_stall
throttled_run = refl

-- One throttled sample of four, and a clock that fell: the clock comes first.
clock_first_run : (causes mixed).0 ≡ clock_reduced ∷ thermal_throttle ∷ []
unfolding attribute running sub_64 compute_stats rule_thermal rule_power rule_clock rule_contention
    rule_ecc rule_pcie rule_nvlink rule_memory rule_host_stall
clock_first_run = refl
