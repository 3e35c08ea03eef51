-- ===== src/Tests/Analyses.antt =====
-- The theorems on the correlator, the attribution and the coordinator at concrete inputs.
use mathlib.Core.List.{Perm}
use mathlib.Core.List.Perm
use distributed_gpu_training.Base.{
  ◌+◌, ◌≤◌, ◌<◌, ◌≡◌, ◌⊎◌, refl, ◌&&◌, some, [], ◌∷◌, map, length, keep, All, arith,
}
use distributed_gpu_training.Base.Int.{pos, sub_64, ◌<ℤ◌}
use distributed_gpu_training.Float.Fixed.{Fixed, fixed_float, Fixed-IsFloat64}
use distributed_gpu_training.Event.{Event}
use distributed_gpu_training.Correlator.Store.{
  default_config, new_correlator, ingest_event, events_for_rank, not_before,
}
use distributed_gpu_training.Correlator.Store.Lookup.{IsTimed}
use distributed_gpu_training.Correlator.Store.Window.{InWindow, IsRecent, ingest_event-window}
use distributed_gpu_training.Correlator.Store.Invariant.{
  IsValid, new_correlator-IsValid, ingest_event-IsValid,
}
use distributed_gpu_training.Correlator.Store.History.{
  ingest_all, ingest_all-IsValid, has_rank, events_for_rank-ingest_all,
}
use distributed_gpu_training.Correlator.Detect.{detect_anomalies}
use distributed_gpu_training.Correlator.Detect.Report.{
  IsReport, scored, flags_of, detect_anomalies-IsReport,
}
use distributed_gpu_training.Attribution.Engine.{attribute}
use distributed_gpu_training.Attribution.Rules.{
  CauseType, unknown, clock_reduced, gpu_contention, pcie_bandwidth_drop, nvlink_degraded,
}
use distributed_gpu_training.Attribution.Engine.{unknown_link}
use distributed_gpu_training.Attribution.Grounded.{IsGrounded, attribute-IsGrounded}
use distributed_gpu_training.Attribution.Described.{described}
use distributed_gpu_training.Attribution.Described.Loops.{attribute-described}
use distributed_gpu_training.Attribution.Chain.{times, causes, attribute-times}
use distributed_gpu_training.Attribution.Baseline.{HasNoBaseline, IsOpen, attribute-IsOpen}
use distributed_gpu_training.Attribution.Confidence.{IsCapped, attribute-IsCapped}
use distributed_gpu_training.Coordinator.{Options, new_live, analyze, whole_trace}
use distributed_gpu_training.Coordinator.Window
use distributed_gpu_training.Coordinator.Window.{capacity_of, newest, ingest_all-newest}
use distributed_gpu_training.Coordinator.Analysis.{
  filled, engine_of, IsExplained, analyze-IsExplained,
}
use distributed_gpu_training.Tests.Data.{
  whole_f, sample_of, trace, long_trace, small_config, window_config, loaded, windowed, engine,
  late_anomaly, mixed,
}

-- The correlator.
abbrev late_sample : Event Fixed
late_sample = sample_of 900 1 0 1400

windowed-IsValid : IsValid windowed
windowed-IsValid =
    ingest_all-IsValid trace (new_correlator window_config) (new_correlator-IsValid window_config)

ingest_event-IsValid_example : IsValid (ingest_event windowed 1 (some late_sample))
ingest_event-IsValid_example = ingest_event-IsValid windowed 1 (some late_sample) windowed-IsValid

windowed_lookback : pos 0 <ℤ windowed.cfg.lookback
unfolding ingest_all ingest_event new_correlator default_config
windowed_lookback = omega arith

ingest_event-window_example :
    let c = ingest_event windowed 1 (some late_sample) in
    let cutoff = sub_64 c.newest_ns windowed.cfg.lookback in
    All (λ m. All (InWindow cutoff c.newest_ns) m.1) c.rank_events
    × All (λ g. IsRecent cutoff g.1) c.groups
ingest_event-window_example =
    ingest_event-window windowed 1 late_sample windowed-IsValid windowed_lookback

events_for_rank-ingest_all_example :
    Perm
      (events_for_rank loaded 2 (pos 1100))
      (keep (λ e. has_rank 2 e && not_before (pos 1100) e) trace)
    × IsTimed (events_for_rank loaded 2 (pos 1100))
events_for_rank-ingest_all_example =
    events_for_rank-ingest_all small_config trace 2 (pos 1100) (omega arith)

detect_anomalies-IsReport_example :
    All
      (IsReport loaded.cfg (scored loaded whole_trace) (flags_of loaded whole_trace))
      (detect_anomalies loaded whole_trace)
detect_anomalies-IsReport_example = detect_anomalies-IsReport loaded whole_trace

-- The attribution.
attribute-IsCapped_example : All IsCapped (attribute engine late_anomaly trace).causal_chain
attribute-IsCapped_example = attribute-IsCapped Fixed-IsFloat64 engine late_anomaly trace

attribute-IsGrounded_example :
    All
      (IsGrounded (sub_64 (pos 1002) (pos 500)) (pos 1302) trace)
      (attribute engine late_anomaly trace).causal_chain
attribute-IsGrounded_example = attribute-IsGrounded engine late_anomaly trace

attribute-times_example :
    let r = attribute engine late_anomaly trace in
    ((c : CauseType) → times c (causes r.causal_chain) + times c r.ruled_out ≤ 1)
    × ((r.causal_chain ≡ unknown_link ∷ [])
        ⊎ ((times unknown (causes r.causal_chain) ≡ 0) × (0 < length r.causal_chain)))
attribute-times_example = attribute-times engine late_anomaly trace

attribute-described_example :
    attribute engine late_anomaly mixed ≡ described engine late_anomaly mixed
attribute-described_example = attribute-described engine late_anomaly mixed

trace-HasNoBaseline : HasNoBaseline (sub_64 (pos 1002) (pos 500)) trace
unfolding sub_64
trace-HasNoBaseline = (
  refl,
  (
    refl,
    (
      refl,
      (refl, (refl, (refl, (refl, (refl, (refl, (refl, (refl, (refl, (refl, (refl, tt))))))))))),
    ),
  ),
)

attribute-IsOpen_example :
    let r = attribute engine late_anomaly trace in
    IsOpen clock_reduced r
    × IsOpen gpu_contention r
    × IsOpen pcie_bandwidth_drop r
    × IsOpen nvlink_degraded r
attribute-IsOpen_example = attribute-IsOpen engine late_anomaly trace trace-HasNoBaseline

-- The coordinator.
abbrev options : Options Fixed
options = record { threshold_sigma = whole_f 0; attribution_window = pos 500 }

ingest_all-newest_example :
    ((Window.ingest_all (new_live options (pos 4)) trace).events
      ≡ newest (capacity_of (pos 4)) trace)
    × (length (Window.ingest_all (new_live options (pos 4)) trace).events ≤ capacity_of (pos 4))
ingest_all-newest_example = ingest_all-newest options (pos 4) trace

analyze-IsExplained_example :
    let c = filled options long_trace in
    let found = (analyze long_trace options).attributions in
    All (IsExplained (engine_of options) long_trace) found
    × (map (λ x. x.anomaly) found ≡ detect_anomalies c whole_trace)
    × All
        (IsReport c.cfg (scored c whole_trace) (flags_of c whole_trace))
        (map (λ x. x.anomaly) found)
analyze-IsExplained_example = analyze-IsExplained long_trace options
