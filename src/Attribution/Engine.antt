-- ===== src/Attribution/Engine.antt =====
-- internal/attribution/engine.go: `Attribute`.
use distributed_gpu_training.Base.{Bool, ◌&&◌, none, List, [], ◌∷◌, if◌then◌else◌}
use distributed_gpu_training.Base.Int.{ℤ, sub_64, ltb_ℤ, leb_ℤ}
use distributed_gpu_training.Base.Sort.{sort_by}
use distributed_gpu_training.Float.{Float64}
use distributed_gpu_training.Event.{Event, timestamp_ns}
use distributed_gpu_training.Correlator.Detect.{Anomaly}
use distributed_gpu_training.Attribution.Rules.{
  CauseType, thermal_throttle, power_throttle, ecc_errors, pcie_bandwidth_drop, nvlink_degraded,
  memory_pressure, clock_reduced, gpu_contention, host_stall, unknown, CausalLink, Verdict, ruled,
  fired, no_detail, rule_thermal, rule_power, rule_clock, rule_contention, rule_ecc, rule_pcie,
  rule_nvlink, rule_memory, rule_host_stall,
}

pub record Attribution (F : Type 0) : Type 0 where
  pub anomaly : Anomaly F
  pub causal_chain : List (CausalLink F)
  pub ruled_out : List CauseType

-- `Engine`, by its `attributionWindowNs`.
pub record Engine : Type 0 where
  pub attribution_window_ns : ℤ

module _ {F : Type 0} where
  -- The loop over the events of the rank: those of the window, and those before it.
  abbrev pub split_events : ℤ → ℤ → List (Event F) → List (Event F) × List (Event F)
  split_events lo hi [] = ([], [])
  split_events lo hi (e ∷ es) =
      let ts = timestamp_ns e in
      let (during, before) = split_events lo hi es in
      if leb_ℤ lo ts && leb_ℤ ts hi
      then (e ∷ during, before)
      else (if ltb_ℤ ts lo then (during, e ∷ before) else (during, before))

  -- The loop over the rules, on their verdicts: the links that fired, and the causes ruled out.
  abbrev pub fired_links : List (CauseType × Verdict F) → List (CausalLink F)
  fired_links [] = []
  fired_links ((c, fired l) ∷ vs) = l ∷ fired_links vs
  fired_links ((c, _) ∷ vs) = fired_links vs

  abbrev pub ruled_causes : List (CauseType × Verdict F) → List CauseType
  ruled_causes [] = []
  ruled_causes ((c, ruled) ∷ vs) = c ∷ ruled_causes vs
  ruled_causes ((c, _) ∷ vs) = ruled_causes vs

module _ {F : Type 0} ⦃d : Float64 F⦄ where
  -- `rules` with `names`, each rule called.
  abbrev pub verdicts : List (Event F) → List (Event F) → List (CauseType × Verdict F)
  verdicts during before =
      (thermal_throttle, rule_thermal during before)
      ∷ (power_throttle, rule_power during before)
      ∷ (clock_reduced, rule_clock during before)
      ∷ (gpu_contention, rule_contention during before)
      ∷ (ecc_errors, rule_ecc during before)
      ∷ (pcie_bandwidth_drop, rule_pcie during before)
      ∷ (nvlink_degraded, rule_nvlink during before)
      ∷ (memory_pressure, rule_memory during before)
      ∷ (host_stall, rule_host_stall during before)
      ∷ []

  abbrev pub more_confident : CausalLink F → CausalLink F → Bool
  more_confident a b = d.lt b.confidence a.confidence

  abbrev pub unknown_link : CausalLink F
  unknown_link = record {
    cause = unknown;
    evidence = none;
    confidence = d.lit 0 0;
    detail = no_detail;
  }

  abbrev pub or_unknown : List (CausalLink F) → List (CausalLink F)
  or_unknown [] = unknown_link ∷ []
  or_unknown (l ∷ ls) = l ∷ ls

  unfoldable pub attribute : Engine → Anomaly F → List (Event F) → Attribution F
  attribute eng a events =
      let lo = sub_64 a.start_ns eng.attribution_window_ns in
      let (during, before) = split_events lo a.end_ns events in
      let vs = verdicts during before in
      record {
        anomaly = a;
        causal_chain = or_unknown (sort_by more_confident (fired_links vs));
        ruled_out = ruled_causes vs;
      }
