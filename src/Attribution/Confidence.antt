-- ===== src/Attribution/Confidence.antt =====
-- internal/attribution/engine.go: no confidence is above 0.95.
use distributed_gpu_training.Base.{
  ℕ, ◌≡◌, ◌*◌, ◌^◌, ◌≤◌, ◌++◌, Bool, true, false, inl, inr, Option, none, some, List, [], ◌∷◌, ◌==◌,
  if◌then◌else◌, Bool-cases, arith, All,
}
use distributed_gpu_training.Base.Int.{pos, sub_64, ltb_ℤ}
use distributed_gpu_training.Base.Sort.{sort_by, All-sort_by}
use distributed_gpu_training.Float.{Float64, IsFloat64}
use distributed_gpu_training.Event.{Event, GpuMetric}
use distributed_gpu_training.Correlator.Detect.{Anomaly}
use distributed_gpu_training.Attribution.Rules.{
  CauseType, CausalLink, Verdict, silent, ruled, fired, by_tally, frac, rule_thermal, rule_power,
  rule_clock, rule_contention, rule_ecc, bandwidth_drop, rule_pcie, rule_nvlink, rule_memory,
  rule_host_stall, tally, thermal_sample, power_sample, Detail, link, first_last, last_of,
  ecc_verdict, stall_verdict, ecc_errors, counter_delta, idle_loop, thermal_throttle,
  power_throttle, clock_reduced, gpu_contention, pcie_bandwidth_drop, nvlink_degraded,
  memory_pressure, host_stall,
}
use distributed_gpu_training.Attribution.Engine.{
  Engine, split_events, fired_links, verdicts, more_confident, or_unknown, attribute,
}

module _ {F : Type 0} ⦃d : Float64 F⦄ where
  abbrev pub IsCapped : CausalLink F → Type 0
  IsCapped l = d.lt (d.lit 95 2) l.confidence ≡ false

  abbrev CapsOut : Verdict F → Type 0
  CapsOut (fired l) = IsCapped l
  CapsOut silent = Unit
  CapsOut ruled = Unit

  module _ (laws : IsFloat64 F) where
    -- A literal up to 0.95.
    lit-capped :
        (m k : ℕ) → d.le (d.lit m k) (d.lit 95 2) ≡ true → d.lt (d.lit 95 2) (d.lit m k) ≡ false
    lit-capped m k h = ground (
      arith,
      laws.le-eq-not-lt (d.lit m k) (d.lit 95 2) (laws.lit_number m k) (laws.lit_number 95 2),
    )

    -- `min(x, c)` for a cap `c` of at most 0.95.
    min-capped :
        (x : F) (m k : ℕ)
        → d.le (d.lit m k) (d.lit 95 2) ≡ true
        → d.lt (d.lit 95 2) (d.fmin x (d.lit m k)) ≡ false
    min-capped x m k h = elim (Bool-cases (d.lt (d.lit 95 2) (d.fmin x (d.lit m k)))) [
      | inl above ↦ ground (
        arith,
        laws.fmin_right x (d.lit m k),
        laws.lt_number (d.lit 95 2) (d.fmin x (d.lit m k)) above,
        laws.le-eq-not-lt (d.fmin x (d.lit m k)) (d.lit m k),
        laws.le-eq-not-lt (d.fmin x (d.lit m k)) (d.lit 95 2),
        laws.le_trans (d.fmin x (d.lit m k)) (d.lit m k) (d.lit 95 2),
        laws.lit_number m k,
        laws.lit_number 95 2,
      )
      | inr below ↦ below
    ]

    by_tally-CapsOut : (c : CauseType) (t : ℕ × ℕ × Option (Event F)) → CapsOut (by_tally c t)
    unfolding frac
    by_tally-CapsOut c (n, hit, ev) = elim (Bool-cases (n == 0)) [
      | inl e ↦ rw e tt
      | inr e ↦ elim (Bool-cases (hit == 0)) [
        | inl f ↦ rw (e, f) tt
        | inr f ↦ rw (e, f) (laws.fmin_right _ (d.lit 95 2))
      ]
    ]

    choose-CapsOut :
        (s r : Bool) (c : CauseType) (ev : Option (Event F)) (x : F) (t : Detail F)
        → d.lt (d.lit 95 2) x ≡ false
        → CapsOut (if s then silent else (if r then ruled else link c ev x t))
    choose-CapsOut true r c ev x t h = tt
    choose-CapsOut false true c ev x t h = tt
    choose-CapsOut false false c ev x t h = h

    lit_up : (m k : ℕ) → m * 10 ^ 2 ≤ 95 * 10 ^ k → d.le (d.lit m k) (d.lit 95 2) ≡ true
    lit_up m k h = laws.lit_le m k 95 2 h

    bandwidth_drop-CapsOut :
        (c : CauseType) (v b : List F) (ev : Option (Event F)) → CapsOut (bandwidth_drop c v b ev)
    unfolding bandwidth_drop
    bandwidth_drop-CapsOut c v b ev =
        choose-CapsOut _ _ c ev _ _ (min-capped _ 95 2 (lit_up 95 2 (omega arith)))

    ecc_verdict-CapsOut : (o : Option (GpuMetric F × GpuMetric F)) → CapsOut (ecc_verdict o)
    ecc_verdict-CapsOut none = tt
    ecc_verdict-CapsOut (some (first, last)) =
        let dd = counter_delta last.ecc_errors_dbe first.ecc_errors_dbe in
        choose-CapsOut false _ ecc_errors _ _ _ (elim (Bool-cases (ltb_ℤ (pos 0) dd)) [
          | inl m ↦ rw m (lit-capped 9 1 (lit_up 9 1 (omega arith)))
          | inr m ↦ rw m (lit-capped 6 1 (lit_up 6 1 (omega arith)))
        ])

    stall_verdict-CapsOut : (o : Option (List F × Option (Event F))) → CapsOut (stall_verdict o)
    stall_verdict-CapsOut none = tt
    stall_verdict-CapsOut (some (v, ev)) =
        choose-CapsOut _ _ host_stall ev _ _ (min-capped _ 8 1 (lit_up 8 1 (omega arith)))

    verdicts-CapsOut :
        (during before : List (Event F)) → All (λ v. CapsOut v.1) (verdicts during before)
    unfolding rule_thermal rule_power rule_clock rule_contention rule_ecc rule_pcie rule_nvlink
        rule_memory rule_host_stall
    verdicts-CapsOut during before = (
      by_tally-CapsOut thermal_throttle (tally thermal_sample 0 0 none during),
      (
        by_tally-CapsOut power_throttle (tally power_sample 0 0 none during),
        (
          choose-CapsOut _ _ clock_reduced _ _ _ (min-capped _ 7 1 (lit_up 7 1 (omega arith))),
          (
            choose-CapsOut _ _ gpu_contention _ _ _ (lit-capped 7 1 (lit_up 7 1 (omega arith))),
            (
              ecc_verdict-CapsOut (first_last none (last_of before ++ during)),
              (
                bandwidth_drop-CapsOut pcie_bandwidth_drop _ _ _,
                (
                  bandwidth_drop-CapsOut nvlink_degraded _ _ _,
                  (
                    choose-CapsOut _ _ memory_pressure _ _ _
                        (lit-capped 5 1 (lit_up 5 1 (omega arith))),
                    (stall_verdict-CapsOut (idle_loop [] none during), tt),
                  ),
                ),
              ),
            ),
          ),
        ),
      ),
    )

    fired_links-IsCapped :
        (vs : List (CauseType × Verdict F))
        → All (λ v. CapsOut v.1) vs
        → All IsCapped (fired_links vs)
    fired_links-IsCapped [] h = tt
    fired_links-IsCapped ((c, fired l) ∷ vs) h = (h.0, fired_links-IsCapped vs h.1)
    fired_links-IsCapped ((c, _) ∷ vs) h = fired_links-IsCapped vs h.1

    or_unknown-IsCapped :
        (ls : List (CausalLink F)) → All IsCapped ls → All IsCapped (or_unknown ls)
    or_unknown-IsCapped [] h = (lit-capped 0 0 (lit_up 0 0 (omega arith)), tt)
    or_unknown-IsCapped (l ∷ ls) h = h

    -- No link of a causal chain has a confidence above 0.95, whatever the events are, NaN readings
    -- included.
    pub attribute-IsCapped :
        (eng : Engine) (a : Anomaly F) (events : List (Event F))
        → All IsCapped (attribute eng a events).causal_chain
    unfolding attribute
    attribute-IsCapped eng a events =
        let (during, before) =
          split_events (sub_64 a.start_ns eng.attribution_window_ns) a.end_ns events in
        let vs = verdicts during before in
        or_unknown-IsCapped (sort_by more_confident (fired_links vs)) (
          All-sort_by more_confident IsCapped (fired_links vs)
            (fired_links-IsCapped vs (verdicts-CapsOut during before)))
