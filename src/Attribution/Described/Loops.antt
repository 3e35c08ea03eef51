-- ===== src/Attribution/Described/Loops.antt =====
-- internal/attribution/engine.go: the loops of `Attribute` and of its rules against their description.
use distributed_gpu_training.Base.{
  ℕ, suc, ◌+◌, ◌≡◌, refl, ap, ap₂, ◌∙◌, Bool, true, false, ◌&&◌, inl, inr, Option, none, some, List,
  [], ◌∷◌, ◌++◌, append-nil, append_assoc, length, keep, Bool-cases, Option-cases, if◌then◌else◌,
  arith,
}
use Prim.Native.Nat.{bit_or}
use distributed_gpu_training.Base.Pick.{
  pick, gives, final_or, final, final_after, any, listed, final_or-some, listed_again,
}
use distributed_gpu_training.Base.Int.{ℤ, ltb_ℤ, leb_ℤ}
use distributed_gpu_training.Float.{Float64}
use distributed_gpu_training.Event.{
  Event, GpuMetric, gpu_metric, nccl, pcie, nvlink, thermal, timestamp_ns,
}
use distributed_gpu_training.Correlator.Detect.{Anomaly}
use distributed_gpu_training.Attribution.Rules.{
  tally, gather, last_of, first_last, idle_loop, ecc_verdict, bandwidth_drop, has_bits,
  thermal_mask, power_mask, rule_thermal, rule_power, rule_clock, rule_contention, rule_ecc,
  rule_pcie, rule_nvlink, rule_memory, rule_host_stall, thermal_throttle, power_throttle,
  pcie_bandwidth_drop, nvlink_degraded, thermal_sample, power_sample, pcie_reading, nvlink_reading,
}
use distributed_gpu_training.Attribution.Engine.{Engine, split_events, verdicts, attribute}
use distributed_gpu_training.Attribution.Described.{
  in_window, is_before, is_hit, gpu_of, utilization_of, is_throttled, by_share, by_counters,
  described, clock_verdict, contention_verdict, memory_verdict, host_stall_verdict, by_bandwidth,
}

module _ {F : Type 0} where
  split_events-keep :
      (lo hi : ℤ) (es : List (Event F))
      → split_events lo hi es ≡ (keep (in_window lo hi) es, keep (is_before lo) es)
  split_events-keep lo hi [] = refl
  split_events-keep lo hi (e ∷ es) =
      let t = timestamp_ns e in
      let rest = split_events-keep lo hi es in
      elim (Bool-cases (leb_ℤ lo t && leb_ℤ t hi)) [
        | inl q ↦
            let late : ltb_ℤ t lo ≡ false = ground arith in
            rw (q, split_events, late, ap (λ r. r.0) rest, ap (λ r. r.1) rest)
        | inr q ↦ elim (Bool-cases (ltb_ℤ t lo)) [
          | inl p ↦ rw (q, split_events, p, ap (λ r. r.0) rest, ap (λ r. r.1) rest)
          | inr p ↦ rw (q, split_events, p, ap (λ r. r.0) rest, ap (λ r. r.1) rest)
        ]
      ]

  tally-keep :
      (sample : Event F → Option Bool) (n hit : ℕ) (ev : Option (Event F)) (es : List (Event F))
      → tally sample n hit ev es ≡ (
        n + length (keep (gives sample) es),
        hit + length (keep (is_hit sample) es),
        final_or ev (keep (is_hit sample) es),
      )
  tally-keep sample n hit ev [] =
      let p : n ≡ n + 0 = omega arith in
      let q : hit ≡ hit + 0 = omega arith in ap₂ (λ x y. (x, y, ev)) p q
  tally-keep sample n hit ev (e ∷ es) =
      let a = length (keep (gives sample) es) in
      let b = length (keep (is_hit sample) es) in
      let s : (n h : ℕ) → suc n + h ≡ n + suc h = λ n h. omega arith in
      elim (Option-cases (sample e)) [
        | inl q ↦ rw (q, tally, gives, is_hit) (tally-keep sample n hit ev es)
        | inr (true, q) ↦
            rw (q, tally, gives, is_hit)
              (tally-keep sample (suc n) (suc hit) (some e) es
                ∙ ap₂ (λ x y. (x, y, final_or (some e) (keep (is_hit sample) es))) (s n a)
                    (s hit b))
        | inr (false, q) ↦
            rw (q, tally, gives, is_hit)
              (tally-keep sample (suc n) hit ev es
                ∙ ap (λ x. (x, hit + b, final_or ev (keep (is_hit sample) es))) (s n a))
      ]

  tally-pick :
      (sample : Event F → Option Bool) (es : List (Event F))
      → tally sample 0 0 none es ≡ (
        length (keep (gives sample) es),
        length (keep (is_hit sample) es),
        final (keep (is_hit sample) es),
      )
  tally-pick sample es =
      let z : (n : ℕ) → 0 + n ≡ n = λ n. omega arith in
      tally-keep sample 0 0 none es
      ∙ ap₂ (λ x y. (x, y, final (keep (is_hit sample) es))) (z (length (keep (gives sample) es)))
          (z (length (keep (is_hit sample) es)))

  gather-pick :
      (read : Event F → Option F) (v : List F) (last : Option (Event F)) (es : List (Event F))
      → gather read v last es ≡ (v ++ pick read es, final_or last (keep (gives read) es))
  gather-pick read v last [] = rw append-nil refl
  gather-pick read v last (e ∷ es) = elim (Option-cases (read e)) [
    | inl q ↦ rw (q, gather, pick, gives) (gather-pick read v last es)
    | inr (x, q) ↦
        rw (q, gather, pick, gives)
          (rw append_assoc at (gather-pick read (v ++ (x ∷ [])) (some e) es))
  ]

  last_of-final : (es : List (Event F)) → last_of es ≡ listed (final (keep (gives gpu_of) es))
  last_of-final [] = refl
  last_of-final (gpu_metric m ∷ es) = rw (last_of-final es) (after (keep (gives gpu_of) es))
    where
      after :
          (l : List (Event F))
          → elim (listed (final l)) [ x ∷ xs ↦ x ∷ xs | [] ↦ gpu_metric m ∷ [] ]
            ≡ listed (final_or (some (gpu_metric m)) l)
      after [] = refl
      after (x ∷ xs) = rw final_or-some refl
  last_of-final (nccl m ∷ es) = listed_again (last_of es) ∙ last_of-final es
  last_of-final (pcie m ∷ es) = listed_again (last_of es) ∙ last_of-final es
  last_of-final (nvlink m ∷ es) = listed_again (last_of es) ∙ last_of-final es
  last_of-final (thermal m ∷ es) = listed_again (last_of es) ∙ last_of-final es

  first_last-some :
      (a b : GpuMetric F) (es : List (Event F))
      → first_last (some (a, b)) es ≡ some (a, final_after b (pick gpu_of es))
  first_last-some a b [] = refl
  first_last-some a b (gpu_metric m ∷ es) = first_last-some a m es
  first_last-some a b (nccl m ∷ es) = first_last-some a b es
  first_last-some a b (pcie m ∷ es) = first_last-some a b es
  first_last-some a b (nvlink m ∷ es) = first_last-some a b es
  first_last-some a b (thermal m ∷ es) = first_last-some a b es

  idle_loop-pick :
      (v : List F) (ev : Option (Event F)) (es : List (Event F))
      → idle_loop v ev es ≡ (
          if any is_throttled es
          then none
          else some (v ++ pick utilization_of es, final_or ev (keep (gives utilization_of) es)))
  idle_loop-pick v ev [] = rw append-nil refl
  idle_loop-pick v ev (gpu_metric m ∷ es) =
      elim (Bool-cases (has_bits (bit_or thermal_mask power_mask) m)) [
        | inl q ↦ rw (q, idle_loop, any, is_throttled) refl
        | inr q ↦
            rw (q, idle_loop, any, is_throttled)
              (rw append_assoc at
                (idle_loop-pick (v ++ (m.utilization ∷ [])) (some (gpu_metric m)) es))
      ]
  idle_loop-pick v ev (nccl m ∷ es) = idle_loop-pick v ev es
  idle_loop-pick v ev (pcie m ∷ es) = idle_loop-pick v ev es
  idle_loop-pick v ev (nvlink m ∷ es) = idle_loop-pick v ev es
  idle_loop-pick v ev (thermal m ∷ es) = idle_loop-pick v ev es

module _ {F : Type 0} ⦃d : Float64 F⦄ where
  ecc_verdict-counters :
      (es : List (Event F)) → ecc_verdict (first_last none es) ≡ by_counters (pick gpu_of es)
  ecc_verdict-counters [] = refl
  ecc_verdict-counters (gpu_metric m ∷ es) = rw (first_last-some m m es) refl
  ecc_verdict-counters (nccl m ∷ es) = ecc_verdict-counters es
  ecc_verdict-counters (pcie m ∷ es) = ecc_verdict-counters es
  ecc_verdict-counters (nvlink m ∷ es) = ecc_verdict-counters es
  ecc_verdict-counters (thermal m ∷ es) = ecc_verdict-counters es

  rule_thermal-share :
      (w b : List (Event F)) → rule_thermal w b ≡ by_share thermal_throttle thermal_sample w
  unfolding rule_thermal
  rule_thermal-share w b = rw tally-pick refl

  rule_power-share :
      (w b : List (Event F)) → rule_power w b ≡ by_share power_throttle power_sample w
  unfolding rule_power
  rule_power-share w b = rw tally-pick refl

  rule_clock-medians : (w b : List (Event F)) → rule_clock w b ≡ clock_verdict w b
  unfolding rule_clock
  rule_clock-medians w b = rw (gather-pick, gather-pick) refl

  rule_contention-medians : (w b : List (Event F)) → rule_contention w b ≡ contention_verdict w b
  unfolding rule_contention
  rule_contention-medians w b = rw (gather-pick, gather-pick) refl

  rule_ecc-counters :
      (w b : List (Event F))
      → rule_ecc w b ≡ by_counters (pick gpu_of (listed (final (keep (gives gpu_of) b)) ++ w))
  unfolding rule_ecc
  rule_ecc-counters w b =
      rw last_of-final (ecc_verdict-counters (listed (final (keep (gives gpu_of) b)) ++ w))

  rule_pcie-medians :
      (w b : List (Event F)) → rule_pcie w b ≡ by_bandwidth pcie_bandwidth_drop pcie_reading w b
  unfolding rule_pcie bandwidth_drop
  rule_pcie-medians w b = rw (gather-pick, gather-pick) refl

  rule_nvlink-medians :
      (w b : List (Event F)) → rule_nvlink w b ≡ by_bandwidth nvlink_degraded nvlink_reading w b
  unfolding rule_nvlink bandwidth_drop
  rule_nvlink-medians w b = rw (gather-pick, gather-pick) refl

  rule_memory-mean : (w b : List (Event F)) → rule_memory w b ≡ memory_verdict w
  unfolding rule_memory
  rule_memory-mean w b = rw gather-pick refl

  rule_host_stall-mean : (w b : List (Event F)) → rule_host_stall w b ≡ host_stall_verdict w
  unfolding rule_host_stall
  rule_host_stall-mean w b =
      rw idle_loop-pick
        (elim (Bool-cases (any is_throttled w)) [ inl q ↦ rw q refl | inr q ↦ rw q refl ])

  -- `Attribute` gives the causes that the description gives, with the same evidence, confidence and
  -- numbers in the same order, and rules out the same causes.
  pub attribute-described :
      (eng : Engine) (a : Anomaly F) (es : List (Event F)) → attribute eng a es ≡ described eng a es
  unfolding attribute
  attribute-described eng a es =
      rw
        (
          split_events-keep, verdicts, rule_thermal-share, rule_power-share, rule_clock-medians,
          rule_contention-medians, rule_ecc-counters, rule_pcie-medians, rule_nvlink-medians,
          rule_memory-mean, rule_host_stall-mean,
        )
        refl
