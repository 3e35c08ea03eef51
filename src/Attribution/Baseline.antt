-- ===== src/Attribution/Baseline.antt =====
-- internal/attribution/engine.go: the rules that compare with a baseline say nothing without one.
use distributed_gpu_training.Base.{
  ◌+◌, ◌≡◌, refl, ◌⊎◌, Bool, true, false, ◌||◌, inl, inr, List, [], ◌∷◌, ◌==◌, ◌&&◌, if◌then◌else◌,
  Bool-cases, arith, All,
}
use distributed_gpu_training.Base.Int.{ℤ, sub_64, ltb_ℤ, leb_ℤ}
use distributed_gpu_training.Base.Sort.{sort_by}
use distributed_gpu_training.Float.{Float64}
use distributed_gpu_training.Event.{Event, timestamp_ns}
use distributed_gpu_training.Correlator.Detect.{Anomaly}
use distributed_gpu_training.Attribution.Rules.{
  CauseType, pcie_bandwidth_drop, nvlink_degraded, clock_reduced, gpu_contention, unknown,
  CausalLink, Verdict, silent, ruled, fired, bandwidth_drop, rule_clock, rule_contention, rule_pcie,
  rule_nvlink,
}
use distributed_gpu_training.Attribution.Engine.{
  Attribution, Engine, split_events, fired_links, ruled_causes, verdicts, more_confident,
  or_unknown, attribute,
}
use distributed_gpu_training.Attribution.Evidence.{verdicts-BacksOut}
use distributed_gpu_training.Attribution.Evidence.Loops.{BacksOut}
use distributed_gpu_training.Attribution.Chain.{number, times, causes, Any, All-Any, times-sort_by}

silent_without :
    {F : Type 0} (a : Bool) (v : Verdict F) → (if a || true then silent else v) ≡ silent
silent_without true v = refl
silent_without false v = refl

module _ {F : Type 0} where
  -- The cause's own rule is silent.
  abbrev IsMute : CauseType → CauseType × Verdict F → Type 0
  IsMute c v = ((number v.0 == number c) ≡ false) ⊎ (v.1 ≡ silent)

  times-mute :
      (c : CauseType) (vs : List (CauseType × Verdict F))
      → All (λ v. BacksOut Any v.0 v.1) vs
      → All (IsMute c) vs
      → times c (causes (fired_links vs)) + times c (ruled_causes vs) ≡ 0
  times-mute c [] b h = refl
  times-mute c ((k, silent) ∷ vs) b h = times-mute c vs b.1 h.1
  times-mute c ((k, ruled) ∷ vs) b (inl other, h) = rw other (times-mute c vs b.1 h)
  times-mute c ((k, ruled) ∷ vs) b (inr q, h) = cc
  times-mute c ((k, fired l) ∷ vs) b (inl other, h) =
      let own : l.cause ≡ k = b.0.cause in rw (own, other) (times-mute c vs b.1 h)
  times-mute c ((k, fired l) ∷ vs) b (inr q, h) = cc

  -- No event of the list is before the time.
  abbrev pub HasNoBaseline : ℤ → List (Event F) → Type 0
  HasNoBaseline lo = All (λ e. ltb_ℤ (timestamp_ns e) lo ≡ false)

  split_events-baseline :
      (lo hi : ℤ) (es : List (Event F)) → HasNoBaseline lo es → (split_events lo hi es).1 ≡ []
  split_events-baseline lo hi [] h = refl
  split_events-baseline lo hi (e ∷ es) h =
      let rest = split_events-baseline lo hi es h.1 in
      let ts = timestamp_ns e in
      elim (Bool-cases (leb_ℤ lo ts && leb_ℤ ts hi)) [
        | inl t ↦ rw (t, split_events) rest
        | inr t ↦ rw (t, h.0, split_events) rest
      ]

module _ {F : Type 0} ⦃d : Float64 F⦄ where
  times-or_unknown :
      (c : CauseType) (ls : List (CausalLink F))
      → (number unknown == number c) ≡ false
      → times c (causes (or_unknown ls)) ≡ times c (causes ls)
  times-or_unknown c [] h = rw h
  times-or_unknown c (l ∷ ls) h = refl

  -- A cause that is neither reported nor ruled out.
  abbrev pub IsOpen : CauseType → Attribution F → Type 0
  IsOpen c r = times c (causes r.causal_chain) + times c r.ruled_out ≡ 0

  attribute-mute :
      (c : CauseType) (eng : Engine) (a : Anomaly F) (events : List (Event F))
      → HasNoBaseline (sub_64 a.start_ns eng.attribution_window_ns) events
      → (number unknown == number c) ≡ false
      → ((during : List (Event F)) → All (IsMute c) (verdicts during []))
      → IsOpen c (attribute eng a events)
  unfolding attribute
  attribute-mute c eng a events h other mute =
      let lo = sub_64 a.start_ns eng.attribution_window_ns in
      let during = (split_events lo a.end_ns events).0 in
      let vs = verdicts during [] in
      let fl = fired_links vs in
      let kept = times-or_unknown c (sort_by more_confident fl) other in
      let same = times-sort_by more_confident c fl in
      let zero = times-mute c vs (verdicts-BacksOut Any during [] (All-Any during)) (mute during) in
      rw (split_events-baseline lo a.end_ns events h) (omega (arith, kept, same, zero))

  clock-IsMute : (during : List (Event F)) → All (IsMute clock_reduced) (verdicts during [])
  unfolding rule_clock
  clock-IsMute during = (
    inl refl,
    (
      inl refl,
      (
        inr (silent_without _ _),
        (inl refl, (inl refl, (inl refl, (inl refl, (inl refl, (inl refl, tt)))))),
      ),
    ),
  )

  contention-IsMute : (during : List (Event F)) → All (IsMute gpu_contention) (verdicts during [])
  unfolding rule_contention
  contention-IsMute during = (
    inl refl,
    (
      inl refl,
      (
        inl refl,
        (inr (silent_without _ _), (inl refl, (inl refl, (inl refl, (inl refl, (inl refl, tt)))))),
      ),
    ),
  )

  pcie-IsMute : (during : List (Event F)) → All (IsMute pcie_bandwidth_drop) (verdicts during [])
  unfolding rule_pcie bandwidth_drop
  pcie-IsMute during = (
    inl refl,
    (
      inl refl,
      (
        inl refl,
        (inl refl, (inl refl, (inr (silent_without _ _), (inl refl, (inl refl, (inl refl, tt)))))),
      ),
    ),
  )

  nvlink-IsMute : (during : List (Event F)) → All (IsMute nvlink_degraded) (verdicts during [])
  unfolding rule_nvlink bandwidth_drop
  nvlink-IsMute during = (
    inl refl,
    (
      inl refl,
      (
        inl refl,
        (inl refl, (inl refl, (inl refl, (inr (silent_without _ _), (inl refl, (inl refl, tt)))))),
      ),
    ),
  )

  -- Where no event of the rank is before the window, the reduced clock, GPU contention and the two
  -- bandwidth drops are neither reported nor ruled out: there is no baseline to compare with.
  pub attribute-IsOpen :
      (eng : Engine) (a : Anomaly F) (events : List (Event F))
      → HasNoBaseline (sub_64 a.start_ns eng.attribution_window_ns) events
      → let r = attribute eng a events in
        IsOpen clock_reduced r
        × IsOpen gpu_contention r
        × IsOpen pcie_bandwidth_drop r
        × IsOpen nvlink_degraded r
  attribute-IsOpen eng a events h = (
    attribute-mute clock_reduced eng a events h refl clock-IsMute,
    attribute-mute gpu_contention eng a events h refl contention-IsMute,
    attribute-mute pcie_bandwidth_drop eng a events h refl pcie-IsMute,
    attribute-mute nvlink_degraded eng a events h refl nvlink-IsMute,
  )
