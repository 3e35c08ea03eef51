-- ===== src/Attribution/Grounded.antt =====
-- internal/attribution/engine.go: the evidence of a causal chain comes from the window of `Attribute`.
use mathlib.Core.List.{Mem, mem-cons_self, mem-cons_of_mem}
use distributed_gpu_training.Base.{
  ◌≡◌, refl, ◌⊎◌, ◌&&◌, inl, inr, some, List, [], ◌∷◌, Bool-cases, arith, All, All-map_imp,
}
use distributed_gpu_training.Base.Int.{ℤ, sub_64, ltb_ℤ, leb_ℤ, ◌≤ℤ◌}
use distributed_gpu_training.Float.{Float64}
use distributed_gpu_training.Event.{Event, timestamp_ns}
use distributed_gpu_training.Attribution.Rules.{
  CauseType, CausalLink, Verdict, silent, ruled, fired, unknown,
}
use distributed_gpu_training.Attribution.Engine.{
  Engine, split_events, fired_links, verdicts, more_confident, or_unknown, attribute,
}
use distributed_gpu_training.Correlator.Detect.{Anomaly}
use distributed_gpu_training.Base.Sort.{sort_by, All-sort_by}
use distributed_gpu_training.Attribution.Evidence.{verdicts-BacksOut}
use distributed_gpu_training.Attribution.Evidence.Loops.{BacksOut}

module _ {F : Type 0} where
  -- An event of the list, with a time in the interval.
  abbrev pub IsIn : ℤ → ℤ → List (Event F) → Event F → Type 0
  IsIn lo hi events e = Mem e events × (lo ≤ℤ timestamp_ns e) × (timestamp_ns e ≤ℤ hi)

  All-Mem : (events : List (Event F)) → All (λ e. Mem e events) events
  All-Mem [] = tt
  All-Mem (e ∷ es) = (
    mem-cons_self,
    All-map_imp (λ x. Mem x es) (λ x. Mem x (e ∷ es)) es (λ x m. mem-cons_of_mem e m) (All-Mem es),
  )

  split_events-IsIn :
      (lo hi : ℤ) (Q : Event F → Type 0) (es : List (Event F))
      → All Q es
      → All (λ e. Q e × (lo ≤ℤ timestamp_ns e) × (timestamp_ns e ≤ℤ hi)) (split_events lo hi es).0
  split_events-IsIn lo hi Q [] h = tt
  split_events-IsIn lo hi Q (e ∷ es) h =
      let ts = timestamp_ns e in
      let rest = split_events-IsIn lo hi Q es h.1 in
      elim (Bool-cases (leb_ℤ lo ts && leb_ℤ ts hi)) [
        | inl t ↦
            let above : lo ≤ℤ ts = ground arith in
            let below : ts ≤ℤ hi = ground arith in rw (t, split_events) ((h.0, above, below), rest)
        | inr t ↦ elim (Bool-cases (ltb_ℤ ts lo)) [
          | inl u ↦ rw (t, u, split_events) rest
          | inr u ↦ rw (t, u, split_events) rest
        ]
      ]

module _ {F : Type 0} ⦃d : Float64 F⦄ where
  -- Of the unknown cause, or backed by an event of the window.
  abbrev pub IsGrounded : ℤ → ℤ → List (Event F) → CausalLink F → Type 0
  IsGrounded lo hi events l =
      (l.cause ≡ unknown) ⊎ ((e : Event F) × (l.evidence ≡ some e) × IsIn lo hi events e)

  fired_links-IsGrounded :
      (lo hi : ℤ) (events : List (Event F)) (vs : List (CauseType × Verdict F))
      → All (λ v. BacksOut (IsIn lo hi events) v.0 v.1) vs
      → All (IsGrounded lo hi events) (fired_links vs)
  fired_links-IsGrounded lo hi events [] h = tt
  fired_links-IsGrounded lo hi events ((c, fired l) ∷ vs) h =
      (inr (h.0.event, h.0.evidence, h.0.holds), fired_links-IsGrounded lo hi events vs h.1)
  fired_links-IsGrounded lo hi events ((c, silent) ∷ vs) h =
      fired_links-IsGrounded lo hi events vs h.1
  fired_links-IsGrounded lo hi events ((c, ruled) ∷ vs) h =
      fired_links-IsGrounded lo hi events vs h.1

  or_unknown-IsGrounded :
      (lo hi : ℤ) (events : List (Event F)) (ls : List (CausalLink F))
      → All (IsGrounded lo hi events) ls
      → All (IsGrounded lo hi events) (or_unknown ls)
  or_unknown-IsGrounded lo hi events [] h = (inl refl, tt)
  or_unknown-IsGrounded lo hi events (l ∷ ls) h = h

  -- No rule fires on absent data: every link of a causal chain is the unknown cause, or its
  -- evidence is one of the rank's events with a time from `StartNs - window`, as `int64`
  -- subtraction gives it, to `EndNs`.
  pub attribute-IsGrounded :
      (eng : Engine) (a : Anomaly F) (events : List (Event F))
      → All
          (IsGrounded (sub_64 a.start_ns eng.attribution_window_ns) a.end_ns events)
          (attribute eng a events).causal_chain
  unfolding attribute
  attribute-IsGrounded eng a events =
      let lo = sub_64 a.start_ns eng.attribution_window_ns in
      let (during, before) = split_events lo a.end_ns events in
      let vs = verdicts during before in
      let inside = split_events-IsIn lo a.end_ns (λ e. Mem e events) events (All-Mem events) in
      or_unknown-IsGrounded lo a.end_ns events (sort_by more_confident (fired_links vs)) (
        All-sort_by more_confident (IsGrounded lo a.end_ns events) (fired_links vs) (
          fired_links-IsGrounded lo a.end_ns events vs
            (verdicts-BacksOut (IsIn lo a.end_ns events) during before inside)))
