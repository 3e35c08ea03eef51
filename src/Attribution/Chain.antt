-- ===== src/Attribution/Chain.antt =====
-- internal/attribution/engine.go: which causes `Attribute` names, and in what order.
use distributed_gpu_training.Base.{
  ℕ, suc, ◌+◌, ◌≤◌, ◌<◌, length, ◌≡◌, refl, ◌∙◌, ◌⊎◌, Bool, inl, inr, List, [], ◌∷◌, map, ◌==◌,
  if◌then◌else◌, Bool-cases, arith, All,
}
use distributed_gpu_training.Base.Int.{sub_64}
use distributed_gpu_training.Base.Sort.{sort_by, insert_by, IsSorted, IsWeakOrder, sort_by-IsSorted}
use distributed_gpu_training.Float.{Float64, IsFloat64, IsNumber}
use distributed_gpu_training.Event.{Event}
use distributed_gpu_training.Correlator.Detect.{Anomaly}
use distributed_gpu_training.Attribution.Rules.{
  CauseType, thermal_throttle, power_throttle, ecc_errors, pcie_bandwidth_drop, nvlink_degraded,
  memory_pressure, clock_reduced, gpu_contention, host_stall, unknown, CausalLink, Verdict, silent,
  ruled, fired,
}
use distributed_gpu_training.Attribution.Engine.{
  Engine, split_events, fired_links, ruled_causes, verdicts, more_confident, unknown_link,
  or_unknown, attribute,
}
use distributed_gpu_training.Attribution.Evidence.{verdicts-BacksOut}
use distributed_gpu_training.Attribution.Evidence.Loops.{BacksOut}

-- The causes, numbered.
abbrev pub number : CauseType → ℕ
number thermal_throttle = 0
number power_throttle = 1
number ecc_errors = 2
number pcie_bandwidth_drop = 3
number nvlink_degraded = 4
number memory_pressure = 5
number clock_reduced = 6
number gpu_contention = 7
number host_stall = 8
number unknown = 9

-- How often a cause stands in a list.
abbrev pub times : CauseType → List CauseType → ℕ
times c [] = 0
times c (x ∷ xs) = let rest = times c xs in if number x == number c then suc rest else rest

module _ {F : Type 0} where
  abbrev pub causes : List (CausalLink F) → List CauseType
  causes = map (λ l. l.cause)

  times-insert_by :
      (less : CausalLink F → CausalLink F → Bool) (c : CauseType) (l : CausalLink F)
      (ls : List (CausalLink F))
      → times c (causes (insert_by less l ls)) ≡ times c (causes (l ∷ ls))
  times-insert_by less c l [] = refl
  times-insert_by less c l (x ∷ xs) = elim (Bool-cases (less x l)) [
    | inl t ↦ rw (t, insert_by) (ground (arith, times-insert_by less c l xs))
    | inr t ↦ rw (t, insert_by)
  ]

  pub times-sort_by :
      (less : CausalLink F → CausalLink F → Bool) (c : CauseType) (ls : List (CausalLink F))
      → times c (causes (sort_by less ls)) ≡ times c (causes ls)
  times-sort_by less c [] = refl
  times-sort_by less c (x ∷ xs) =
      times-insert_by less c x (sort_by less xs)
      ∙ (let same = times-sort_by less c xs in ground arith)

  abbrev pub Any : Event F → Type 0
  Any e = Unit

  pub All-Any : (es : List (Event F)) → All Any es
  All-Any [] = tt
  All-Any (e ∷ es) = (tt, All-Any es)

  -- Each rule either fires, under its own name, or is ruled out, or neither.
  times-fired :
      (P : Event F → Type 0) (c : CauseType) (vs : List (CauseType × Verdict F))
      → All (λ v. BacksOut P v.0 v.1) vs
      → times c (causes (fired_links vs)) + times c (ruled_causes vs) ≤ times c (map (λ v. v.0) vs)
  times-fired P c [] h = omega arith
  times-fired P c ((k, fired l) ∷ vs) h =
      let less = times-fired P c vs h.1 in
      let own : l.cause ≡ k = h.0.cause in rw own (ground arith)
  times-fired P c ((k, silent) ∷ vs) h = let less = times-fired P c vs h.1 in ground arith
  times-fired P c ((k, ruled) ∷ vs) h = let less = times-fired P c vs h.1 in ground arith

module _ {F : Type 0} ⦃d : Float64 F⦄ where
  -- `names` has every cause but the unknown one, once.
  times-names :
      (c : CauseType) (during before : List (Event F))
      → times c (map (λ v. v.0) (verdicts during before)) + times c (unknown ∷ []) ≡ 1
  times-names thermal_throttle during before = refl
  times-names power_throttle during before = refl
  times-names ecc_errors during before = refl
  times-names pcie_bandwidth_drop during before = refl
  times-names nvlink_degraded during before = refl
  times-names memory_pressure during before = refl
  times-names clock_reduced during before = refl
  times-names gpu_contention during before = refl
  times-names host_stall during before = refl
  times-names unknown during before = refl

  or_unknown_named :
      (ls : List (CausalLink F)) (out : List CauseType)
      → ((c : CauseType) → times c (causes ls) + times c out + times c (unknown ∷ []) ≤ 1)
      → ((c : CauseType) → times c (causes (or_unknown ls)) + times c out ≤ 1)
        × ((or_unknown ls ≡ unknown_link ∷ [])
            ⊎ ((times unknown (causes (or_unknown ls)) ≡ 0) × (0 < length (or_unknown ls))))
  or_unknown_named [] out h = (λ c. let k = h c in omega arith, inl refl)
  or_unknown_named (l ∷ ls) out h =
      (λ c. let k = h c in omega arith, inr (let k = h unknown in omega arith, omega arith))

  -- Among the causes of a causal chain and those ruled out no cause occurs twice, so no cause is
  -- both reported and ruled out. The chain is never empty, and names the unknown cause only as
  -- its single link.
  pub attribute-times :
      (eng : Engine) (a : Anomaly F) (events : List (Event F))
      → let r = attribute eng a events in
        ((c : CauseType) → times c (causes r.causal_chain) + times c r.ruled_out ≤ 1)
        × ((r.causal_chain ≡ unknown_link ∷ [])
            ⊎ ((times unknown (causes r.causal_chain) ≡ 0) × (0 < length r.causal_chain)))
  unfolding attribute
  attribute-times eng a events =
      let (during, before) =
        split_events (sub_64 a.start_ns eng.attribution_window_ns) a.end_ns events in
      let vs = verdicts during before in
      or_unknown_named (sort_by more_confident (fired_links vs)) (ruled_causes vs) (λ c.
        let same = times-sort_by more_confident c (fired_links vs) in
        let bound = times-fired Any c vs (verdicts-BacksOut Any during before (All-Any during)) in
        let names = times-names c during before in omega (arith, same, bound, names))

module _ {A : Type 0} (less : A → A → Bool) (P : A → Type 0) where
  All-of-insert_by : (x : A) (l : List A) → All P (insert_by less x l) → P x × All P l
  All-of-insert_by x [] h = h
  All-of-insert_by x (y ∷ ys) h = elim (Bool-cases (less y x)) [
    | inl t ↦
        let k : All P (y ∷ insert_by less x ys) = rw t at h in
        let rest = All-of-insert_by x ys k.1 in (rest.0, (k.0, rest.1))
    | inr t ↦ let k : All P (x ∷ y ∷ ys) = rw t at h in k
  ]

  All-of-sort_by : (l : List A) → All P (sort_by less l) → All P l
  All-of-sort_by [] h = tt
  All-of-sort_by (x ∷ xs) h =
      let split = All-of-insert_by x (sort_by less xs) h in (split.0, All-of-sort_by xs split.1)

module _ {F : Type 0} ⦃d : Float64 F⦄ where
  abbrev pub HasNumber : CausalLink F → Type 0
  HasNumber l = IsNumber l.confidence

  more_confident-IsWeakOrder : IsFloat64 F → IsWeakOrder HasNumber more_confident
  more_confident-IsWeakOrder laws = record {
    asym = λ x y p q h. laws.lt_asym y.confidence x.confidence h;
    neg_trans = λ x y z p q r h k. ground (
      arith,
      laws.le-eq-not-lt x.confidence y.confidence p q,
      laws.le-eq-not-lt y.confidence x.confidence q p,
      laws.le-eq-not-lt z.confidence y.confidence r q,
      laws.le-eq-not-lt z.confidence x.confidence r p,
      laws.le_trans z.confidence y.confidence x.confidence,
    );
  }

  or_unknown-IsSorted :
      (ls : List (CausalLink F))
      → IsSorted more_confident ls
      → IsSorted more_confident (or_unknown ls)
  or_unknown-IsSorted [] s = (tt, tt)
  or_unknown-IsSorted (l ∷ ls) s = s

  HasNumber-or_unknown :
      (ls : List (CausalLink F)) → All HasNumber (or_unknown ls) → All HasNumber ls
  HasNumber-or_unknown [] h = tt
  HasNumber-or_unknown (l ∷ ls) h = h

  -- Where no confidence of the chain is NaN, the chain is in descending order of confidence: no
  -- later link is more confident than an earlier one.
  pub attribute-IsSorted :
      (laws : IsFloat64 F) (eng : Engine) (a : Anomaly F) (events : List (Event F))
      → All HasNumber (attribute eng a events).causal_chain
      → IsSorted more_confident (attribute eng a events).causal_chain
  unfolding attribute
  attribute-IsSorted laws eng a events h =
      let (during, before) =
        split_events (sub_64 a.start_ns eng.attribution_window_ns) a.end_ns events in
      let ls = fired_links (verdicts during before) in
      let sorted = sort_by more_confident ls in
      or_unknown-IsSorted sorted (
        sort_by-IsSorted (more_confident-IsWeakOrder laws) ls
          (All-of-sort_by more_confident HasNumber ls (HasNumber-or_unknown sorted h)))
