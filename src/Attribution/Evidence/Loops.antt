-- ===== src/Attribution/Evidence/Loops.antt =====
-- internal/attribution/engine.go: the evidence that the loops of the rules keep.
use Prim.Native.Nat.{bit_or}
use distributed_gpu_training.Base.{
  ℕ, suc, ◌≡◌, refl, ◌⊎◌, ◌++◌, Bool, true, false, inl, inr, Option, none, some, List, [], ◌∷◌,
  ◌==◌, if◌then◌else◌, Bool-cases, Option-cases, All,
}
use distributed_gpu_training.Float.{Float64}
use distributed_gpu_training.Event.{Event, GpuMetric, gpu_metric, nccl}
use distributed_gpu_training.Attribution.Rules.{
  CauseType, CausalLink, Verdict, silent, ruled, fired, by_tally, tally, gather, is_empty, last_of,
  first_last, idle_loop, has_bits, thermal_mask, power_mask, link, Detail,
}

pub none-some : {A : Type 0} (a : A) → none ≡ some a → ⊥
none-some a h = cc

pub last_of_cases :
    {F : Type 0} (l : List (Event F))
    → (last_of l ≡ []) ⊎ ((m : GpuMetric F) × (last_of l ≡ gpu_metric m ∷ []))
last_of_cases [] = inl refl
last_of_cases (gpu_metric m ∷ es) = elim (last_of_cases es) [
  | inr (k, q) ↦ inr (k, rw (q, last_of))
  | inl q ↦ inr (m, rw (q, last_of))
]
last_of_cases (nccl m ∷ es) = elim (last_of_cases es) [
  | inr (k, q) ↦ inr (k, rw (q, last_of))
  | inl q ↦ inl (rw (q, last_of))
]
last_of_cases (_ ∷ es) = elim (last_of_cases es) [
  | inr (k, q) ↦ inr (k, rw (q, last_of))
  | inl q ↦ inl (rw (q, last_of))
]

module _ {F : Type 0} (P : Event F → Type 0) where
  -- The link names the cause, and its evidence is an event with the property.
  pub record IsBacked (c : CauseType) (l : CausalLink F) : Type 0 where
    pub cause : l.cause ≡ c
    pub event : Event F
    pub evidence : l.evidence ≡ some event
    pub holds : P event

  abbrev pub BacksOut : CauseType → Verdict F → Type 0
  BacksOut c (fired l) = IsBacked c l
  BacksOut c silent = Unit
  BacksOut c ruled = Unit

  abbrev pub IsEvidence : Option (Event F) → Type 0
  IsEvidence ev = (e : Event F) × (ev ≡ some e) × P e

  -- The evidence of a loop that has seen `hit` hits.
  pub tally-IsEvidence :
      (sample : Event F → Option Bool) (n hit : ℕ) (ev : Option (Event F)) (es : List (Event F))
      → All P es
      → ((hit == 0) ≡ false → IsEvidence ev)
      → let (_, hit', ev') = tally sample n hit ev es in (hit' == 0) ≡ false → IsEvidence ev'
  tally-IsEvidence sample n hit ev [] h start = start
  tally-IsEvidence sample n hit ev (e ∷ es) h start = elim (Option-cases (sample e)) [
    | inl q ↦ rw (q, tally) (tally-IsEvidence sample n hit ev es h.1 start)
    | inr (b, q) ↦ elim (Bool-cases b) [
      | inl t ↦
          rw (q, t, tally)
            (tally-IsEvidence sample (suc n) (suc hit) (some e) es h.1 (λ _. (e, refl, h.0)))
      | inr t ↦ rw (q, t, tally) (tally-IsEvidence sample (suc n) hit ev es h.1 start)
    ]
  ]

  module _ ⦃d : Float64 F⦄ where
    pub gather-IsEvidence :
        (read : Event F → Option F) (v : List F) (last : Option (Event F)) (es : List (Event F))
        → All P es
        → (is_empty v ≡ false → IsEvidence last)
        → let (v', last') = gather read v last es in is_empty v' ≡ false → IsEvidence last'
    gather-IsEvidence read v last [] h start = start
    gather-IsEvidence read v last (e ∷ es) h start = elim (Option-cases (read e)) [
      | inl q ↦ rw (q, gather) (gather-IsEvidence read v last es h.1 start)
      | inr (x, q) ↦
          rw (q, gather)
            (gather-IsEvidence read (v ++ (x ∷ [])) (some e) es h.1 (λ _. (e, refl, h.0)))
    ]

    -- A rule's last steps: silent without readings, ruled out by its test, or fired.
    pub choose-BacksOut :
        (c : CauseType) (s r : Bool) (ev : Option (Event F)) (x : F) (t : Detail F)
        → (s ≡ false → IsEvidence ev)
        → BacksOut c (if s then silent else (if r then ruled else link c ev x t))
    choose-BacksOut c true r ev x t h = tt
    choose-BacksOut c false true ev x t h = tt
    choose-BacksOut c false false ev x t h =
        let (e, q, p) = h refl in record { cause = refl; event = e; evidence = q; holds = p }

    pub by_tally-BacksOut :
        (c : CauseType) (n hit : ℕ) (ev : Option (Event F))
        → ((hit == 0) ≡ false → IsEvidence ev)
        → BacksOut c (by_tally c (n, hit, ev))
    by_tally-BacksOut c n hit ev h = elim (Bool-cases (n == 0)) [
      | inl q ↦ rw q tt
      | inr q ↦ elim (Bool-cases (hit == 0)) [
        | inl t ↦ rw (q, t) tt
        | inr t ↦
            let (e, p, w) = h t in
            rw (q, t) (record { cause = refl; event = e; evidence = p; holds = w })
      ]
    ]

  -- The last sample of the loop of `ruleECC` is the first one, or has the property.
  abbrev pub IsSpan : Option (GpuMetric F × GpuMetric F) → Type 0
  IsSpan none = Unit
  IsSpan (some (a, b)) = (a ≡ b) ⊎ P (gpu_metric b)

  pub first_last-IsSpan :
      (o : Option (GpuMetric F × GpuMetric F)) (es : List (Event F))
      → IsSpan o
      → All P es
      → IsSpan (first_last o es)
  first_last-IsSpan o [] s h = s
  first_last-IsSpan none (gpu_metric m ∷ es) s h = first_last-IsSpan (some (m, m)) es (inl refl) h.1
  first_last-IsSpan (some (a, b)) (gpu_metric m ∷ es) s h =
      first_last-IsSpan (some (a, m)) es (inr h.0) h.1
  first_last-IsSpan none (nccl m ∷ es) s h = first_last-IsSpan none es s h.1
  first_last-IsSpan none (_ ∷ es) s h = first_last-IsSpan none es s h.1
  first_last-IsSpan (some (a, b)) (nccl m ∷ es) s h = first_last-IsSpan (some (a, b)) es s h.1
  first_last-IsSpan (some (a, b)) (_ ∷ es) s h = first_last-IsSpan (some (a, b)) es s h.1

  -- The sample before the window only starts the loop.
  pub last_of-IsSpan :
      (before during : List (Event F))
      → All P during
      → IsSpan (first_last none (last_of before ++ during))
  last_of-IsSpan before during h = elim (last_of_cases before) [
    | inl q ↦ rw q (first_last-IsSpan none during tt h)
    | inr (m, q) ↦ rw (q, first_last) (first_last-IsSpan (some (m, m)) during (inl refl) h)
  ]

  pub idle_loop-IsEvidence :
      (v : List F) (ev : Option (Event F)) (es : List (Event F))
      → All P es
      → (is_empty v ≡ false → IsEvidence ev)
      → (v' : List F) (ev' : Option (Event F)) → idle_loop v ev es ≡ some (v', ev')
      → is_empty v' ≡ false
      → IsEvidence ev'
  idle_loop-IsEvidence v ev [] h start v' ev' q = λ t.
      let same : v ≡ v' = cc in
      let also : ev ≡ ev' = cc in let (e, w, p) = start (rw same t) in (e, rw (← also) w, p)
  idle_loop-IsEvidence v ev (gpu_metric m ∷ es) h start v' ev' q =
      elim (Bool-cases (has_bits (bit_or thermal_mask power_mask) m)) [
        | inl t ↦ absurd (none-some _ (rw t at q))
        | inr t ↦
            idle_loop-IsEvidence (v ++ (m.utilization ∷ [])) (some (gpu_metric m)) es h.1
              (λ _. (gpu_metric m, refl, h.0)) v' ev' (rw t at q)
      ]
  idle_loop-IsEvidence v ev (nccl m ∷ es) h start v' ev' q =
      idle_loop-IsEvidence v ev es h.1 start v' ev' q
  idle_loop-IsEvidence v ev (_ ∷ es) h start v' ev' q =
      idle_loop-IsEvidence v ev es h.1 start v' ev' q
