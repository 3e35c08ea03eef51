-- ===== src/Sim/Truth.antt =====
-- internal/sim/sim.go: when `Generate` returns, and the ground truth that it returns.
use distributed_gpu_training.Base.{
  ◌/◌, ◌≡◌, refl, sym, ◌⊎◌, true, false, inl, inr, Option, none, some, List, [], Bool-cases,
  Option-cases, some-none, pair_cancel, arith,
}
use distributed_gpu_training.Base.Int.{ℤ, negsuc, pos, pos_part, ◌≤ℤ◌, ◌<ℤ◌}
use distributed_gpu_training.Float.{Float64}
use distributed_gpu_training.Event.{Event}
use distributed_gpu_training.Sim.{
  Fault, Params, GroundTruth, Rng, SimState, is_clean, causes_for, onset_div, with_defaults,
  step_loop, run, generate,
}

module _ {F S : Type 0} ⦃d : Float64 F⦄ (g : Rng S F) where
  -- The straggler and the causes of a run.
  abbrev pub IsAnswer : Params F → GroundTruth → Type 0
  IsAnswer p t =
      ((is_clean p.fault ≡ true) × (t.straggler ≡ negsuc 0) × (t.causes ≡ []))
      ⊎ ((is_clean p.fault ≡ false)
          × ((rng : S) × (g.intn p.ranks (g.seeded p.seed) ≡ some (t.straggler, rng)))
          × (t.causes ≡ causes_for p.fault))

  -- What a generated trace comes from.
  pub record IsRun (p : Params F) (es : List (Event F)) (t : GroundTruth) : Type 0 where
    pub start : SimState S
    pub emitted :
        es ≡ (step_loop g p t.straggler (pos_part p.steps / onset_div) 0 (pos_part p.steps) start).0
    pub same_fault : t.fault ≡ p.fault
    pub answer : IsAnswer p t

  of_truth :
      (p : Params F) (u : GroundTruth) (rng : S) (es : List (Event F)) (t : GroundTruth)
      → IsAnswer p u
      → u.fault ≡ p.fault
      → ◌≡◌ {A = Option (List (Event F) × GroundTruth)} (some (run g p u rng)) (some (es, t))
      → IsRun p es t
  unfolding run
  of_truth p u rng es t a f h =
      let (front, back) = pair_cancel (run g p u rng).0 es u t h in
      rw (← front, ← back)
        (record {
          start = record { rng = rng; ecc_s = 0; ecc_d = 0 };
          emitted = refl;
          same_fault = f;
          answer = a;
        })

  pub generate-IsRun :
      (params : Params F) (es : List (Event F)) (t : GroundTruth)
      → generate g params ≡ some (es, t)
      → IsRun (with_defaults params) es t
  unfolding generate run
  generate-IsRun params es t h =
      let p = with_defaults params in
      elim (Bool-cases (is_clean p.fault)) [
        | inl q ↦
            of_truth p (record { fault = p.fault; straggler = negsuc 0; causes = [] }) _ es t
              (inl (q, refl, refl)) refl (rw (q, generate) at h)
        | inr q ↦ elim (Option-cases (g.intn p.ranks (g.seeded p.seed))) [
          | inl i ↦ absurd (some-none (es, t) (sym (rw (q, i, generate) at h)))
          | inr ((k, rng), i) ↦
              of_truth p (record { fault = p.fault; straggler = k; causes = causes_for p.fault })
                rng es t (inr (q, (rng, i), refl)) refl (rw (q, i, generate) at h)
        ]
      ]

-- What `math/rand` documents of `Intn`: it panics if its argument is not positive, and otherwise
-- returns a number below it that is not negative.
pub record IsRng {F S : Type 0} (g : Rng S F) : Type 0 where
  pub panics : (n : ℤ) (rng : S) → n ≤ℤ pos 0 → g.intn n rng ≡ none
  pub draws :
      (n : ℤ) (rng : S)
      → pos 0 <ℤ n
      → (k : ℤ) × (rng' : S) × (g.intn n rng ≡ some (k, rng')) × (pos 0 ≤ℤ k) × (k <ℤ n)

module _ {F : Type 0} where
  -- A ground truth that fits the parameters.
  abbrev pub IsTruth : Params F → GroundTruth → Type 0
  IsTruth p t =
      (t.fault ≡ p.fault)
      × (t.causes ≡ causes_for p.fault)
      × (((is_clean p.fault ≡ true) × (t.straggler ≡ negsuc 0))
          ⊎ ((is_clean p.fault ≡ false) × (pos 0 ≤ℤ t.straggler) × (t.straggler <ℤ p.ranks)))

module _ {F S : Type 0} ⦃d : Float64 F⦄ (g : Rng S F) (laws : IsRng g) where
  abbrev clean_truth : Params F → GroundTruth
  clean_truth p = record { fault = p.fault; straggler = negsuc 0; causes = [] }

  abbrev drawn_truth : Params F → ℤ → GroundTruth
  drawn_truth p k = record { fault = p.fault; straggler = k; causes = causes_for p.fault }

  clean_causes : (f : Fault) → is_clean f ≡ true → [] ≡ causes_for f
  unfolding causes_for
  clean_causes f h = ground arith

  -- `Generate` returns a trace for all parameters, if not a negative number of ranks is to have a
  -- straggler; then it panics. The truth that it returns names the fault with its causes, and as the
  -- straggler one of the ranks, or -1 in a clean run, which has no causes.
  pub generate-IsTruth :
      (params : Params F)
      → let p = with_defaults params in
        ((es : List (Event F)) × (t : GroundTruth) × (generate g params ≡ some (es, t))
          × IsTruth p t)
        ⊎ ((is_clean p.fault ≡ false) × (p.ranks <ℤ pos 0) × (generate g params ≡ none))
  unfolding generate run
  generate-IsTruth params =
      let p = with_defaults params in
      let some_rank : (p.ranks <ℤ pos 0) ⊎ (pos 0 <ℤ p.ranks) = ground arith in
      elim (Bool-cases (is_clean p.fault)) [
        | inl q ↦ inl (
          (run g p (clean_truth p) (g.seeded p.seed)).0,
          clean_truth p,
          rw (q, generate),
          (refl, clean_causes p.fault q, inl (q, refl)),
        )
        | inr q ↦ elim some_rank [
          | inl low ↦
              let e = laws.panics p.ranks (g.seeded p.seed) (omega arith) in
              inr (q, low, rw (q, e, generate))
          | inr high ↦
              let (k, rng, e, from, below) = laws.draws p.ranks (g.seeded p.seed) high in
              inl (
                (run g p (drawn_truth p k) rng).0,
                drawn_truth p k,
                rw (q, e, generate),
                (refl, refl, inr (q, from, below)),
              )
        ]
      ]
