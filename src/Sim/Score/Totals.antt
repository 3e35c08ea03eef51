-- ===== src/Sim/Score/Totals.antt =====
-- internal/sim/score.go: what `Score` says of a run, and that it returns.
use distributed_gpu_training.Base.{
  ◌+◌, ◌≡◌, refl, sym, ap, ◌∙◌, ◌⊎◌, true, false, not, ◌||◌, inl, inr, Option, none, some, List, [],
  ◌∷◌, ◌==◌, Bool-cases, length, keep, All, arith, or_false,
}
use distributed_gpu_training.Base.Int.{pos, ltb_ℤ, ◌<ℤ◌, ◌≤ℤ◌}
use distributed_gpu_training.Buffer.{◌>>=◌}
use distributed_gpu_training.Float.{Float64}
use distributed_gpu_training.Event.{Event}
use distributed_gpu_training.Attribution.Rules.{CausalLink}
use distributed_gpu_training.Attribution.Engine.{Attribution}
use distributed_gpu_training.Coordinator.{analyze}
use distributed_gpu_training.Coordinator.Chained.{HasLink, analyze-HasLink}
use distributed_gpu_training.Sim.{Params, GroundTruth, Rng, is_clean, with_defaults, generate}
use distributed_gpu_training.Sim.Truth.{IsRng, generate-IsTruth}
use distributed_gpu_training.Sim.Score.{
  Outcome, no_outcome, score_attribution, score_all, score_report, zero_options, score, wanted,
  got_from, holds, all_got,
}
use distributed_gpu_training.Sim.Score.Judged.{
  Exists, is_right, NamesAll, NamesTop, names_all, holds-wanted,
}

head_elim :
    {A B : Type 0} (f : A → Option B) (xs : List A) (l : A) (ls : List A)
    → xs ≡ l ∷ ls
    → (elim xs [ [] ↦ none | y ∷ ys ↦ f y ]) ≡ f l
head_elim f xs l ls q = rw q

module _ {F : Type 0} where
  -- What the loop over the attributions makes of an outcome.
  pub record IsScored (t : GroundTruth) (o : Outcome) (as' : List (Attribution F)) (o' : Outcome)
      : Type 0 where
    pub counted :
        o'.false_stragglers ≡ o.false_stragglers + length (keep (λ a. not (is_right t a)) as')
    pub found : o'.detected ≡ (o.detected || not (length (keep (is_right t) as') == 0))
    pub correct : o'.attr_correct ≡ true → (o.attr_correct ≡ true) ⊎ Exists (NamesAll t) as'
    pub top : o'.exact_top ≡ true → (o.exact_top ≡ true) ⊎ Exists (NamesTop t) as'

  scored_right : GroundTruth → Outcome → Attribution F → CausalLink F → Outcome
  scored_right t o a l =
      let want = wanted [] t.causes in
      let got = got_from 0 (length t.causes) [] a.causal_chain in
      record o {
        detected = true;
        attr_correct = all_got got (length got == length want) want;
        exact_top = holds want l.cause;
      }

  score_attribution-right :
      (t : GroundTruth) (o : Outcome) (a : Attribution F) (l : CausalLink F)
      (ls : List (CausalLink F))
      → is_right t a ≡ true
      → a.causal_chain ≡ l ∷ ls
      → score_attribution t o a ≡ some (scored_right t o a l)
  unfolding score_attribution scored_right
  score_attribution-right t o a l ls r q =
      rw r (head_elim (λ y. some (scored_right t o a y)) a.causal_chain l ls q)

  score_all-IsScored :
      (t : GroundTruth) (o : Outcome) (as' : List (Attribution F))
      → All HasLink as'
      → (o' : Outcome) × (score_all t o as' ≡ some o') × IsScored t o as' o'
  unfolding score_all score_attribution scored_right
  score_all-IsScored t o [] h = (
    o,
    refl,
    record { counted = omega arith; found = or_false o.detected; correct = inl; top = inl },
  )
  score_all-IsScored t o (a ∷ as') h = elim (Bool-cases (is_right t a)) [
    | inr r ↦
        let o1 : Outcome = record o { false_stragglers = o.false_stragglers + 1 } in
        let (o', e, x) = score_all-IsScored t o1 as' h.1 in
        (
          o',
          rw r e,
          record {
            counted = rw r (x.counted ∙ omega arith);
            found = rw r x.found;
            correct = λ b. elim (x.correct b) [ inl k ↦ inl k | inr k ↦ inr (inr k) ];
            top = λ b. elim (x.top b) [ inl k ↦ inl k | inr k ↦ inr (inr k) ];
          },
        )
    | inl r ↦
        let (l, ls, chain) = h.0 in
        let o1 = scored_right t o a l in
        let (o', e, x) = score_all-IsScored t o1 as' h.1 in
        (
          o',
          ap (λ x. x >>= λ k. score_all t k as') (score_attribution-right t o a l ls r chain) ∙ e,
          record {
            counted = rw r x.counted;
            found = rw r (x.found ∙ ground arith);
            correct = λ b. elim (x.correct b) [
              | inl k ↦ inr (inl (names_all t a r k))
              | inr k ↦ inr (inr k)
            ];
            top = λ b. elim (x.top b) [
              | inl k ↦ inr (inl (r, (l, ls, chain, sym (holds-wanted [] t.causes l.cause) ∙ k)))
              | inr k ↦ inr (inr k)
            ];
          },
        )
  ]

  -- What is said of a whole report, by the straggler of the truth.
  pub record IsJudged (t : GroundTruth) (as' : List (Attribution F)) (o : Outcome) : Type 0 where
    pub when_clean :
        t.straggler <ℤ pos 0
        → o ≡ record no_outcome { detected = length as' == 0; false_stragglers = length as' }
    pub when_faulty : pos 0 ≤ℤ t.straggler → IsScored t no_outcome as' o

  score_report-IsJudged :
      (t : GroundTruth) (as' : List (Attribution F))
      → All HasLink as'
      → (o : Outcome) × (score_report t as' ≡ some o) × IsJudged t as' o
  unfolding score_report
  score_report-IsJudged t as' h = elim (Bool-cases (ltb_ℤ t.straggler (pos 0))) [
    | inl q ↦ (
      _,
      rw q refl,
      record { when_clean = λ lt. refl; when_faulty = λ le. absurd (ground arith) },
    )
    | inr q ↦
        let (o, e, x) = score_all-IsScored t no_outcome as' h in
        (o, rw q e, record { when_clean = λ lt. absurd (ground arith); when_faulty = λ le. x })
  ]

module _ {F S : Type 0} ⦃d : Float64 F⦄ (g : Rng S F) where
  -- `Score` of a generated run never panics. In a clean run it says that the fault was detected
  -- exactly if the report blames nobody, and counts every blame as false. In any other run it counts
  -- the attributions to other ranks, and says that the fault was detected exactly if one is to the
  -- straggler; `AttrCorrect` implies that the links at the head of the straggler's chain, as many as
  -- there are true causes, name each true cause, and `ExactTop` that the first link names one.
  pub score-IsJudged :
      (p : Params F) (es : List (Event F)) (t : GroundTruth)
      → generate g p ≡ some (es, t)
      → (o : Outcome) × (score g p ≡ some o) × IsJudged t (analyze es zero_options).attributions o
  unfolding score
  score-IsJudged p es t h =
      let (o, e, x) =
        score_report-IsJudged t (analyze es zero_options).attributions
          (analyze-HasLink es zero_options) in
      (o, rw h e, x)

  pub no_panic :
      (p : Params F)
      → (is_clean p.fault ≡ true) ⊎ (pos 0 ≤ℤ p.ranks)
      → is_clean p.fault ≡ false
      → (with_defaults p).ranks <ℤ pos 0
      → ⊥
  no_panic p h faulty low = ground arith

  -- `Score` returns an outcome for all parameters, whatever the numbers drawn, if not a negative
  -- number of ranks is to have a straggler.
  pub score_total :
      (laws : IsRng g) (p : Params F)
      → (is_clean p.fault ≡ true) ⊎ (pos 0 ≤ℤ p.ranks)
      → (o : Outcome) × (score g p ≡ some o)
  score_total laws p h = elim (generate-IsTruth g laws p) [
    | inl (es, t, e, truth) ↦ let (o, q, x) = score-IsJudged p es t e in (o, q)
    | inr (faulty, low, e) ↦ absurd (no_panic p h faulty low)
  ]
