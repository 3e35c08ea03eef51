-- ===== src/Correlator/Detect/Own.antt =====
-- internal/correlator/correlator.go: what the loop over the flags in `DetectAnomalies` reports of
-- one rank.
use mathlib.Core.Path.{subst}
use distributed_gpu_training.Base.{
  ℕ, ◌≡◌, refl, sym, ap, ◌∙◌, Bool, true, inl, inr, Option, none, some, List, [], ◌∷◌, arith,
  Bool-cases, Option-cases, keep, ◌==◌, ==_iff,
}
use distributed_gpu_training.Base.Assoc.{lookup, IsMap, IsFresh}
use distributed_gpu_training.Float.{Float64}
use distributed_gpu_training.Correlator.Store.{Config}
use distributed_gpu_training.Correlator.Detect.{
  Anomaly, GroupInfo, Flag, report_rank, report_all, is_dropped, anomaly_of,
}
use distributed_gpu_training.Correlator.Detect.Held.{option_list}

module _ {F : Type 0} ⦃d : Float64 F⦄ (cfg : Config F) (bs : ℕ) (gs : List (GroupInfo F))
    (r : ℕ) where
  abbrev pub is_about : Anomaly F → Bool
  is_about a = a.straggler_rank == r

  report_rank-about :
      (k : ℕ) (fl : List (Flag F)) (a : Anomaly F)
      → report_rank cfg bs gs k fl ≡ some a
      → is_about a ≡ (k == r)
  unfolding report_rank
  report_rank-about k fl a h = elim (Bool-cases (is_dropped cfg fl)) [
    | inl t ↦ absurd (cc (rw t at h))
    | inr t ↦
        let found : some (anomaly_of bs gs k fl) ≡ some a = rw t at h in
        let same : anomaly_of bs gs k fl ≡ a = cc in ap is_about (sym same)
  ]

  -- What is reported of a rank with these flags, if it has any.
  abbrev pub report_of : Option (List (Flag F)) → List (Anomaly F)
  report_of none = []
  report_of (some fl) = option_list (report_rank cfg bs gs r fl)

  keep-report_all_fresh :
      (flags : List (ℕ × List (Flag F)))
      → IsFresh ◌==◌ r flags
      → keep is_about (report_all cfg bs gs flags) ≡ []
  unfolding report_all
  keep-report_all_fresh [] h = refl
  keep-report_all_fresh ((k, fl) ∷ flags) h = elim (Option-cases (report_rank cfg bs gs k fl)) [
    | inl q ↦ rw (q, report_all) (keep-report_all_fresh flags h.1)
    | inr (a, q) ↦
        rw (q, report_all, report_rank-about k fl a q, h.0) (keep-report_all_fresh flags h.1)
  ]

  keep-report_all_own :
      (fl : List (Flag F)) (flags : List (ℕ × List (Flag F)))
      → IsFresh ◌==◌ r flags
      → keep is_about (report_all cfg bs gs ((r, fl) ∷ flags)) ≡ report_of (some fl)
  unfolding report_all
  keep-report_all_own fl flags h =
      let self : (r == r) ≡ true = ground arith in
      elim (Option-cases (report_rank cfg bs gs r fl)) [
        | inl q ↦ rw (q, report_all, report_of) (keep-report_all_fresh flags h)
        | inr (a, q) ↦
            rw (q, report_all, report_of, report_rank-about r fl a q, self)
              (ap (◌∷◌ a) (keep-report_all_fresh flags h))
      ]

  pub keep-report_all :
      (flags : List (ℕ × List (Flag F)))
      → IsMap ◌==◌ flags
      → keep is_about (report_all cfg bs gs flags) ≡ report_of (lookup ◌==◌ r flags)
  unfolding report_all
  keep-report_all [] h = refl
  keep-report_all ((k, fl) ∷ flags) h = elim (Bool-cases (k == r)) [
    | inl t ↦
        let same : k ≡ r = (==_iff k r).0 t in
        let fresh : IsFresh ◌==◌ r flags = subst (λ i. IsFresh ◌==◌ i flags) same h.0 in
        let own : keep is_about (report_all cfg bs gs ((k, fl) ∷ flags)) ≡ report_of (some fl) =
          subst (λ i. keep is_about (report_all cfg bs gs ((i, fl) ∷ flags)) ≡ report_of (some fl))
            (sym same) (keep-report_all_own fl flags fresh) in
        let found : lookup ◌==◌ r ((k, fl) ∷ flags) ≡ some fl = rw t in
        own ∙ ap report_of (sym found)
    | inr t ↦ elim (Option-cases (report_rank cfg bs gs k fl)) [
      | inl q ↦ rw (q, report_all, t) (keep-report_all flags h.1)
      | inr (a, q) ↦ rw (q, report_all, report_rank-about k fl a q, t) (keep-report_all flags h.1)
    ]
  ]
