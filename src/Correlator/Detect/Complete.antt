-- ===== src/Correlator/Detect/Complete.antt =====
-- internal/correlator/correlator.go: which ranks `DetectAnomalies` reports, by a description of the
-- flags of one rank that goes over the blocks alone.
use mathlib.Core.List.{Perm}
use mathlib.Core.List.Perm
use mathlib.Core.Path.{subst}
use distributed_gpu_training.Base.{
  ℕ, ◌+◌, ◌/◌, ◌<◌, ◌≡◌, ap, ◌∙◌, false, ◌||◌, inl, inr, some, List, [], ◌∷◌, Bool-cases,
  Option-cases, length, keep, ◌==◌, ltb, if◌then◌else◌,
}
use distributed_gpu_training.Base.Int.{ℤ, pos, pos_part, sub_64, ltb_ℤ}
use distributed_gpu_training.Base.Assoc.{nat-IsEquality, lookup}
use distributed_gpu_training.Base.Sort.{sort_by, sort_by-perm, length-sort_by}
use distributed_gpu_training.Float.{Float64}
use distributed_gpu_training.Correlator.Stats.{compute_stats}
use distributed_gpu_training.Correlator.Store.{Correlator, Config}
use distributed_gpu_training.Correlator.Store.Invariant.{lookup-All_key}
use distributed_gpu_training.Correlator.Store.History.{keep-perm}
use distributed_gpu_training.Correlator.Detect.{
  Anomaly, GroupInfo, Flag, collect, info_less, flag_blocks, report_rank, report_all, is_dropped,
  anomaly_of, deviates_more, detect_in, detect_anomalies,
}
use distributed_gpu_training.Correlator.Detect.Blocks.{
  IsFlagged, AreFlagged, flag_blocks-AreFlagged,
}
use distributed_gpu_training.Correlator.Detect.Held.{
  held, rank_flags, held-flag_blocks, flag_blocks-IsMap,
}
use distributed_gpu_training.Correlator.Detect.Own.{report_of, keep-report_all}

module _ {F : Type 0} ⦃d : Float64 F⦄ where
  -- The anomaly of a rank with these flags, unless it has none or the persistence test drops it.
  abbrev pub judged : Config F → List (GroupInfo F) → ℕ → List (Flag F) → List (Anomaly F)
  judged cfg gs r [] = []
  judged cfg gs r (f ∷ fl) =
      if is_dropped cfg (f ∷ fl)
      then []
      else anomaly_of (pos_part cfg.block_size) gs r (f ∷ fl) ∷ []

  some-judged :
      (cfg : Config F) (gs : List (GroupInfo F)) (r : ℕ) (fl : List (Flag F))
      → 0 < length fl
      → report_of cfg (pos_part cfg.block_size) gs r (some fl) ≡ judged cfg gs r fl
  unfolding report_rank
  some-judged cfg gs r [] h = elim h [ ]
  some-judged cfg gs r (f ∷ fl) h = elim (Bool-cases (is_dropped cfg (f ∷ fl))) [
    | inl t ↦ rw t
    | inr t ↦ rw t
  ]

  report_of-judged :
      (cfg : Config F) (gs : List (GroupInfo F)) (r n : ℕ) (flags : List (ℕ × List (Flag F)))
      → AreFlagged n flags
      → report_of cfg (pos_part cfg.block_size) gs r (lookup ◌==◌ r flags)
        ≡ judged cfg gs r (held r flags)
  report_of-judged cfg gs r n flags h = elim (Option-cases (lookup ◌==◌ r flags)) [
    | inl q ↦ rw q
    | inr (fl, q) ↦ rw q (
        some-judged cfg gs r fl
          (lookup-All_key ◌==◌ nat-IsEquality (λ e. (0 < length e.1) × IsFlagged n e.1) r flags fl h
            q).0)
  ]

  -- The flags of a rank over all blocks, and what is reported of it, by the groups that are scored
  -- and the durations of the jitter floor.
  unfoldable pub reported : Config F → List (GroupInfo F) → List F → ℕ → List (Anomaly F)
  unfolding rank_flags
  reported cfg ordered durs r =
      let bs = pos_part cfg.block_size in
      let floor = d.mul cfg.jitter_floor (compute_stats durs).median in
      if ltb_ℤ cfg.block_size (pos 2) || ltb (length ordered) bs
      then []
      else judged cfg ordered r
          (rank_flags cfg.threshold_sigma floor bs ordered r 0 (length ordered / bs))

  detect_in-reported :
      (cfg : Config F) (gs : List (GroupInfo F)) (durs : List F) (r : ℕ)
      → Perm
          (keep (λ a. a.straggler_rank == r) (detect_in cfg gs durs))
          (reported cfg (sort_by info_less gs) durs r)
  unfolding detect_in reported
  detect_in-reported cfg gs durs r =
      let ordered = sort_by info_less gs in
      let bs = pos_part cfg.block_size in
      let n = length ordered / bs in
      let floor = d.mul cfg.jitter_floor (compute_stats durs).median in
      let flags = flag_blocks cfg.threshold_sigma floor bs ordered 0 n [] in
      let map_of = flag_blocks-IsMap cfg.threshold_sigma floor bs ordered 0 n [] tt in
      let are = flag_blocks-AreFlagged cfg.threshold_sigma floor bs ordered 0 n [] tt in
      let same : keep (λ a. a.straggler_rank == r) (report_all cfg bs ordered flags)
          ≡ judged cfg ordered r (rank_flags cfg.threshold_sigma floor bs ordered r 0 n) =
        keep-report_all cfg bs ordered r flags map_of
        ∙ report_of-judged cfg ordered r (0 + n) flags are
        ∙ ap (judged cfg ordered r)
            (held-flag_blocks cfg.threshold_sigma floor bs ordered r 0 n []) in
      let sizes : length ordered ≡ length gs = length-sort_by info_less gs in
      elim (Bool-cases (ltb_ℤ cfg.block_size (pos 2) || ltb (length gs) bs)) [
        | inl t ↦ rw (sizes, t) (Perm.refl [])
        | inr t ↦
            let t' : (ltb_ℤ cfg.block_size (pos 2) || ltb (length ordered) bs) ≡ false =
              rw sizes t in
            let whole : detect_in cfg gs durs
                ≡ sort_by deviates_more (report_all cfg bs ordered flags) =
              rw t in
            let right : reported cfg ordered durs r
                ≡ judged cfg ordered r
                    (rank_flags cfg.threshold_sigma floor bs ordered r 0 (length ordered / bs)) =
              rw t' in
            rw (whole, right)
              (subst
                (λ l.
                  Perm
                    (keep (λ a. a.straggler_rank == r)
                      (sort_by deviates_more (report_all cfg bs ordered flags)))
                    l)
                same
                (keep-perm (λ a. a.straggler_rank == r)
                  (sort_by-perm deviates_more (report_all cfg bs ordered flags))))
      ]

  -- Which ranks `DetectAnomalies` reports: of each rank, at most one anomaly. It reports none if
  -- `BlockSize` is below 2 or no block is full. Otherwise it reports the rank exactly if the blocks,
  -- taken one after the other and each on its own, flag it at all and the persistence test keeps
  -- these flags; the anomaly is then the one that they make.
  pub detect_anomalies-reported :
      (c : Correlator F) (window : ℤ) (r : ℕ)
      → let found : List (GroupInfo F) × List F =
          collect c.cfg.min_ranks (sub_64 c.newest_ns window) c.groups [] [] in
        Perm
          (keep (λ a. a.straggler_rank == r) (detect_anomalies c window))
          (reported c.cfg (sort_by info_less found.0) found.1 r)
  unfolding detect_anomalies
  detect_anomalies-reported c window r =
      let found : List (GroupInfo F) × List F =
        collect c.cfg.min_ranks (sub_64 c.newest_ns window) c.groups [] [] in
      detect_in-reported c.cfg found.0 found.1 r
