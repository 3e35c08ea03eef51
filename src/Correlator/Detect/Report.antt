-- ===== src/Correlator/Detect/Report.antt =====
-- internal/correlator/correlator.go: what every anomaly that `DetectAnomalies` reports says.
pub mod Extent
use distributed_gpu_training.Correlator.Detect.Report.Extent.{
  info_less-IsWeakOrder, sorted-IsTimed, ts_at_mono, ts_at-IsTimeAt, last_block-Some, extent,
  All-Any, IsTimed, IsTimeAt,
}
use mathlib.Core.Path.{subst}
use native.Mathlib.Nat.{mul-le-mul_right, div-mul-le_self, zero-add}
use distributed_gpu_training.Base.{
  ℕ, zero, suc, ◌+◌, ◌-◌, ◌*◌, ◌/◌, ◌≤◌, ◌<◌, ◌≡◌, refl, ap, false, ◌||◌, inl, inr, some, List, [],
  ◌∷◌, arith, Bool-cases, Option-cases, length, get_elem?, get_elem?_of_lt, All, All-map_imp,
  All-both, ltb,
}
use distributed_gpu_training.Base.Int.{ℤ, pos, pos_part, sub_64, ltb_ℤ, ◌≤ℤ◌}
use distributed_gpu_training.Base.Pick.{IsIn, Some}
use distributed_gpu_training.Base.Sort.{
  sort_by, IsSorted, IsWeakOrder, sort_by-IsSorted, All-sort_by,
}
use distributed_gpu_training.Float.{Float64}
use distributed_gpu_training.Correlator.Stats.{compute_stats, of_len}
use distributed_gpu_training.Correlator.Store.{Correlator, Config}
use distributed_gpu_training.Correlator.Detect.{
  Anomaly, GroupInfo, Flag, collect, info_less, ts_at, flag_blocks, last_block, report_rank,
  report_all, is_dropped, anomaly_of, deviates_more, detect_in, detect_anomalies,
}
use distributed_gpu_training.Correlator.Detect.Blocks.{
  IsIncreasing, IsFlagged, AreFlagged, flag_blocks-AreFlagged, last_block-lt, length-le-span,
}

module _ {F : Type 0} ⦃d : Float64 F⦄ (cfg : Config F) (ordered : List (GroupInfo F))
    (flags : List (ℕ × List (Flag F))) where
  -- `own` are the flags of the anomaly's rank, one for each block that flags it; `first` and `last`
  -- are the outermost of these blocks.
  pub record IsReport (a : Anomaly F) : Type 0 where
    pub own : List (Flag F)
    pub flagged : IsIn (a.straggler_rank, own) flags
    pub apart : IsIncreasing own
    pub first : ℕ
    pub last : ℕ
    pub first_own : Some (λ f. first ≡ f.block) own
    pub last_own : Some (λ f. last ≡ f.block) own
    pub outermost : All (λ f. (first ≤ f.block) × (f.block ≤ last)) own
    pub hits : a.hits ≡ length own * pos_part cfg.block_size
    pub groups : a.groups ≡ (last + 1 - first) * pos_part cfg.block_size
    pub enough : cfg.min_hits ≤ℤ pos (length own)
    pub dense :
        d.lt (d.div (of_len (length own)) (of_len (last + 1 - first))) cfg.min_hit_fraction ≡ false
    pub hits_le : a.hits ≤ a.groups
    pub groups_le : a.groups ≤ length ordered
    pub start_at : IsTimeAt ordered (first * pos_part cfg.block_size) a.start_ns
    pub end_at : IsTimeAt ordered ((last + 1) * pos_part cfg.block_size - 1) a.end_ns
    pub in_time : a.start_ns ≤ℤ a.end_ns
    pub detected : a.detected_at ≡ a.end_ns

  abbrev bs : ℕ
  bs = pos_part cfg.block_size

  module _ (timed : IsTimed ordered) (two : 2 ≤ bs) where
    anomaly_of-IsReport :
        (r n : ℕ) (f : Flag F) (fl : List (Flag F))
        → n * bs ≤ length ordered
        → IsIn (r, f ∷ fl) flags
        → IsFlagged n (f ∷ fl)
        → is_dropped cfg (f ∷ fl) ≡ false
        → IsReport (anomaly_of bs ordered r (f ∷ fl))
    anomaly_of-IsReport r n f fl fits mem h e =
        let last = last_block (f ∷ fl) in
        let last_lt : last < n = last_block-lt n f fl h.below in
        let spread : f.block + length (f ∷ fl) ≤ last + 1 = length-le-span f fl h.increasing in
        let span : last - f.block + 1 ≡ last + 1 - f.block = omega arith in
        let inside : (last + 1) * bs ≤ n * bs = mul-le-mul_right bs (omega arith) in
        let early : f.block * bs ≤ last * bs = mul-le-mul_right bs (omega arith) in
        let next : (last + 1) * bs ≡ last * bs + bs = omega arith in
        let before : f.block * bs ≤ (last + 1) * bs - 1 = omega arith in
        let bounded : (last + 1) * bs - 1 < length ordered = omega arith in
        let narrow : length (f ∷ fl) * bs ≤ (last - f.block + 1) * bs =
          mul-le-mul_right bs (omega arith) in
        let wide : (last - f.block + 1) * bs ≤ (last + 1) * bs =
          mul-le-mul_right bs (omega arith) in
        record {
          own = f ∷ fl;
          flagged = mem;
          apart = h.increasing;
          first = f.block;
          last = last;
          first_own = inl refl;
          last_own = last_block-Some f fl;
          outermost = extent f fl h.increasing;
          hits = refl;
          groups = ap (λ t. t * bs) span;
          enough = ground arith;
          dense = rw (← span) (ground arith);
          hits_le = narrow;
          groups_le = omega arith;
          start_at = ts_at-IsTimeAt ordered (f.block * bs) (omega arith);
          end_at = ts_at-IsTimeAt ordered ((last + 1) * bs - 1) bounded;
          in_time = ts_at_mono ordered (f.block * bs) ((last + 1) * bs - 1) timed before bounded;
          detected = refl;
        }

    report_rank-IsReport :
        (r n : ℕ) (fl : List (Flag F)) (a : Anomaly F)
        → n * bs ≤ length ordered
        → 0 < length fl
        → IsIn (r, fl) flags
        → IsFlagged n fl
        → report_rank cfg bs ordered r fl ≡ some a
        → IsReport a
    unfolding report_rank
    report_rank-IsReport r n [] a fits p mem h e = elim p [ ]
    report_rank-IsReport r n (f ∷ fl) a fits p mem h e =
        elim (Bool-cases (is_dropped cfg (f ∷ fl))) [
          | inl t ↦ absurd (cc (rw t at e))
          | inr t ↦
              let found : some (anomaly_of bs ordered r (f ∷ fl)) ≡ some a = rw t at e in
              let same : anomaly_of bs ordered r (f ∷ fl) ≡ a = cc in
              subst IsReport same (anomaly_of-IsReport r n f fl fits mem h t)
        ]

    report_all-IsReport :
        (n : ℕ) (left : List (ℕ × List (Flag F)))
        → n * bs ≤ length ordered
        → ((e : ℕ × List (Flag F)) → IsIn e left → IsIn e flags)
        → AreFlagged n left
        → All IsReport (report_all cfg bs ordered left)
    unfolding report_all
    report_all-IsReport n [] fits mem h = tt
    report_all-IsReport n ((r, fl) ∷ left) fits mem h =
        let rest = report_all-IsReport n left fits (λ e i. mem e (inr i)) h.1 in
        elim (Option-cases (report_rank cfg bs ordered r fl)) [
          | inl q ↦ rw (q, report_all) rest
          | inr (a, q) ↦
              rw (q, report_all)
                (report_rank-IsReport r n fl a fits h.0.0 (mem (r, fl) (inl refl)) h.0.1 q, rest)
        ]

module _ {F : Type 0} ⦃d : Float64 F⦄ where
  -- The groups that `DetectAnomalies` scores, in the order of their time.
  abbrev pub scored : Correlator F → ℤ → List (GroupInfo F)
  scored c window =
      sort_by info_less (collect c.cfg.min_ranks (sub_64 c.newest_ns window) c.groups [] []).0

  -- The flags that all full blocks give, by rank.
  abbrev pub flags_in : Config F → List (GroupInfo F) → List F → List (ℕ × List (Flag F))
  flags_in cfg gs durs =
      let bs = pos_part cfg.block_size in
      let ordered = sort_by info_less gs in
      let floor = d.mul cfg.jitter_floor (compute_stats durs).median in
      flag_blocks cfg.threshold_sigma floor bs ordered 0 (length ordered / bs) []

  -- The flags of `DetectAnomalies`.
  abbrev pub flags_of : Correlator F → ℤ → List (ℕ × List (Flag F))
  flags_of c window =
      let found = collect c.cfg.min_ranks (sub_64 c.newest_ns window) c.groups [] [] in
      flags_in c.cfg found.0 found.1

  detect_in-IsReport :
      (cfg : Config F) (gs : List (GroupInfo F)) (durs : List F)
      → All (IsReport cfg (sort_by info_less gs) (flags_in cfg gs durs)) (detect_in cfg gs durs)
  unfolding detect_in
  detect_in-IsReport cfg gs durs =
      let ordered = sort_by info_less gs in
      let bs = pos_part cfg.block_size in
      let n = length ordered / bs in
      let floor = d.mul cfg.jitter_floor (compute_stats durs).median in
      let flags = flag_blocks cfg.threshold_sigma floor bs ordered 0 n [] in
      let timed = sorted-IsTimed ordered (sort_by-IsSorted info_less-IsWeakOrder gs (All-Any gs)) in
      elim (Bool-cases (ltb_ℤ cfg.block_size (pos 2) || ltb (length gs) bs)) [
        | inl t ↦ rw t tt
        | inr t ↦
            let two : 2 ≤ bs = ground arith in
            rw t (
              All-sort_by deviates_more (IsReport cfg ordered flags)
                (report_all cfg bs ordered flags)
                (report_all-IsReport cfg ordered flags timed two n flags
                  (div-mul-le_self (length ordered) bs) (λ e i. i)
                  (subst (λ k. AreFlagged k flags) (zero-add n)
                    (flag_blocks-AreFlagged cfg.threshold_sigma floor bs ordered 0 n [] tt))))
      ]

  -- Every anomaly that `DetectAnomalies` reports rests on the flags of its rank, from at least
  -- `MinHits` different blocks, which make up at least `MinHitFraction` of the blocks from the first
  -- to the last of those that flag the rank. `Hits` and
  -- `Groups` are these two numbers of blocks times `BlockSize`, and `Hits <= Groups <=` the number
  -- of scored groups. `StartNs` is the time of the first group of the first flagged block, `EndNs`
  -- and `DetectedAt` that of the last group of the last one (no index is out of range), and
  -- `StartNs <= EndNs`.
  pub detect_anomalies-IsReport :
      (c : Correlator F) (window : ℤ)
      → All (IsReport c.cfg (scored c window) (flags_of c window)) (detect_anomalies c window)
  unfolding detect_anomalies
  detect_anomalies-IsReport c window =
      let found = collect c.cfg.min_ranks (sub_64 c.newest_ns window) c.groups [] [] in
      detect_in-IsReport c.cfg found.0 found.1
