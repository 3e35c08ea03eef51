-- ===== src/Correlator/Detect.antt =====
-- internal/correlator/correlator.go: `DetectAnomalies`. A `range` over a map visits the entries in
-- the order of the association list; Go leaves that order open. An index that is in range by the
-- loop bounds reads through `ts_at` and `op_at`, whose defaults are never used
-- (`Detect.Blocks` has the bounds).
pub mod Blocks
pub mod Report
pub mod Held
pub mod Own
pub mod Complete
pub mod Mode
pub mod Visit
mod Groups
unfoldable pub use Groups.*
use distributed_gpu_training.Base.{
  ℕ, zero, suc, ◌+◌, ◌-◌, ◌*◌, ◌/◌, Bool, true, false, ◌||◌, ◌&&◌, not, Bytes, bytes_eq, bytes_lt,
  Option, none, some, List, [], ◌∷◌, ◌++◌, map, ◌==◌, ltb, leb, if◌then◌else◌, length, take, drop,
  get_elem?,
}
use distributed_gpu_training.Base.Int.{ℤ, pos, pos_part, sub_64, ltb_ℤ, eqb_ℤ}
use distributed_gpu_training.Base.Assoc.{lookup, insert}
use distributed_gpu_training.Base.Sort.{sort_by}
use distributed_gpu_training.Float.{Float64, zero_f}
use distributed_gpu_training.Correlator.Stats.{compute_stats, robust_scale, of_len}
use distributed_gpu_training.Correlator.Store.{Config, Correlator, GroupKey, Group, or_empty}

module _ {F : Type 0} ⦃d : Float64 F⦄ where
  -- The test of one rank in one block: `none` is no flag.
  unfoldable pub flag_rank :
      F → F → ℕ → List (GroupInfo F) → List (ℕ × List F) → List (ℕ × F) → ℕ → F → Option (Flag F)
  flag_rank threshold floor b blk lags med r m =
      let others = others_of r med in
      let base = (compute_stats others).median in
      let sigma = d.fmax (robust_scale (compute_stats (pooled_of r lags med))) floor in
      let n = length (or_empty (lookup ◌==◌ r lags)) in
      let se = d.div (d.mul (d.lit 12533 4) sigma) (d.sqrt (of_len n)) in
      let z = d.div (d.sub m base) se in
      let flag : Flag F = record {
        block = b;
        z = z;
        lag = d.sub m base;
        op = op_at blk (length blk / 2);
      } in
      if length others == 0 then none else (if d.lt threshold z then some flag else none)

  unfoldable pub flag_block :
      F → F → ℕ → List (GroupInfo F) → ℕ → List (ℕ × List (Flag F)) → List (ℕ × List (Flag F))
  unfolding flag_rank
  flag_block threshold floor bs gs b flags =
      let blk = take bs (drop (b * bs) gs) in
      let lags = per_rank [] blk in
      let med = medians bs lags in flag_all (flag_rank threshold floor b blk lags med) med flags

  -- The loop over the blocks, with `n` blocks to go.
  unfoldable pub flag_blocks :
      F → F → ℕ → List (GroupInfo F) → ℕ → ℕ → List (ℕ × List (Flag F)) → List (ℕ × List (Flag F))
  unfolding flag_block
  flag_blocks threshold floor bs gs b zero flags = flags
  flag_blocks threshold floor bs gs b (suc n) flags =
      flag_blocks threshold floor bs gs (b + 1) n (flag_block threshold floor bs gs b flags)

-- The loop of `modeKey`; `none` is the start, with the count -1.
abbrev pub mode_from : Bytes × Option ℕ → List (Bytes × ℕ) → Bytes
mode_from (best, bn) [] = best
mode_from (best, none) ((k, n) ∷ m) = mode_from (k, some n) m
mode_from (best, some bn) ((k, n) ∷ m) =
    mode_from (if ltb bn n || ((n == bn) && bytes_lt k best) then (k, some n) else (best, some bn))
      m

unfoldable pub mode_key : List (Bytes × ℕ) → Bytes
mode_key m = mode_from ([], none) m

module _ {F : Type 0} ⦃d : Float64 F⦄ where
  -- `len(fl) < MinHits || float64(len(fl))/float64(span) < MinHitFraction`
  abbrev pub is_dropped : Config F → List (Flag F) → Bool
  is_dropped cfg fl =
      let span = last_block fl - first_block fl + 1 in
      ltb_ℤ (pos (length fl)) cfg.min_hits
      || d.lt (d.div (of_len (length fl)) (of_len span)) cfg.min_hit_fraction

  abbrev pub anomaly_of : ℕ → List (GroupInfo F) → ℕ → List (Flag F) → Anomaly F
  anomaly_of bs gs r fl =
      let first = first_block fl in
      let last = last_block fl in
      let span = last - first + 1 in
      record {
        detected_at = ts_at gs ((last + 1) * bs - 1);
        straggler_rank = r;
        op_type = mode_key (count_ops [] fl);
        lag_ns = d.to_int (compute_stats (map (λ f. f.lag) fl)).median;
        deviation_sigma = (compute_stats (map (λ f. f.z) fl)).median;
        hits = length fl * bs;
        groups = span * bs;
        start_ns = ts_at gs (first * bs);
        end_ns = ts_at gs ((last + 1) * bs - 1);
      }

  -- One round of the loop over `flags`: `none` is `continue`.
  unfoldable pub report_rank :
      Config F → ℕ → List (GroupInfo F) → ℕ → List (Flag F) → Option (Anomaly F)
  unfolding mode_key
  report_rank cfg bs gs r fl = if is_dropped cfg fl then none else some (anomaly_of bs gs r fl)

  unfoldable pub report_all :
      Config F → ℕ → List (GroupInfo F) → List (ℕ × List (Flag F)) → List (Anomaly F)
  unfolding report_rank
  report_all cfg bs gs [] = []
  report_all cfg bs gs ((r, fl) ∷ flags) = elim (report_rank cfg bs gs r fl) [
    | none ↦ report_all cfg bs gs flags
    | some a ↦ a ∷ report_all cfg bs gs flags
  ]

  abbrev pub deviates_more : Anomaly F → Anomaly F → Bool
  deviates_more a b = d.lt b.deviation_sigma a.deviation_sigma

  -- `DetectAnomalies` behind the collection of the groups: `gs` is in the order of collection.
  unfoldable pub detect_in : Config F → List (GroupInfo F) → List F → List (Anomaly F)
  unfolding report_all flag_blocks
  detect_in cfg gs durs =
      let bs = pos_part cfg.block_size in
      let ordered = sort_by info_less gs in
      let floor = d.mul cfg.jitter_floor (compute_stats durs).median in
      let flags = flag_blocks cfg.threshold_sigma floor bs ordered 0 (length ordered / bs) [] in
      let out = sort_by deviates_more (report_all cfg bs ordered flags) in
      if ltb_ℤ cfg.block_size (pos 2) || ltb (length gs) bs then [] else out

  unfoldable pub detect_anomalies : Correlator F → ℤ → List (Anomaly F)
  unfolding collect detect_in
  detect_anomalies c window =
      let cutoff = sub_64 c.newest_ns window in
      let (gs, durs) = collect c.cfg.min_ranks cutoff c.groups [] [] in detect_in c.cfg gs durs
