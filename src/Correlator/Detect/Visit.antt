-- ===== src/Correlator/Detect/Visit.antt =====
-- internal/correlator/correlator.go: the order in which `DetectAnomalies` visits its map of flags, which
-- Go leaves open.
use mathlib.Core.List.{Perm}
use mathlib.Core.List.Perm
use distributed_gpu_training.Base.{ℕ, ◌||◌, List, [], length, ltb, if◌then◌else◌}
use distributed_gpu_training.Base.Int.{pos, pos_part, ltb_ℤ}
use distributed_gpu_training.Base.Sort.{sort_by}
use distributed_gpu_training.Float.{Float64}
use distributed_gpu_training.Correlator.Store.{Correlator, Config}
use distributed_gpu_training.Correlator.Detect.{
  Anomaly, GroupInfo, Flag, info_less, report_all, deviates_more,
}

module _ {F : Type 0} ⦃d : Float64 F⦄ where
  -- `DetectAnomalies` behind its blocks, if it visits the flags in the order of `seen`.
  abbrev pub reported : Config F → List (GroupInfo F) → List (ℕ × List (Flag F)) → List (Anomaly F)
  reported cfg gs seen =
      let bs = pos_part cfg.block_size in
      if ltb_ℤ cfg.block_size (pos 2) || ltb (length gs) bs
      then []
      else sort_by deviates_more (report_all cfg bs (sort_by info_less gs) seen)
