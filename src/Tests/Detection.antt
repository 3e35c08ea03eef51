-- ===== src/Tests/Detection.antt =====
-- The theorems on which ranks are reported, at concrete inputs.
use mathlib.Core.List.{Perm}
use mathlib.Core.List.Perm
use distributed_gpu_training.Base.{ℕ, ◌≡◌, Bytes, codes, List, [], ◌∷◌, keep, ◌==◌}
use distributed_gpu_training.Base.Int.{sub_64}
use distributed_gpu_training.Base.Sort.{sort_by}
use distributed_gpu_training.Float.Fixed.{Fixed, fixed_float}
use distributed_gpu_training.Coordinator.{whole_trace}
use distributed_gpu_training.Correlator.Detect.{
  GroupInfo, collect, info_less, mode_key, detect_anomalies,
}
use distributed_gpu_training.Correlator.Detect.Complete.{reported, detect_anomalies-reported}
use distributed_gpu_training.Correlator.Detect.Mode.{mode_key-perm}
use distributed_gpu_training.Tests.Data.{loaded}

detect_anomalies-reported_example :
    let found : List (GroupInfo Fixed) × List Fixed =
      collect loaded.cfg.min_ranks (sub_64 loaded.newest_ns whole_trace) loaded.groups [] [] in
    Perm
      (keep (λ a. a.straggler_rank == 2) (detect_anomalies loaded whole_trace))
      (reported loaded.cfg (sort_by info_less found.0) found.1 2)
detect_anomalies-reported_example = detect_anomalies-reported loaded whole_trace 2

-- Two operations with the same count, in both orders.
abbrev counts : List (Bytes × ℕ)
counts = (codes "Send", 3) ∷ (codes "AllReduce", 3) ∷ []

abbrev swapped : List (Bytes × ℕ)
swapped = (codes "AllReduce", 3) ∷ (codes "Send", 3) ∷ []

mode_key-perm_example : mode_key counts ≡ mode_key swapped
mode_key-perm_example =
    mode_key-perm counts swapped (Perm.swap (codes "AllReduce", 3) (codes "Send", 3) [])
