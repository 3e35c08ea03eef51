-- ===== src/Trace.antt =====
-- internal/trace/trace.go: the envelope of an event in a JSONL trace, and `DecodeLine`. What
-- `encoding/json` does is a parameter (`Json`).
pub mod File
use distributed_gpu_training.Base.{Bytes, bytes_eq, codes, Option, none, some, if◌then◌else◌}
use distributed_gpu_training.Event.{
  Event, GpuMetric, NcclCollective, PcieBandwidth, NvLink, Thermal, gpu_metric, nccl, pcie, nvlink,
  thermal,
}

-- `envelope`, by its type and the raw JSON of its event.
pub record Envelope : Type 0 where
  pub kind : Bytes
  pub event : Bytes

-- `json.Unmarshal` into an envelope and into each event; `none` is an error.
pub record Json (F : Type 0) : Type 0 where
  pub envelope : Bytes → Option Envelope
  pub read_gpu_metric : Bytes → Option (GpuMetric F)
  pub read_nccl : Bytes → Option NcclCollective
  pub read_pcie : Bytes → Option (PcieBandwidth F)
  pub read_nvlink : Bytes → Option (NvLink F)
  pub read_thermal : Bytes → Option (Thermal F)

abbrev pub type_gpu_metric : Bytes
type_gpu_metric = codes "gpu_metric"

abbrev pub type_nccl : Bytes
type_nccl = codes "nccl_collective"

abbrev pub type_pcie : Bytes
type_pcie = codes "pcie_bandwidth"

abbrev pub type_nvlink : Bytes
type_nvlink = codes "nvlink"

abbrev pub type_thermal : Bytes
type_thermal = codes "thermal"

module _ {F : Type 0} where
  abbrev pub type_of : Event F → Bytes
  type_of (gpu_metric v) = type_gpu_metric
  type_of (nccl v) = type_nccl
  type_of (pcie v) = type_pcie
  type_of (nvlink v) = type_nvlink
  type_of (thermal v) = type_thermal

  -- `err, e = json.Unmarshal(env.Event, &v), v`: the event, unless there is an error.
  abbrev pub as_event : {A : Type 0} → (A → Event F) → Option A → Option (Event F)
  as_event make none = none
  as_event make (some v) = some (make v)

  unfoldable pub decode : Json F → Envelope → Option (Event F)
  unfolding bytes_eq
  decode j env =
      if bytes_eq env.kind type_gpu_metric
      then as_event gpu_metric (j.read_gpu_metric env.event)
      else (if bytes_eq env.kind type_nccl
          then as_event nccl (j.read_nccl env.event)
          else (if bytes_eq env.kind type_pcie
              then as_event pcie (j.read_pcie env.event)
              else (if bytes_eq env.kind type_nvlink
                  then as_event nvlink (j.read_nvlink env.event)
                  else (if bytes_eq env.kind type_thermal
                      then as_event thermal (j.read_thermal env.event)
                      else none))))

  unfoldable pub decode_line : Json F → Bytes → Option (Event F)
  unfolding decode
  decode_line j b = elim (j.envelope b) [ none ↦ none | some env ↦ decode j env ]
