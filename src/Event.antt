-- ===== src/Event.antt =====
-- internal/types/events.go and internal/types/config.go: the five kinds of events, and the
-- defaults of the agent and the coordinator. `int64`, `int` and durations are ℤ, unsigned integers
-- are ℕ, a Go string is its bytes, and a `float64` is any type `F` (`Float`).
use distributed_gpu_training.Base.{ℕ, ◌^◌, Bool, Bytes, codes, List, []}
use distributed_gpu_training.Base.Int.{ℤ, pos}
use distributed_gpu_training.Float.{Float64}

pub record BaseEvent : Type 0 where
  pub timestamp : ℤ
  pub rank_id : ℕ
  pub node_id : Bytes
  pub gpu_uuid : Bytes

pub record GpuMetric (F : Type 0) : Type 0 where
  pub base : BaseEvent
  pub temperature : F
  pub power_watts : F
  pub utilization : F
  pub mem_bandwidth : F
  pub ecc_errors_sbe : ℕ
  pub ecc_errors_dbe : ℕ
  pub sm_clock_mhz : F
  pub throttle_reasons : ℕ
  pub compute_procs : ℤ

pub record NcclCollective : Type 0 where
  pub base : BaseEvent
  pub pg_id : Bytes
  pub seq_id : ℕ
  pub step : ℤ
  pub op_type : Bytes
  pub data_size : ℕ
  pub duration_ns : ℤ
  pub algorithm : Bytes

pub record PcieBandwidth (F : Type 0) : Type 0 where
  pub base : BaseEvent
  pub read_bandwidth : F
  pub write_bandwidth : F

pub record NvLink (F : Type 0) : Type 0 where
  pub base : BaseEvent
  pub link_id : ℕ
  pub throughput_gb : F

pub record Thermal (F : Type 0) : Type 0 where
  pub base : BaseEvent
  pub temperature_c : F
  pub throttle_active : Bool

-- The interface `types.Event`; a nil interface is `none` of `Option (Event F)`.
pub data Event (F : Type 0) : Type 0 where
  gpu_metric : GpuMetric F → Event F
  nccl : NcclCollective → Event F
  pcie : PcieBandwidth F → Event F
  nvlink : NvLink F → Event F
  thermal : Thermal F → Event F

module _ {F : Type 0} where
  -- The embedded `BaseEvent`.
  abbrev pub base_of : Event F → BaseEvent
  base_of (gpu_metric m) = m.base
  base_of (nccl n) = n.base
  base_of (pcie p) = p.base
  base_of (nvlink v) = v.base
  base_of (thermal t) = t.base

  abbrev pub timestamp_ns : Event F → ℤ
  timestamp_ns e = (base_of e).timestamp

  abbrev pub rank : Event F → ℕ
  rank e = (base_of e).rank_id

pub record AgentConfig : Type 0 where
  pub poll_interval : ℤ
  pub buffer_size : ℤ
  pub coordinator_address : Bytes
  pub node_id : Bytes
  pub gpu_indices : List ℤ

abbrev pub second : ℤ
second = pos 1_000_000_000

abbrev pub default_agent_config : AgentConfig
default_agent_config = record {
  poll_interval = pos 100_000_000;
  buffer_size = pos (2 ^ 20);
  coordinator_address = [];
  node_id = [];
  gpu_indices = [];
}

pub record CoordinatorConfig (F : Type 0) : Type 0 where
  pub listen_address : Bytes
  pub anomaly_threshold_sigma : F
  pub lookback_window : ℤ
  pub attribution_window : ℤ

abbrev pub default_coordinator_config : {F : Type 0} ⦃d : Float64 F⦄ → CoordinatorConfig F
default_coordinator_config ⦃d⦄ = record {
  listen_address = codes ":50051";
  anomaly_threshold_sigma = d.lit 2 0;
  lookback_window = pos 30_000_000_000;
  attribution_window = pos 5_000_000_000;
}
