-- ===== src/Transport.antt =====
-- internal/transport/convert.go: events and their wire form, and the message types that
-- api/proto/flightrecorder.pb.go declares for it. A `oneof` with nothing set is `none`; a payload
-- pointer that is set is never nil, as protobuf decoding guarantees.
pub mod RoundTrip
pub mod Server
pub mod Streams
pub mod Connection
pub mod Session
pub mod Client
pub mod Report
use distributed_gpu_training.Base.{ℕ, Bool, Bytes, Option, none, some}
use distributed_gpu_training.Base.Int.{ℤ, wrap_32}
use distributed_gpu_training.Event.{Event, BaseEvent, base_of, timestamp_ns, rank}

pub record GpuMetricMessage (F : Type 0) : Type 0 where
  pub temperature_c : F
  pub power_watts : F
  pub utilization_pct : F
  pub mem_bandwidth_pct : F
  pub ecc_errors_sbe : ℕ
  pub ecc_errors_dbe : ℕ
  pub sm_clock_mhz : F
  pub throttle_reasons : ℕ
  pub compute_procs : ℤ

pub record NcclCollectiveMessage : Type 0 where
  pub pg_id : Bytes
  pub seq_id : ℕ
  pub step : ℤ
  pub op_type : Bytes
  pub data_size : ℕ
  pub duration_ns : ℤ
  pub algorithm : Bytes

pub record PcieBandwidthMessage (F : Type 0) : Type 0 where
  pub read_bw_mbs : F
  pub write_bw_mbs : F

pub record NvLinkMessage (F : Type 0) : Type 0 where
  pub link_id : ℕ
  pub throughput_gbs : F

pub record ThermalMessage (F : Type 0) : Type 0 where
  pub temperature_c : F
  pub throttle_active : Bool

pub data Payload (F : Type 0) : Type 0 where
  gpu_metric : GpuMetricMessage F → Payload F
  nccl_collective : NcclCollectiveMessage → Payload F
  pcie_bandwidth : PcieBandwidthMessage F → Payload F
  nvlink : NvLinkMessage F → Payload F
  thermal : ThermalMessage F → Payload F

pub record EventMessage (F : Type 0) : Type 0 where
  pub timestamp_ns : ℤ
  pub rank : ℕ
  pub node_id : Bytes
  pub gpu_uuid : Bytes
  pub event : Option (Payload F)

module _ {F : Type 0} where
  -- The `switch` of `ToProto` on the kind of the event.
  abbrev pub payload_of : Event F → Payload F
  payload_of (Event.gpu_metric v) = Payload.gpu_metric (record {
    temperature_c = v.temperature;
    power_watts = v.power_watts;
    utilization_pct = v.utilization;
    mem_bandwidth_pct = v.mem_bandwidth;
    ecc_errors_sbe = v.ecc_errors_sbe;
    ecc_errors_dbe = v.ecc_errors_dbe;
    sm_clock_mhz = v.sm_clock_mhz;
    throttle_reasons = v.throttle_reasons;
    compute_procs = wrap_32 v.compute_procs;
  })
  payload_of (Event.nccl v) = Payload.nccl_collective (record {
    pg_id = v.pg_id;
    seq_id = v.seq_id;
    step = v.step;
    op_type = v.op_type;
    data_size = v.data_size;
    duration_ns = v.duration_ns;
    algorithm = v.algorithm;
  })
  payload_of (Event.pcie v) =
      Payload.pcie_bandwidth
        (record { read_bw_mbs = v.read_bandwidth; write_bw_mbs = v.write_bandwidth })
  payload_of (Event.nvlink v) =
      Payload.nvlink (record { link_id = v.link_id; throughput_gbs = v.throughput_gb })
  payload_of (Event.thermal v) =
      Payload.thermal
        (record { temperature_c = v.temperature_c; throttle_active = v.throttle_active })

  -- All five kinds of events convert, so the error of `ToProto` has no case here.
  unfoldable pub to_proto : Event F → EventMessage F
  to_proto e = record {
    timestamp_ns = timestamp_ns e;
    rank = rank e;
    node_id = (base_of e).node_id;
    gpu_uuid = (base_of e).gpu_uuid;
    event = some (payload_of e);
  }

  abbrev pub event_of : BaseEvent → Payload F → Event F
  event_of b (Payload.gpu_metric g) = Event.gpu_metric (record {
    base = b;
    temperature = g.temperature_c;
    power_watts = g.power_watts;
    utilization = g.utilization_pct;
    mem_bandwidth = g.mem_bandwidth_pct;
    ecc_errors_sbe = g.ecc_errors_sbe;
    ecc_errors_dbe = g.ecc_errors_dbe;
    sm_clock_mhz = g.sm_clock_mhz;
    throttle_reasons = g.throttle_reasons;
    compute_procs = g.compute_procs;
  })
  event_of b (Payload.nccl_collective n) = Event.nccl (record {
    base = b;
    pg_id = n.pg_id;
    seq_id = n.seq_id;
    step = n.step;
    op_type = n.op_type;
    data_size = n.data_size;
    duration_ns = n.duration_ns;
    algorithm = n.algorithm;
  })
  event_of b (Payload.pcie_bandwidth p) =
      Event.pcie
        (record { base = b; read_bandwidth = p.read_bw_mbs; write_bandwidth = p.write_bw_mbs })
  event_of b (Payload.nvlink v) =
      Event.nvlink (record { base = b; link_id = v.link_id; throughput_gb = v.throughput_gbs })
  event_of b (Payload.thermal t) =
      Event.thermal
        (record { base = b; temperature_c = t.temperature_c; throttle_active = t.throttle_active })

  abbrev pub base_of_message : EventMessage F → BaseEvent
  base_of_message m = record {
    timestamp = m.timestamp_ns;
    rank_id = m.rank;
    node_id = m.node_id;
    gpu_uuid = m.gpu_uuid;
  }

  -- `none` is the error "event message has no payload".
  unfoldable pub from_proto : EventMessage F → Option (Event F)
  from_proto m = elim m.event [ none ↦ none | some p ↦ some (event_of (base_of_message m) p) ]
