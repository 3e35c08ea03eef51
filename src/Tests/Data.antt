-- ===== src/Tests/Data.antt =====
-- The concrete events and states of the tests.
use distributed_gpu_training.Base.{
  ℕ, zero, suc, ◌+◌, ◌*◌, ◌==◌, if◌then◌else◌, Bytes, Option, none, codes, some, List, [], ◌∷◌,
  ◌++◌, Bool, true,
}
use distributed_gpu_training.Base.Int.{pos}
use distributed_gpu_training.Float.Fixed.{Fixed, fixed_float}
use distributed_gpu_training.Event.{BaseEvent, Event, gpu_metric, nccl, thermal, Thermal}
use distributed_gpu_training.Trace.{Json, type_thermal}
use distributed_gpu_training.Correlator.Store.{Config, Correlator, new_correlator, default_config}
use distributed_gpu_training.Correlator.Store.History.{ingest_all}
use distributed_gpu_training.Correlator.Detect.{Anomaly}
use distributed_gpu_training.Attribution.Engine.{Engine}

-- A whole number as a fixed-point value.
abbrev pub whole_f : ℕ → Fixed
whole_f n = some (pos (n * 10_000))

abbrev pub base_at : ℕ → ℕ → BaseEvent
base_at ts r = record {
  timestamp = pos ts;
  rank_id = r;
  node_id = codes "n0";
  gpu_uuid = codes "g0";
}

abbrev pub collective : ℕ → ℕ → ℕ → ℕ → Event Fixed
collective ts r seq duration = nccl (record {
  base = base_at ts r;
  pg_id = codes "pg";
  seq_id = seq;
  step = pos seq;
  op_type = codes "AllReduce";
  data_size = 64;
  duration_ns = pos duration;
  algorithm = codes "ring";
})

abbrev pub sample_of : ℕ → ℕ → ℕ → ℕ → Event Fixed
sample_of ts r reasons clock = gpu_metric (record {
  base = base_at ts r;
  temperature = whole_f 60;
  power_watts = whole_f 300;
  utilization = whole_f 95;
  mem_bandwidth = whole_f 40;
  ecc_errors_sbe = 0;
  ecc_errors_dbe = 0;
  sm_clock_mhz = whole_f clock;
  throttle_reasons = reasons;
  compute_procs = pos 1;
})

abbrev pub hot : ℕ → ℕ → Bool → Event Fixed
hot ts r active =
    thermal (record { base = base_at ts r; temperature_c = whole_f 90; throttle_active = active })

-- Collective `seq` on three ranks, of which rank 2 comes last.
abbrev pub late_group : ℕ → List (Event Fixed)
late_group seq =
    collective (1000 + 100 * seq) 2 seq 10
    ∷ collective (1001 + 100 * seq) 0 seq 100
    ∷ collective (1002 + 100 * seq) 1 seq 100
    ∷ []

abbrev pub late_groups : ℕ → ℕ → List (Event Fixed)
late_groups seq zero = []
late_groups seq (suc n) = late_group seq ++ late_groups (suc seq) n

-- Four late collectives, with thermal throttling on rank 2 meanwhile.
abbrev pub trace : List (Event Fixed)
trace = sample_of 1100 2 0x20 1400 ∷ late_groups 0 4 ++ (hot 1050 2 true ∷ [])

-- Enough collectives for two blocks of the default size.
abbrev pub long_trace : List (Event Fixed)
long_trace = sample_of 1100 2 0x20 1400 ∷ late_groups 0 60

abbrev pub small_config : Config Fixed
small_config = record (default_config (whole_f 4)) { lookback = pos 0; block_size = pos 2 }

abbrev pub window_config : Config Fixed
window_config = record (default_config (whole_f 4)) { lookback = pos 150 }

abbrev pub loaded : Correlator Fixed
loaded = ingest_all (new_correlator small_config) trace

abbrev pub windowed : Correlator Fixed
windowed = ingest_all (new_correlator window_config) trace

abbrev pub engine : Engine
engine = record { attribution_window_ns = pos 500 }

abbrev pub late_anomaly : Anomaly Fixed
late_anomaly = record {
  detected_at = pos 1302;
  straggler_rank = 2;
  op_type = codes "AllReduce";
  lag_ns = pos 90;
  deviation_sigma = some (pos 203_109);
  hits = 4;
  groups = 4;
  start_ns = pos 1002;
  end_ns = pos 1302;
}

-- A codec in which every text is a thermal event, but for one that starts with an x.
abbrev toy_thermal : Bytes → Option (Thermal Fixed)
toy_thermal [] = none
toy_thermal (b ∷ bs) =
    if b == 120
    then none
    else some (record { base = base_at b 0; temperature_c = whole_f 70; throttle_active = true })

abbrev pub toy_json : Json Fixed
toy_json = record {
  envelope = λ b. some (record { kind = type_thermal; event = b });
  read_gpu_metric = λ b. none;
  read_nccl = λ b. none;
  read_pcie = λ b. none;
  read_nvlink = λ b. none;
  read_thermal = toy_thermal;
}

-- Two good lines and a bad one, cut in the middle of a line, and the start of a fourth.
abbrev pub chunks : List Bytes
chunks = (65 ∷ 10 ∷ 66 ∷ []) ∷ (67 ∷ 10 ∷ 120 ∷ 10 ∷ []) ∷ [] ∷ (68 ∷ []) ∷ []

-- A clock that fell, and one throttled sample of four.
abbrev pub mixed : List (Event Fixed)
mixed =
    sample_of 100 2 0 1400
    ∷ sample_of 1000 2 0 400
    ∷ sample_of 1100 2 0x20 400
    ∷ sample_of 1200 2 0 400
    ∷ sample_of 1300 2 0 400
    ∷ []
