-- ===== src/Sim/Scenario.antt =====
-- internal/sim/sim.go: its types, constants and the parts of an event. `math/rand` is a parameter
-- (`Rng`).
use distributed_gpu_training.Base.{
  ℕ, ◌+◌, ◌*◌, ◌%◌, ◌^◌, Bool, true, false, not, ◌&&◌, Bytes, codes, Option, List, [], ◌∷◌, leb,
  if◌then◌else◌,
}
use distributed_gpu_training.Base.Int.{ℤ, pos, wrap_64}
use distributed_gpu_training.Event.{BaseEvent, GpuMetric, NcclCollective}
use distributed_gpu_training.Attribution.Rules.{
  CauseType, thermal_throttle, power_throttle, ecc_errors, pcie_bandwidth_drop, nvlink_degraded,
  gpu_contention, host_stall, unknown,
}

-- `Fault`, which is a string: its constants, and any other string.
pub data Fault : Type 0 where
  clean thermal power ecc pcie_fault nvlink_fault stalled contention : Fault
  contention_hidden compound : Fault
  other : Bytes → Fault

abbrev pub is_clean : Fault → Bool
is_clean clean = true
is_clean _ = false

pub record Params (F : Type 0) : Type 0 where
  pub fault : Fault
  pub seed : ℤ
  pub ranks : ℤ
  pub steps : ℤ
  pub jitter : F
  pub severity : F

-- `Truth`: the straggler is -1 in a clean run.
pub record GroundTruth : Type 0 where
  pub fault : Fault
  pub straggler : ℤ
  pub causes : List CauseType

-- A generator with the state `S`. `Intn` panics (`none`) if its argument is not positive.
pub record Rng (S F : Type 0) : Type 0 where
  pub seeded : ℤ → S
  pub intn : ℤ → S → Option (ℤ × S)
  pub float64 : S → F × S
  pub norm_float64 : S → F × S

unfoldable pub causes_for : Fault → List CauseType
causes_for thermal = thermal_throttle ∷ []
causes_for power = power_throttle ∷ []
causes_for ecc = ecc_errors ∷ []
causes_for pcie_fault = pcie_bandwidth_drop ∷ []
causes_for nvlink_fault = nvlink_degraded ∷ []
causes_for stalled = host_stall ∷ []
causes_for compound = thermal_throttle ∷ ecc_errors ∷ []
causes_for contention = gpu_contention ∷ []
causes_for contention_hidden = unknown ∷ []
causes_for _ = []

abbrev pub step_ns : ℕ
step_ns = 100_000_000

abbrev pub onset_div : ℕ
onset_div = 2

-- `int64(s) * stepNs`
abbrev pub time_of : ℕ → ℤ
time_of s = wrap_64 (pos (s * step_ns))

abbrev pub base_event : ℕ → ℕ → BaseEvent
base_event s r = record {
  timestamp = time_of s;
  rank_id = r % 2 ^ 32;
  node_id = codes "sim";
  gpu_uuid = [];
}

-- The collective of the rank `r` in the step `s`.
abbrev pub all_reduce : ℕ → ℕ → ℤ → NcclCollective
all_reduce s r duration = record {
  base = base_event s r;
  pg_id = codes "pg0";
  seq_id = s;
  step = pos 0;
  op_type = codes "AllReduce";
  data_size = 2 ^ 28;
  duration_ns = duration;
  algorithm = [];
}

-- `baseProcs`
abbrev pub base_procs : Fault → ℤ
base_procs contention_hidden = pos 0
base_procs _ = pos 1

-- `p.Fault == ECC || p.Fault == Compound`
abbrev pub has_ecc : Fault → Bool
has_ecc ecc = true
has_ecc compound = true
has_ecc _ = false

-- What the loops carry: the generator and the two counters.
pub record SimState (S : Type 0) : Type 0 where
  pub rng : S
  pub ecc_s : ℕ
  pub ecc_d : ℕ

-- A sample before its counters are set, and its two bandwidths.
pub record Readings (F : Type 0) : Type 0 where
  pub metric : GpuMetric F
  pub pcie_mbs : F
  pub nvlink_gb : F

-- `faulty`
abbrev pub is_faulty : Fault → ℕ → ℕ → Bool
is_faulty f onset s = not (is_clean f) && leb onset s

-- `eccS += 3; eccD++`
abbrev pub count_ecc : {S : Type 0} → Bool → SimState S → SimState S
count_ecc b st =
    if b then record st { ecc_s = (st.ecc_s + 3) % 2 ^ 64; ecc_d = (st.ecc_d + 1) % 2 ^ 64 } else st
