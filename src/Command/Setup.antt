-- ===== src/Command/Setup.antt =====
-- cmd/gfr/main.go: the flags of the commands, and what is set up from them.
use distributed_gpu_training.Base.{
  ℕ, ◌*◌, ◌^◌, Bool, false, Bytes, codes, Option, none, some, List, [], ◌∷◌, ◌++◌, map, ◌==◌,
  length, if◌then◌else◌,
}
use distributed_gpu_training.Base.Int.{ℤ, pos, pos_part, neg_part, sub_ℕ, ltb_ℤ, to_word, wrap_64}
use distributed_gpu_training.Float.{Float64}
use distributed_gpu_training.Event.{AgentConfig, default_agent_config}
use distributed_gpu_training.Coordinator.{Options, Live, new_live}

pub record AgentFlags : Type 0 where
  pub coordinator_addr : Bytes
  pub node_id : Bytes
  pub poll_interval_ms : ℤ
  pub buffer_size : ℤ
  pub replay_file : Bytes
  pub tail_glob : Bytes
  pub replay_ranks : List ℤ

-- The flags of `gfr agent` without arguments.
abbrev pub default_flags : AgentFlags
default_flags = record {
  coordinator_addr = codes "localhost:50051";
  node_id = [];
  poll_interval_ms = pos 100;
  buffer_size = pos (2 ^ 20);
  replay_file = [];
  tail_glob = [];
  replay_ranks = [];
}

-- A collector that the agent is given.
pub data Source : Type 0 where
  replay_source : Bytes → List ℕ → Source
  tail_source : Bytes → ℤ → Source

pub record AgentSetup : Type 0 where
  pub config : AgentConfig
  pub sources : List Source
  -- The address of the client, if there is one.
  pub client : Option Bytes

-- `time.Duration(ms) * time.Millisecond`
abbrev pub milliseconds : ℤ → ℤ
milliseconds ms = wrap_64 (sub_ℕ (pos_part ms * 1_000_000) (neg_part ms * 1_000_000))

abbrev pub is_empty : Bytes → Bool
is_empty s = length s == 0

unfoldable pub agent_config : AgentFlags → AgentConfig
agent_config flags =
    let cfg = default_agent_config in
    record cfg {
      coordinator_address =
          if is_empty flags.coordinator_addr
          then cfg.coordinator_address
          else flags.coordinator_addr;
      node_id = if is_empty flags.node_id then cfg.node_id else flags.node_id;
      poll_interval =
          if ltb_ℤ (pos 0) flags.poll_interval_ms
          then milliseconds flags.poll_interval_ms
          else cfg.poll_interval;
      buffer_size = if ltb_ℤ (pos 0) flags.buffer_size then flags.buffer_size else cfg.buffer_size;
    }

unfoldable pub agent_setup : AgentFlags → AgentSetup
unfolding agent_config
agent_setup flags =
    let cfg = agent_config flags in
    let replays : List Source =
      if is_empty flags.replay_file
      then []
      else replay_source flags.replay_file (map (to_word (2 ^ 32)) flags.replay_ranks) ∷ [] in
    let tails : List Source =
      if is_empty flags.tail_glob then [] else tail_source flags.tail_glob cfg.poll_interval ∷ [] in
    record {
      config = cfg;
      sources = replays ++ tails;
      client = if is_empty cfg.coordinator_address then none else some cfg.coordinator_address;
    }

pub record ReplayFlags (F : Type 0) : Type 0 where
  pub threshold_sigma : F
  pub attribution_window : ℤ
  pub json : Bool

abbrev pub five_seconds : ℤ
five_seconds = pos 5_000_000_000

-- The flags of `gfr replay` without arguments.
abbrev pub default_replay_flags : {F : Type 0} ⦃d : Float64 F⦄ → ReplayFlags F
default_replay_flags ⦃d⦄ = record {
  threshold_sigma = d.lit 4 0;
  attribution_window = five_seconds;
  json = false;
}

-- The options of `gfr replay`, by two of its flags.
abbrev pub replay_options : {F : Type 0} → F → ℤ → Options F
replay_options threshold window = record {
  threshold_sigma = threshold;
  attribution_window = window;
}

pub record CoordinatorFlags (F : Type 0) : Type 0 where
  pub listen_addr : Bytes
  pub threshold_sigma : F

-- The flags of `gfr coordinator` without arguments.
abbrev pub default_coordinator_flags : {F : Type 0} ⦃d : Float64 F⦄ → CoordinatorFlags F
default_coordinator_flags ⦃d⦄ = record { listen_addr = codes ":50051"; threshold_sigma = d.lit 4 0 }

-- The live coordinator of `gfr coordinator`, by its threshold.
abbrev pub coordinator_options : {F : Type 0} → F → Options F
coordinator_options threshold = record { threshold_sigma = threshold; attribution_window = pos 0 }

unfoldable pub coordinator_setup : {F : Type 0} → F → Live F
unfolding new_live
coordinator_setup threshold = new_live (coordinator_options threshold) (pos 0)

-- The flag of `gfr report` without arguments.
abbrev pub default_report_addr : Bytes
default_report_addr = codes "localhost:50051"
