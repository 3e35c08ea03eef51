-- ===== src/Command/Run.antt =====
-- cmd/gfr/main.go: the whole of the four commands, with the order of their calls and their errors.
-- What the calls of the operating system and of gRPC return is given (`World`).
pub mod Exit
pub mod Replay
use distributed_gpu_training.Base.{
  ℕ, Bool, true, false, Bytes, codes, Option, none, some, List, [], ◌∷◌, ◌++◌, map, if◌then◌else◌,
}
use distributed_gpu_training.Buffer.{◌>>=◌}
use distributed_gpu_training.Event.{Event}
use distributed_gpu_training.Float.{Float64}
use distributed_gpu_training.Trace.{Json}
use distributed_gpu_training.Trace.File.{Input, ReadError}
use distributed_gpu_training.Agent.Lifecycle.{Collector, Call, RunError}
use distributed_gpu_training.Agent.Node.{Agent, new_agent, add_collector, set_client, run_node}
use distributed_gpu_training.Coordinator.{Live, Report}
use distributed_gpu_training.Transport.Report.{AnomalyDetail}
use distributed_gpu_training.Transport.Connection.{
  Listened, bound, refused, Endpoint, new_server, listen, start,
}
use distributed_gpu_training.Command.Setup.{
  ReplayFlags, CoordinatorFlags, coordinator_setup, replay_options, AgentFlags, AgentSetup, Source,
  replay_source, tail_source, agent_setup,
}
use distributed_gpu_training.Command.Output.{
  Replayed, not_opened, not_read, printed, as_json, not_encoded, replay_output, report_output,
}

pub record World : Type 0 where
  -- The error of `transport.NewClient` for an address.
  pub dial : Bytes → Option Bytes
  -- The error of the `Start` of a collector.
  pub start_error : Source → Option Bytes
  -- The error of `StreamEvents`, and whether a signal ever ends the context.
  pub stream_error : Option Bytes
  pub cancelled : Bool
  -- Whether the loop of `Run`, and then its wait for `StreamEvents`, come to their ends.
  pub ends : Bool

pub data CommandError : Type 0 where
  connecting : Bytes → CommandError
  running : RunError → CommandError
  listening : Bytes → CommandError
  serving : Bytes → CommandError
  opening : CommandError
  reading : Bytes → ReadError → CommandError
  encoding : Bytes → CommandError
  querying : Bytes → Bytes → CommandError

-- What a command does: the calls of `Run`, and of the client's `Close`.
pub data Deed : Type 0 where
  ran : List Call → Deed
  closed_client : Deed

-- Both collectors return nil from `Stop`.
abbrev pub collector_of : World → Source → Collector
collector_of env (replay_source file ranks) = record {
  name = codes "replay";
  start_error = env.start_error (replay_source file ranks);
  stop_error = none;
}
collector_of env (tail_source glob interval) = record {
  name = codes "tail";
  start_error = env.start_error (tail_source glob interval);
  stop_error = none;
}

abbrev pub run_error : Option RunError → Option CommandError
run_error none = none
run_error (some e) = some (running e)

module _ {F : Type 0} where
  abbrev pub add_sources : World → Agent (Event F) → List Source → Agent (Event F)
  add_sources env a [] = a
  add_sources env a (s ∷ ss) = add_sources env (add_collector a (collector_of env s)) ss

  -- `return a.Run(ctx)`, with the deferred calls behind it; `none` is a run that never returns.
  abbrev pub run_and :
      World → Agent (Event F) → List Deed → Option (List Deed × Option CommandError)
  run_and env a deferred = elim (run_node a env.ends env.stream_error env.cancelled) [
    | none ↦ none
    | some (calls, err) ↦ some (ran calls ∷ deferred, run_error err)
  ]

  -- The client, if there is an address for one.
  abbrev pub connect_and_run :
      World → Agent (Event F) → Option Bytes → Option (List Deed × Option CommandError)
  connect_and_run env a none = run_and env a []
  connect_and_run env a (some addr) = elim (env.dial addr) [
    | some t ↦ some ([], some (connecting t))
    | none ↦ run_and env (set_client a) (closed_client ∷ [])
  ]

-- `gfr agent`; `none` is the panic of a buffer that is too large, and `some none` a command that never
-- returns.
unfoldable pub agent_command :
    (F : Type 0) → World → AgentFlags → Option (Option (List Deed × Option CommandError))
unfolding new_agent run_node
agent_command F env flags =
    let setup = agent_setup flags in
    new_agent {A = Event F} setup.config >>= λ a.
    some (connect_and_run env (add_sources env a setup.sources) setup.client)

-- `gfr coordinator`: its live coordinator, the server that listens, and the error. `serve` is what
-- `Serve` returns, which is nil after `GracefulStop`.
unfoldable pub coordinator_command :
    {F : Type 0}
    → (Bytes → Listened)
    → (Bytes → Option Bytes)
    → CoordinatorFlags F
    → Live F × Endpoint × Option CommandError
unfolding listen start coordinator_setup
coordinator_command net_listen serve flags =
    let live = coordinator_setup flags.threshold_sigma in
    let (s, err) = listen net_listen (new_server flags.listen_addr) in
    elim err [
      | some t ↦ (live, s, some (listening t))
      | none ↦
          let (s', failed) = start net_listen serve s in
          elim failed [ none ↦ (live, s', none) | some t ↦ (live, s', some (serving t)) ]
    ]

module _ {F : Type 0} ⦃d : Float64 F⦄ (fixed : ℕ → F → Bytes) where
  -- The error of `gfr replay`, by how it ends.
  abbrev pub replay_error : Bytes → Replayed F → Option CommandError
  replay_error path not_opened = some opening
  replay_error path (not_read e) = some (reading path e)
  replay_error path (printed ls) = none
  replay_error path (as_json rep) = none
  replay_error path (not_encoded t) = some (encoding t)

  unfoldable pub replay_command :
      Json F
      → (Report F → Option Bytes)
      → ReplayFlags F
      → Bytes
      → Option Input
      → Option (Replayed F × Option CommandError)
  replay_command j encode_error flags path file =
      let options = replay_options flags.threshold_sigma flags.attribution_window in
      replay_output fixed j encode_error options flags.json file >>= λ r.
      some (r, replay_error path r)

-- `gfr report`: what it prints, the call of `Close`, and its error. The answer of `GetReport` is the
-- anomalies or an error.
pub data Answer (F : Type 0) : Type 0 where
  answered : List (AnomalyDetail F) → Answer F
  failed : Bytes → Answer F

unfoldable pub report_command :
    {F : Type 0} → Option Bytes → Bytes → Answer F → List Bytes × List Deed × Option CommandError
unfolding report_output
report_command (some t) addr answer = ([], [], some (connecting t))
report_command none addr (answered anomalies) = (report_output anomalies, closed_client ∷ [], none)
report_command none addr (failed t) = ([], closed_client ∷ [], some (querying addr t))

-- `main` exits with 1 on any error of a command.
abbrev pub exit_code : Option CommandError → ℕ
exit_code none = 0
exit_code (some e) = 1
