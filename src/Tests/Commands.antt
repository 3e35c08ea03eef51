-- ===== src/Tests/Commands.antt =====
-- The theorems on the commands and on the life of an agent, at concrete inputs.
use distributed_gpu_training.Base.{
  ℕ, ◌≡◌, refl, Bytes, codes, Option, none, some, true, false, List, [], ◌∷◌, ◌++◌, length, arith,
}
use distributed_gpu_training.Base.Int.{pos}
use distributed_gpu_training.Base.Decimal.{decimal_int}
use distributed_gpu_training.Float.Fixed.{Fixed, fixed_float}
use distributed_gpu_training.Event.{Event}
use distributed_gpu_training.Trace.File.{Input, write}
use distributed_gpu_training.Transport.Server.{eof, stream_events}
use distributed_gpu_training.Transport.Client.{pump, deliver}
use distributed_gpu_training.Transport.Report.{AnomalyDetail, get_report}
use distributed_gpu_training.Coordinator.{Live, ingest, report, analyze}
use distributed_gpu_training.Coordinator.Stream.{live_server}
use distributed_gpu_training.Agent.Lifecycle.{Collector, run_agent}
use distributed_gpu_training.Agent.Lifecycle.Stopped.{
  expected, if_returned, first_error, run_agent-expected,
}
use distributed_gpu_training.Command.Run.{
  World, CommandError, listening, agent_command, replay_command, coordinator_command, exit_code,
}
use distributed_gpu_training.Command.Run.Replay.{Ends, replay_command-Ends}
use distributed_gpu_training.Transport.Connection.{Listened, refused, new_server, listen}
use distributed_gpu_training.Command.Run.Exit.{agent_outcome, agent_command-outcome}
use distributed_gpu_training.Command.Setup.{
  AgentFlags, default_flags, Source, replay_source, tail_source, agent_setup, five_seconds,
  replay_options, coordinator_options, default_replay_flags, default_coordinator_flags,
}
use distributed_gpu_training.Command.Output.{
  Replayed, printed, report_header, replay_header, replay_output, report_output,
}
use distributed_gpu_training.Command.Agree.{report_output-replay_output}
use distributed_gpu_training.Command.Scorecard.{Row, all_faults}
use distributed_gpu_training.Command.Screen.{table_heading, sensitivity_heading, scorecard}
use distributed_gpu_training.Command.Screen.Lines.{
  row_lines, AreRows, severity_lines, AreCounts, scorecard-lines,
}
use distributed_gpu_training.Tests.Data.{toy_json, whole_f}
use distributed_gpu_training.Tests.Traces.{toy_marshal, warm, warm-IsWritable}
use distributed_gpu_training.Tests.Sims.{counting, counting-IsRng}

-- Two collectors, of which the second does not start.
abbrev steady : Collector
steady = record { name = codes "replay"; start_error = none; stop_error = none }

abbrev failing : Collector
failing = record { name = codes "tail"; start_error = some (codes "bad"); stop_error = none }

run_agent-expected_example :
    let failed = first_error (λ x. x.start_error) (steady ∷ failing ∷ []) in
    (run_agent [] false none true ≡ some ([], none))
    × (run_agent [] false none false ≡ none)
    × (run_agent (steady ∷ failing ∷ []) false none true
        ≡ if_returned false failed (expected (steady ∷ failing ∷ []) none true failed))
run_agent-expected_example = run_agent-expected steady (failing ∷ []) false none true

-- The digits of a fixed-point number.
abbrev shown : ℕ → Fixed → Bytes
shown n none = codes "NaN"
shown n (some z) = decimal_int z

abbrev small_trace : List (Event Fixed)
small_trace = warm 65 ∷ warm 66 ∷ []

report_output-replay_output_example :
    let o = replay_options (whole_f 4) five_seconds in
    (lines : List Bytes) × (replay_output shown toy_json
        (λ r. none)
        o
        false
        (some (record { content = (write toy_marshal none small_trace).text; broken = false }))
      ≡ some (printed (replay_header shown (analyze small_trace o) ∷ lines)))
    × ((l : Live Fixed) × (messages : List (AnomalyDetail Fixed)) × ((stream_events ingest
            (live_server (coordinator_options (whole_f 4)) (pos 0))
            (pump (deliver small_trace 2)).0
            eof).0.handler
          ≡ some l)
        × (get_report shown (some (report l)) ≡ some messages)
        × (report_output messages ≡ report_header (length lines) ∷ lines))
report_output-replay_output_example =
    report_output-replay_output shown toy_json toy_marshal (λ r. none) (whole_f 4) small_trace 2
      (warm-IsWritable 65 refl refl refl, (warm-IsWritable 66 refl refl refl, tt)) (tt, (tt, tt))
      (omega arith)

scorecard-lines_example :
    let low = fixed_float.lit 3 2 in
    let high = fixed_float.lit 10 2 in
    let sevs =
      fixed_float.lit 2 2
      ∷ fixed_float.lit 5 2
      ∷ fixed_float.lit 10 2
      ∷ fixed_float.lit 20 2
      ∷ fixed_float.lit 30 2
      ∷ [] in
    (rows : List Row) × (rows' : List Row) × (counts : List ℕ) × AreRows (pos 3) all_faults rows
    × AreRows (pos 3) all_faults rows'
    × AreCounts (pos 3) sevs counts
    × (scorecard shown counting (pos 3)
        ≡ some (
            codes "## Scorecard (8 ranks, 600 steps, fault at midpoint)"
            ∷ ((table_heading shown counting low
                  ++ (row_lines (pos 3) all_faults rows
                      ++ (table_heading shown counting high ++ row_lines (pos 3) all_faults rows')))
                ++ (sensitivity_heading shown counting
                    ++ severity_lines shown counting (pos 3) sevs counts))))
scorecard-lines_example = scorecard-lines shown counting counting-IsRng (pos 3)

-- Flags of an agent that follows files, and a world in which the replay file does not open.
abbrev both_flags : AgentFlags
both_flags = record default_flags { replay_file = codes "t.jsonl"; tail_glob = codes "r*" }

abbrev refuses : Source → Option Bytes
refuses (replay_source file ranks) = some (codes "no such file")
refuses (tail_source glob interval) = none

abbrev missing_file : World
missing_file = record {
  dial = λ addr. none;
  start_error = refuses;
  stream_error = none;
  cancelled = false;
  ends = true;
}

agent_command-outcome_example :
    let setup = agent_setup both_flags in
    agent_command Fixed missing_file both_flags
    ≡ some (agent_outcome missing_file setup.sources setup.client)
agent_command-outcome_example = agent_command-outcome missing_file Fixed both_flags (omega arith)

-- The file of a trace, replayed without flags.
abbrev trace_file : Input
trace_file = record { content = (write toy_marshal none small_trace).text; broken = false }

replay_command-Ends_example :
    (r : Replayed Fixed) × (err : Option CommandError) × (replay_command shown toy_json
        (λ r. none)
        default_replay_flags
        (codes "t.jsonl")
        (some trace_file)
      ≡ some (r, err))
    × Ends shown toy_json (λ r. none) default_replay_flags (codes "t.jsonl") (some trace_file) r err
replay_command-Ends_example =
    replay_command-Ends shown toy_json (λ r. none) default_replay_flags (codes "t.jsonl")
      (some trace_file)

-- A coordinator without flags, on a port that is taken.
abbrev taken : Bytes → Listened
taken addr = refused (codes "in use")

taken_port :
    let (l, s, err) =
      coordinator_command {F = Fixed} taken (λ addr. none) default_coordinator_flags in
    (s ≡ new_server (codes ":50051"))
    × (err ≡ some (listening (codes "in use")))
    × (exit_code err ≡ 1)
unfolding coordinator_command listen
taken_port = (refl, refl, refl)
