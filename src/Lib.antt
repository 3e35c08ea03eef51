-- ===== src/Lib.antt =====
-- The flight recorder for distributed GPU training: a model of its Go code, and what holds of it.
--
-- Agents record events (internal/types) in a ring buffer and stream them over gRPC to a coordinator.
-- The coordinator groups NCCL collectives across ranks, finds ranks that persistently arrive last,
-- and explains each by rules on that rank's hardware events.
--
-- Event        internal/types/events.go, config.go: the five kinds of events, the defaults.
-- Buffer       internal/buffer/ringbuffer.go: NewRingBuffer (`new`), Push, Len, Dropped, Snapshot,
--              Range. Children: Size (the capacity), Refine (the buffer against its history).
-- Transport    internal/transport/convert.go: ToProto, FromProto. Children, with grpc.go: RoundTrip,
--              Server (Server.StreamEvents), Streams (several calls of it at a time), Client (the
--              backoff, pump), Session (Client.StreamEvents), Connection (Listen, Start, NewClient,
--              Close), Report (GetReport).
-- Correlator   internal/correlator: Stats (detector.go), Store (IngestEvent, trimLocked,
--              EventsForRank) and Detect (DetectAnomalies, with its types and the loops that
--              collect the groups in Detect.Groups) of correlator.go. Store.Lookup,
--              Store.Invariant, Store.Window and Store.History are about the state, Detect.Blocks,
--              Detect.Held, Detect.Own, Detect.Complete, Detect.Report, Detect.Mode and Detect.Visit about
--              the flags and the anomalies.
-- Attribution  internal/attribution/engine.go: Rules (the nine rules), Engine (Attribute), and what
--              holds of every causal chain: Evidence and Grounded (its evidence), Chain (its causes
--              and their order), Baseline, Confidence. Described: Attribute without loops, and
--              Described.Loops: the two compared. Summary: summarize and the Detail texts.
-- Agent        internal/agent/agent.go: the loop of Run, as a step relation. Record: what it records
--              and sends, and where it blocks. Flow: all goroutines of Run as a step relation; Flow.Fair
--              and Flow.Whole: what they move, Flow.Ends and Flow.Progress: how they end.
--              Lifecycle: Start, shutdown and the error of Run. Node: New and the setters.
-- Trace        internal/trace/trace.go: DecodeLine, with encoding/json as a parameter. File: Write and
--              Read; File.Lines and File.Fidelity: what Read returns;
--              File.Fidelity.Texts: what Write leaves.
-- Collector    internal/collector: Tail (tail.go: drain, the loop over the files) with Tail.Polling
--              (NewTailCollector, Start, Stop), Tail.Follow (a file that grows) and Tail.Files (several
--              files), and Replay (replay.go) with Replay.Ranks and Replay.Partition (what one
--              collector emits, and several together).
-- Sim          internal/sim: Generate (sim.go) with math/rand as a parameter, its types and constants
--              in Sim.Scenario, and Sim.Score (score.go).
--              Loops and Round are about its loops, Truth, Shape and Order about its traces,
--              Score.Judged and Score.Totals about the scores.
-- Command      cmd/gfr/main.go: Setup (the flags and their defaults), Output (gfr replay, gfr report),
--              Agree (the two compared), Run (the four commands, and their errors), Run.Exit (gfr
--              agent), Run.Replay (gfr replay). cmd/gfr-sim/main.go: Scorecard, Rows, Screen (main),
--              Screen.Lines (what the scorecard shows).
-- Coordinator  internal/coordinator/coordinator.go: Analyze and Live. Children: Analysis, Window,
--              Stream (client, server and live coordinator composed), Chained.
-- System       agents, server and live coordinator composed.
-- Float        Go's float64 as an interface; Float.Fixed is a concrete value of it.
-- Base         shared names; ℤ and int64 wrap-around (Int), sorting (Sort), sort.Search (Search,
--              Cut), association lists (Assoc), masks (Bits), partial functions on lists (Pick),
--              families and logs of goroutines (Family, Merge).
-- Tests        runs on small inputs, and the theorems at concrete inputs.
--
-- A mutex makes each method one step, so a method is a function from the state to the state. A map
-- is an association list, and a `range` over it takes the order of the list: Go leaves the order
-- open, and the theorems hold for every association list. Two runs that a theorem compares are taken
-- to visit equal maps in the same order. `int64` subtraction wraps; the unsigned
-- counters of the buffer and of the server wrap at 2^64. `float64` is any type with the operations
-- of `Float64`; facts of IEEE 754 are used by the theorems that name `IsFloat64`, as a hypothesis.
-- Sorting is insertion sort, which is stable; `sort.Slice` is not, so a tie may come out in another
-- order there. Fuel: `len_bits` has 64, the width of its argument; the loop of `sort.Search` has the
-- length of its slice, and `emit` that of its buffer, which is enough (Base.Search, Tail.Follow);
-- `decimal` has 20 digits, enough for 64 bits (Base.Decimal).
--
-- Not modelled: what net, gRPC, cobra and the operating system do in a call (their results are
-- parameters), signals, help texts, the generated protobuf code but for its message types. What
-- `fmt` prints for a float is a parameter of the texts.
pub mod Base
pub mod Float
pub mod Event
pub mod Buffer
pub mod Transport
pub mod Sim
pub mod Command
pub mod Tests
pub mod Trace
pub mod Collector
pub mod Correlator
pub mod Agent
pub mod Attribution
pub mod Coordinator
pub mod System
