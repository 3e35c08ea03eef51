-- ===== src/Agent/Flow/Ends.antt =====
-- All goroutines of `Run` (internal/agent/agent.go): how often they can move.
use distributed_gpu_training.Base.{
  ℕ, ◌+◌, ◌*◌, ◌≤◌, ap, Bool, true, false, List, [], ◌∷◌, length, length-append, arith,
}
use distributed_gpu_training.Base.Family.{sum_to, sum_to-replace, sum_to-map}
use distributed_gpu_training.Buffer.{RingBuffer}
use distributed_gpu_training.Agent.{
  Phase, ended, receiving, sending, State, Step, record_only, record_and_send, sent, given_up,
  finish, take_event, stream_opens, stream_breaks, cancel,
}
use distributed_gpu_training.Agent.Flow.{
  Feeder, ranging, selecting, over, Flow, Move, range_next, merge, give_up, range_end, close_merged,
  in_loop, Moves, still, and_then, launch,
}

abbrev pub weight_unless : Bool → ℕ
weight_unless true = 0
weight_unless false = 1

module _ {A : Type 0} where
  -- Every move is an act of a goroutine, but for the opening and the end of the stream, which are up
  -- to the network, and the end of the context.
  abbrev pub acts_in_loop : {client : Bool} {s t : State A} → Step client s t → ℕ
  acts_in_loop (record_only c p q w) = 1
  acts_in_loop (record_and_send c p q w) = 1
  acts_in_loop (sent p lt) = 1
  acts_in_loop (given_up p done) = 1
  acts_in_loop (finish p q) = 1
  acts_in_loop (take_event up on q) = 1
  acts_in_loop (stream_opens c shut on) = 0
  acts_in_loop (stream_breaks on early) = 0
  acts_in_loop cancel = 0

  abbrev pub acts_of : {n : ℕ} {client : Bool} {s t : Flow A} → Move n client s t → ℕ
  acts_of (range_next lt q) = 1
  acts_of (merge lt q small) = 1
  acts_of (give_up lt q done) = 1
  acts_of (range_end lt q) = 1
  acts_of (close_merged open_yet all) = 1
  acts_of (in_loop step closed) = acts_in_loop step

  abbrev pub acts : {n : ℕ} {client : Bool} {s t : Flow A} → Moves n client s t → ℕ
  acts still = 0
  acts (and_then run move) = acts run + acts_of move

  abbrev pub feeder_weight : Feeder A → ℕ
  feeder_weight (ranging es) = 1 + 6 * length es
  feeder_weight (selecting e es) = 6 + 6 * length es
  feeder_weight (over es) = 0

  abbrev pub phase_weight : Phase A → ℕ
  phase_weight receiving = 1
  phase_weight (sending e) = 3
  phase_weight ended = 0

  abbrev pub loop_weight : State A → ℕ
  loop_weight s = 4 * length s.coming + length s.out + phase_weight s.phase

  -- How many acts are left at most.
  abbrev pub weight : ℕ → Flow A → ℕ
  weight n s = sum_to feeder_weight n s.feeders + weight_unless s.closed + loop_weight s.loop

  Step-lighter :
      {client : Bool} {s t : State A} (step : Step client s t)
      → loop_weight t + acts_in_loop step ≤ loop_weight s
  Step-lighter (record_only c p q w) = omega (arith, ap phase_weight p, ap length q)
  Step-lighter (record_and_send c p q w) = omega (arith, ap phase_weight p, ap length q)
  Step-lighter {s = s} (sent {e} p lt) =
      omega (arith, ap phase_weight p, length-append s.out (e ∷ []))
  Step-lighter (given_up p done) = omega (arith, ap phase_weight p)
  Step-lighter (finish p q) = omega (arith, ap phase_weight p)
  Step-lighter (take_event up on q) = omega (arith, ap length q)
  Step-lighter (stream_opens c shut on) = omega arith
  Step-lighter (stream_breaks on early) = omega arith
  Step-lighter cancel = omega arith

  Move-lighter :
      {n : ℕ} {client : Bool} {s t : Flow A} (move : Move n client s t)
      → weight n t + acts_of move ≤ weight n s
  Move-lighter {n} {s = s} (range_next {i = i} {e = e} {es = es} lt q) =
      omega
        (arith, sum_to-replace feeder_weight n s.feeders i (selecting e es) lt, ap feeder_weight q)
  Move-lighter {n} {s = s} (merge {i = i} {e = e} {es = es} lt q small) = omega (
    arith,
    sum_to-replace feeder_weight n s.feeders i (ranging es) lt,
    ap feeder_weight q,
    length-append s.loop.coming (e ∷ []),
  )
  Move-lighter {n} {s = s} (give_up {i = i} {e = e} {es = es} lt q done) =
      omega
        (arith, sum_to-replace feeder_weight n s.feeders i (over (e ∷ es)) lt, ap feeder_weight q)
  Move-lighter {n} {s = s} (range_end {i = i} lt q) =
      omega (arith, sum_to-replace feeder_weight n s.feeders i (over []) lt, ap feeder_weight q)
  Move-lighter (close_merged open_yet all) = omega (arith, ap weight_unless open_yet)
  Move-lighter (in_loop step closed) = omega (arith, Step-lighter step)

  -- The acts that the events of the collectors can make.
  abbrev pub acts_for : List A → ℕ
  acts_for es = 1 + 6 * length es

  pub Moves-lighter :
      {n : ℕ} {client : Bool} {rb : RingBuffer A} {streams : ℕ → List A} {s : Flow A}
      (run : Moves n client (launch rb streams) s)
      → weight n s + acts run ≤ 2 + sum_to acts_for n streams
  Moves-lighter {n} {streams = streams} still =
      omega (arith, sum_to-map feeder_weight ranging n streams)
  Moves-lighter (and_then run move) = omega (arith, Moves-lighter run, Move-lighter move)
