-- ===== src/Agent/Flow/Progress.antt =====
-- All goroutines of `Run` (internal/agent/agent.go): where they can stand still, and that they get
-- there.
mod Counted
use distributed_gpu_training.Agent.Flow.Progress.Counted.{left_over}
use distributed_gpu_training.Base.{ℕ, ◌≡◌, sym, ◌∙◌, ◌⊎◌, Bool, false, Option-cases, none, length}
use distributed_gpu_training.Base.Family.{sum_to-replace, sum_to-map, entries-snoc}
use distributed_gpu_training.Buffer.Refine.{push_all, snapshot-push_all}
use distributed_gpu_training.Agent.{State, sending, out_capacity}
use distributed_gpu_training.Agent.Flow.{Flow, Move, give_up, still, and_then}
use distributed_gpu_training.Agent.Flow.Fair.{unmerged}
use distributed_gpu_training.Agent.Flow.Ends.{acts_of}

module _ {A : Type 0} where
  -- A goroutine that can act.
  pub record CanAct (n : ℕ) (client : Bool) (s : Flow A) : Type 0 where
    pub after : Flow A
    pub move : Move n client s after
    pub acting : acts_of move ≡ 1

  -- The channel is full, the loop has an event in hand, the client does not read the channel, for
  -- its stream is not open or `StreamEvents` has returned, and the context is not done.
  pub record IsStuck (s : State A) : Type 0 where
    pub hand : A
    pub select : s.phase ≡ sending hand
    pub full : length s.out ≡ out_capacity
    pub unread : (s.opened ≡ false) ⊎ (s.streaming ≡ false)
    pub live : s.cancelled ≡ false
