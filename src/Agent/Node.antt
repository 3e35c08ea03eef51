-- ===== src/Agent/Node.antt =====
-- internal/agent/agent.go: the `Agent` itself, `New`, `AddCollector`, `SetClient` and `Run`.
use distributed_gpu_training.Base.{
  Bool, true, false, Bytes, Option, some, List, [], ◌∷◌, ◌++◌, if◌then◌else◌,
}
use distributed_gpu_training.Event.{AgentConfig}
use distributed_gpu_training.Buffer.{RingBuffer, new, ◌>>=◌}
use distributed_gpu_training.Agent.Lifecycle.{Collector, RunError, Call, run_agent}

-- `client` is whether there is one.
pub record Agent (A : Type 0) : Type 0 where
  pub config : AgentConfig
  pub collectors : List Collector
  pub buf : RingBuffer A
  pub client : Bool

module _ {A : Type 0} where
  -- `New` never returns an error; `none` is the panic of `NewRingBuffer`.
  unfoldable pub new_agent : AgentConfig → Option (Agent A)
  new_agent cfg = new cfg.buffer_size >>= λ rb.
      some (record { config = cfg; collectors = []; buf = rb; client = false })

  abbrev pub add_collector : Agent A → Collector → Agent A
  add_collector a c = record a { collectors = a.collectors ++ c ∷ [] }

  abbrev pub set_client : Agent A → Agent A
  set_client a = record a { client = true }

  -- `Run`, with the error of `StreamEvents` in case there is a client; `none` is a run that never
  -- returns.
  unfoldable pub run_node :
      Agent A → Bool → Option Bytes → Bool → Option (List Call × Option RunError)
  unfolding run_agent
  run_node a ends stream cancelled =
      run_agent a.collectors ends (if a.client then stream else Option.none) cancelled
