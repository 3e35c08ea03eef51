-- ===== src/Agent/Lifecycle.antt =====
-- internal/agent/agent.go: how `Run` starts and stops the collectors, and what error it returns.
-- What the calls of the collectors and of the client return is given (`Collector`, `stream`).
pub mod Stopped
use distributed_gpu_training.Base.{
  Bool, true, false, Bytes, Option, none, some, List, [], ◌∷◌, ◌++◌, ◌==◌, if◌then◌else◌, length,
}

-- A collector, by its name and the errors of its `Start` and `Stop`; `none` is nil.
pub record Collector : Type 0 where
  pub name : Bytes
  pub start_error : Option Bytes
  pub stop_error : Option Bytes

-- The errors of `Run`, with the collector that they name.
pub data RunError : Type 0 where
  starting : Bytes → Bytes → RunError
  stopping : Bytes → Bytes → RunError
  streaming : Bytes → RunError

-- The calls of `Run`, in the order in which it makes them; `looped` is the loop over the events.
pub data Call : Type 0 where
  started : Bytes → Call
  stopped : Bytes → Call
  looped : Call

-- `firstErr` after a call of `Stop`.
abbrev pub first_of_two : Option RunError → Collector → Option RunError
first_of_two (some e) c = some e
first_of_two none c = elim c.stop_error [ none ↦ none | some t ↦ some (stopping c.name t) ]

-- The loop of `shutdown`, from the first error so far.
unfoldable pub shutdown_from : Option RunError → List Collector → List Call × Option RunError
shutdown_from first [] = ([], first)
shutdown_from first (c ∷ cs) =
    let (calls, last) = shutdown_from (first_of_two first c) cs in (stopped c.name ∷ calls, last)

abbrev pub shutdown : List Collector → List Call × Option RunError
shutdown cs = shutdown_from none cs

-- The loop that starts the collectors, until one fails.
unfoldable pub start_all : List Collector → List Call × Option RunError
start_all [] = ([], none)
start_all (c ∷ cs) =
    let (calls, failed) = start_all cs in
    elim c.start_error [
      | none ↦ (started c.name ∷ calls, failed)
      | some t ↦ (started c.name ∷ [], some (starting c.name t))
    ]

-- What `Run` returns behind the loop, from the error of `shutdown` on.
abbrev pub result : Bool → Option Bytes → Option RunError → Option RunError
result cancelled stream (some e) = some e
result cancelled none none = none
result cancelled (some t) none = if cancelled then none else some (streaming t)

-- What `Run` does behind the calls of `Start`, with those of `Stop` that it makes.
abbrev pub run_started :
    Bool
    → Option Bytes
    → List Call × Option RunError
    → List Call × Option RunError
    → List Call × Option RunError
run_started cancelled stream (stops, stop_failed) (starts, some e) = (starts ++ stops, some e)
run_started cancelled stream (stops, stop_failed) (starts, none) =
    (starts ++ looped ∷ stops, result cancelled stream stop_failed)

-- Behind a failed `Start` there is nothing to wait for; else `Run` returns only if its loop, and then
-- its wait for `StreamEvents`, end.
abbrev pub returned :
    Bool → List Call × Option RunError → Option RunError → Option (List Call × Option RunError)
returned ends r (some e) = some r
returned true r none = some r
returned false r none = none

-- `stream` is the error of `StreamEvents`, if there is a client; `cancelled` is whether the context
-- is ever done; `ends` is whether the loop over the events and the wait for `StreamEvents` come to
-- their ends. `none` is a run that never returns: without collectors `Run` waits for the context.
unfoldable pub run_agent :
    List Collector → Bool → Option Bytes → Bool → Option (List Call × Option RunError)
unfolding start_all shutdown_from
run_agent [] ends stream cancelled = if cancelled then some (shutdown []) else none
run_agent (c ∷ cs) ends stream cancelled =
    returned ends (run_started cancelled stream (shutdown (c ∷ cs)) (start_all (c ∷ cs)))
      (start_all (c ∷ cs)).1
