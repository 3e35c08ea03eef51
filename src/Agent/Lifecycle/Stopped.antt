-- ===== src/Agent/Lifecycle/Stopped.antt =====
-- internal/agent/agent.go: `Run` stops what it has started, on every path.
use distributed_gpu_training.Base.{
  ◌≡◌, refl, ap, ap₂, ◌∙◌, Bool, true, false, Bytes, Option, none, some, List, [], ◌∷◌, ◌++◌, map,
  Option-cases, inl, inr, if◌then◌else◌,
}
use distributed_gpu_training.Agent.Lifecycle.{
  Collector, RunError, starting, stopping, streaming, Call, started, stopped, looped, shutdown_from,
  start_all, result, run_started, returned, run_agent,
}

-- The first error of the collectors, with its collector.
abbrev pub first_error : (Collector → Option Bytes) → List Collector → Option (Collector × Bytes)
first_error f [] = none
first_error f (c ∷ cs) = elim (f c) [ none ↦ first_error f cs | some t ↦ some (c, t) ]

-- The collectors up to the first that does not start, and that one.
abbrev pub tried : List Collector → List Collector
tried [] = []
tried (c ∷ cs) = elim c.start_error [ none ↦ c ∷ tried cs | some t ↦ c ∷ [] ]

abbrev pub starts_of : List Collector → List Call
starts_of cs = map (λ c. started c.name) cs

abbrev pub stops_of : List Collector → List Call
stops_of cs = map (λ c. stopped c.name) cs

-- An error of `Stop`, or else that of the stream if the context is not done.
abbrev pub later_error : Bool → Option Bytes → Option (Collector × Bytes) → Option RunError
later_error cancelled stream (some (c, t)) = some (stopping c.name t)
later_error cancelled none none = none
later_error cancelled (some t) none = if cancelled then none else some (streaming t)

-- The calls and the error of a run.
abbrev pub expected :
    List Collector → Option Bytes → Bool → Option (Collector × Bytes) → List Call × Option RunError
expected cs stream cancelled (some (c, t)) =
    (starts_of (tried cs) ++ stops_of cs, some (starting c.name t))
expected cs stream cancelled none = (
  starts_of cs ++ looped ∷ stops_of cs,
  later_error cancelled stream (first_error (λ c. c.stop_error) cs),
)

stopping_of : Option (Collector × Bytes) → Option RunError
stopping_of none = none
stopping_of (some (c, t)) = some (stopping c.name t)

shutdown_from-some :
    (e : RunError) (cs : List Collector) → shutdown_from (some e) cs ≡ (stops_of cs, some e)
unfolding shutdown_from
shutdown_from-some e [] = refl
shutdown_from-some e (c ∷ cs) = ap (λ r. (stopped c.name ∷ r.0, r.1)) (shutdown_from-some e cs)

shutdown_from-none :
    (cs : List Collector)
    → shutdown_from none cs ≡ (stops_of cs, stopping_of (first_error (λ c. c.stop_error) cs))
unfolding shutdown_from stopping_of
shutdown_from-none [] = refl
shutdown_from-none (c ∷ cs) = elim (Option-cases c.stop_error) [
  | inl q ↦ rw q (ap (λ r. (stopped c.name ∷ r.0, r.1)) (shutdown_from-none cs))
  | inr (t, q) ↦ rw q (ap (λ r. (stopped c.name ∷ r.0, r.1)) (shutdown_from-some _ cs))
]

abbrev started_all : List Collector → Option (Collector × Bytes) → List Call × Option RunError
started_all cs none = (starts_of cs, none)
started_all cs (some (c, t)) = (starts_of (tried cs), some (starting c.name t))

prefixed :
    (c : Collector) (cs : List Collector) (failed : Option (Collector × Bytes))
    → c.start_error ≡ none
    → (started c.name ∷ (started_all cs failed).0, (started_all cs failed).1)
      ≡ started_all (c ∷ cs) failed
prefixed c cs none q = refl
prefixed c cs (some (d, t)) q = rw (q, tried)

start_all-started_all :
    (cs : List Collector) → start_all cs ≡ started_all cs (first_error (λ c. c.start_error) cs)
unfolding start_all
start_all-started_all [] = refl
start_all-started_all (c ∷ cs) = elim (Option-cases c.start_error) [
  | inl q ↦
      let rest = ap (λ r. (started c.name ∷ r.0, r.1)) (start_all-started_all cs) in
      simp q (rest ∙ prefixed c cs (first_error (λ x. x.start_error) cs) q)
  | inr (t, q) ↦ simp q
]

later_error-result :
    (cancelled : Bool) (stream : Option Bytes) (o : Option (Collector × Bytes))
    → result cancelled stream (stopping_of o) ≡ later_error cancelled stream o
unfolding stopping_of
later_error-result cancelled none none = refl
later_error-result cancelled (some t) none = refl
later_error-result cancelled stream (some (c, t)) = refl

run_started-expected :
    (cs : List Collector) (stream : Option Bytes) (cancelled : Bool)
    (failed : Option (Collector × Bytes))
    → run_started cancelled stream
        (stops_of cs, stopping_of (first_error (λ c. c.stop_error) cs))
        (started_all cs failed)
      ≡ expected cs stream cancelled failed
run_started-expected cs stream cancelled none =
    ap (λ e. (starts_of cs ++ looped ∷ stops_of cs, e))
      (later_error-result cancelled stream (first_error (λ c. c.stop_error) cs))
run_started-expected cs stream cancelled (some (c, t)) = refl

starting_of : Option (Collector × Bytes) → Option RunError
starting_of none = none
starting_of (some (c, t)) = some (starting c.name t)

started_all-error :
    (cs : List Collector) (o : Option (Collector × Bytes)) → (started_all cs o).1 ≡ starting_of o
unfolding starting_of
started_all-error cs none = refl
started_all-error cs (some (c, t)) = refl

-- Whether `Run` returns, by the first collector that does not start.
abbrev pub if_returned : {A : Type 0} → Bool → Option (Collector × Bytes) → A → Option A
if_returned ends (some f) r = some r
if_returned ends none r = if ends then some r else none

returned-if_returned :
    (ends : Bool) (r : List Call × Option RunError) (o : Option (Collector × Bytes))
    → returned ends r (starting_of o) ≡ if_returned ends o r
unfolding starting_of
returned-if_returned ends r (some f) = refl
returned-if_returned true r none = refl
returned-if_returned false r none = refl

-- Without collectors `Run` makes no call of one, and returns nil once the context is done and never
-- otherwise. With collectors it calls `Start` in
-- order until one fails, and on every path `Stop` of every collector once, in order, behind all the
-- calls of `Start`, and behind the loop if all have started; it does not return if all have started
-- and the loop, or the wait for `StreamEvents`, does not end. It returns the error of the first
-- collector that does not start; else that of the first that does not stop; else nil if the context
-- is done; else the error of the stream.
pub run_agent-expected :
    (c : Collector) (cs : List Collector) (ends : Bool) (stream : Option Bytes) (cancelled : Bool)
    → let failed = first_error (λ x. x.start_error) (c ∷ cs) in
      (run_agent [] ends stream true ≡ some ([], none))
      × (run_agent [] ends stream false ≡ none)
      × (run_agent (c ∷ cs) ends stream cancelled
          ≡ if_returned ends failed (expected (c ∷ cs) stream cancelled failed))
unfolding run_agent shutdown_from
run_agent-expected c cs ends stream cancelled =
    let failed = first_error (λ x. x.start_error) (c ∷ cs) in
    let run =
      ap₂ (run_started cancelled stream) (shutdown_from-none (c ∷ cs))
        (start_all-started_all (c ∷ cs))
      ∙ run_started-expected (c ∷ cs) stream cancelled failed in
    let error =
      ap (λ r. r.1) (start_all-started_all (c ∷ cs)) ∙ started_all-error (c ∷ cs) failed in
    (
      refl,
      refl,
      ap₂ (returned ends) run error
          ∙ returned-if_returned ends (expected (c ∷ cs) stream cancelled failed) failed,
    )
