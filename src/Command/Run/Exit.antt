-- ===== src/Command/Run/Exit.antt =====
-- cmd/gfr/main.go: what `gfr agent` does and returns, over all flags and all errors of its parts.
use distributed_gpu_training.Base.{
  ◌^◌, ◌≡◌, refl, sym, ap, ap₂, ◌∙◌, inl, inr, Bool, Bool-cases, true, false, Bytes, Option,
  Option-cases, none, some, List, [], ◌∷◌, ◌++◌, map, if◌then◌else◌, append-nil, append_assoc,
  arith,
}
use distributed_gpu_training.Base.Int.{pos, ◌≤ℤ◌}
use distributed_gpu_training.Event.{Event}
use distributed_gpu_training.Buffer.Size.{fresh, wanted, new-fresh}
use distributed_gpu_training.Agent.Lifecycle.{
  Collector, RunError, Call, looped, starting, streaming, run_agent,
}
use distributed_gpu_training.Agent.Lifecycle.Stopped.{
  first_error, tried, starts_of, stops_of, expected, if_returned, run_agent-expected,
}
use distributed_gpu_training.Agent.Node.{Agent, new_agent, add_collector, set_client, run_node}
use distributed_gpu_training.Command.Setup.{
  AgentFlags, Source, replay_source, tail_source, agent_config, agent_setup,
}
use distributed_gpu_training.Command.Run.{
  World, CommandError, connecting, running, Deed, ran, closed_client, collector_of, run_error,
  add_sources, run_and, connect_and_run, agent_command,
}

-- The error of a run of the collectors of the sources, with or without a client.
abbrev pub sources_error :
    Option (Collector × Bytes) → Bool → Bool → Option Bytes → Option CommandError
sources_error (some (c, t)) client cancelled stream = some (running (starting c.name t))
sources_error none true false (some t) = some (running (streaming t))
sources_error none true false none = none
sources_error none true true stream = none
sources_error none false cancelled stream = none

-- Without sources nothing is called; with some, the first that fails ends the starts, and all are
-- stopped.
abbrev pub calls_of : List Collector → List Call
calls_of [] = []
calls_of (c ∷ cs) = elim (first_error (λ x. x.start_error) (c ∷ cs)) [
  | some e ↦ starts_of (tried (c ∷ cs)) ++ stops_of (c ∷ cs)
  | none ↦ starts_of (c ∷ cs) ++ looped ∷ stops_of (c ∷ cs)
]

-- Without sources there is no error.
abbrev pub run_error_of : List Collector → Bool → Bool → Option Bytes → Option CommandError
run_error_of [] client cancelled stream = none
run_error_of (c ∷ cs) client cancelled stream =
    sources_error (first_error (λ x. x.start_error) (c ∷ cs)) client cancelled stream

-- Whether a run returns: without sources once the context is done, with some if one does not start or
-- if the loop ends.
abbrev pub has_end : World → List Collector → Bool
has_end env [] = env.cancelled
has_end env (c ∷ cs) = elim (first_error (λ x. x.start_error) (c ∷ cs)) [
  | some e ↦ true
  | none ↦ env.ends
]

-- What `gfr agent` does and returns, for its sources and the address of its client.
abbrev pub agent_outcome :
    World → List Source → Option Bytes → Option (List Deed × Option CommandError)
agent_outcome env sources none =
    let cs = map (collector_of env) sources in
    if has_end env cs
    then some (ran (calls_of cs) ∷ [], run_error_of cs false env.cancelled env.stream_error)
    else none
agent_outcome env sources (some addr) =
    let cs = map (collector_of env) sources in
    elim (env.dial addr) [
      | some t ↦ some ([], some (connecting t))
      | none ↦
          if has_end env cs
          then some (
            ran (calls_of cs) ∷ closed_client ∷ [],
            run_error_of cs true env.cancelled env.stream_error,
          )
          else none
    ]

expected-calls :
    (c : Collector) (cs : List Collector) (stream : Option Bytes) (cancelled : Bool)
    → (expected (c ∷ cs) stream cancelled (first_error (λ x. x.start_error) (c ∷ cs))).0
      ≡ calls_of (c ∷ cs)
expected-calls c cs stream cancelled =
    elim (Option-cases (first_error (λ x. x.start_error) (c ∷ cs))) [
      | inl q ↦ rw (q, calls_of)
      | inr (e, q) ↦ rw (q, calls_of)
    ]

expected-error :
    (cs : List Collector) (stream : Option Bytes) (client cancelled : Bool)
    (o : Option (Collector × Bytes))
    → first_error (λ c. c.stop_error) cs ≡ none
    → run_error (expected cs (if client then stream else none) cancelled o).1
      ≡ sources_error o client cancelled stream
expected-error cs stream client cancelled (some (c, t)) h = refl
expected-error cs none true false none h = rw h
expected-error cs (some t) true false none h = rw h
expected-error cs none true true none h = rw h
expected-error cs (some t) true true none h = rw h
expected-error cs stream false cancelled none h = rw h

map_deeds : Option (List Call × Option RunError) → Option (List Call × Option CommandError)
map_deeds none = none
map_deeds (some (calls, err)) = some (calls, run_error err)

if_returned-deeds :
    (ends : Bool) (failed : Option (Collector × Bytes)) (r : List Call × Option RunError)
    → map_deeds (if_returned ends failed r)
      ≡ (if (elim failed [ some e ↦ true | none ↦ ends ]) then some (r.0, run_error r.1) else none)
unfolding map_deeds
if_returned-deeds ends (some f) r = refl
if_returned-deeds true none r = refl
if_returned-deeds false none r = refl

-- The deferred calls behind those of a run.
behind :
    List Deed → Option (List Call × Option CommandError) → Option (List Deed × Option CommandError)
behind deferred none = none
behind deferred (some (calls, err)) = some (ran calls ∷ deferred, err)

behind-map_deeds :
    (deferred : List Deed) (run : Option (List Call × Option RunError))
    → (elim run [ none ↦ none | some (calls, err) ↦ some (ran calls ∷ deferred, run_error err) ])
      ≡ behind deferred (map_deeds run)
unfolding map_deeds behind
behind-map_deeds deferred none = refl
behind-map_deeds deferred (some (calls, err)) = refl

behind_if :
    (deferred : List Deed) (b : Bool) (calls : List Call) (err : Option CommandError)
    → behind deferred (if b then some (calls, err) else none)
      ≡ (if b then some (ran calls ∷ deferred, err) else none)
unfolding behind
behind_if deferred true calls err = refl
behind_if deferred false calls err = refl

module _ (env : World) where
  no_stop_error :
      (ss : List Source) → first_error (λ c. c.stop_error) (map (collector_of env) ss) ≡ none
  no_stop_error [] = refl
  no_stop_error (replay_source file ranks ∷ ss) = no_stop_error ss
  no_stop_error (tail_source glob interval ∷ ss) = no_stop_error ss

  -- `Run` on the collectors of some sources.
  run_agent-sources :
      (ss : List Source) (client : Bool)
      → let cs = map (collector_of env) ss in
        map_deeds (run_agent cs env.ends (if client then env.stream_error else none) env.cancelled)
        ≡ (if has_end env cs
            then some (calls_of cs, run_error_of cs client env.cancelled env.stream_error)
            else none)
  unfolding map_deeds
  run_agent-sources [] client =
      let c = collector_of env (replay_source [] []) in
      let stream = if client then env.stream_error else none in
      let (done, live, _) = run_agent-expected c [] env.ends stream env.cancelled in
      elim (Bool-cases env.cancelled) [ inl q ↦ rw (q, done) refl | inr q ↦ rw (q, live) refl ]
  run_agent-sources (s ∷ ss) client =
      let c = collector_of env s in
      let cs = map (collector_of env) ss in
      let stream = if client then env.stream_error else none in
      let (_, _, run) = run_agent-expected c cs env.ends stream env.cancelled in
      let failed = first_error (λ x. x.start_error) (c ∷ cs) in
      let calls = expected-calls c cs stream env.cancelled in
      let error =
        expected-error (c ∷ cs) env.stream_error client env.cancelled failed
          (no_stop_error (s ∷ ss)) in
      ap map_deeds run
      ∙ if_returned-deeds env.ends failed (expected (c ∷ cs) stream env.cancelled failed)
      ∙ ap₂ (λ a b. if has_end env (c ∷ cs) then some (a, b) else none) calls error

  add_sources-collectors :
      {F : Type 0} (a : Agent (Event F)) (ss : List Source)
      → (add_sources env a ss).collectors ≡ a.collectors ++ map (collector_of env) ss
  add_sources-collectors a [] = sym (append-nil a.collectors)
  add_sources-collectors a (s ∷ ss) =
      add_sources-collectors (add_collector a (collector_of env s)) ss
      ∙ append_assoc a.collectors (collector_of env s ∷ []) (map (collector_of env) ss)

  add_sources-client :
      {F : Type 0} (a : Agent (Event F)) (ss : List Source)
      → (add_sources env a ss).client ≡ a.client
  add_sources-client a [] = refl
  add_sources-client a (s ∷ ss) = add_sources-client (add_collector a (collector_of env s)) ss

  -- `Run` on an agent with the collectors of some sources.
  run_and-outcome :
      {F : Type 0} (a : Agent (Event F)) (ss : List Source) (client : Bool) (deferred : List Deed)
      → a.collectors ≡ map (collector_of env) ss
      → a.client ≡ client
      → let cs = map (collector_of env) ss in
        run_and env a deferred ≡ (
          if has_end env cs
          then some
              (ran (calls_of cs) ∷ deferred, run_error_of cs client env.cancelled env.stream_error)
          else none)
  unfolding run_node map_deeds behind
  run_and-outcome a ss client deferred p q =
      let cs = map (collector_of env) ss in
      let run = run_agent cs env.ends (if client then env.stream_error else none) env.cancelled in
      let said = ap (behind deferred) (run_agent-sources ss client) in
      rw (p, q)
        (behind-map_deeds deferred run
          ∙ said
          ∙ behind_if deferred (has_end env cs) (calls_of cs)
              (run_error_of cs client env.cancelled env.stream_error))

  connect_and_run-outcome :
      {F : Type 0} (a : Agent (Event F)) (ss : List Source) (client : Option Bytes)
      → a.collectors ≡ []
      → a.client ≡ false
      → connect_and_run env (add_sources env a ss) client ≡ agent_outcome env ss client
  connect_and_run-outcome a ss none p q =
      run_and-outcome (add_sources env a ss) ss false []
        (add_sources-collectors a ss ∙ ap (λ l. l ++ map (collector_of env) ss) p)
        (add_sources-client a ss ∙ q)
  connect_and_run-outcome a ss (some addr) p q = elim (Option-cases (env.dial addr)) [
    | inl ok ↦
        rw (ok, connect_and_run, agent_outcome)
          (run_and-outcome (set_client (add_sources env a ss)) ss true (closed_client ∷ [])
            (add_sources-collectors a ss ∙ ap (λ l. l ++ map (collector_of env) ss) p) refl)
    | inr (t, bad) ↦ rw (bad, connect_and_run, agent_outcome) refl
  ]

  agent_setup_small :
      (flags : AgentFlags)
      → flags.buffer_size ≤ℤ pos (2 ^ 62)
      → (agent_setup flags).config.buffer_size ≤ℤ pos (2 ^ 62)
  unfolding agent_setup agent_config
  agent_setup_small flags small = ground (arith, small)

  -- `gfr agent` does not panic for any flags with a buffer of at most 2^62 events. If it has an
  -- address for its client and connecting fails, it returns that error and has not started anything.
  -- Otherwise it runs on the collectors of its flags, the replay before the tail: without a collector
  -- it returns only once the context is done, and if all collectors have started only if the loop
  -- over the events and the wait for `StreamEvents` end. If it returns, it has closed its client
  -- once, behind everything else, and its error is that of the first collector that does not start,
  -- or else that of the stream unless the context is done, and never one of a collector's `Stop`.
  pub agent_command-outcome :
      (F : Type 0) (flags : AgentFlags)
      → flags.buffer_size ≤ℤ pos (2 ^ 62)
      → let setup = agent_setup flags in
        agent_command F env flags ≡ some (agent_outcome env setup.sources setup.client)
  unfolding agent_command new_agent
  agent_command-outcome F flags small =
      let setup = agent_setup flags in
      let size = setup.config.buffer_size in
      let made = new-fresh (Event F) size (agent_setup_small flags small) in
      rw made (
        ap some (
          connect_and_run-outcome
            (record {
              config = setup.config;
              collectors = [];
              buf = fresh (Event F) (wanted size);
              client = false;
            })
            setup.sources setup.client refl refl))
