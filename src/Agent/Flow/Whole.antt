-- ===== src/Agent/Flow/Whole.antt =====
-- All goroutines of `Run` (internal/agent/agent.go): whatever their order, the loop runs on what has
-- gone into `merged`, and in the end everything has.
use mathlib.Core.Path.{subst}
use distributed_gpu_training.Base.{
  both_absurd, ℕ, ◌<◌, ◌≡◌, refl, sym, ap, ◌∙◌, inl, inr, Bool, true, false, Bool-cases, some, List,
  [], ◌∷◌, ◌++◌, append-nil, arith,
}
use distributed_gpu_training.Base.Family.{by_author, entries, entries-snoc}
use distributed_gpu_training.Buffer.{RingBuffer}
use distributed_gpu_training.Buffer.Refine.{push_all}
use distributed_gpu_training.Agent.{
  Phase, ended, receiving, sending, State, Step, record_only, record_and_send, sent, given_up,
  finish, take_event, stream_opens, stream_breaks, cancel, Steps, here, next, begin,
}
use distributed_gpu_training.Agent.Record.{held, IsRecorded, Steps-IsRecorded}
use distributed_gpu_training.Agent.Flow.{
  is_over, is_ended, Flow, range_next, merge, give_up, range_end, close_merged, in_loop, Moves,
  still, and_then, launch,
}
use distributed_gpu_training.Agent.Flow.Fair.{unmerged, not_closed, Moves-IsFair}

module _ {A : Type 0} where
  -- One more event at the end of `merged`.
  abbrev more : State A → A → State A
  more s x = record s { coming = s.coming ++ x ∷ [] }

  is_ended_now : (p q : Phase A) → p ≡ q → is_ended q ≡ false → is_ended p ≡ true → ⊥
  is_ended_now p q e h k = both_absurd (is_ended p) k (ap is_ended e ∙ h)

  Step-ended :
      {client : Bool} {s t : State A}
      → Step client s t
      → is_ended s.phase ≡ true
      → is_ended t.phase ≡ true
  Step-ended (record_only c p q w) h = absurd (is_ended_now _ receiving p refl h)
  Step-ended (record_and_send c p q w) h = absurd (is_ended_now _ receiving p refl h)
  Step-ended (sent {e} p lt) h = absurd (is_ended_now _ (sending e) p refl h)
  Step-ended (given_up {e} p done) h = absurd (is_ended_now _ (sending e) p refl h)
  Step-ended (finish p q) h = refl
  Step-ended (take_event up on q) h = h
  Step-ended (stream_opens c shut on) h = h
  Step-ended (stream_breaks on early) h = h
  Step-ended cancel h = h

  Step-more :
      {client : Bool} {s t : State A} (x : A)
      → Step client s t
      → is_ended t.phase ≡ false
      → Step client (more s x) (more t x)
  Step-more x (record_only c p q w) h = record_only c p (ap (λ l. l ++ x ∷ []) q) w
  Step-more x (record_and_send c p q w) h = record_and_send c p (ap (λ l. l ++ x ∷ []) q) w
  Step-more x (sent p lt) h = sent p lt
  Step-more x (given_up p done) h = given_up p done
  Step-more x (finish p q) h = absurd (ground arith)
  Step-more x (take_event up on q) h = take_event up on q
  Step-more x (stream_opens c shut on) h = stream_opens c shut on
  Step-more x (stream_breaks on early) h = stream_breaks on early
  Step-more x cancel h = cancel

  still_live :
      {client : Bool} {s t : State A}
      → Step client s t
      → is_ended t.phase ≡ false
      → is_ended s.phase ≡ false
  still_live {s = s} {t = t} step h = elim (Bool-cases (is_ended s.phase)) [
    | inl q ↦ absurd (both_absurd (is_ended t.phase) (Step-ended step q) h)
    | inr q ↦ q
  ]

  Steps-more :
      {client : Bool} {rb : RingBuffer A} {es : List A} {s : State A} (x : A)
      → Steps client (begin rb es) s
      → is_ended s.phase ≡ false
      → Steps client (begin rb (es ++ x ∷ [])) (more s x)
  Steps-more x here h = here
  Steps-more x (next run step) h = next (Steps-more x run (still_live step h)) (Step-more x step h)

  -- A run of all goroutines, seen from the loop, is a run of the loop on what went into `merged`.
  Moves-Steps :
      {n : ℕ} {client : Bool} {rb : RingBuffer A} {streams : ℕ → List A} {s : Flow A}
      → Moves n client (launch rb streams) s
      → Steps client (begin rb (entries s.log)) s.loop
  Moves-Steps still = here
  Moves-Steps (and_then run (range_next lt q)) = Moves-Steps run
  Moves-Steps {client = client} {rb = rb}
        (and_then {t} run (merge {i = i} {e = e} {es = es} lt q small)) =
      let fair = Moves-IsFair run in
      let live : is_ended t.loop.phase ≡ false = elim (Bool-cases (is_ended t.loop.phase)) [
        | inl over_now ↦ absurd (not_closed fair i lt (rw q refl) (fair.ends over_now))
        | inr q ↦ q
      ] in
      subst (λ l. Steps client (begin rb l) (more t.loop e)) (sym (entries-snoc i e t.log))
        (Steps-more e (Moves-Steps run) live)
  Moves-Steps (and_then run (give_up lt q done)) = Moves-Steps run
  Moves-Steps (and_then run (range_end lt q)) = Moves-Steps run
  Moves-Steps (and_then run (close_merged open_yet all)) = Moves-Steps run
  Moves-Steps (and_then run (in_loop step closed)) = next (Moves-Steps run) step

  Step-finished :
      {client : Bool} {s t : State A}
      → Step client s t
      → (is_ended s.phase ≡ true → s.coming ≡ [])
      → is_ended t.phase ≡ true
      → t.coming ≡ []
  Step-finished (record_only c p q w) before h = absurd (is_ended_now _ receiving p refl h)
  Step-finished (record_and_send c p q w) before h = absurd (ground arith)
  Step-finished (sent p lt) before h = absurd (ground arith)
  Step-finished (given_up p done) before h = absurd (ground arith)
  Step-finished (finish p q) before h = q
  Step-finished (take_event up on q) before h = before h
  Step-finished (stream_opens c shut on) before h = before h
  Step-finished (stream_breaks on early) before h = before h
  Step-finished cancel before h = before h

  Steps-finished :
      {client : Bool} {rb : RingBuffer A} {es : List A} {s : State A}
      → Steps client (begin rb es) s
      → is_ended s.phase ≡ true
      → s.coming ≡ []
  Steps-finished here h = absurd (ground arith)
  Steps-finished (next run step) h = Step-finished step (Steps-finished run) h

  held-ended : (p : Phase A) → is_ended p ≡ true → held p ≡ []
  held-ended receiving h = absurd (ground arith)
  held-ended (sending e) h = absurd (ground arith)
  held-ended ended h = refl

  -- What holds of the goroutines of `Run` in a state: of each collector a first part of its events is
  -- in the log, in order; the loop has recorded and sent what went into `merged`; nothing is sent to
  -- it once it is closed. If the loop has ended with a live context, all events of all collectors are
  -- in the log, and the ring buffer and the client have all of it.
  pub record IsRun (n : ℕ) (client : Bool) (rb : RingBuffer A) (streams : ℕ → List A) (s : Flow A)
      : Type 0 where
    pub in_order : (i : ℕ) → by_author i s.log ++ unmerged (s.feeders i) ≡ streams i
    pub recorded : IsRecorded client rb (entries s.log) s.loop
    pub shut : s.closed ≡ true → (i : ℕ) → i < n → is_over (s.feeders i) ≡ true
    pub complete :
        is_ended s.loop.phase ≡ true
        → s.loop.cancelled ≡ false
        → ((i : ℕ) → i < n → by_author i s.log ≡ streams i)
          × (push_all rb (entries s.log) ≡ some s.loop.buf)
          × (client ≡ true → s.loop.taken ++ s.loop.out ≡ entries s.log)

  -- In every order in which the goroutines of `Run` can move: the log of what was ever sent to
  -- `merged` has of each collector a first part of its events, in order, each once; the loop records
  -- and sends this log as it would a single source; and no goroutine is left to send to `merged`
  -- when it is closed. When the loop has ended and the context is not done, the log has all events of
  -- all collectors, the ring buffer has been pushed the whole log, and the whole log has been taken
  -- by the client, if there is one, or is in its channel.
  pub Moves-IsRun :
      {n : ℕ} {client : Bool} {rb : RingBuffer A} {streams : ℕ → List A} {s : Flow A}
      → Moves n client (launch rb streams) s
      → IsRun n client rb streams s
  Moves-IsRun {n} {client} {rb} {streams} {s} run =
      let fair = Moves-IsFair run in
      let loop = Moves-Steps run in
      let kept = Steps-IsRecorded loop in
      record {
        in_order = fair.parted;
        recorded = kept;
        shut = fair.shut;
        complete = λ done live.
            let all : kept.pushed ≡ entries s.log =
              rw (Steps-finished loop done, append-nil) at kept.all in
            (
              λ i lt.
                  rw (fair.whole live i (fair.shut (fair.ends done) i lt), append-nil) at
                    (fair.parted i),
              rw all at kept.buffered,
              λ c. rw (held-ended s.loop.phase done, append-nil) at (kept.delivered c live) ∙ all,
            );
      }
