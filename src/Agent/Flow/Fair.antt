-- ===== src/Agent/Flow/Fair.antt =====
-- The goroutines of `Run` (internal/agent/agent.go) that move the events of the collectors: what each
-- has moved, and when `merged` is closed.
use mathlib.Core.Path.{subst}
use distributed_gpu_training.Base.{
  All, All-append, both_absurd, ℕ, ◌≤◌, ◌<◌, ◌≡◌, refl, ap, inl, inr, Bool, true, false, Bool-cases,
  List, [], ◌∷◌, ◌++◌, append-nil, append_assoc, arith, ◌==◌, ==_iff, length, length-append,
}
use distributed_gpu_training.Base.Family.{replace-All, by_author, by_author-snoc}
use distributed_gpu_training.Buffer.{RingBuffer}
use distributed_gpu_training.Agent.{
  State, Step, record_only, record_and_send, sent, given_up, finish, take_event, stream_opens,
  stream_breaks, cancel,
}
use distributed_gpu_training.Agent.Flow.{
  Feeder, ranging, selecting, over, is_over, is_ended, merged_capacity, Flow, Move, range_next,
  merge, give_up, range_end, close_merged, in_loop, Moves, still, and_then, launch,
}

module _ {A : Type 0} where
  -- What a collector has not got into `merged`.
  abbrev pub unmerged : Feeder A → List A
  unmerged (ranging es) = es
  unmerged (selecting e es) = e ∷ es
  unmerged (over es) = es

  -- Each feeder has moved a first part of its events, in order. One that has returned has moved all,
  -- unless the context is done. `merged` is closed only when all have returned, and the loop ends
  -- only when it is closed.
  pub record IsFair (n : ℕ) (streams : ℕ → List A) (s : Flow A) : Type 0 where
    pub parted : (i : ℕ) → by_author i s.log ++ unmerged (s.feeders i) ≡ streams i
    pub whole :
        s.loop.cancelled ≡ false
        → (i : ℕ) → is_over (s.feeders i) ≡ true
        → unmerged (s.feeders i) ≡ []
    pub shut : s.closed ≡ true → (i : ℕ) → i < n → is_over (s.feeders i) ≡ true
    pub ends : is_ended s.loop.phase ≡ true → s.closed ≡ true
    pub room : length s.loop.coming ≤ merged_capacity

  launch-IsFair :
      (n : ℕ) (rb : RingBuffer A) (streams : ℕ → List A) → IsFair n streams (launch rb streams)
  launch-IsFair n rb streams = record {
    parted = λ i. refl;
    whole = λ live i h. absurd (ground arith);
    shut = λ h. absurd (ground arith);
    ends = λ h. absurd (ground arith);
    room = omega arith;
  }

  -- A closed channel has no feeder that is not over.
  pub not_closed :
      {n : ℕ} {streams : ℕ → List A} {s : Flow A}
      → IsFair n streams s
      → (i : ℕ) → i < n
      → is_over (s.feeders i) ≡ false
      → s.closed ≡ true
      → ⊥
  not_closed {s = s} h i lt live shut = both_absurd (is_over (s.feeders i)) (h.shut shut i lt) live

  Step-cancelled :
      {client : Bool} {s t : State A} → Step client s t → t.cancelled ≡ false → s.cancelled ≡ false
  Step-cancelled (record_only c p q w) h = h
  Step-cancelled (record_and_send c p q w) h = h
  Step-cancelled (sent p lt) h = h
  Step-cancelled (given_up p done) h = h
  Step-cancelled (finish p q) h = h
  Step-cancelled (take_event up on q) h = h
  Step-cancelled (stream_opens c shut on) h = h
  Step-cancelled (stream_breaks on early) h = h
  Step-cancelled cancel h = absurd (ground arith)

  Step-coming :
      {client : Bool} {s t : State A} → Step client s t → length t.coming ≤ length s.coming
  Step-coming {s = s} (record_only c p q w) = omega (arith, ap length q)
  Step-coming {s = s} (record_and_send c p q w) = omega (arith, ap length q)
  Step-coming (sent p lt) = omega arith
  Step-coming (given_up p done) = omega arith
  Step-coming (finish p q) = omega arith
  Step-coming (take_event up on q) = omega arith
  Step-coming (stream_opens c shut on) = omega arith
  Step-coming (stream_breaks on early) = omega arith
  Step-coming cancel = omega arith

  Move-IsFair :
      {n : ℕ} {client : Bool} {streams : ℕ → List A} {s t : Flow A}
      → Move n client s t
      → IsFair n streams s
      → IsFair n streams t
  Move-IsFair {n} {client} {streams} {s} (range_next {i = i} {e = e} {es = es} lt q) h = record {
    parted =
        replace-All (λ j f. by_author j s.log ++ unmerged f ≡ streams j) s.feeders i
          (selecting e es) (rw q at (h.parted i)) h.parted;
    whole = λ live.
        replace-All (λ j f. is_over f ≡ true → unmerged f ≡ []) s.feeders i (selecting e es)
          (λ o. absurd (ground arith)) (h.whole live);
    shut = λ c. absurd (not_closed h i lt (rw q refl) c);
    ends = h.ends;
    room = h.room;
  }
  Move-IsFair {n} {client} {streams} {s} (merge {i = i} {e = e} {es = es} lt q small) h = record {
    parted = λ j. elim (Bool-cases (i == j)) [
      | inl t ↦
          let mine : s.feeders j ≡ selecting e es =
            subst (λ k. s.feeders k ≡ selecting e es) ((==_iff i j).0 t) q in
          rw (by_author-snoc j i e s.log, t, append_assoc) (rw mine at (h.parted j))
      | inr t ↦ rw (by_author-snoc j i e s.log, t, append-nil) (h.parted j)
    ];
    whole = λ live.
        replace-All (λ j f. is_over f ≡ true → unmerged f ≡ []) s.feeders i (ranging es)
          (λ o. absurd (ground arith)) (h.whole live);
    shut = λ c. absurd (not_closed h i lt (rw q refl) c);
    ends = h.ends;
    room = omega (arith, small, length-append s.loop.coming (e ∷ []));
  }
  Move-IsFair {n} {client} {streams} {s} (give_up {i = i} {e = e} {es = es} lt q done) h = record {
    parted =
        replace-All (λ j f. by_author j s.log ++ unmerged f ≡ streams j) s.feeders i (over (e ∷ es))
          (rw q at (h.parted i)) h.parted;
    whole = λ live. absurd (both_absurd s.loop.cancelled done live);
    shut = λ c. absurd (not_closed h i lt (rw q refl) c);
    ends = h.ends;
    room = h.room;
  }
  Move-IsFair {n} {client} {streams} {s} (range_end {i = i} lt q) h = record {
    parted =
        replace-All (λ j f. by_author j s.log ++ unmerged f ≡ streams j) s.feeders i (over [])
          (rw q at (h.parted i)) h.parted;
    whole = λ live.
        replace-All (λ j f. is_over f ≡ true → unmerged f ≡ []) s.feeders i (over []) (λ o. refl)
          (h.whole live);
    shut = λ c. absurd (not_closed h i lt (rw q refl) c);
    ends = h.ends;
    room = h.room;
  }
  Move-IsFair (close_merged open_yet all) h = record {
    parted = h.parted;
    whole = h.whole;
    shut = λ c. all;
    ends = λ e. refl;
    room = h.room;
  }
  Move-IsFair (in_loop step closed) h = record {
    parted = h.parted;
    whole = λ live. h.whole (Step-cancelled step live);
    shut = h.shut;
    ends = closed;
    room = omega (arith, Step-coming step, h.room);
  }

  pub Moves-IsFair :
      {n : ℕ} {client : Bool} {streams : ℕ → List A} {rb : RingBuffer A} {s : Flow A}
      → Moves n client (launch rb streams) s
      → IsFair n streams s
  Moves-IsFair {n} {client} {streams} {rb} still = launch-IsFair n rb streams
  Moves-IsFair (and_then run move) = Move-IsFair move (Moves-IsFair run)

  -- Every event in the log is of one of the collectors.
  pub Moves-authors :
      {n : ℕ} {client : Bool} {streams : ℕ → List A} {rb : RingBuffer A} {s : Flow A}
      → Moves n client (launch rb streams) s
      → All (λ e. e.0 < n) s.log
  Moves-authors still = tt
  Moves-authors (and_then run (range_next lt q)) = Moves-authors run
  Moves-authors {n} (and_then {t} run (merge {i = i} {e = e} lt q small)) =
      All-append (λ x. x.0 < n) t.log ((i, e) ∷ []) (Moves-authors run) (lt, tt)
  Moves-authors (and_then run (give_up lt q done)) = Moves-authors run
  Moves-authors (and_then run (range_end lt q)) = Moves-authors run
  Moves-authors (and_then run (close_merged open_yet all)) = Moves-authors run
  Moves-authors (and_then run (in_loop step closed)) = Moves-authors run
