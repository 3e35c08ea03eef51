-- ===== src/Agent/Record.antt =====
-- The loop of `Run` (internal/agent/agent.go): what it records and sends, and where it blocks.
use mathlib.Core.Path.{subst}
use distributed_gpu_training.Base.{
  both_absurd, ◌≤◌, ◌≡◌, refl, sym, ap, ◌∙◌, ◌⊎◌, inl, inr, Bool, true, false, none, some, List, [],
  ◌∷◌, ◌++◌, length, length-append, append-nil, append_assoc, arith, Option-cases,
}
use distributed_gpu_training.Buffer.{RingBuffer, push}
use distributed_gpu_training.Buffer.Refine.{push_all}
use distributed_gpu_training.Agent.{
  Phase, receiving, sending, ended, State, out_capacity, Step, record_only, record_and_send, sent,
  given_up, finish, take_event, stream_opens, stream_breaks, cancel, Steps, here, next, begin,
}

module _ {A : Type 0} where
  push_all-snoc :
      (rb : RingBuffer A) (xs : List A) (x : A) (rb' rb'' : RingBuffer A)
      → push_all rb xs ≡ some rb'
      → push rb' x ≡ some rb''
      → push_all rb (xs ++ x ∷ []) ≡ some rb''
  unfolding push_all
  push_all-snoc rb [] x rb' rb'' h k =
      let run : some rb ≡ some rb' = h in let same : rb ≡ rb' = cc in rw (same, k)
  push_all-snoc rb (y ∷ ys) x rb' rb'' h k = elim (Option-cases (push rb y)) [
    | inl q ↦ let no : none ≡ some rb' = rw q at h in cc
    | inr (b, q) ↦ rw q (push_all-snoc b ys x rb' rb'' (rw q at h) k)
  ]

  -- The event in hand.
  abbrev pub held : Phase A → List A
  held (sending e) = e ∷ []
  held receiving = []
  held ended = []

  -- What has been recorded, `pushed`, and the events still to come are the events of the run; with
  -- a client and a live context each recorded event is taken, in the channel, or in hand.
  pub record IsRecorded (client : Bool) (rb : RingBuffer A) (es : List A) (s : State A)
      : Type 0 where
    pub pushed : List A
    pub all : pushed ++ s.coming ≡ es
    pub buffered : push_all rb pushed ≡ some s.buf
    pub delivered :
        client ≡ true → s.cancelled ≡ false → s.taken ++ (s.out ++ held s.phase) ≡ pushed
    pub room : length s.out ≤ out_capacity

  Step-IsRecorded :
      {client : Bool} {rb : RingBuffer A} {es : List A} {s t : State A}
      → Step client s t
      → IsRecorded client rb es s
      → IsRecorded client rb es t
  Step-IsRecorded {client} {rb} {es} {s}
        (record_only {e = e} {es = rest} {rb = rb'} no_client p q w) h =
      record {
        pushed = h.pushed ++ e ∷ [];
        all = rw (append_assoc h.pushed (e ∷ []) rest) (rw q at h.all);
        buffered = push_all-snoc rb h.pushed e s.buf rb' h.buffered w;
        delivered = λ c live. absurd (both_absurd client c no_client);
        room = h.room;
      }
  Step-IsRecorded {client} {rb} {es} {s} (record_and_send {e = e} {es = rest} {rb = rb'} c p q w)
        h =
      record {
        pushed = h.pushed ++ e ∷ [];
        all = rw (append_assoc h.pushed (e ∷ []) rest) (rw q at h.all);
        buffered = push_all-snoc rb h.pushed e s.buf rb' h.buffered w;
        delivered = λ c live.
            let old : s.taken ++ (s.out ++ []) ≡ h.pushed = rw p at (h.delivered c live) in
            let kept : s.taken ++ s.out ≡ h.pushed = rw append-nil at old in
            rw (← append_assoc s.taken s.out (e ∷ [])) (ap (λ l. l ++ e ∷ []) kept);
        room = h.room;
      }
  Step-IsRecorded {client} {rb} {es} {s} (sent {e} p lt) h = record {
    pushed = h.pushed;
    all = h.all;
    buffered = h.buffered;
    delivered = λ c live.
        let old : s.taken ++ (s.out ++ e ∷ []) ≡ h.pushed = rw p at (h.delivered c live) in
        rw append-nil old;
    room = omega (arith, lt, length-append s.out (e ∷ []));
  }
  Step-IsRecorded {client} {rb} {es} {s} (given_up {e} p done) h = record {
    pushed = h.pushed;
    all = h.all;
    buffered = h.buffered;
    delivered = λ c live. absurd (both_absurd s.cancelled done live);
    room = h.room;
  }
  Step-IsRecorded {client} {rb} {es} {s} (finish p q) h = record {
    pushed = h.pushed;
    all = h.all;
    buffered = h.buffered;
    delivered = λ c live. rw p at (h.delivered c live);
    room = h.room;
  }
  Step-IsRecorded {client} {rb} {es} {s} (take_event {e = e} {es = rest} up on q) h = record {
    pushed = h.pushed;
    all = h.all;
    buffered = h.buffered;
    delivered = λ c live. rw (append_assoc s.taken (e ∷ [])) (rw q at (h.delivered c live));
    room = let full : length (e ∷ rest) ≤ out_capacity = rw q at h.room in omega (arith, full);
  }
  Step-IsRecorded (stream_opens c shut on) h = record {
    pushed = h.pushed;
    all = h.all;
    buffered = h.buffered;
    delivered = h.delivered;
    room = h.room;
  }
  Step-IsRecorded (stream_breaks on early) h = record {
    pushed = h.pushed;
    all = h.all;
    buffered = h.buffered;
    delivered = h.delivered;
    room = h.room;
  }
  Step-IsRecorded cancel h = record {
    pushed = h.pushed;
    all = h.all;
    buffered = h.buffered;
    delivered = λ c live. absurd (both_absurd true refl live);
    room = h.room;
  }

  begin-IsRecorded :
      (client : Bool) (rb : RingBuffer A) (es : List A) → IsRecorded client rb es (begin rb es)
  unfolding push_all
  begin-IsRecorded client rb es = record {
    pushed = [];
    all = refl;
    buffered = refl;
    delivered = λ c live. refl;
    room = omega arith;
  }

  -- Whatever the agent, its client and the context do, and in whatever order: the ring buffer has
  -- been pushed exactly the events that have come so far, in their order, and the channel never
  -- holds more than 1024. With a client, and as long as the context is not done, each of these
  -- events has been taken by the client, or is in the channel, or in hand, once and in order.
  pub Steps-IsRecorded :
      {client : Bool} {rb : RingBuffer A} {es : List A} {s : State A}
      → Steps client (begin rb es) s
      → IsRecorded client rb es s
  Steps-IsRecorded {client} {rb} {es} here = begin-IsRecorded client rb es
  Steps-IsRecorded (next run step) = Step-IsRecorded step (Steps-IsRecorded run)

  -- The stream has broken, the channel is full, and the loop has an event in hand.
  pub record IsBlocked (s : State A) : Type 0 where
    pub hand : A
    pub select : s.phase ≡ sending hand
    pub broken : s.streaming ≡ false
    pub full : length s.out ≡ out_capacity

  phase_clash : (e : A) → sending e ≡ receiving → ⊥
  phase_clash e h = cc

  Step-IsBlocked :
      {client : Bool} {s t : State A}
      → Step client s t
      → IsBlocked s
      → (t.cancelled ≡ true) ⊎ (t ≡ s)
  Step-IsBlocked (record_only c p q w) b = absurd (phase_clash b.hand (sym b.select ∙ p))
  Step-IsBlocked (record_and_send c p q w) b = absurd (phase_clash b.hand (sym b.select ∙ p))
  Step-IsBlocked (sent p lt) b = absurd (omega (arith, lt, b.full))
  Step-IsBlocked (given_up p done) b = inl done
  Step-IsBlocked (finish p q) b = absurd (phase_clash b.hand (sym b.select ∙ p))
  Step-IsBlocked {client} {s} (take_event up on q) b = absurd (both_absurd s.streaming on b.broken)
  Step-IsBlocked {client} {s} (stream_opens c shut on) b =
      absurd (both_absurd s.streaming on b.broken)
  Step-IsBlocked {client} {s} (stream_breaks on early) b =
      absurd (both_absurd s.streaming on b.broken)
  Step-IsBlocked cancel b = inl refl

  stays_cancelled :
      {client : Bool} {s t : State A} → Step client s t → s.cancelled ≡ true → t.cancelled ≡ true
  stays_cancelled (record_only c p q w) h = h
  stays_cancelled (record_and_send c p q w) h = h
  stays_cancelled (sent p lt) h = h
  stays_cancelled (given_up p done) h = h
  stays_cancelled (finish p q) h = h
  stays_cancelled (take_event up on q) h = h
  stays_cancelled (stream_opens c shut on) h = h
  stays_cancelled (stream_breaks on early) h = h
  stays_cancelled cancel h = refl

  -- Once the stream to the coordinator has broken, the channel is full and the loop has an event in
  -- hand, nothing more is recorded: every run from there leaves the state as it is, until the
  -- context is done.
  pub Steps-IsBlocked :
      {client : Bool} {s t : State A}
      → Steps client s t
      → IsBlocked s
      → (t.cancelled ≡ true) ⊎ (t ≡ s)
  Steps-IsBlocked here b = inr refl
  Steps-IsBlocked (next run step) b = elim (Steps-IsBlocked run b) [
    | inl done ↦ inl (stays_cancelled step done)
    | inr same ↦ elim (Step-IsBlocked step (subst IsBlocked (sym same) b)) [
      | inl done ↦ inl done
      | inr also ↦ inr (also ∙ same)
    ]
  ]
