-- ===== src/Agent.antt =====
-- internal/agent/agent.go: the loop of `Run` over the merged events, the channel to the client's
-- goroutine, and what that goroutine and the context do meanwhile. `coming` is what the collectors
-- still put into `merged`, in the order in which it arrives there.
pub mod Record
pub mod Lifecycle
pub mod Flow
pub mod Node
use distributed_gpu_training.Base.{
  ℕ, ◌<◌, ◌≡◌, Bool, true, false, Option, some, List, [], ◌∷◌, ◌++◌, length,
}
use distributed_gpu_training.Buffer.{RingBuffer, push}

-- Where the loop is: before the next event, in the `select` that sends one, or behind the loop.
pub data Phase (A : Type 0) : Type 0 where
  receiving : Phase A
  sending : A → Phase A
  ended : Phase A

pub record State (A : Type 0) : Type 0 where
  pub phase : Phase A
  pub coming : List A
  pub buf : RingBuffer A
  -- The channel `out`, and what the client has taken from it.
  pub out : List A
  pub taken : List A
  -- The client has opened its stream: only then does `StreamEvents` read the channel.
  pub opened : Bool
  -- `StreamEvents` has not returned.
  pub streaming : Bool
  -- `ctx` is done.
  pub cancelled : Bool

abbrev pub out_capacity : ℕ
out_capacity = 1024

-- `client` is whether the agent has a client.
pub data Step {A : Type 0} (client : Bool) (s : State A) : State A → Type 0 where
  record_only :
      {e : A} {es : List A} {rb : RingBuffer A}
      → client ≡ false
      → s.phase ≡ receiving
      → s.coming ≡ e ∷ es
      → push s.buf e ≡ some rb
      → Step client s (record s { coming = es; buf = rb })
  record_and_send :
      {e : A} {es : List A} {rb : RingBuffer A}
      → client ≡ true
      → s.phase ≡ receiving
      → s.coming ≡ e ∷ es
      → push s.buf e ≡ some rb
      → Step client s (record s { phase = sending e; coming = es; buf = rb })
  sent :
      {e : A}
      → s.phase ≡ sending e
      → length s.out < out_capacity
      → Step client s (record s { phase = receiving; out = s.out ++ e ∷ [] })
  given_up :
      {e : A}
      → s.phase ≡ sending e
      → s.cancelled ≡ true
      → Step client s (record s { phase = receiving })
  finish : s.phase ≡ receiving → s.coming ≡ [] → Step client s (record s { phase = ended })
  -- The client's goroutine opens its stream at last, takes an event from the channel, or returns;
  -- before the stream is open it returns only if the context is done.
  stream_opens :
      client ≡ true
      → s.opened ≡ false
      → s.streaming ≡ true
      → Step client s (record s { opened = true })
  take_event :
      {e : A} {es : List A}
      → s.opened ≡ true
      → s.streaming ≡ true
      → s.out ≡ e ∷ es
      → Step client s (record s { out = es; taken = s.taken ++ e ∷ [] })
  stream_breaks :
      s.streaming ≡ true
      → (s.opened ≡ false → s.cancelled ≡ true)
      → Step client s (record s { streaming = false })
  cancel : Step client s (record s { cancelled = true })

pub data Steps {A : Type 0} (client : Bool) (s : State A) : State A → Type 0 where
  here : Steps client s s
  next : {t u : State A} → Steps client s t → Step client t u → Steps client s u

-- The state before the loop.
abbrev pub begin : {A : Type 0} → RingBuffer A → List A → State A
begin rb es = record {
  phase = receiving;
  coming = es;
  buf = rb;
  out = [];
  taken = [];
  opened = false;
  streaming = true;
  cancelled = false;
}
