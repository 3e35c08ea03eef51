-- ===== src/Agent/Flow.antt =====
-- internal/agent/agent.go: all goroutines of `Run` together, from the channels of the collectors to
-- the client. A collector is the list of the events that come out of its channel before it closes.
-- Each has a goroutine that moves them into `merged`, which is `coming` of the loop's state; one more
-- closes `merged` behind them.
pub mod Fair
pub mod Whole
pub mod Ends
pub mod Progress
use distributed_gpu_training.Base.{ℕ, ◌+◌, ◌<◌, ◌≡◌, Bool, true, false, List, [], ◌∷◌, ◌++◌, length}
use distributed_gpu_training.Base.Family.{replace}
use distributed_gpu_training.Buffer.{RingBuffer}
use distributed_gpu_training.Agent.{Phase, ended, State, Step, begin}

-- The goroutine of a collector: at `range ch`, in the `select`, or returned, with what has not gone
-- through.
pub data Feeder (A : Type 0) : Type 0 where
  ranging : List A → Feeder A
  selecting : A → List A → Feeder A
  over : List A → Feeder A

abbrev pub is_over : {A : Type 0} → Feeder A → Bool
is_over (over es) = true
is_over (ranging es) = false
is_over (selecting e es) = false

abbrev pub is_ended : {A : Type 0} → Phase A → Bool
is_ended ended = true
is_ended Phase.receiving = false
is_ended (Phase.sending e) = false

abbrev pub merged_capacity : ℕ
merged_capacity = 1024

-- The feeders, whether `merged` is closed, and the loop. `log` is a record of all that was ever sent
-- to `merged`, with its feeder; the code has none.
pub record Flow (A : Type 0) : Type 0 where
  pub feeders : ℕ → Feeder A
  pub log : List (ℕ × A)
  pub closed : Bool
  pub loop : State A

-- `n` is the number of the collectors.
pub data Move {A : Type 0} (n : ℕ) (client : Bool) (s : Flow A) : Flow A → Type 0 where
  range_next :
      {i : ℕ} {e : A} {es : List A}
      → i < n
      → s.feeders i ≡ ranging (e ∷ es)
      → Move n client s (record s { feeders = replace s.feeders i (selecting e es) })
  merge :
      {i : ℕ} {e : A} {es : List A}
      → i < n
      → s.feeders i ≡ selecting e es
      → length s.loop.coming < merged_capacity
      → Move n client s (record s {
        feeders = replace s.feeders i (ranging es);
        log = s.log ++ (i, e) ∷ [];
        loop = record (s.loop) { coming = s.loop.coming ++ e ∷ [] };
      })
  give_up :
      {i : ℕ} {e : A} {es : List A}
      → i < n
      → s.feeders i ≡ selecting e es
      → s.loop.cancelled ≡ true
      → Move n client s (record s { feeders = replace s.feeders i (over (e ∷ es)) })
  range_end :
      {i : ℕ}
      → i < n
      → s.feeders i ≡ ranging []
      → Move n client s (record s { feeders = replace s.feeders i (over []) })
  -- `wg.Wait()` has returned.
  close_merged :
      s.closed ≡ false
      → ((i : ℕ) → i < n → is_over (s.feeders i) ≡ true)
      → Move n client s (record s { closed = true })
  -- The loop over `merged` ends only when `merged` is closed.
  in_loop :
      {l : State A}
      → Step client s.loop l
      → (is_ended l.phase ≡ true → s.closed ≡ true)
      → Move n client s (record s { loop = l })

pub data Moves {A : Type 0} (n : ℕ) (client : Bool) (s : Flow A) : Flow A → Type 0 where
  still : Moves n client s s
  and_then : {t u : Flow A} → Moves n client s t → Move n client t u → Moves n client s u

-- The state when the goroutines have been started.
abbrev pub launch : {A : Type 0} → RingBuffer A → (ℕ → List A) → Flow A
launch rb streams = record {
  feeders = λ i. ranging (streams i);
  log = [];
  closed = false;
  loop = begin rb [];
}
