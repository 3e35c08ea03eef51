-- ===== src/Transport/Client.antt =====
-- internal/transport/grpc.go, the agent's side: `Client.StreamEvents` with its backoff, and `pump`.
-- What the channel, the context and gRPC do is given as a list of turns, each of which says which
-- case of the `select` runs and how the call in it ends.
use distributed_gpu_training.Base.{
  ℕ, zero, suc, ◌*◌, ◌^◌, ◌<◌, ◌%◌, ◌≡◌, refl, ap, Bool, true, false, List, [], ◌∷◌, ◌++◌,
  append-nil, map, arith, ltb, if◌then◌else◌, length, min, Option, none, some, All,
}
use distributed_gpu_training.Event.{Event}
use distributed_gpu_training.Transport.{EventMessage, to_proto}
use distributed_gpu_training.Transport.RoundTrip.{FitsWire}
use distributed_gpu_training.Transport.Server.{
  Server, eof, ack, stream_events, stream_events-served, served, accepted-to_proto,
}

-- One round of the `select` in `pump`: the context is done, the channel is closed and
-- `CloseAndRecv` gives an acknowledgement or an error, or an event came and `Send` ends well or
-- not.
pub data Turn (F : Type 0) : Type 0 where
  done : Turn F
  closed : Option ℕ → Turn F
  got : Event F → Bool → Turn F

pub data PumpResult : Type 0 where
  acked : ℕ → PumpResult
  error : PumpResult
  -- No turn is left: the loop still waits.
  waiting : PumpResult

module _ {F : Type 0} where
  -- The messages sent, and what `pump` returns.
  unfoldable pub pump : List (Turn F) → List (EventMessage F) × PumpResult
  pump [] = ([], waiting)
  pump (done ∷ ts) = ([], error)
  pump (closed (some n) ∷ ts) = ([], acked n)
  pump (closed none ∷ ts) = ([], error)
  pump (got e true ∷ ts) = let (sent, r) = pump ts in (to_proto e ∷ sent, r)
  pump (got e false ∷ ts) = ([], error)

-- One attempt of the loop in `StreamEvents` to open a stream: it opens, or fails and then the
-- context is done, or fails and the wait of the given length passes.
pub data Attempt : Type 0 where
  opened cancelled refused : Attempt

abbrev pub millisecond : ℕ
millisecond = 1_000_000

-- The waits, in nanoseconds, and whether a stream was opened (`none`: it still tries).
unfoldable pub open_loop : ℕ → List Attempt → List ℕ × Option Bool
open_loop backoff [] = ([], none)
open_loop backoff (opened ∷ as') = ([], some true)
open_loop backoff (cancelled ∷ as') = ([], some false)
open_loop backoff (refused ∷ as') =
    let (waits, r) =
      open_loop (if ltb backoff (5000 * millisecond) then backoff * 2 else backoff) as' in
    (backoff ∷ waits, r)

unfoldable pub open_stream : List Attempt → List ℕ × Option Bool
unfolding open_loop
open_stream as' = open_loop (100 * millisecond) as'

-- Refused attempts in a row.
abbrev pub refusals : ℕ → List Attempt
refusals zero = []
refusals (suc n) = refused ∷ refusals n

-- The wait of the n-th refused attempt, counted from zero.
abbrev pub nth_wait : ℕ → ℕ
nth_wait n = 100 * millisecond * 2 ^ min n 6

abbrev pub waits_from : ℕ → ℕ → List ℕ
waits_from i zero = []
waits_from i (suc n) = nth_wait i ∷ waits_from (suc i) n

module _ {F : Type 0} where
  -- The turns in which every event is sent and the channel is then closed.
  abbrev pub deliver : List (Event F) → ℕ → List (Turn F)
  deliver [] n = closed (some n) ∷ []
  deliver (e ∷ es) n = got e true ∷ deliver es n

  pump-deliver : (es : List (Event F)) (n : ℕ) → pump (deliver es n) ≡ (map to_proto es, acked n)
  unfolding pump
  pump-deliver [] n = refl
  pump-deliver (e ∷ es) n = rw (pump-deliver es n)

  module _ {H : Type 0} (ingest : H → Event F → H) where
    -- An agent that sends events whose process counts fit an `int32`, over a stream that does not
    -- break, has sent one message for each event. The server hands exactly these events to its
    -- handler, in order, counts them, and acknowledges their number modulo 2^64.
    pub stream_events-pump :
        (s : Server H) (es : List (Event F)) (n : ℕ)
        → s.received < 2 ^ 64
        → All FitsWire es
        → ((pump (deliver es n)).1 ≡ acked n)
          × (stream_events ingest s (pump (deliver es n)).0 eof
              ≡ (served ingest s es, ack (length es % 2 ^ 64)))
    stream_events-pump s es n hs fit = (
      ap (λ r. r.1) (pump-deliver es n),
      rw (
        pump-deliver es n,
        stream_events-served ingest s (map to_proto es) eof hs,
        accepted-to_proto es fit,
      ),
    )

next_wait :
    (i : ℕ)
    → (if ltb (nth_wait i) (5000 * millisecond) then nth_wait i * 2 else nth_wait i)
      ≡ nth_wait (suc i)
next_wait zero = refl
next_wait (suc zero) = refl
next_wait (suc (suc zero)) = refl
next_wait (suc (suc (suc zero))) = refl
next_wait (suc (suc (suc (suc zero)))) = refl
next_wait (suc (suc (suc (suc (suc zero))))) = refl
next_wait (suc (suc (suc (suc (suc (suc i)))))) =
    let n = suc (suc (suc (suc (suc (suc i))))) in
    let now : min n 6 ≡ 6 = omega arith in
    let later : min (suc n) 6 ≡ 6 = omega arith in rw (now, later)

-- Refused attempts, and then some that end the loop at once.
pub open_loop-refusals :
    (n i : ℕ) (as' : List Attempt) (r : Option Bool)
    → ((b : ℕ) → open_loop b as' ≡ ([], r))
    → open_loop (nth_wait i) (refusals n ++ as') ≡ (waits_from i n, r)
unfolding open_loop
open_loop-refusals zero i as' r last = last (nth_wait i)
open_loop-refusals (suc n) i as' r last = rw (next_wait i, open_loop-refusals n (suc i) as' r last)

-- While the coordinator refuses, the n-th wait is 100 ms times 2^n, but never more than 6.4 s,
-- and the client goes on trying.
pub open_stream-refusals : (n : ℕ) → open_stream (refusals n) ≡ (waits_from 0 n, none)
unfolding open_stream open_loop
open_stream-refusals n =
    let run : open_loop (nth_wait 0) (refusals n ++ []) ≡ (waits_from 0 n, none) =
      open_loop-refusals n 0 [] none (λ b. refl) in
    rw append-nil at run
