-- ===== src/Transport/Server.antt =====
-- internal/transport/grpc.go, the coordinator's side: `Server.StreamEvents`. What gRPC delivers is
-- a list of `Recv` results; the handler is any state with its `Ingest`.
use distributed_gpu_training.Base.{
  ℕ, suc, ◌+◌, ◌%◌, ◌^◌, ◌<◌, ◌≡◌, refl, ap, ◌∙◌, Option, none, some, List, [], ◌∷◌, map, arith,
  length, All, Option-cases, inl, inr,
}
use distributed_gpu_training.Event.{Event}
use distributed_gpu_training.Transport.{EventMessage, from_proto, to_proto}
use distributed_gpu_training.Transport.RoundTrip.{FitsWire, from_proto-to_proto}

-- How a stream ends: the client closes it, or it breaks.
pub data StreamEnd : Type 0 where
  eof broken : StreamEnd

-- What `StreamEvents` returns: the acknowledgement, or the error of `Recv`.
pub data Outcome : Type 0 where
  ack : ℕ → Outcome
  failed : Outcome

-- `handler` is nil in a server that only counts.
pub record Server (H : Type 0) : Type 0 where
  pub handler : Option H
  pub received : ℕ

module _ {F H : Type 0} (ingest : H → Event F → H) where
  -- `if s.handler != nil { s.handler.Ingest(e) }`
  abbrev pub handle : Option H → Event F → Option H
  handle none e = none
  handle (some h) e = some (ingest h e)

  -- What the loop does with one decoded event, besides its local count.
  abbrev pub on_event : Server H → Event F → Server H
  on_event s e = record s { handler = handle s.handler e; received = (s.received + 1) % 2 ^ 64 }

  -- The loop; `n` is the local count.
  stream_loop : Server H → ℕ → List (EventMessage F) → StreamEnd → Server H × Outcome
  stream_loop s n [] StreamEnd.eof = (s, ack n)
  stream_loop s n [] StreamEnd.broken = (s, failed)
  stream_loop s n (m ∷ ms) end = elim (from_proto m) [
    | none ↦ stream_loop s n ms end
    | some e ↦ stream_loop (on_event s e) ((n + 1) % 2 ^ 64) ms end
  ]

  unfoldable pub stream_events : Server H → List (EventMessage F) → StreamEnd → Server H × Outcome
  unfolding stream_loop
  stream_events s ms end = stream_loop s 0 ms end

abbrev pub ending : ℕ → StreamEnd → Outcome
ending n StreamEnd.eof = ack n
ending n StreamEnd.broken = failed

module _ {F : Type 0} where
  -- The events of the messages that have a payload, in order.
  abbrev pub accepted : List (EventMessage F) → List (Event F)
  accepted [] = []
  accepted (m ∷ ms) = elim (from_proto m) [ none ↦ accepted ms | some e ↦ e ∷ accepted ms ]

  pub accepted-to_proto : (es : List (Event F)) → All FitsWire es → accepted (map to_proto es) ≡ es
  accepted-to_proto [] h = refl
  accepted-to_proto (e ∷ es) h =
      rw ((from_proto-to_proto e).1 h.0, accepted) (ap (◌∷◌ e) (accepted-to_proto es h.1))

module _ {F H : Type 0} (ingest : H → Event F → H) where
  abbrev pub ingest_all : H → List (Event F) → H
  ingest_all h [] = h
  ingest_all h (e ∷ es) = ingest_all (ingest h e) es

  abbrev pub handle_all : Option H → List (Event F) → Option H
  handle_all none es = none
  handle_all (some h) es = some (ingest_all h es)

  pub handle_all-nil : (o : Option H) → handle_all o [] ≡ o
  handle_all-nil none = refl
  handle_all-nil (some h) = refl

  handle_all-cons :
      (o : Option H) (e : Event F) (es : List (Event F))
      → handle_all (handle ingest o e) es ≡ handle_all o (e ∷ es)
  handle_all-cons none e es = refl
  handle_all-cons (some h) e es = refl

  -- The server when the accepted events have been handled.
  abbrev pub served : Server H → List (Event F) → Server H
  served s es = record s {
    handler = handle_all s.handler es;
    received = (s.received + length es) % 2 ^ 64;
  }

  served-nil : (s : Server H) → s.received < 2 ^ 64 → served s [] ≡ s
  served-nil s h =
      let kept : (s.received + 0) % 2 ^ 64 ≡ s.received = omega arith in
      rw (handle_all-nil s.handler, kept)

  served-cons :
      (s : Server H) (e : Event F) (es : List (Event F))
      → served (on_event ingest s e) es ≡ served s (e ∷ es)
  served-cons s e es =
      let added : ((s.received + 1) % 2 ^ 64 + length es) % 2 ^ 64
          ≡ (s.received + suc (length es)) % 2 ^ 64 =
        omega arith in
      rw (handle_all-cons s.handler e es, added)

  stream_loop-served :
      (s : Server H) (n : ℕ) (ms : List (EventMessage F)) (end : StreamEnd)
      → s.received < 2 ^ 64
      → n < 2 ^ 64
      → stream_loop ingest s n ms end
        ≡ (served s (accepted ms), ending ((n + length (accepted ms)) % 2 ^ 64) end)
  unfolding stream_loop
  stream_loop-served s n [] StreamEnd.eof hs hn =
      let kept : (n + 0) % 2 ^ 64 ≡ n = omega arith in rw (served-nil s hs, kept)
  stream_loop-served s n [] StreamEnd.broken hs hn = rw (served-nil s hs)
  stream_loop-served s n (m ∷ ms) end hs hn = elim (Option-cases (from_proto m)) [
    | inl q ↦ rw (q, accepted, stream_loop) (stream_loop-served s n ms end hs hn)
    | inr (e, q) ↦
        let l = length (accepted ms) in
        let added : ((n + 1) % 2 ^ 64 + l) % 2 ^ 64 ≡ (n + suc l) % 2 ^ 64 = omega arith in
        rw (q, accepted, stream_loop, ← served-cons s e (accepted ms), ← added)
          (stream_loop-served (on_event ingest s e) ((n + 1) % 2 ^ 64) ms end (omega arith)
            (omega arith))
  ]

  -- `StreamEvents` drops the messages with no payload, hands the others to the handler in their
  -- order, adds their number to `received`, and acknowledges that number, modulo 2^64, when the
  -- client closes the stream. If the stream breaks, what came before has been handled and counted
  -- all the same, and an error is returned.
  pub stream_events-served :
      (s : Server H) (ms : List (EventMessage F)) (end : StreamEnd)
      → s.received < 2 ^ 64
      → stream_events ingest s ms end
        ≡ (served s (accepted ms), ending (length (accepted ms) % 2 ^ 64) end)
  unfolding stream_events
  stream_events-served s ms end h =
      stream_loop-served s 0 ms end h (omega arith)
      ∙ ap (λ k. (served s (accepted ms), ending (k % 2 ^ 64) end)) {x = 0 + length (accepted ms)}
          {y = length (accepted ms)} (omega arith)
