-- ===== src/Transport/Streams.antt =====
-- internal/transport/grpc.go, the coordinator's side: several calls of `Server.StreamEvents` at the
-- same time, one for each agent. `Ingest` and `received.Add` are atomic; between them, and between
-- the rounds of a stream, any other stream can go on.
pub mod Apart
pub mod Served
use distributed_gpu_training.Base.{
  ℕ, ◌+◌, ◌%◌, ◌^◌, ◌<◌, ◌≡◌, Option, none, some, List, [], ◌∷◌, ◌++◌,
}
use distributed_gpu_training.Base.Family.{replace}
use distributed_gpu_training.Event.{Event}
use distributed_gpu_training.Transport.{EventMessage, from_proto}
use distributed_gpu_training.Transport.Server.{Server, StreamEnd, Outcome, handle, ending}

-- Where a call is, with its local count: at `Recv`, with the messages still to come; between `Ingest`
-- and `received.Add`; or returned.
pub data Serving (F : Type 0) : Type 0 where
  at_recv : List (EventMessage F) → ℕ → Serving F
  ingested : List (EventMessage F) → ℕ → Serving F
  returned : Outcome → Serving F

-- The calls and the server. `log` is a record of what was ever ingested, with the call that did it;
-- the code has none.
pub record Hub (F H : Type 0) : Type 0 where
  pub calls : ℕ → Serving F
  pub server : Server H
  pub log : List (ℕ × Event F)

module _ {F H : Type 0} (ingest : H → Event F → H) where
  -- One round of one of `n` calls, or a half of one; `ends` is how the streams end.
  pub data Round (n : ℕ) (ends : ℕ → StreamEnd) (s : Hub F H) : Hub F H → Type 0 where
    drop_message :
        {i : ℕ} {m : EventMessage F} {ms : List (EventMessage F)} {k : ℕ}
        → i < n
        → s.calls i ≡ at_recv (m ∷ ms) k
        → from_proto m ≡ none
        → Round n ends s (record s { calls = replace s.calls i (at_recv ms k) })
    ingest_event :
        {i : ℕ} {m : EventMessage F} {ms : List (EventMessage F)} {k : ℕ} {e : Event F}
        → i < n
        → s.calls i ≡ at_recv (m ∷ ms) k
        → from_proto m ≡ some e
        → Round n ends s (record {
          calls = replace s.calls i (ingested ms k);
          server = record (s.server) { handler = handle ingest s.server.handler e };
          log = s.log ++ (i, e) ∷ [];
        })
    count_event :
        {i : ℕ} {ms : List (EventMessage F)} {k : ℕ}
        → i < n
        → s.calls i ≡ ingested ms k
        → Round n ends s (record s {
          calls = replace s.calls i (at_recv ms ((k + 1) % 2 ^ 64));
          server = record (s.server) { received = (s.server.received + 1) % 2 ^ 64 };
        })
    return_from :
        {i : ℕ} {k : ℕ}
        → i < n
        → s.calls i ≡ at_recv [] k
        → Round n ends s (record s { calls = replace s.calls i (returned (ending k (ends i))) })

  pub data Rounds (n : ℕ) (ends : ℕ → StreamEnd) (s : Hub F H) : Hub F H → Type 0 where
    none_yet : Rounds n ends s s
    one_more : {t u : Hub F H} → Rounds n ends s t → Round n ends t u → Rounds n ends s u

-- The calls have all begun.
abbrev pub accept : {F H : Type 0} → Server H → (ℕ → List (EventMessage F)) → Hub F H
accept server sent = record { calls = λ i. at_recv (sent i) 0; server = server; log = [] }
