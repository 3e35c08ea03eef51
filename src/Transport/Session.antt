-- ===== src/Transport/Session.antt =====
-- internal/transport/grpc.go, the agent's side: the whole of `Client.StreamEvents`, which opens a
-- stream and then runs `pump` on it.
use distributed_gpu_training.Base.{
  ℕ, ◌≡◌, refl, ap, ◌∙◌, Bool, true, false, Option, none, some, List, [], ◌∷◌, ◌++◌, map,
}
use distributed_gpu_training.Event.{Event}
use distributed_gpu_training.Transport.{EventMessage, to_proto}
use distributed_gpu_training.Transport.Client.{
  Turn, done, closed, got, PumpResult, acked, error, waiting, pump, Attempt, opened, cancelled,
  open_stream, open_loop, refusals, waits_from, open_loop-refusals, open_stream-refusals,
}

-- The waits, the messages sent, and what `StreamEvents` returns.
pub record Session (F : Type 0) : Type 0 where
  pub waits : List ℕ
  pub sent : List (EventMessage F)
  pub result : PumpResult

module _ {F : Type 0} where
  -- What follows the loop: `pump` on the stream that was opened.
  abbrev pub on_stream : List (Turn F) → List ℕ × Option Bool → Session F
  on_stream ts (waits, none) = record { waits = waits; sent = []; result = waiting }
  on_stream ts (waits, some false) = record { waits = waits; sent = []; result = error }
  on_stream ts (waits, some true) =
      let (sent, r) = pump ts in record { waits = waits; sent = sent; result = r }

  unfoldable pub client_stream_events : List Attempt → List (Turn F) → Session F
  unfolding open_stream pump
  client_stream_events as' ts = on_stream ts (open_stream as')

  -- The events that come out of the channel before the end.
  abbrev pub received : List (Turn F) → List (Event F)
  received [] = []
  received (done ∷ ts) = []
  received (closed o ∷ ts) = []
  received (got e true ∷ ts) = e ∷ received ts
  received (got e false ∷ ts) = []

  -- What the turn that ends `pump` makes it return.
  abbrev pub outcome : List (Turn F) → PumpResult
  outcome [] = waiting
  outcome (done ∷ ts) = error
  outcome (closed none ∷ ts) = error
  outcome (closed (some n) ∷ ts) = acked n
  outcome (got e true ∷ ts) = outcome ts
  outcome (got e false ∷ ts) = error

  pump-received : (ts : List (Turn F)) → pump ts ≡ (map to_proto (received ts), outcome ts)
  unfolding pump
  pump-received [] = refl
  pump-received (done ∷ ts) = refl
  pump-received (closed none ∷ ts) = refl
  pump-received (closed (some n) ∷ ts) = refl
  pump-received (got e true ∷ ts) = ap (λ r. (to_proto e ∷ r.0, r.1)) (pump-received ts)
  pump-received (got e false ∷ ts) = refl

  -- After `n` refused attempts, with waits of 100 ms times 2^i and never more than 6.4 s, the client
  -- goes on trying; or the context is done, and it returns an error and has sent nothing; or a stream
  -- opens. Then it sends the events that come out of the channel, in order and each once, until a
  -- `Send` fails or the context is done, which is an error, or the channel is closed: then it
  -- returns the acknowledgement, or the error of `CloseAndRecv`.
  pub client_stream_events-refusals :
      (n : ℕ) (rest : List Attempt) (ts : List (Turn F))
      → (client_stream_events (refusals n) ts
          ≡ record { waits = waits_from 0 n; sent = []; result = waiting })
        × (client_stream_events (refusals n ++ cancelled ∷ rest) ts
            ≡ record { waits = waits_from 0 n; sent = []; result = error })
        × (client_stream_events (refusals n ++ opened ∷ rest) ts ≡ record {
          waits = waits_from 0 n;
          sent = map to_proto (received ts);
          result = outcome ts;
        })
  unfolding client_stream_events open_stream open_loop
  client_stream_events-refusals n rest ts = (
    ap (on_stream ts) (open_stream-refusals n),
    ap (on_stream ts) (open_loop-refusals n 0 (cancelled ∷ rest) (some false) (λ b. refl)),
    ap (on_stream ts) (open_loop-refusals n 0 (opened ∷ rest) (some true) (λ b. refl))
        ∙ rw (pump-received ts),
  )
