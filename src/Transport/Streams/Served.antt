-- ===== src/Transport/Streams/Served.antt =====
-- Several calls of `Server.StreamEvents` (internal/transport/grpc.go) at the same time: each returns
-- what it would alone, and nothing is lost between them.
use distributed_gpu_training.Base.{
  ℕ, ◌+◌, ◌%◌, ◌^◌, ◌<◌, ◌≡◌, refl, sym, ap, ◌∙◌, List, ◌++◌, append-nil, length, arith,
}
use distributed_gpu_training.Base.Family.{sum_to, sum_to-zero, by_author, entries}
use distributed_gpu_training.Event.{Event}
use distributed_gpu_training.Transport.{EventMessage}
use distributed_gpu_training.Transport.Server.{
  Server, StreamEnd, Outcome, ending, accepted, handle_all, stream_events, stream_events-served,
}
use distributed_gpu_training.Transport.Streams.{Serving, returned, Hub, Rounds, accept}
use distributed_gpu_training.Transport.Streams.Apart.{pending, uncounted, IsOwn, Rounds-IsApart}

module _ {F H : Type 0} (ingest : H → Event F → H) where
  -- What holds of the server and of its calls. Each call has ingested a first part of its accepted
  -- messages, in order; one that has returned has ingested them all, and returns what it returns
  -- alone. The handler has got the log, and when all calls have returned, `received` has grown by
  -- the number of all accepted messages, modulo 2^64.
  pub record IsServed (n : ℕ) (ends : ℕ → StreamEnd) (server : Server H)
      (sent : ℕ → List (EventMessage F)) (s : Hub F H) : Type 0 where
    pub in_order : (i : ℕ) → by_author i s.log ++ accepted (pending (s.calls i)) ≡ accepted (sent i)
    pub handled : s.server.handler ≡ handle_all ingest server.handler (entries s.log)
    pub as_alone :
        (i : ℕ) (o : Outcome)
        → s.calls i ≡ returned o
        → (o ≡ (stream_events ingest server (sent i) (ends i)).1)
          × (by_author i s.log ≡ accepted (sent i))
    pub added :
        ((i : ℕ) → i < n → (o : Outcome) × (s.calls i ≡ returned o))
        → s.server.received
          ≡ (server.received + sum_to (λ ms. length (accepted ms)) n sent) % 2 ^ 64

  all_returned :
      (n : ℕ) (w : Serving F → ℕ) (f : ℕ → Serving F)
      → ((o : Outcome) → w (returned o) ≡ 0)
      → ((i : ℕ) → i < n → (o : Outcome) × (f i ≡ returned o))
      → sum_to w n f ≡ 0
  all_returned n w f none_left all =
      sum_to-zero w n f (λ i lt. let (o, q) = all i lt in ap w q ∙ none_left o)

  -- Any number of agents that stream at the same time, in every order of the rounds: the handler has
  -- got the accepted messages of each stream in their order, each once, mixed in some way; a call
  -- that has returned has had all of its own ingested, and returns the acknowledgement, or the error,
  -- that it would return if it were alone; and when all have returned, `Received` has grown by the
  -- number of the accepted messages of all streams, modulo 2^64.
  pub Rounds-IsServed :
      {n : ℕ} {ends : ℕ → StreamEnd} {server : Server H} {sent : ℕ → List (EventMessage F)}
      {s : Hub F H}
      → server.received < 2 ^ 64
      → Rounds ingest n ends (accept server sent) s
      → IsServed n ends server sent s
  Rounds-IsServed {n} {ends} {server} {sent} {s} small run =
      let h = Rounds-IsApart ingest small run in
      record {
        in_order = λ i. (h.own i).0;
        handled = h.handled;
        as_alone = λ i o q.
            let (logged, count) : IsOwn (ends i) (by_author i s.log) (sent i) (returned o) =
              rw q at (h.own i) in
            let mine : by_author i s.log ≡ accepted (sent i) = rw append-nil at logged in
            (
              count
                  ∙ ap (λ l. ending (length l % 2 ^ 64) (ends i)) mine
                  ∙ sym
                      (ap (λ r. r.1) (stream_events-served ingest server (sent i) (ends i) small)),
              mine,
            );
        added = λ all. omega (
          arith,
          h.counted,
          h.small,
          h.total,
          all_returned n uncounted s.calls (λ o. refl) all,
          all_returned n (λ f. length (accepted (pending f))) s.calls (λ o. refl) all,
        );
      }
