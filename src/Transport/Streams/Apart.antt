-- ===== src/Transport/Streams/Apart.antt =====
-- Several calls of `Server.StreamEvents` (internal/transport/grpc.go) at the same time: what every
-- round keeps.
use mathlib.Core.Path.{subst}
use distributed_gpu_training.Base.{
  All, All-append, ℕ, ◌+◌, ◌%◌, ◌^◌, ◌<◌, ◌≡◌, refl, sym, ap, inl, inr, Bool-cases, Option, none,
  some, List, [], ◌∷◌, ◌++◌, append-nil, append_assoc, length, length-append, arith, ◌==◌, ==_iff,
}
use distributed_gpu_training.Base.Family.{
  replace-All, sum_to, sum_to-replace, sum_to-map, sum_to-zero, by_author, by_author-snoc, entries,
  entries-snoc,
}
use distributed_gpu_training.Event.{Event}
use distributed_gpu_training.Transport.{EventMessage, from_proto}
use distributed_gpu_training.Transport.Server.{
  Server, StreamEnd, handle, ending, accepted, handle_all, handle_all-nil,
}
use distributed_gpu_training.Transport.Streams.{
  Serving, at_recv, ingested, returned, Hub, Round, drop_message, ingest_event, count_event,
  return_from, Rounds, none_yet, one_more, accept,
}

module _ {F : Type 0} where
  -- The messages that a call has not received.
  abbrev pub pending : Serving F → List (EventMessage F)
  pending (at_recv ms k) = ms
  pending (ingested ms k) = ms
  pending (returned o) = []

  -- One for an event that is ingested and not counted.
  abbrev pub uncounted : Serving F → ℕ
  uncounted (at_recv ms k) = 0
  uncounted (ingested ms k) = 1
  uncounted (returned o) = 0

  -- The local count fits `l` ingested events.
  abbrev pub Counts : StreamEnd → Serving F → ℕ → Type 0
  Counts end (at_recv ms k) l = k ≡ l % 2 ^ 64
  Counts end (ingested ms k) l = (k + 1) % 2 ^ 64 ≡ l % 2 ^ 64
  Counts end (returned o) l = o ≡ ending (l % 2 ^ 64) end

  -- What holds of one call: its accepted messages are in the log, in order, but for the pending ones.
  abbrev pub IsOwn : StreamEnd → List (Event F) → List (EventMessage F) → Serving F → Type 0
  IsOwn end logged sent f =
      (logged ++ accepted (pending f) ≡ accepted sent) × Counts end f (length logged)

  accepted-none :
      (m : EventMessage F) (ms : List (EventMessage F))
      → from_proto m ≡ none
      → accepted (m ∷ ms) ≡ accepted ms
  accepted-none m ms q = rw (q, accepted) refl

  accepted-some :
      (m : EventMessage F) (ms : List (EventMessage F)) (e : Event F)
      → from_proto m ≡ some e
      → accepted (m ∷ ms) ≡ e ∷ accepted ms
  accepted-some m ms e q = rw (q, accepted) refl

  module _ {H : Type 0} (ingest : H → Event F → H) where
    handle_all-snoc :
        (o : Option H) (es : List (Event F)) (e : Event F)
        → handle ingest (handle_all ingest o es) e ≡ handle_all ingest o (es ++ e ∷ [])
    handle_all-snoc none es e = refl
    handle_all-snoc (some h) [] e = refl
    handle_all-snoc (some h) (x ∷ es) e = handle_all-snoc (some (ingest h x)) es e

    pub record IsApart (n : ℕ) (ends : ℕ → StreamEnd) (server : Server H)
        (sent : ℕ → List (EventMessage F)) (s : Hub F H) : Type 0 where
      pub own : (i : ℕ) → IsOwn (ends i) (by_author i s.log) (sent i) (s.calls i)
      pub handled : s.server.handler ≡ handle_all ingest server.handler (entries s.log)
      pub counted :
          (s.server.received + sum_to uncounted n s.calls) % 2 ^ 64
          ≡ (server.received + length (entries s.log)) % 2 ^ 64
      pub small : s.server.received < 2 ^ 64
      pub total :
          length (entries s.log) + sum_to (λ f. length (accepted (pending f))) n s.calls
          ≡ sum_to (λ ms. length (accepted ms)) n sent

    Round-IsApart :
        {n : ℕ} {ends : ℕ → StreamEnd} {server : Server H} {sent : ℕ → List (EventMessage F)}
        {s t : Hub F H}
        → Round ingest n ends s t
        → IsApart n ends server sent s
        → IsApart n ends server sent t
    Round-IsApart {n} {ends} {server} {sent} {s}
          (drop_message {i = i} {m = m} {ms = ms} {k = k} lt q none_of) h =
        let same = accepted-none m ms none_of in
        record {
          own =
              replace-All (λ j f. IsOwn (ends j) (by_author j s.log) (sent j) f) s.calls i
                (at_recv ms k) (rw (q, same) at (h.own i)) h.own;
          handled = h.handled;
          counted = omega (
            arith,
            h.counted,
            ap uncounted q,
            sum_to-replace uncounted n s.calls i (at_recv ms k) lt,
          );
          small = h.small;
          total = omega (
            arith,
            h.total,
            ap (λ f. length (accepted (pending f))) q,
            ap length same,
            sum_to-replace (λ f. length (accepted (pending f))) n s.calls i (at_recv ms k) lt,
          );
        }
    Round-IsApart {n} {ends} {server} {sent} {s}
          (ingest_event {i = i} {m = m} {ms = ms} {k = k} {e = e} lt q some_of) h =
        let same = accepted-some m ms e some_of in
        record {
          own = λ j. elim (Bool-cases (i == j)) [
            | inl t ↦
                let mine : s.calls j ≡ at_recv (m ∷ ms) k =
                  subst (λ x. s.calls x ≡ at_recv (m ∷ ms) k) ((==_iff i j).0 t) q in
                let (logged, count) : IsOwn (ends j) (by_author j s.log) (sent j)
                    (at_recv (m ∷ ms) k) =
                  rw mine at (h.own j) in
                rw (by_author-snoc j i e s.log, t, append_assoc)
                  (
                    rw same at logged,
                    omega (arith, count, length-append (by_author j s.log) (e ∷ [])),
                  )
            | inr t ↦ rw (by_author-snoc j i e s.log, t, append-nil) (h.own j)
          ];
          handled =
              rw (entries-snoc i e s.log, h.handled)
                (handle_all-snoc server.handler (entries s.log) e);
          counted = omega (
            arith,
            h.counted,
            ap uncounted q,
            length-append (entries s.log) (e ∷ []),
            ap length (entries-snoc i e s.log),
            sum_to-replace uncounted n s.calls i (ingested ms k) lt,
          );
          small = h.small;
          total = omega (
            arith,
            h.total,
            ap (λ f. length (accepted (pending f))) q,
            ap length same,
            length-append (entries s.log) (e ∷ []),
            ap length (entries-snoc i e s.log),
            sum_to-replace (λ f. length (accepted (pending f))) n s.calls i (ingested ms k) lt,
          );
        }
    Round-IsApart {n} {ends} {server} {sent} {s} (count_event {i = i} {ms = ms} {k = k} lt q) h =
        record {
          own =
              replace-All (λ j f. IsOwn (ends j) (by_author j s.log) (sent j) f) s.calls i
                (at_recv ms ((k + 1) % 2 ^ 64)) (rw q at (h.own i)) h.own;
          handled = h.handled;
          counted = omega (
            arith,
            h.counted,
            ap uncounted q,
            sum_to-replace uncounted n s.calls i (at_recv ms ((k + 1) % 2 ^ 64)) lt,
          );
          small = omega arith;
          total = omega (
            arith,
            h.total,
            ap (λ f. length (accepted (pending f))) q,
            sum_to-replace (λ f. length (accepted (pending f))) n s.calls i
                (at_recv ms ((k + 1) % 2 ^ 64)) lt,
          );
        }
    Round-IsApart {n} {ends} {server} {sent} {s} (return_from {i = i} {k = k} lt q) h =
        let (logged, count) : IsOwn (ends i) (by_author i s.log) (sent i) (at_recv [] k) =
          rw q at (h.own i) in
        record {
          own =
              replace-All (λ j f. IsOwn (ends j) (by_author j s.log) (sent j) f) s.calls i
                (returned (ending k (ends i))) (logged, ap (λ l. ending l (ends i)) count) h.own;
          handled = h.handled;
          counted = omega (
            arith,
            h.counted,
            ap uncounted q,
            sum_to-replace uncounted n s.calls i (returned (ending k (ends i))) lt,
          );
          small = h.small;
          total = omega (
            arith,
            h.total,
            ap (λ f. length (accepted (pending f))) q,
            sum_to-replace (λ f. length (accepted (pending f))) n s.calls i
                (returned (ending k (ends i))) lt,
          );
        }

    accept-IsApart :
        (n : ℕ) (ends : ℕ → StreamEnd) (server : Server H) (sent : ℕ → List (EventMessage F))
        → server.received < 2 ^ 64
        → IsApart n ends server sent (accept server sent)
    accept-IsApart n ends server sent small = record {
      own = λ i. (refl, omega arith);
      handled = sym (handle_all-nil ingest server.handler);
      counted = omega (arith, sum_to-zero uncounted n (accept server sent).calls (λ i lt. refl));
      small = small;
      total =
          omega
            (arith, sum_to-map (λ f. length (accepted (pending f))) (λ ms. at_recv ms 0) n sent);
    }

    pub Rounds-IsApart :
        {n : ℕ} {ends : ℕ → StreamEnd} {server : Server H} {sent : ℕ → List (EventMessage F)}
        {s : Hub F H}
        → server.received < 2 ^ 64
        → Rounds ingest n ends (accept server sent) s
        → IsApart n ends server sent s
    Rounds-IsApart {n} {ends} {server} {sent} small none_yet =
        accept-IsApart n ends server sent small
    Rounds-IsApart small (one_more run round) = Round-IsApart round (Rounds-IsApart small run)

    -- Every event in the log is of one of the calls.
    pub Rounds-authors :
        {n : ℕ} {ends : ℕ → StreamEnd} {server : Server H} {sent : ℕ → List (EventMessage F)}
        {s : Hub F H}
        → Rounds ingest n ends (accept server sent) s
        → All (λ e. e.0 < n) s.log
    Rounds-authors none_yet = tt
    Rounds-authors (one_more run (drop_message lt q none_of)) = Rounds-authors run
    Rounds-authors {n} (one_more {t} run (ingest_event {i = i} {e = e} lt q some_of)) =
        All-append (λ x. x.0 < n) t.log ((i, e) ∷ []) (Rounds-authors run) (lt, tt)
    Rounds-authors (one_more run (count_event lt q)) = Rounds-authors run
    Rounds-authors (one_more run (return_from lt q)) = Rounds-authors run
