-- ===== src/System.antt =====
-- The whole system: agents (internal/agent/agent.go), each with its collectors and its client, that
-- stream to one coordinator (internal/transport/grpc.go, internal/coordinator/coordinator.go).
use mathlib.Core.List.{Perm}
use mathlib.Core.List.Perm
use mathlib.Core.Path.{subst}
use distributed_gpu_training.Base.{
  ℕ, ◌<◌, ◌≡◌, refl, sym, ap, ◌∙◌, true, false, some, List, [], map, All, append-nil, arith,
}
use distributed_gpu_training.Base.Int.{ℤ}
use distributed_gpu_training.Base.Family.{by_author, entries}
use distributed_gpu_training.Base.Merge.{
  concat_to, concat_to-same, concat_to-perm, entries-concat_to, All-entries,
}
use distributed_gpu_training.Float.{Float64}
use distributed_gpu_training.Event.{Event}
use distributed_gpu_training.Buffer.{RingBuffer}
use distributed_gpu_training.Agent.Flow.{Flow, Moves, launch, is_ended}
use distributed_gpu_training.Agent.Flow.Fair.{Moves-authors}
use distributed_gpu_training.Agent.Flow.Whole.{Moves-IsRun}
use distributed_gpu_training.Transport.{to_proto}
use distributed_gpu_training.Transport.RoundTrip.{FitsWire}
use distributed_gpu_training.Transport.Server.{StreamEnd, Outcome, accepted-to_proto, handle_all}
use distributed_gpu_training.Transport.Streams.{returned, Hub, Rounds, accept}
use distributed_gpu_training.Transport.Streams.Apart.{Rounds-authors}
use distributed_gpu_training.Transport.Streams.Served.{Rounds-IsServed}
use distributed_gpu_training.Coordinator.{Options, Live, new_live, ingest, report, analyze}
use distributed_gpu_training.Coordinator.Window.{
  capacity_of, newest, ingest_all-newest, ingest_all-opts,
}
use distributed_gpu_training.Coordinator.Window
use distributed_gpu_training.Coordinator.Stream.{live_server, ingest_all-same, report_of}

module _ {F : Type 0} where
  -- An agent that has run to its end on the events of its collectors, with a live context and a
  -- client that has taken all from the channel.
  pub record IsSpent (n : ℕ) (streams : ℕ → List (Event F)) (s : Flow (Event F)) : Type 0 where
    pub buffer : RingBuffer (Event F)
    pub run : Moves n true (launch buffer streams) s
    pub ended : is_ended s.loop.phase ≡ true
    pub live : s.loop.cancelled ≡ false
    pub drained : s.loop.out ≡ []
    pub fits : (i : ℕ) → i < n → All FitsWire (streams i)

  IsSpent-taken :
      {n : ℕ} {streams : ℕ → List (Event F)} {s : Flow (Event F)}
      → IsSpent n streams s
      → s.loop.taken ≡ entries s.log
  IsSpent-taken {s = s} h =
      let (_, _, taken) = (Moves-IsRun h.run).complete h.ended h.live in
      rw (h.drained, append-nil) at (taken refl)

  IsSpent-perm :
      {n : ℕ} {streams : ℕ → List (Event F)} {s : Flow (Event F)}
      → IsSpent n streams s
      → Perm s.loop.taken (concat_to n streams)
  IsSpent-perm {n} {streams} {s} h =
      let (mine, _, _) = (Moves-IsRun h.run).complete h.ended h.live in
      rw (IsSpent-taken h) (
        subst (Perm (entries s.log)) (concat_to-same n _ streams mine)
          (entries-concat_to n s.log (Moves-authors h.run)))

  IsSpent-fits :
      {n : ℕ} {streams : ℕ → List (Event F)} {s : Flow (Event F)}
      → IsSpent n streams s
      → All FitsWire s.loop.taken
  IsSpent-fits {n} {streams} {s} h =
      let (mine, _, _) = (Moves-IsRun h.run).complete h.ended h.live in
      rw (IsSpent-taken h)
        (All-entries FitsWire n s.log (Moves-authors h.run) (λ i lt. rw (mine i lt) (h.fits i lt)))

module _ {F : Type 0} ⦃d : Float64 F⦄ where
  handled_live :
      (o : Options F) (m : ℤ) (es : List (Event F))
      → (l : Live F) × (handle_all ingest (live_server o m).handler es ≡ some l)
        × (report l ≡ (analyze (newest (capacity_of m) es) o).attributions)
  handled_live o m es =
      let l = Window.ingest_all (new_live o m) es in
      let (held, _) = ingest_all-newest o m es in
      (
        l,
        ap some (ingest_all-same (new_live o m) es),
        report_of l o (newest (capacity_of m) es) held (ingest_all-opts o m es),
      )

  -- Any number of agents, each with any number of collectors, have run to their ends with a live
  -- context, on events whose process counts fit an int32, and their clients have taken all from
  -- their channels. They stream to a fresh coordinator at the same time, over streams that do not
  -- break, and all calls have returned.
  -- In whatever order all this happened, the coordinator has ingested every event of every collector
  -- exactly as often as it was emitted, and its report is the analysis of the newest `maxEvents` of
  -- them in the order in which it has ingested them.
  pub report-Rounds :
      (o : Options F) (m : ℤ) (k : ℕ) (n : ℕ → ℕ) (streams : ℕ → ℕ → List (Event F))
      (agents : ℕ → Flow (Event F)) (ends : ℕ → StreamEnd) (hub : Hub F (Live F))
      → ((i : ℕ) → i < k → IsSpent (n i) (streams i) (agents i))
      → Rounds ingest k ends
          (accept (live_server o m) (λ i. map to_proto (agents i).loop.taken))
          hub
      → ((i : ℕ) → i < k → (x : Outcome) × (hub.calls i ≡ returned x))
      → Perm (entries hub.log) (concat_to k (λ i. concat_to (n i) (streams i)))
        × ((l : Live F) × (hub.server.handler ≡ some l)
            × (report l ≡ (analyze (newest (capacity_of m) (entries hub.log)) o).attributions))
  report-Rounds o m k n streams agents ends hub spent run all =
      let served = Rounds-IsServed ingest (omega arith) run in
      let own : (i : ℕ) → i < k → by_author i hub.log ≡ (agents i).loop.taken = λ i lt.
        let (x, q) = all i lt in
        (served.as_alone i x q).1
        ∙ accepted-to_proto (agents i).loop.taken (IsSpent-fits (spent i lt)) in
      let (l, handled, said) = handled_live o m (entries hub.log) in
      (
        Perm.trans (entries-concat_to k hub.log (Rounds-authors ingest run)) (
            concat_to-perm k _ _ (λ i lt.
              subst (λ x. Perm x (concat_to (n i) (streams i))) (sym (own i lt))
                (IsSpent-perm (spent i lt)))),
        (l, served.handled ∙ handled, said),
      )
