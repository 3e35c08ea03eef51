-- ===== src/Coordinator/Stream.antt =====
-- The whole way of an event: an agent's client (internal/transport/grpc.go), the server, and the
-- live coordinator (internal/coordinator/coordinator.go) that is its handler.
use distributed_gpu_training.Base.{ℕ, ◌≡◌, refl, ap, ap₂, ◌∙◌, some, List, [], ◌∷◌, All, arith}
use distributed_gpu_training.Base.Int.{ℤ}
use distributed_gpu_training.Float.{Float64}
use distributed_gpu_training.Event.{Event}
use distributed_gpu_training.Transport.RoundTrip.{FitsWire}
use distributed_gpu_training.Transport.Server.{Server, eof, ack, stream_events, served}
use distributed_gpu_training.Transport.Client.{pump, deliver, stream_events-pump}
use distributed_gpu_training.Coordinator.{Options, Live, new_live, ingest, report, analyze}
use distributed_gpu_training.Coordinator.Window.{
  capacity_of, newest, ingest_all-newest, ingest_all-opts,
}
use distributed_gpu_training.Transport.Server
use distributed_gpu_training.Coordinator.Window

module _ {F : Type 0} where
  pub ingest_all-same :
      (l : Live F) (es : List (Event F)) → Server.ingest_all ingest l es ≡ Window.ingest_all l es
  unfolding Window.ingest_all
  ingest_all-same l [] = refl
  ingest_all-same l (e ∷ es) = ingest_all-same (ingest l e) es

  -- A server whose handler is a live coordinator.
  abbrev pub live_server : Options F → ℤ → Server (Live F)
  live_server o m = record { handler = some (new_live o m); received = 0 }

module _ {F : Type 0} ⦃d : Float64 F⦄ where
  pub report_of :
      (l : Live F) (o : Options F) (es : List (Event F))
      → l.events ≡ es
      → l.opts ≡ o
      → report l ≡ (analyze es o).attributions
  unfolding report
  report_of l o es p q = ap₂ (λ xs opts. (analyze xs opts).attributions) p q

  -- A report on what an agent has streamed to a fresh live coordinator, over a stream that does
  -- not break and with process counts that fit an `int32`, is the analysis of the newest
  -- `maxEvents` of the agent's events, in their order.
  pub report-stream_events :
      (o : Options F) (m : ℤ) (es : List (Event F)) (n : ℕ)
      → All FitsWire es
      → (l : Live F) × ((stream_events ingest
            (live_server o m)
            (pump (deliver es n)).0
            eof).0.handler
          ≡ some l)
        × (report l ≡ (analyze (newest (capacity_of m) es) o).attributions)
  report-stream_events o m es n fit =
      let (_, run) = stream_events-pump ingest (live_server o m) es n (omega arith) fit in
      let l = Window.ingest_all (new_live o m) es in
      let (held, _) = ingest_all-newest o m es in
      (
        l,
        ap (λ r. r.0.handler) run ∙ ap some (ingest_all-same (new_live o m) es),
        report_of l o (newest (capacity_of m) es) held (ingest_all-opts o m es),
      )
