-- ===== src/Command/Agree.antt =====
-- cmd/gfr/main.go: `gfr replay` on a trace file, against `gfr agent`, `gfr coordinator` and
-- `gfr report` on the events of the same trace.
use distributed_gpu_training.Base.{
  ℕ, suc, ◌-◌, ◌≤◌, ◌≡◌, refl, sym, ap, ap₂, ◌∙◌, Bytes, Option, none, some, false, List, [], ◌∷◌,
  map, length, drop, All, arith,
}
use distributed_gpu_training.Base.Int.{pos}
use distributed_gpu_training.Float.{Float64}
use distributed_gpu_training.Event.{Event}
use distributed_gpu_training.Trace.{Json}
use distributed_gpu_training.Trace.File.{Marshal, write}
use distributed_gpu_training.Trace.File.Fidelity.Texts.{IsWritable}
use distributed_gpu_training.Trace.File.Fidelity.{read-write}
use distributed_gpu_training.Attribution.Engine.{Attribution}
use distributed_gpu_training.Attribution.Summary.{summary, summarize}
use distributed_gpu_training.Transport.RoundTrip.{FitsWire}
use distributed_gpu_training.Transport.Server.{eof, stream_events}
use distributed_gpu_training.Transport.Client.{pump, deliver}
use distributed_gpu_training.Transport.Report.{AnomalyDetail, anomaly_detail, details, get_report}
use distributed_gpu_training.Coordinator.{Options, Report, Live, ingest, report, analyze}
use distributed_gpu_training.Coordinator.Window.{newest, capacity_of}
use distributed_gpu_training.Coordinator.Stream.{live_server, report-stream_events}
use distributed_gpu_training.Coordinator.Chained.{HasLink, analyze-HasLink}
use distributed_gpu_training.Command.Setup.{five_seconds, replay_options, coordinator_options}
use distributed_gpu_training.Command.Output.{
  printed, indented, report_header, summary_lines, replay_header, replay_result, replay_output,
  report_output,
}

length-map : {A B : Type 0} (f : A → B) (xs : List A) → length (map f xs) ≡ length xs
length-map f [] = refl
length-map f (x ∷ xs) = ap suc (length-map f xs)

module _ {F : Type 0} where
  newest-all : (es : List (Event F)) → length es ≤ 2_000_000 → newest (capacity_of (pos 0)) es ≡ es
  newest-all es small = ap (λ k. drop k es) (let e : length es - 2_000_000 ≡ 0 = omega arith in e)

module _ {F : Type 0} ⦃d : Float64 F⦄ where
  same_defaults :
      (es : List (Event F)) (threshold : F)
      → (analyze es (coordinator_options threshold)).attributions
        ≡ (analyze es (replay_options threshold five_seconds)).attributions
  unfolding analyze
  same_defaults es threshold = refl

module _ {F : Type 0} ⦃d : Float64 F⦄ (fixed : ℕ → F → Bytes) where
  -- The lines of a list of attributions, and its messages, which show the same lines.
  record IsShown (as' : List (Attribution F)) : Type 0 where
    lines : List Bytes
    messages : List (AnomalyDetail F)
    summarised : summary_lines fixed as' ≡ some lines
    detailed : details fixed as' ≡ some messages
    alike : map (λ m. indented m.attribution_summary) messages ≡ lines
    as_many : length messages ≡ length as'

  summary-HasLink : (a : Attribution F) → HasLink a → (text : Bytes) × (summary fixed a ≡ some text)
  unfolding summary
  summary-HasLink a (l, ls, q) = (summarize fixed a.anomaly l ls, rw q refl)

  All-IsShown : (as' : List (Attribution F)) → All HasLink as' → IsShown as'
  unfolding summary_lines details
  All-IsShown [] h = record {
    lines = [];
    messages = [];
    summarised = refl;
    detailed = refl;
    alike = refl;
    as_many = refl;
  }
  All-IsShown (a ∷ as') h =
      let (text, q) = summary-HasLink a h.0 in
      let rest = All-IsShown as' h.1 in
      record {
        lines = indented text ∷ rest.lines;
        messages = anomaly_detail fixed a text ∷ rest.messages;
        summarised = rw (q, rest.summarised) refl;
        detailed = rw (q, rest.detailed) refl;
        alike = ap (◌∷◌ (indented text)) rest.alike;
        as_many = ap suc rest.as_many;
      }

  -- A replay prints its header and the lines of its analysis.
  replay_output-lines :
      (j : Json F) (w : Marshal F) (encode_error : Report F → Option Bytes) (es : List (Event F))
      (o : Options F)
      → All (IsWritable j w) es
      → (x : IsShown (analyze es o).attributions)
      → replay_output fixed j encode_error o false
          (some (record { content = (write w none es).text; broken = false }))
        ≡ some (printed (replay_header fixed (analyze es o) ∷ x.lines))
  unfolding replay_output replay_result
  replay_output-lines j w encode_error es o h x =
      rw ((read-write j w 0 0 es h).0, replay_output, x.summarised)

  -- An agent that streams a trace to a coordinator, followed by `gfr report`, and `gfr replay` on the
  -- same trace print the same lines, one for each anomaly, behind a header of their own, if both
  -- analyses visit their maps in the same order: Go leaves that order open, and with it the order of
  -- anomalies with equal deviations. The two commands have the same threshold, and the replay has
  -- the window that is its default. The trace was written by `Write`, its process counts fit an
  -- int32, it has at most the 2,000,000 events that the coordinator keeps, and the stream does not
  -- break.
  pub report_output-replay_output :
      (j : Json F) (w : Marshal F) (encode_error : Report F → Option Bytes) (threshold : F)
      (es : List (Event F)) (n : ℕ)
      → All (IsWritable j w) es
      → All FitsWire es
      → length es ≤ 2_000_000
      → let o = replay_options threshold five_seconds in
        (lines : List Bytes) × (replay_output fixed j encode_error o false
            (some (record { content = (write w none es).text; broken = false }))
          ≡ some (printed (replay_header fixed (analyze es o) ∷ lines)))
        × ((l : Live F) × (messages : List (AnomalyDetail F)) × ((stream_events ingest
                (live_server (coordinator_options threshold) (pos 0))
                (pump (deliver es n)).0
                eof).0.handler
              ≡ some l)
            × (get_report fixed (some (report l)) ≡ some messages)
            × (report_output messages ≡ report_header (length lines) ∷ lines))
  unfolding get_report report_output
  report_output-replay_output j w encode_error threshold es n writable fits small =
      let o = replay_options threshold five_seconds in
      let x = All-IsShown (analyze es o).attributions (analyze-HasLink es o) in
      let (l, held, said) =
        report-stream_events (coordinator_options threshold) (pos 0) es n fits in
      let same : report l ≡ (analyze es o).attributions =
        said
        ∙ ap (λ k. (analyze k (coordinator_options threshold)).attributions) (newest-all es small)
        ∙ same_defaults es threshold in
      (
        x.lines,
        replay_output-lines j w encode_error es o writable x,
        (
          l,
          x.messages,
          held,
          ap (details fixed) same ∙ x.detailed,
          ap₂ (λ k ls. report_header k ∷ ls) (sym (length-map _ x.messages) ∙ ap length x.alike)
              x.alike,
        ),
      )
