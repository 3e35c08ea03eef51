-- ===== src/Command/Output.antt =====
-- cmd/gfr/main.go: what `gfr replay` and `gfr report` print.
use distributed_gpu_training.Base.{
  ℕ, Bool, Bytes, codes, Option, none, some, List, [], ◌∷◌, ◌++◌, map, length, if◌then◌else◌,
}
use distributed_gpu_training.Base.Decimal.{decimal}
use distributed_gpu_training.Float.{Float64}
use distributed_gpu_training.Buffer.{◌>>=◌}
use distributed_gpu_training.Trace.{Json}
use distributed_gpu_training.Trace.File.{Input, ReadError, ReadResult, read}
use distributed_gpu_training.Attribution.Engine.{Attribution}
use distributed_gpu_training.Attribution.Summary.{summary}
use distributed_gpu_training.Coordinator.{Options, Report, analyze}
use distributed_gpu_training.Transport.Report.{AnomalyDetail}

-- How `gfr replay` ends: the file does not open, or does not read; or it prints lines, or the report
-- as JSON, unless encoding or printing the JSON fails (a float that is NaN or infinite, a closed
-- pipe).
pub data Replayed (F : Type 0) : Type 0 where
  not_opened : Replayed F
  not_read : ReadError → Replayed F
  printed : List Bytes → Replayed F
  as_json : Report F → Replayed F
  not_encoded : Bytes → Replayed F

-- A line of an anomaly.
abbrev pub indented : Bytes → Bytes
indented s = codes "  " ++ s

abbrev pub report_header : ℕ → Bytes
report_header n = decimal n ++ codes " anomalies"

module _ {F : Type 0} ⦃d : Float64 F⦄ (fixed : ℕ → F → Bytes) where
  -- The loop that prints the summaries. `none` is the panic of `summarize`.
  unfoldable pub summary_lines : List (Attribution F) → Option (List Bytes)
  unfolding summary
  summary_lines [] = some []
  summary_lines (a ∷ as') =
      summary fixed a >>= λ s. summary_lines as' >>= λ rest. some (indented s ∷ rest)

  abbrev pub replay_header : Report F → Bytes
  replay_header rep =
      decimal rep.events
      ++ codes " events, "
      ++ decimal (length rep.ranks)
      ++ codes " ranks, "
      ++ decimal (length rep.attributions)
      ++ codes " anomalies"

  -- What follows `trace.Read`; `encode_error` is the error of `enc.Encode` for a report.
  unfoldable pub replay_result :
      (Report F → Option Bytes) → Options F → Bool → ReadResult F → Option (Replayed F)
  unfolding summary_lines
  replay_result encode_error options json r =
      let rep = analyze r.events options in
      elim r.error [
        | some err ↦ some (not_read err)
        | none ↦
            if json
            then some (elim (encode_error rep) [ none ↦ as_json rep | some t ↦ not_encoded t ])
            else (summary_lines rep.attributions >>= λ ls. some (printed (replay_header rep ∷ ls)))
      ]

  -- `none` as the file is one that does not open.
  unfoldable pub replay_output :
      Json F → (Report F → Option Bytes) → Options F → Bool → Option Input → Option (Replayed F)
  unfolding replay_result
  replay_output j encode_error options json none = some not_opened
  replay_output j encode_error options json (some file) =
      replay_result encode_error options json (read j file)

-- What `gfr report` prints of the coordinator's answer.
unfoldable pub report_output : {F : Type 0} → List (AnomalyDetail F) → List Bytes
report_output anomalies =
    report_header (length anomalies) ∷ map (λ a. indented a.attribution_summary) anomalies
