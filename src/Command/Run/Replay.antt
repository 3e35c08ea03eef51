-- ===== src/Command/Run/Replay.antt =====
-- cmd/gfr/main.go: what `gfr replay` prints and returns, for every file and all flags.
use distributed_gpu_training.Base.{
  ℕ, ◌≡◌, refl, ap₂, true, false, Bool-cases, inl, inr, Bytes, Option, Option-cases, none, some,
  List, [], ◌∷◌, map, All,
}
use distributed_gpu_training.Float.{Float64}
use distributed_gpu_training.Trace.{Json}
use distributed_gpu_training.Trace.File.{Input, ReadError, read}
use distributed_gpu_training.Attribution.Engine.{Attribution}
use distributed_gpu_training.Attribution.Summary.{summary, summarize}
use distributed_gpu_training.Coordinator.{Report, analyze}
use distributed_gpu_training.Coordinator.Chained.{HasLink, analyze-HasLink}
use distributed_gpu_training.Command.Setup.{ReplayFlags, replay_options}
use distributed_gpu_training.Command.Output.{
  Replayed, not_opened, not_read, printed, as_json, not_encoded, indented, summary_lines,
  replay_header, replay_result, replay_output,
}
use distributed_gpu_training.Command.Run.{CommandError, opening, reading, encoding, replay_command}

module _ {F : Type 0} ⦃d : Float64 F⦄ (fixed : ℕ → F → Bytes) where
  -- The report of a replay.
  abbrev pub replayed : Json F → ReplayFlags F → Input → Report F
  replayed j flags f =
      analyze (read j f).events (replay_options flags.threshold_sigma flags.attribution_window)

  -- How a replay of a file ends, what it prints, and its error.
  pub data Ends (j : Json F) (encode_error : Report F → Option Bytes) (flags : ReplayFlags F)
      (path : Bytes) : Option Input → Replayed F → Option CommandError → Type 0 where
    unopened : Ends j encode_error flags path none not_opened (some opening)
    unread :
        {f : Input} {e : ReadError}
        → (read j f).error ≡ some e
        → Ends j encode_error flags path (some f) (not_read e) (some (reading path e))
    encoded :
        {f : Input}
        → (read j f).error ≡ none
        → flags.json ≡ true
        → encode_error (replayed j flags f) ≡ none
        → Ends j encode_error flags path (some f) (as_json (replayed j flags f)) none
    unencoded :
        {f : Input} {t : Bytes}
        → (read j f).error ≡ none
        → flags.json ≡ true
        → encode_error (replayed j flags f) ≡ some t
        → Ends j encode_error flags path (some f) (not_encoded t) (some (encoding t))
    shown :
        {f : Input} (texts : List Bytes)
        → (read j f).error ≡ none
        → flags.json ≡ false
        → map (summary fixed) (replayed j flags f).attributions ≡ map some texts
        → Ends j encode_error flags path
            (some f)
            (printed (replay_header fixed (replayed j flags f) ∷ map indented texts))
            none

  summary_lines-map :
      (as' : List (Attribution F))
      → All HasLink as'
      → (texts : List Bytes) × (map (summary fixed) as' ≡ map some texts)
        × (summary_lines fixed as' ≡ some (map indented texts))
  unfolding summary_lines summary
  summary_lines-map [] h = ([], refl, refl)
  summary_lines-map (a ∷ as') ((l, ls, q), h) =
      let (texts, p, r) = summary_lines-map as' h in
      (summarize fixed a.anomaly l ls ∷ texts, ap₂ (λ x y. x ∷ y) (rw q refl) p, rw (q, r) refl)

  -- `gfr replay` never panics. A file that does not open or read is an error, and nothing is
  -- printed. Otherwise it prints the report of the file's events: with `--json` as JSON, and it
  -- returns the error of the encoder if that has one; without as a header and the summary of each
  -- anomaly, in order, and there is no error.
  pub replay_command-Ends :
      (j : Json F) (encode_error : Report F → Option Bytes) (flags : ReplayFlags F) (path : Bytes)
      (file : Option Input)
      → (r : Replayed F) × (err : Option CommandError) × (replay_command fixed j encode_error flags
            path file
          ≡ some (r, err))
        × Ends j encode_error flags path file r err
  unfolding replay_command replay_output replay_result
  replay_command-Ends j encode_error flags path none = (not_opened, some opening, refl, unopened)
  replay_command-Ends j encode_error flags path (some f) = elim (Option-cases (read j f).error) [
    | inr (e, q) ↦ (not_read e, some (reading path e), rw q refl, unread q)
    | inl q ↦
        let rep = replayed j flags f in
        elim (Bool-cases flags.json) [
          | inl b ↦ elim (Option-cases (encode_error rep)) [
            | inl ok ↦ (as_json rep, none, rw (q, b, ok) refl, encoded q b ok)
            | inr (t, bad) ↦
                (not_encoded t, some (encoding t), rw (q, b, bad) refl, unencoded q b bad)
          ]
          | inr b ↦
              let (texts, p, s) = summary_lines-map rep.attributions (analyze-HasLink _ _) in
              (
                printed (replay_header fixed rep ∷ map indented texts),
                none,
                rw (q, b, s) refl,
                shown texts q b p,
              )
        ]
  ]
