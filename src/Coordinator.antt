-- ===== src/Coordinator.antt =====
-- internal/coordinator/coordinator.go: the analysis of a complete set of events, and the bounded
-- store of the live coordinator. The mutex makes each method of `Live` one step.
pub mod Analysis
pub mod Chained
pub mod Window
pub mod Stream
use distributed_gpu_training.Base.{
  ℕ, ◌+◌, ◌-◌, ◌^◌, Bool, true, Option, none, some, List, [], ◌∷◌, ◌++◌, map, ◌==◌, ltb,
  if◌then◌else◌, length, drop,
}
use distributed_gpu_training.Base.Int.{ℤ, pos, pos_part, leb_ℤ, eqb_ℤ}
use distributed_gpu_training.Base.Assoc.{insert}
use distributed_gpu_training.Base.Sort.{sort_by}
use distributed_gpu_training.Float.{Float64, zero_f}
use distributed_gpu_training.Event.{Event, rank}
use distributed_gpu_training.Correlator.Store.{
  Correlator, Config, default_config, new_correlator, ingest_event, events_for_rank,
}
use distributed_gpu_training.Correlator.Store.History.{ingest_all}
use distributed_gpu_training.Correlator.Detect.{Anomaly, detect_anomalies}
use distributed_gpu_training.Attribution.Engine.{Engine, Attribution, attribute}

pub record Options (F : Type 0) : Type 0 where
  pub threshold_sigma : F
  pub attribution_window : ℤ

pub record Report (F : Type 0) : Type 0 where
  pub events : ℕ
  pub ranks : List ℕ
  pub attributions : List (Attribution F)

module _ {F : Type 0} where
  -- `seen[e.Rank()] = true`, over the events.
  abbrev pub seen_from : List (ℕ × Bool) → List (Event F) → List (ℕ × Bool)
  seen_from seen [] = seen
  seen_from seen (e ∷ es) = seen_from (insert ◌==◌ (rank e) true seen) es

  abbrev pub ranks_of : List (Event F) → List ℕ
  ranks_of es = sort_by ltb (map (λ e. e.0) (seen_from [] es))

-- `time.Duration(1<<62 - 1)`
abbrev pub whole_trace : ℤ
whole_trace = pos (2 ^ 62 - 1)

module _ {F : Type 0} ⦃d : Float64 F⦄ where
  -- The zero values pick the defaults.
  abbrev pub with_defaults : Options F → Options F
  with_defaults o = record {
    threshold_sigma = if d.eq o.threshold_sigma zero_f then d.lit 4 0 else o.threshold_sigma;
    attribution_window =
        if eqb_ℤ o.attribution_window (pos 0) then pos 5_000_000_000 else o.attribution_window;
  }

  -- The correlator of a replay, with the trimming off.
  abbrev pub replay_config : Options F → Config F
  replay_config o = record (default_config o.threshold_sigma) { lookback = pos 0 }

  -- The loop over the anomalies.
  abbrev pub explain_all : Engine → Correlator F → List (Anomaly F) → List (Attribution F)
  explain_all eng c [] = []
  explain_all eng c (a ∷ anomalies) =
      attribute eng a (events_for_rank c a.straggler_rank (pos 0)) ∷ explain_all eng c anomalies

  unfoldable pub analyze : List (Event F) → Options F → Report F
  analyze events options =
      let o = with_defaults options in
      let c = ingest_all (new_correlator (replay_config o)) events in
      let eng : Engine = record { attribution_window_ns = o.attribution_window } in
      record {
        events = length events;
        ranks = ranks_of events;
        attributions = explain_all eng c (detect_anomalies c whole_trace);
      }

pub record Live (F : Type 0) : Type 0 where
  pub opts : Options F
  pub max_events : ℕ
  pub events : List (Event F)

module _ {F : Type 0} where
  unfoldable pub new_live : Options F → ℤ → Live F
  new_live o max_events = record {
    opts = o;
    max_events = if leb_ℤ max_events (pos 0) then 2_000_000 else pos_part max_events;
    events = [];
  }

  unfoldable pub ingest : Live F → Event F → Live F
  ingest l e =
      let events = l.events ++ (e ∷ []) in
      record l {
        events =
            if ltb l.max_events (length events)
            then drop (length events - l.max_events) events
            else events;
      }

module _ {F : Type 0} ⦃d : Float64 F⦄ where
  unfoldable pub report : Live F → List (Attribution F)
  unfolding analyze
  report l = (analyze l.events l.opts).attributions
