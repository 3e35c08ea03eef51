-- ===== src/Collector/Replay.antt =====
-- internal/collector/replay.go: the collector that plays a trace, or some ranks of it.
pub mod Ranks
pub mod Partition
use distributed_gpu_training.Base.{
  ℕ, Bool, true, false, not, ◌&&◌, Option, none, some, List, [], ◌∷◌, ◌==◌, ltb, if◌then◌else◌,
  length,
}
use distributed_gpu_training.Base.Assoc.{lookup, insert}
use distributed_gpu_training.Event.{Event, rank}
use distributed_gpu_training.Trace.{Json}
use distributed_gpu_training.Trace.File.{Input, ReadError, read}
use distributed_gpu_training.Collector.Tail.{send}

-- `ReplayCollector`: its set of ranks, whether `Start` has set `stop`, whether `stopOnce` is used
-- up, and whether the context that `Start` derives has been cancelled by `Stop`.
pub record ReplayCollector : Type 0 where
  pub ranks : List (ℕ × Bool)
  pub started : Bool
  pub stop_once : Bool
  pub stopped : Bool

-- `rs[r] = true`, over the ranks.
abbrev pub rank_set : List (ℕ × Bool) → List ℕ → List (ℕ × Bool)
rank_set rs [] = rs
rank_set rs (r ∷ ranks) = rank_set (insert ◌==◌ r true rs) ranks

unfoldable pub new_replay_collector : List ℕ → ReplayCollector
new_replay_collector ranks = record {
  ranks = rank_set [] ranks;
  started = false;
  stop_once = false;
  stopped = false;
}

-- `rs[r]`, which is false on a missing key.
abbrev pub is_set : List (ℕ × Bool) → ℕ → Bool
is_set rs r = elim (lookup ◌==◌ r rs) [ none ↦ false | some b ↦ b ]

-- How `Start` ends: `os.Open` fails, or `Read` does, or the events are emitted in the background.
pub data Start (F : Type 0) : Type 0 where
  not_opened : Start F
  not_read : ReadError → Start F
  emitting : ReplayCollector → List (Event F) → Start F

module _ {F : Type 0} where
  -- `len(c.ranks) > 0 && !c.ranks[e.Rank()]`
  abbrev pub is_skipped : List (ℕ × Bool) → Event F → Bool
  is_skipped rs e = ltb 0 (length rs) && not (is_set rs (rank e))

  -- What the goroutine sends. `sends` is how many sends succeed before the context is cancelled,
  -- `none` if it never is.
  unfoldable pub play : List (ℕ × Bool) → Option ℕ → List (Event F) → List (Event F)
  play rs sends [] = []
  play rs sends (e ∷ es) =
      let skipped = play rs sends es in
      if is_skipped rs e
      then skipped
      else elim (send sends) [ none ↦ [] | some left ↦ e ∷ play rs left es ]

  -- `none` is a file that does not open.
  unfoldable pub start : Json F → Option ℕ → ReplayCollector → Option Input → Start F
  unfolding play
  start j sends c none = not_opened
  start j sends c (some file) =
      let r = read j file in
      elim r.error [
        | some err ↦ not_read err
        | none ↦ emitting (record c { started = true }) (play c.ranks sends r.events)
      ]

-- `Stop`: the first call cancels a collector that has started, and waits for it.
unfoldable pub stop : ReplayCollector → ReplayCollector
stop c = if c.stop_once then c else record c { stop_once = true; stopped = c.started }
