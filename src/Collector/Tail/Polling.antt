-- ===== src/Collector/Tail/Polling.antt =====
-- internal/collector/tail.go: `TailCollector`, with `NewTailCollector`, `Start` and `Stop`.
use distributed_gpu_training.Base.{
  ℕ, Bool, true, false, Option, none, some, List, [], ◌∷◌, ◌++◌, Bytes, if◌then◌else◌,
}
use distributed_gpu_training.Base.Int.{ℤ, pos, ltb_ℤ}
use distributed_gpu_training.Event.{Event}
use distributed_gpu_training.Trace.{Json}
use distributed_gpu_training.Collector.Tail.{TailState, Look, poll}

-- `TailCollector`: whether `Start` has set `stop`, whether `stopOnce` is used up, and whether the
-- context that `Start` derives has been cancelled by `Stop`, stand for its channels.
pub record TailCollector : Type 0 where
  pub glob : Bytes
  pub interval : ℤ
  pub started : Bool
  pub stop_once : Bool
  pub stopped : Bool

unfoldable pub new_tail_collector : Bytes → ℤ → TailCollector
new_tail_collector glob interval = record {
  glob = glob;
  interval = if ltb_ℤ (pos 0) interval then interval else pos 100_000_000;
  started = false;
  stop_once = false;
  stopped = false;
}

-- One round of the loop: the files that match with what is seen of each, and how many sends succeed
-- before one finds the context done, `none` if all do.
pub record Round : Type 0 where
  pub seen : List (Bytes × Look)
  pub sends : Option ℕ

module _ {F : Type 0} (j : Json F) (trim : Bytes → Bytes) where
  -- What the goroutine sends, and the files it knows. After every round but the last the ticker is
  -- selected; after the last one the context is done.
  unfoldable pub run :
      List (Bytes × TailState) → List Round → List (Event F) × List (Bytes × TailState)
  unfolding poll
  run files [] = ([], files)
  run files (r ∷ rs) =
      let (events, files', going) = poll j trim r.sends files r.seen in
      let (rest, last) = run files' rs in if going then (events ++ rest, last) else (events, files')

  -- `none` if `filepath.Match` finds the pattern malformed, or else what is emitted in the background.
  unfoldable pub start :
      (Bytes → Bool) → TailCollector → List Round → Option (TailCollector × List (Event F))
  unfolding run
  start is_malformed c rounds =
      if is_malformed c.glob then none else some (record c { started = true }, (run [] rounds).0)

-- `Stop`: the first call cancels a collector that has started, and waits for it.
unfoldable pub stop : TailCollector → TailCollector
stop c = if c.stop_once then c else record c { stop_once = true; stopped = c.started }
