-- ===== src/Collector/Replay/Ranks.antt =====
-- internal/collector/replay.go: which events of a trace a collector emits, and what several of them
-- emit together.
use distributed_gpu_training.Base.{
  take, or_false, or_shift, ℕ, zero, suc, ◌≡◌, refl, ap, ap₂, ◌∙◌, Bool, true, false, not, ◌||◌,
  ◌&&◌, inl, inr, Option, none, some, List, [], ◌∷◌, ◌==◌, ltb, Bool-cases, Option-cases, length,
  keep, arith,
}
use distributed_gpu_training.Base.Assoc.{nat-IsEquality, insert, lookup-insert}
use distributed_gpu_training.Event.{Event, rank}
use distributed_gpu_training.Trace.{Json}
use distributed_gpu_training.Trace.File.{Input, read}
use distributed_gpu_training.Collector.Tail.{send}
use distributed_gpu_training.Collector.Replay.{
  rank_set, is_set, is_skipped, play, Start, not_opened, not_read, emitting, new_replay_collector,
  start,
}

-- Whether a number is among the numbers.
abbrev pub is_among : List ℕ → ℕ → Bool
is_among [] r = false
is_among (s ∷ ss) r = (s == r) || is_among ss r

is_set-insert :
    (s r : ℕ) (rs : List (ℕ × Bool)) → is_set (insert ◌==◌ s true rs) r ≡ ((s == r) || is_set rs r)
is_set-insert s r rs = elim (Bool-cases (s == r)) [
  | inl e ↦ rw (lookup-insert ◌==◌ nat-IsEquality s r true rs, is_set, e)
  | inr e ↦ rw (lookup-insert ◌==◌ nat-IsEquality s r true rs, is_set, e)
]

-- The map of the collector holds the ranks that it was given.
is_set-rank_set :
    (rs : List (ℕ × Bool)) (ranks : List ℕ) (r : ℕ)
    → is_set (rank_set rs ranks) r ≡ (is_set rs r || is_among ranks r)
is_set-rank_set rs [] r = or_false (is_set rs r)
is_set-rank_set rs (s ∷ ss) r =
    is_set-rank_set (insert ◌==◌ s true rs) ss r
    ∙ ap (λ b. b || is_among ss r) (is_set-insert s r rs)
    ∙ or_shift (s == r) (is_set rs r) (is_among ss r)

some_left : (s : ℕ) (rs : List (ℕ × Bool)) → ltb 0 (length (insert ◌==◌ s true rs)) ≡ true
some_left s [] = ground arith
some_left s ((k, v) ∷ rs) = elim (Bool-cases (k == s)) [
  | inl e ↦ rw e (ground arith)
  | inr e ↦ rw e (ground arith)
]

still_some :
    (rs : List (ℕ × Bool)) (ranks : List ℕ)
    → ltb 0 (length rs) ≡ true
    → ltb 0 (length (rank_set rs ranks)) ≡ true
still_some rs [] h = h
still_some rs (s ∷ ss) h = still_some (insert ◌==◌ s true rs) ss (some_left s rs)

-- The events that are emitted before a cancellation that lets so many through.
abbrev pub allowed : {F : Type 0} → Option ℕ → List (Event F) → List (Event F)
allowed none es = es
allowed (some n) es = take n es

module _ {F : Type 0} where
  -- The events of the ranks, or all events if no rank is given.
  abbrev pub is_wanted : List ℕ → Event F → Bool
  is_wanted [] e = true
  is_wanted (r ∷ ranks) e = is_among (r ∷ ranks) (rank e)

  is_skipped-rank_set :
      (ranks : List ℕ) (e : Event F) → is_skipped (rank_set [] ranks) e ≡ not (is_wanted ranks e)
  is_skipped-rank_set [] e = ground arith
  is_skipped-rank_set (r ∷ ranks) e =
      ap₂ ◌&&◌ (still_some (insert ◌==◌ r true []) ranks (some_left r []))
        (ap not (is_set-rank_set [] (r ∷ ranks) (rank e)))

  send-allowed :
      (e : Event F) (es xs : List (Event F)) (rs : List (ℕ × Bool)) (sends : Option ℕ)
      → ((left : Option ℕ) → play rs left es ≡ allowed left xs)
      → (elim (send sends) [ none ↦ [] | some left ↦ e ∷ play rs left es ]) ≡ allowed sends (e ∷ xs)
  send-allowed e es xs rs none same = ap (◌∷◌ e) (same none)
  send-allowed e es xs rs (some zero) same = refl
  send-allowed e es xs rs (some (suc n)) same = ap (◌∷◌ e) (same (some n))

  pub play-keep :
      (ranks : List ℕ) (sends : Option ℕ) (es : List (Event F))
      → play (rank_set [] ranks) sends es ≡ allowed sends (keep (is_wanted ranks) es)
  unfolding play
  play-keep ranks none [] = refl
  play-keep ranks (some zero) [] = refl
  play-keep ranks (some (suc n)) [] = refl
  play-keep ranks sends (e ∷ es) = elim (Bool-cases (is_wanted ranks e)) [
    | inl q ↦
        rw (is_skipped-rank_set ranks e, q)
          (send-allowed e es (keep (is_wanted ranks) es) (rank_set [] ranks) sends
            (λ left. play-keep ranks left es))
    | inr q ↦ rw (is_skipped-rank_set ranks e, q) (play-keep ranks sends es)
  ]

  -- What `Start` comes to.
  abbrev pub started : List ℕ → Option ℕ → List (Event F) → Start F
  started ranks sends es =
      emitting (record (new_replay_collector ranks) { started = true })
        (allowed sends (keep (is_wanted ranks) es))

  abbrev pub start_result : Json F → List ℕ → Option ℕ → Option Input → Start F
  start_result j ranks sends none = not_opened
  start_result j ranks sends (some file) = elim (read j file).error [
    | some err ↦ not_read err
    | none ↦ started ranks sends (read j file).events
  ]

  -- A collector that is new fails to start exactly if its file does not open or does not read as a
  -- trace, with the error of `Read`. Otherwise it emits exactly the events of the trace whose rank
  -- it was given, or all events if it was given no rank, in the order of the trace; if the context
  -- is cancelled after some sends, it has emitted that many of them, from the front.
  pub start-keep :
      (j : Json F) (ranks : List ℕ) (sends : Option ℕ) (file : Option Input)
      → start j sends (new_replay_collector ranks) file ≡ start_result j ranks sends file
  unfolding start new_replay_collector
  start-keep j ranks sends none = refl
  start-keep j ranks sends (some file) = elim (Option-cases (read j file).error) [
    | inl q ↦ rw (q, start, start_result, play-keep ranks sends (read j file).events)
    | inr (err, q) ↦ rw (q, start, start_result)
  ]
