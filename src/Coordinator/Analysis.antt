-- ===== src/Coordinator/Analysis.antt =====
-- internal/coordinator/coordinator.go: what the report of `Analyze` rests on.
use mathlib.Core.List.{Perm}
use distributed_gpu_training.Base.{
  ℕ, ◌<◌, ◌≡◌, refl, ap₂, ◌∙◌, Bool, true, false, ◌&&◌, ◌||◌, inl, inr, List, [], ◌∷◌, map, arith,
  ltb, ◌==◌, Bool-cases, length, keep, All,
}
use distributed_gpu_training.Base.Int.{pos}
use distributed_gpu_training.Base.Assoc.{nat-IsEquality, insert, IsMap, insert-IsMap}
use distributed_gpu_training.Base.Sort.{
  sort_by, insert_by, IsSorted, IsWeakOrder, sort_by-IsSorted, All-sort_by, All-insert_by,
}
use distributed_gpu_training.Float.{Float64}
use distributed_gpu_training.Event.{Event, rank}
use distributed_gpu_training.Correlator.Store.{
  Correlator, new_correlator, events_for_rank, not_before,
}
use distributed_gpu_training.Correlator.Store.Lookup.{IsTimed}
use distributed_gpu_training.Correlator.Store.History.{
  ingest_all, has_rank, events_for_rank-ingest_all,
}
use distributed_gpu_training.Correlator.Detect.{Anomaly, detect_anomalies}
use distributed_gpu_training.Correlator.Detect.Report.{
  IsReport, scored, flags_of, detect_anomalies-IsReport,
}
use distributed_gpu_training.Attribution.Engine.{Engine, Attribution, attribute}
use distributed_gpu_training.Coordinator.{
  Options, seen_from, ranks_of, with_defaults, replay_config, whole_trace, explain_all, analyze,
}

abbrev pub has : ℕ → List ℕ → Bool
has r [] = false
has r (x ∷ xs) = x == r || has r xs

has-insert_by : (r x : ℕ) (l : List ℕ) → has r (insert_by ltb x l) ≡ (x == r || has r l)
has-insert_by r x [] = refl
has-insert_by r x (y ∷ ys) = elim (Bool-cases (ltb y x)) [
  | inl t ↦ rw t (ground (arith, has-insert_by r x ys))
  | inr t ↦ rw t
]

has-sort_by : (r : ℕ) (l : List ℕ) → has r (sort_by ltb l) ≡ has r l
has-sort_by r [] = refl
has-sort_by r (x ∷ xs) = rw (has-insert_by r x (sort_by ltb xs), has-sort_by r xs)

abbrev keys : List (ℕ × Bool) → List ℕ
keys = map (λ e. e.0)

has-insert :
    (r k : ℕ) (m : List (ℕ × Bool))
    → has r (keys (insert ◌==◌ k true m)) ≡ (k == r || has r (keys m))
has-insert r k [] = refl
has-insert r k ((j, w) ∷ m) = elim (Bool-cases (j == k)) [
  | inl t ↦ rw t (ground arith)
  | inr t ↦ rw t (ground (arith, has-insert r k m))
]

-- No element twice.
abbrev IsDistinct : List ℕ → Type 0
IsDistinct [] = Unit
IsDistinct (x ∷ xs) = All (λ y. (y == x) ≡ false) xs × IsDistinct xs

-- Strictly ascending.
abbrev pub IsAscending : List ℕ → Type 0
IsAscending [] = Unit
IsAscending (x ∷ xs) = All (λ y. x < y) xs × IsAscending xs

insert_by-IsDistinct :
    (x : ℕ) (l : List ℕ)
    → All (λ y. (y == x) ≡ false) l
    → IsDistinct l
    → IsDistinct (insert_by ltb x l)
insert_by-IsDistinct x [] h t = (tt, tt)
insert_by-IsDistinct x (y ∷ ys) h t = elim (Bool-cases (ltb y x)) [
  | inl e ↦ rw e (
    All-insert_by ltb (λ z. (z == y) ≡ false) x ys (ground (arith, h.0)) t.0,
    insert_by-IsDistinct x ys h.1 t.1,
  )
  | inr e ↦ rw e (h, t)
]

sort_by-IsDistinct : (l : List ℕ) → IsDistinct l → IsDistinct (sort_by ltb l)
sort_by-IsDistinct [] h = tt
sort_by-IsDistinct (x ∷ xs) h =
    insert_by-IsDistinct x (sort_by ltb xs) (All-sort_by ltb (λ y. (y == x) ≡ false) xs h.0)
      (sort_by-IsDistinct xs h.1)

above_strictly :
    (x : ℕ) (l : List ℕ)
    → All (λ y. ltb y x ≡ false) l
    → All (λ y. (y == x) ≡ false) l
    → All (λ y. x < y) l
above_strictly x [] h t = tt
above_strictly x (y ∷ ys) h t =
    (let a = h.0 in let b = t.0 in ground arith, above_strictly x ys h.1 t.1)

sorted-IsAscending : (l : List ℕ) → IsSorted ltb l → IsDistinct l → IsAscending l
sorted-IsAscending [] s t = tt
sorted-IsAscending (x ∷ xs) s t = (above_strictly x xs s.0 t.0, sorted-IsAscending xs s.1 t.1)

abbrev Any : ℕ → Type 0
Any n = Unit

All-Any : (l : List ℕ) → All Any l
All-Any [] = tt
All-Any (x ∷ xs) = (tt, All-Any xs)

ltb-IsWeakOrder : IsWeakOrder Any ltb
ltb-IsWeakOrder = record {
  asym = λ x y p q h. ground arith;
  neg_trans = λ x y z p q r h k. ground arith;
}

fresh_keys :
    (k : ℕ) (m : List (ℕ × Bool))
    → All (λ e. (e.0 == k) ≡ false) m
    → All (λ y. (y == k) ≡ false) (keys m)
fresh_keys k [] h = tt
fresh_keys k (e ∷ m) h = (h.0, fresh_keys k m h.1)

keys-IsDistinct : (m : List (ℕ × Bool)) → IsMap ◌==◌ m → IsDistinct (keys m)
keys-IsDistinct [] h = tt
keys-IsDistinct (e ∷ m) h = (fresh_keys e.0 m h.0, keys-IsDistinct m h.1)

module _ {F : Type 0} where
  has-seen_from :
      (r : ℕ) (seen : List (ℕ × Bool)) (es : List (Event F))
      → has r (keys (seen_from seen es)) ≡ (has r (keys seen) || has r (map rank es))
  has-seen_from r seen [] = ground arith
  has-seen_from r seen (e ∷ es) =
      has-seen_from r (insert ◌==◌ (rank e) true seen) es
      ∙ rw (has-insert r (rank e) seen) (ground arith)

  seen_from-IsMap :
      (seen : List (ℕ × Bool)) (es : List (Event F))
      → IsMap ◌==◌ seen
      → IsMap ◌==◌ (seen_from seen es)
  seen_from-IsMap seen [] h = h
  seen_from-IsMap seen (e ∷ es) h =
      seen_from-IsMap (insert ◌==◌ (rank e) true seen) es
        (insert-IsMap ◌==◌ nat-IsEquality (rank e) true seen h)

  -- The events of the rank that happened at time zero or later, as often as they stand in the
  -- trace.
  abbrev pub own_events : ℕ → List (Event F) → List (Event F)
  own_events r = keep (λ e. has_rank r e && not_before (pos 0) e)

module _ {F : Type 0} ⦃d : Float64 F⦄ where
  -- `Analyze` lists every rank that has an event, and no other, once and in ascending order, and
  -- counts the events.
  pub analyze_ranks :
      (es : List (Event F)) (o : Options F)
      → IsAscending (analyze es o).ranks
        × ((r : ℕ) → has r (analyze es o).ranks ≡ has r (map rank es))
        × ((analyze es o).events ≡ length es)
  unfolding analyze
  analyze_ranks es o =
      let seen : List (ℕ × Bool) = seen_from [] es in
      (
        sorted-IsAscending (ranks_of es)
            (sort_by-IsSorted ltb-IsWeakOrder (keys seen) (All-Any (keys seen)))
            (sort_by-IsDistinct (keys seen) (keys-IsDistinct seen (seen_from-IsMap [] es tt))),
        λ r. has-sort_by r (keys seen) ∙ has-seen_from r [] es,
        refl,
      )

  -- The attribution is the engine's answer for its anomaly, on the straggler's own events.
  pub record IsExplained (eng : Engine) (es : List (Event F)) (x : Attribution F) : Type 0 where
    pub own : List (Event F)
    pub answer : x ≡ attribute eng x.anomaly own
    pub complete : Perm own (own_events x.anomaly.straggler_rank es)
    pub timed : IsTimed own

  attribute-anomaly :
      (eng : Engine) (a : Anomaly F) (own : List (Event F)) → (attribute eng a own).anomaly ≡ a
  unfolding attribute
  attribute-anomaly eng a own = refl

  -- The correlator that `Analyze` fills.
  abbrev pub filled : Options F → List (Event F) → Correlator F
  filled o es = ingest_all (new_correlator (replay_config (with_defaults o))) es

  abbrev pub engine_of : Options F → Engine
  engine_of o = record { attribution_window_ns = (with_defaults o).attribution_window }

  explain_all-IsExplained :
      (o : Options F) (es : List (Event F)) (anomalies : List (Anomaly F))
      → All (IsExplained (engine_of o) es) (explain_all (engine_of o) (filled o es) anomalies)
        × (map (λ x. x.anomaly) (explain_all (engine_of o) (filled o es) anomalies) ≡ anomalies)
  unfolding attribute
  explain_all-IsExplained o es [] = (tt, refl)
  explain_all-IsExplained o es (a ∷ anomalies) =
      let (rest, same) = explain_all-IsExplained o es anomalies in
      let own = events_for_rank (filled o es) a.straggler_rank (pos 0) in
      let (complete, timed) =
        events_for_rank-ingest_all (replay_config (with_defaults o)) es a.straggler_rank (pos 0)
          (omega arith) in
      let kept = attribute-anomaly (engine_of o) a own in
      (
        (record { own = own; answer = rw kept; complete = rw kept complete; timed = timed }, rest),
        ap₂ ◌∷◌ kept same,
      )

  -- `Analyze` reports exactly the anomalies that the correlator detects over the whole trace, in
  -- their order, and explains each by the engine's rules on the straggler's own events: all of them
  -- that are not before time zero, each as often as it stands in the trace, in time order. Each
  -- anomaly is one that `DetectAnomalies` may report.
  pub analyze-IsExplained :
      (es : List (Event F)) (o : Options F)
      → let c = filled o es in
        let found = (analyze es o).attributions in
        All (IsExplained (engine_of o) es) found
        × (map (λ x. x.anomaly) found ≡ detect_anomalies c whole_trace)
        × All
            (IsReport c.cfg (scored c whole_trace) (flags_of c whole_trace))
            (map (λ x. x.anomaly) found)
  unfolding analyze
  analyze-IsExplained es o =
      let c = filled o es in
      let (explained, same) = explain_all-IsExplained o es (detect_anomalies c whole_trace) in
      (explained, same, rw same (detect_anomalies-IsReport c whole_trace))
