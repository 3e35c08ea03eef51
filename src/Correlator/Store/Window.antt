-- ===== src/Correlator/Store/Window.antt =====
-- internal/correlator/correlator.go: the lookback window that `trimLocked` keeps.
use distributed_gpu_training.Base.{
  ℕ, ◌≡◌, refl, ◌⊎◌, inl, inr, Bool-cases, true, false, some, List, [], ◌∷◌, arith, keep, All,
  All-map_imp, All-both,
}
use distributed_gpu_training.Base.Int.{ℤ, pos, sub_64, leb_ℤ, ltb_ℤ, ◌≤ℤ◌, ◌<ℤ◌}
use distributed_gpu_training.Base.Cut.{All-keep, keep-All}
use distributed_gpu_training.Event.{Event, NcclCollective, timestamp_ns}
use distributed_gpu_training.Base.Pick.{IsIn}
use distributed_gpu_training.Correlator.Store.{
  Correlator, GroupKey, Group, newest_from, is_recent, trim_groups, not_before, trim_ranks,
  store_event, ingest_event,
}
use distributed_gpu_training.Correlator.Store.Lookup.{IsTimed, trim_events-keep}
use distributed_gpu_training.Correlator.Store.Invariant.{IsValid, NoNewer, store_event-IsValid}

-- A collective that is not older than the cutoff, unless that is at time zero or before.
abbrev pub IsRecent : ℤ → Group → Type 0
IsRecent cutoff g =
    (cutoff ≤ℤ pos 0) ⊎ ((e : ℕ × NcclCollective) × IsIn e g × (cutoff ≤ℤ e.1.base.timestamp))

newest_from-cases :
    (newest : ℤ) (g : Group)
    → (newest_from newest g ≡ newest)
      ⊎ ((e : ℕ × NcclCollective) × IsIn e g × (newest_from newest g ≡ e.1.base.timestamp))
newest_from-cases newest [] = inl refl
newest_from-cases newest ((r, e) ∷ g) = elim (Bool-cases (ltb_ℤ newest e.base.timestamp)) [
  | inl q ↦ elim (newest_from-cases e.base.timestamp g) [
    | inl same ↦ inr ((r, e), inl refl, rw (q, newest_from) same)
    | inr (x, i, same) ↦ inr (x, inr i, rw (q, newest_from) same)
  ]
  | inr q ↦ elim (newest_from-cases newest g) [
    | inl same ↦ inl (rw (q, newest_from) same)
    | inr (x, i, same) ↦ inr (x, inr i, rw (q, newest_from) same)
  ]
]

trim_groups-IsRecent :
    (cutoff : ℤ) (m : List (GroupKey × Group))
    → All (λ g. IsRecent cutoff g.1) (trim_groups cutoff m)
trim_groups-IsRecent cutoff m =
    All-map_imp (λ g. is_recent cutoff g ≡ true) (λ g. IsRecent cutoff g.1) (trim_groups cutoff m)
      (λ g k. elim (newest_from-cases (pos 0) g.1) [
        | inl q ↦ inl (
            let old : ltb_ℤ (newest_from (pos 0) g.1) cutoff ≡ false = ground arith in
            let zero_last : ltb_ℤ (pos 0) cutoff ≡ false = rw q at old in ground arith)
        | inr (e, i, q) ↦ inr (
          e,
          i,
          let old : ltb_ℤ (newest_from (pos 0) g.1) cutoff ≡ false = ground arith in
              let last : ltb_ℤ e.1.base.timestamp cutoff ≡ false = rw q at old in ground arith,
        )
      ])
      (keep-All (is_recent cutoff) m)

module _ {F : Type 0} where
  abbrev pub InWindow : ℤ → ℤ → Event F → Type 0
  InWindow lo hi y = (lo ≤ℤ timestamp_ns y) × (timestamp_ns y ≤ℤ hi)

  trim_ranks-window :
      (cutoff newest : ℤ) (m : List (ℕ × List (Event F)))
      → All (λ e. IsTimed e.1) m
      → All (λ e. NoNewer newest e.1) m
      → All (λ e. All (InWindow cutoff newest) e.1) (trim_ranks cutoff m)
  trim_ranks-window cutoff newest [] t h = tt
  trim_ranks-window cutoff newest ((r, evs) ∷ m) t h = (
    rw (trim_events-keep cutoff evs t.0) (
        All-both (λ y. cutoff ≤ℤ timestamp_ns y) (λ y. timestamp_ns y ≤ℤ newest)
          (keep (not_before cutoff) evs)
          (All-map_imp (λ y. not_before cutoff y ≡ true) (λ y. cutoff ≤ℤ timestamp_ns y)
            (keep (not_before cutoff) evs) (λ y k. ground arith) (keep-All (not_before cutoff) evs))
          (All-keep (λ y. timestamp_ns y ≤ℤ newest) (not_before cutoff) evs h.0)),
    trim_ranks-window cutoff newest m t.1 h.1,
  )

  -- With a positive lookback every event that a well-formed correlator retains for a rank after a
  -- call of `IngestEvent` for an event lies in the lookback window: between `newestNs - Lookback`,
  -- as `int64` subtraction gives it, and `newestNs`, whatever the order of arrival. A group of
  -- collectives that is retained has at least one that is not older than the window, unless the
  -- window reaches back to time zero.
  pub ingest_event-window :
      (c : Correlator F) (r : ℕ) (e : Event F)
      → IsValid c
      → pos 0 <ℤ c.cfg.lookback
      → let c' = ingest_event c r (some e) in
        let cutoff = sub_64 c'.newest_ns c.cfg.lookback in
        All (λ m. All (InWindow cutoff c'.newest_ns) m.1) c'.rank_events
        × All (λ g. IsRecent cutoff g.1) c'.groups
  unfolding ingest_event
  ingest_event-window c r e v h =
      let s = store_event c r e in
      let kept = store_event-IsValid c r e v in
      let on : leb_ℤ c.cfg.lookback (pos 0) ≡ false = ground arith in
      let cutoff = sub_64 s.newest_ns c.cfg.lookback in
      rw on (
        trim_ranks-window cutoff s.newest_ns s.rank_events kept.timed kept.no_newer,
        trim_groups-IsRecent cutoff s.groups,
      )
