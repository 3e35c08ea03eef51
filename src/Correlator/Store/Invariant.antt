-- ===== src/Correlator/Store/Invariant.antt =====
-- internal/correlator/correlator.go: what every call of `IngestEvent` keeps true of the state.
use mathlib.Core.Path.{subst}
use distributed_gpu_training.Base.{
  ℕ, ◌≡◌, refl, Bool, true, false, not, inl, inr, Option, none, some, List, [], ◌∷◌, arith,
  if◌then◌else◌, Bool-cases, Option-cases, keep, All, All-map_imp, All-append, sym, ◌==◌,
  bytes_eq_sound, bytes_eq_refl,
}
use distributed_gpu_training.Base.Int.{ℤ, pos, sub_64, ltb_ℤ, leb_ℤ, ◌≤ℤ◌}
use distributed_gpu_training.Base.Assoc.{
  nat-IsEquality, lookup, insert, IsMap, IsFresh, IsEquality, All-insert, insert-IsMap,
}
use distributed_gpu_training.Base.Cut.{All-keep}
use distributed_gpu_training.Event.{Event, NcclCollective, timestamp_ns, gpu_metric, nccl}
use distributed_gpu_training.Correlator.Store.{
  Correlator, Config, GroupKey, Group, key_eq, or_empty, newer, not_before, insert_event,
  insert_group, trim_ranks, trim_locked, store_event, ingest_event, new_correlator, is_recent,
}
use distributed_gpu_training.Correlator.Store.Lookup.{
  IsTimed, keep-IsTimed, trim_events-keep, insert_event-keep, insert_event-IsTimed,
}

key_eq_sound : (a b : GroupKey) → key_eq a b ≡ true → a ≡ b
key_eq_sound a b h = ground (arith, bytes_eq_sound a.0 b.0)

pub key-IsEquality : IsEquality key_eq
key-IsEquality = record { sound = key_eq_sound; self = λ a. ground (arith, bytes_eq_refl a.0) }

module _ {K V : Type 0} (eq : K → K → Bool) where
  pub lookup-All :
      (P : V → Type 0) (k : K) (m : List (K × V)) (v : V)
      → All (λ e. P e.1) m
      → lookup eq k m ≡ some v
      → P v
  lookup-All P k [] v h q = cc
  lookup-All P k ((j, w) ∷ m) v h q = elim (Bool-cases (eq j k)) [
    | inl e ↦ let found : some w ≡ some v = rw e at q in let same : w ≡ v = cc in subst P same h.0
    | inr e ↦ lookup-All P k m v h.1 (rw e at q)
  ]

  pub lookup-All_key :
      (laws : IsEquality eq) (P : K × V → Type 0) (k : K) (m : List (K × V)) (v : V)
      → All P m
      → lookup eq k m ≡ some v
      → P (k, v)
  lookup-All_key laws P k [] v h q = cc
  lookup-All_key laws P k ((j, w) ∷ m) v h q = elim (Bool-cases (eq j k)) [
    | inl e ↦
        let found : some w ≡ some v = rw e at q in
        let same : w ≡ v = cc in
        subst (λ x. P (k, x)) same (subst (λ i. P (i, w)) (laws.sound j k e) h.0)
    | inr e ↦ lookup-All_key laws P k m v h.1 (rw e at q)
  ]

  pub keep-IsMap : (p : K × V → Bool) (m : List (K × V)) → IsMap eq m → IsMap eq (keep p m)
  keep-IsMap p [] h = tt
  keep-IsMap p (e ∷ m) h = elim (Bool-cases (p e)) [
    | inl t ↦ rw t (All-keep (λ e'. eq e'.0 e.0 ≡ false) p m h.0, keep-IsMap p m h.1)
    | inr f ↦ rw f (keep-IsMap p m h.1)
  ]

-- A collective stands in the group of its process group and sequence number.
abbrev pub Belongs : GroupKey → NcclCollective → Type 0
Belongs k n = (n.pg_id ≡ k.0) × (n.seq_id ≡ k.1)

pub record IsGroup (e : GroupKey × Group) : Type 0 where
  -- One entry for a rank at most.
  pub once : IsMap ◌==◌ e.1
  pub members : All (λ m. Belongs e.0 m.1) e.1

module _ {F : Type 0} where
  abbrev pub NoNewer : ℤ → List (Event F) → Type 0
  NoNewer newest = All (λ y. timestamp_ns y ≤ℤ newest)

  pub record IsValid (c : Correlator F) : Type 0 where
    pub ranks : IsMap ◌==◌ c.rank_events
    pub timed : All (λ e. IsTimed e.1) c.rank_events
    pub no_newer : All (λ e. NoNewer c.newest_ns e.1) c.rank_events
    pub keys : IsMap key_eq c.groups
    pub grouped : All IsGroup c.groups

  pub new_correlator-IsValid : (cfg : Config F) → IsValid (new_correlator cfg)
  unfolding new_correlator
  new_correlator-IsValid cfg = record {
    ranks = tt;
    timed = tt;
    no_newer = tt;
    keys = tt;
    grouped = tt;
  }

  or_empty-All :
      (P : List (Event F) → Type 0) (r : ℕ) (m : List (ℕ × List (Event F)))
      → P []
      → All (λ e. P e.1) m
      → P (or_empty (lookup ◌==◌ r m))
  or_empty-All P r m p h = elim (Option-cases (lookup ◌==◌ r m)) [
    | inl q ↦ rw q p
    | inr (v, q) ↦ rw q (lookup-All ◌==◌ P r m v h q)
  ]

  insert_event-NoNewer :
      (newest : ℤ) (e : Event F) (l : List (Event F))
      → IsTimed l
      → timestamp_ns e ≤ℤ newest
      → NoNewer newest l
      → NoNewer newest (insert_event e l)
  insert_event-NoNewer newest e l t le h =
      let ts = timestamp_ns e in
      rw (insert_event-keep e l t) (
        All-append (λ y. timestamp_ns y ≤ℤ newest) (keep (λ y. not (newer ts y)) l)
          (e ∷ keep (newer ts) l)
          (All-keep (λ y. timestamp_ns y ≤ℤ newest) (λ y. not (newer ts y)) l h)
          (le, All-keep (λ y. timestamp_ns y ≤ℤ newest) (newer ts) l h))

  later-NoNewer :
      (a b : ℤ) (m : List (ℕ × List (Event F)))
      → a ≤ℤ b
      → All (λ e. NoNewer a e.1) m
      → All (λ e. NoNewer b e.1) m
  later-NoNewer a b m le h =
      All-map_imp (λ e. NoNewer a e.1) (λ e. NoNewer b e.1) m
        (λ e.
          All-map_imp (λ y. timestamp_ns y ≤ℤ a) (λ y. timestamp_ns y ≤ℤ b) e.1
            (λ y k. omega arith))
        h

  insert_group-grouped :
      (r : ℕ) (e : Event F) (m : List (GroupKey × Group))
      → All IsGroup m
      → All IsGroup (insert_group r e m)
  unfolding insert_group
  insert_group-grouped r (nccl n) m h =
      let k : GroupKey = (n.pg_id, n.seq_id) in
      let g = or_empty (lookup key_eq k m) in
      let old : IsGroup (k, g) = elim (Option-cases (lookup key_eq k m)) [
        | inl q ↦ rw q (record { once = tt; members = tt })
        | inr (v, q) ↦ rw q (lookup-All_key key_eq key-IsEquality IsGroup k m v h q)
      ] in
      let new : IsGroup (k, insert ◌==◌ r n g) = record {
        once = insert-IsMap ◌==◌ nat-IsEquality r n g old.once;
        members =
            All-insert ◌==◌ (λ e. Belongs k e.1) r n g (λ j q. (refl, refl)) (refl, refl)
              old.members;
      } in
      All-insert key_eq IsGroup k (insert ◌==◌ r n g) m
        (λ j q. subst (λ i. IsGroup (i, insert ◌==◌ r n g)) (sym (key_eq_sound j k q)) new) new h
  insert_group-grouped r (gpu_metric v) m h = h
  insert_group-grouped r _ m h = h

  insert_group-keys :
      (r : ℕ) (e : Event F) (m : List (GroupKey × Group))
      → IsMap key_eq m
      → IsMap key_eq (insert_group r e m)
  unfolding insert_group
  insert_group-keys r (nccl n) m h = insert-IsMap key_eq key-IsEquality _ _ m h
  insert_group-keys r (gpu_metric v) m h = h
  insert_group-keys r _ m h = h

  pub store_event-IsValid :
      (c : Correlator F) (r : ℕ) (e : Event F) → IsValid c → IsValid (store_event c r e)
  unfolding store_event
  store_event-IsValid c r e v =
      let ts = timestamp_ns e in
      let old = or_empty (lookup ◌==◌ r c.rank_events) in
      let newest = if ltb_ℤ c.newest_ns ts then ts else c.newest_ns in
      let up : c.newest_ns ≤ℤ newest = ground arith in
      let top : ts ≤ℤ newest = ground arith in
      let old_timed : IsTimed old = or_empty-All IsTimed r c.rank_events tt v.timed in
      let later = later-NoNewer c.newest_ns newest c.rank_events up v.no_newer in
      record {
        ranks = insert-IsMap ◌==◌ nat-IsEquality r _ c.rank_events v.ranks;
        timed =
            All-insert ◌==◌ (λ m. IsTimed m.1) r (insert_event e old) c.rank_events
              (λ j h. insert_event-IsTimed e old old_timed) (insert_event-IsTimed e old old_timed)
              v.timed;
        no_newer =
            let fits =
              insert_event-NoNewer newest e old old_timed top
                (or_empty-All (NoNewer newest) r c.rank_events tt later) in
            All-insert ◌==◌ (λ m. NoNewer newest m.1) r (insert_event e old) c.rank_events
              (λ j h. fits) fits later;
        keys = insert_group-keys r e c.groups v.keys;
        grouped = insert_group-grouped r e c.groups v.grouped;
      }

  trim_ranks-IsFresh :
      (cutoff : ℤ) (k : ℕ) (m : List (ℕ × List (Event F)))
      → IsFresh ◌==◌ k m
      → IsFresh ◌==◌ k (trim_ranks cutoff m)
  trim_ranks-IsFresh cutoff k [] h = tt
  trim_ranks-IsFresh cutoff k ((r, evs) ∷ m) h = (h.0, trim_ranks-IsFresh cutoff k m h.1)

  trim_ranks-IsMap :
      (cutoff : ℤ) (m : List (ℕ × List (Event F))) → IsMap ◌==◌ m → IsMap ◌==◌ (trim_ranks cutoff m)
  trim_ranks-IsMap cutoff [] h = tt
  trim_ranks-IsMap cutoff ((r, evs) ∷ m) h =
      (trim_ranks-IsFresh cutoff r m h.0, trim_ranks-IsMap cutoff m h.1)

  -- What filtering keeps holds of each list after a trim.
  trim_ranks-All :
      (P : List (Event F) → Type 0) (cutoff : ℤ) (m : List (ℕ × List (Event F)))
      → ((l : List (Event F)) → IsTimed l → P l → P (keep (not_before cutoff) l))
      → All (λ e. IsTimed e.1) m
      → All (λ e. P e.1) m
      → All (λ e. P e.1) (trim_ranks cutoff m)
  trim_ranks-All P cutoff [] f t h = tt
  trim_ranks-All P cutoff ((r, evs) ∷ m) f t h =
      (rw (trim_events-keep cutoff evs t.0) (f evs t.0 h.0), trim_ranks-All P cutoff m f t.1 h.1)

  trim_locked-IsValid : (c : Correlator F) → IsValid c → IsValid (trim_locked c)
  unfolding trim_locked
  trim_locked-IsValid c v = elim (Bool-cases (leb_ℤ c.cfg.lookback (pos 0))) [
    | inl off ↦ rw off v
    | inr on ↦
        let cutoff = sub_64 c.newest_ns c.cfg.lookback in
        let P = not_before {F = F} cutoff in
        rw on (record {
          ranks = trim_ranks-IsMap cutoff c.rank_events v.ranks;
          timed =
              trim_ranks-All IsTimed cutoff c.rank_events (λ l t h. keep-IsTimed P l h) v.timed
                v.timed;
          no_newer =
              trim_ranks-All (NoNewer c.newest_ns) cutoff c.rank_events
                (λ l t h. All-keep (λ y. timestamp_ns y ≤ℤ c.newest_ns) P l h) v.timed v.no_newer;
          keys = keep-IsMap key_eq (is_recent cutoff) c.groups v.keys;
          grouped = All-keep IsGroup (is_recent cutoff) c.groups v.grouped;
        })
  ]

  -- `IngestEvent` keeps the state well formed, whatever the order of arrival: one list of events
  -- for a rank, in time order and not newer than `newestNs`; one group for a process group and
  -- sequence number, which holds collectives of just these and at most one for a rank.
  pub ingest_event-IsValid :
      (c : Correlator F) (r : ℕ) (e : Option (Event F)) → IsValid c → IsValid (ingest_event c r e)
  unfolding ingest_event
  ingest_event-IsValid c r none v = v
  ingest_event-IsValid c r (some e) v =
      trim_locked-IsValid (store_event c r e) (store_event-IsValid c r e v)
