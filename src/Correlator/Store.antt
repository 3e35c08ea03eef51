-- ===== src/Correlator/Store.antt =====
-- internal/correlator/correlator.go: the state of the correlator, `IngestEvent` with its trimming,
-- and `EventsForRank`. The lock makes each method one step.
pub mod Lookup
pub mod Invariant
pub mod History
pub mod Window
use distributed_gpu_training.Base.{
  ℕ, ◌+◌, ◌≡◌, Bool, true, false, not, ◌&&◌, Bytes, bytes_eq, Option, none, some, List, [], ◌∷◌,
  ◌++◌, ◌==◌, if◌then◌else◌, take, drop, keep, length,
}
use distributed_gpu_training.Base.Int.{ℤ, pos, sub_64, ltb_ℤ, leb_ℤ}
use distributed_gpu_training.Base.Assoc.{lookup, insert}
use distributed_gpu_training.Base.Cut.{cut}
use distributed_gpu_training.Float.{Float64}
use distributed_gpu_training.Event.{Event, NcclCollective, BaseEvent, timestamp_ns, nccl}

pub record Config (F : Type 0) : Type 0 where
  pub threshold_sigma : F
  pub lookback : ℤ
  pub min_ranks : ℤ
  pub block_size : ℤ
  pub min_hits : ℤ
  pub min_hit_fraction : F
  pub jitter_floor : F

unfoldable pub default_config : {F : Type 0} ⦃d : Float64 F⦄ → F → Config F
default_config ⦃d⦄ threshold_sigma = record {
  threshold_sigma = threshold_sigma;
  lookback = pos 60_000_000_000;
  min_ranks = pos 2;
  block_size = pos 30;
  min_hits = pos 2;
  min_hit_fraction = d.lit 5 1;
  jitter_floor = d.lit 5 2;
}

-- `groupKey{pg, seq}` and its equality.
abbrev pub GroupKey : Type 0
GroupKey = Bytes × ℕ

abbrev pub key_eq : GroupKey → GroupKey → Bool
key_eq a b = bytes_eq a.0 b.0 && (a.1 == b.1)

-- The collectives of one group, by rank.
abbrev pub Group : Type 0
Group = List (ℕ × NcclCollective)

pub record Correlator (F : Type 0) : Type 0 where
  pub cfg : Config F
  pub rank_events : List (ℕ × List (Event F))
  pub groups : List (GroupKey × Group)
  pub newest_ns : ℤ

-- A missing key reads as the zero value, the nil slice or the nil map.
abbrev pub or_empty : {A : Type 0} → Option (List A) → List A
or_empty none = []
or_empty (some l) = l

-- `var newest int64; for ... if e.Timestamp > newest { newest = e.Timestamp }`
abbrev pub newest_from : ℤ → Group → ℤ
newest_from newest [] = newest
newest_from newest ((r, e) ∷ g) =
    newest_from (if ltb_ℤ newest e.base.timestamp then e.base.timestamp else newest) g

-- `trimLocked` on the groups.
abbrev pub is_recent : ℤ → GroupKey × Group → Bool
is_recent cutoff e = not (ltb_ℤ (newest_from (pos 0) e.1) cutoff)

abbrev pub trim_groups : ℤ → List (GroupKey × Group) → List (GroupKey × Group)
trim_groups cutoff = keep (is_recent cutoff)

module _ {F : Type 0} where
  unfoldable pub new_correlator : Config F → Correlator F
  new_correlator cfg = record { cfg = cfg; rank_events = []; groups = []; newest_ns = pos 0 }

  abbrev pub newer : ℤ → Event F → Bool
  newer ts y = ltb_ℤ ts (timestamp_ns y)

  abbrev pub not_before : ℤ → Event F → Bool
  not_before since y = leb_ℤ since (timestamp_ns y)

  -- The sorted insertion: behind all events that are not newer.
  unfoldable pub insert_event : Event F → List (Event F) → List (Event F)
  insert_event event evs =
      let i = cut (newer (timestamp_ns event)) evs in take i evs ++ (event ∷ drop i evs)

  -- The part of `IngestEvent` on `c.groups`.
  unfoldable pub insert_group : ℕ → Event F → List (GroupKey × Group) → List (GroupKey × Group)
  insert_group rank (nccl n) groups =
      let k : GroupKey = (n.pg_id, n.seq_id) in
      insert key_eq k (insert ◌==◌ rank n (or_empty (lookup key_eq k groups))) groups
  insert_group rank event groups = groups

  -- `trimLocked` on the events of one rank.
  abbrev pub trim_events : ℤ → List (Event F) → List (Event F)
  trim_events cutoff evs = let i = cut (not_before cutoff) evs in if i == 0 then evs else drop i evs

  abbrev pub trim_ranks : ℤ → List (ℕ × List (Event F)) → List (ℕ × List (Event F))
  trim_ranks cutoff [] = []
  trim_ranks cutoff ((r, evs) ∷ m) = (r, trim_events cutoff evs) ∷ trim_ranks cutoff m

  unfoldable pub trim_locked : Correlator F → Correlator F
  trim_locked c =
      let cutoff = sub_64 c.newest_ns c.cfg.lookback in
      let trimmed = record c {
        rank_events = trim_ranks cutoff c.rank_events;
        groups = trim_groups cutoff c.groups;
      } in
      if leb_ℤ c.cfg.lookback (pos 0) then c else trimmed

  -- `IngestEvent` up to the call of `trimLocked`, for an event that is not nil.
  unfoldable pub store_event : Correlator F → ℕ → Event F → Correlator F
  unfolding insert_event insert_group
  store_event c rank event =
      let ts = timestamp_ns event in
      record c {
        rank_events =
            insert ◌==◌ rank (insert_event event (or_empty (lookup ◌==◌ rank c.rank_events)))
              c.rank_events;
        groups = insert_group rank event c.groups;
        newest_ns = if ltb_ℤ c.newest_ns ts then ts else c.newest_ns;
      }

  unfoldable pub ingest_event : Correlator F → ℕ → Option (Event F) → Correlator F
  unfolding store_event trim_locked
  ingest_event c rank none = c
  ingest_event c rank (some event) = trim_locked (store_event c rank event)

  unfoldable pub events_for_rank : Correlator F → ℕ → ℤ → List (Event F)
  events_for_rank c rank since =
      let evs = or_empty (lookup ◌==◌ rank c.rank_events) in drop (cut (not_before since) evs) evs
