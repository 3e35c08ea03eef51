-- ===== src/Correlator/Detect/Groups.antt =====
-- internal/correlator/correlator.go: the types of `DetectAnomalies` and the loops that collect the
-- groups, their lags and their flags.
use distributed_gpu_training.Base.{
  ℕ, ◌+◌, ◌/◌, Bool, Bytes, bytes_eq, Option, none, some, List, [], ◌∷◌, ◌++◌, ◌==◌, ltb, leb,
  if◌then◌else◌, length, get_elem?,
}
use distributed_gpu_training.Base.Int.{ℤ, pos, sub_64, ltb_ℤ, eqb_ℤ}
use distributed_gpu_training.Base.Assoc.{lookup, insert}
use distributed_gpu_training.Float.{Float64}
use distributed_gpu_training.Correlator.Stats.{compute_stats}
use distributed_gpu_training.Correlator.Store.{GroupKey, Group, or_empty}

pub record Anomaly (F : Type 0) : Type 0 where
  pub detected_at : ℤ
  pub straggler_rank : ℕ
  pub op_type : Bytes
  pub lag_ns : ℤ
  pub deviation_sigma : F
  pub hits : ℕ
  pub groups : ℕ
  pub start_ns : ℤ
  pub end_ns : ℤ

pub record GroupInfo (F : Type 0) : Type 0 where
  pub ts : ℤ
  pub seq : ℕ
  pub op : Bytes
  pub lags : List (ℕ × F)

pub record Flag (F : Type 0) : Type 0 where
  pub block : ℕ
  pub z : F
  pub lag : F
  pub op : Bytes

-- What the first loop over a group finds.
pub record Scan (F : Type 0) : Type 0 where
  pub newest : ℤ
  pub max_dur : ℤ
  pub op : Bytes
  pub durs : List F

module _ {F : Type 0} where
  abbrev pub info_less : GroupInfo F → GroupInfo F → Bool
  info_less a b = if eqb_ℤ a.ts b.ts then ltb a.seq b.seq else ltb_ℤ a.ts b.ts

  -- `perRank[r] = append(perRank[r], l)` over the groups of a block.
  abbrev pub add_lags : List (ℕ × List F) → List (ℕ × F) → List (ℕ × List F)
  add_lags m [] = m
  add_lags m ((r, l) ∷ ls) = add_lags (insert ◌==◌ r (or_empty (lookup ◌==◌ r m) ++ (l ∷ [])) m) ls

  abbrev pub per_rank : List (ℕ × List F) → List (GroupInfo F) → List (ℕ × List F)
  per_rank m [] = m
  per_rank m (g ∷ gs) = per_rank (add_lags m g.lags) gs

  abbrev pub others_of : ℕ → List (ℕ × F) → List F
  others_of r [] = []
  others_of r ((r2, m2) ∷ med) = let rest = others_of r med in if r2 == r then rest else m2 ∷ rest

  abbrev pub pooled_of : ℕ → List (ℕ × List F) → List (ℕ × F) → List F
  pooled_of r lags [] = []
  pooled_of r lags ((r2, m2) ∷ med) =
      let rest = pooled_of r lags med in
      if r2 == r then rest else or_empty (lookup ◌==◌ r2 lags) ++ rest

  -- The operation of the middle group of a block.
  abbrev pub op_at : List (GroupInfo F) → ℕ → Bytes
  op_at gs i = elim (get_elem? gs i) [ none ↦ [] | some g ↦ g.op ]

  abbrev pub ts_at : List (GroupInfo F) → ℕ → ℤ
  ts_at gs i = elim (get_elem? gs i) [ none ↦ pos 0 | some g ↦ g.ts ]

  -- `flags[r] = append(flags[r], …)`
  abbrev pub add_flag : ℕ → Option (Flag F) → List (ℕ × List (Flag F)) → List (ℕ × List (Flag F))
  add_flag r none flags = flags
  add_flag r (some f) flags = insert ◌==◌ r (or_empty (lookup ◌==◌ r flags) ++ (f ∷ [])) flags

  -- The loop over the medians of a block: `test` is `flag_rank` of the block.
  abbrev pub flag_all :
      (ℕ → F → Option (Flag F)) → List (ℕ × F) → List (ℕ × List (Flag F)) → List (ℕ × List (Flag F))
  flag_all test [] flags = flags
  flag_all test ((r, m) ∷ med) flags = flag_all test med (add_flag r (test r m) flags)

  abbrev pub first_block : List (Flag F) → ℕ
  first_block [] = 0
  first_block (f ∷ fl) = f.block

  abbrev pub last_block : List (Flag F) → ℕ
  last_block [] = 0
  last_block (f ∷ []) = f.block
  last_block (f ∷ g ∷ fl) = last_block (g ∷ fl)

  -- `ops[f.op]++`
  abbrev pub count_ops : List (Bytes × ℕ) → List (Flag F) → List (Bytes × ℕ)
  count_ops ops [] = ops
  count_ops ops (f ∷ fl) =
      let n : ℕ = elim (lookup bytes_eq f.op ops) [ none ↦ 0 | some k ↦ k ] in
      count_ops (insert bytes_eq f.op (n + 1) ops) fl

module _ {F : Type 0} ⦃d : Float64 F⦄ where
  abbrev pub scan_group : Scan F → Group → Scan F
  scan_group s [] = s
  scan_group s ((r, e) ∷ g) =
      scan_group
        (record {
          newest = if ltb_ℤ s.newest e.base.timestamp then e.base.timestamp else s.newest;
          max_dur = if ltb_ℤ s.max_dur e.duration_ns then e.duration_ns else s.max_dur;
          op = e.op_type;
          durs = s.durs ++ (d.of_int e.duration_ns ∷ []);
        })
        g

  abbrev pub lags_of : ℤ → Group → List (ℕ × F)
  lags_of max_dur [] = []
  lags_of max_dur ((r, e) ∷ g) = (r, d.of_int (sub_64 max_dur e.duration_ns)) ∷ lags_of max_dur g

  -- The loop over `c.groups`: the groups to score, and the durations seen on the way.
  unfoldable pub collect :
      ℤ → ℤ → List (GroupKey × Group) → List (GroupInfo F) → List F → List (GroupInfo F) × List F
  collect min_ranks cutoff [] gs durs = (gs, durs)
  collect min_ranks cutoff ((k, g) ∷ m) gs durs =
      let s = scan_group (record { newest = pos 0; max_dur = pos 0; op = []; durs = durs }) g in
      let info : GroupInfo F = record {
        ts = s.newest;
        seq = k.1;
        op = s.op;
        lags = lags_of s.max_dur g;
      } in
      let few = ltb_ℤ (pos (length g)) min_ranks in
      let gs' = if few then gs else (if ltb_ℤ s.newest cutoff then gs else gs ++ (info ∷ [])) in
      collect min_ranks cutoff m gs' (if few then durs else s.durs)

  abbrev pub medians : ℕ → List (ℕ × List F) → List (ℕ × F)
  medians bs [] = []
  medians bs ((r, ls) ∷ m) =
      let rest = medians bs m in
      if leb (bs / 2) (length ls) then (r, (compute_stats ls).median) ∷ rest else rest
