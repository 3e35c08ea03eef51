-- ===== src/Correlator/Store/History.antt =====
-- internal/correlator/correlator.go against the history of arrivals: with trimming off, as in
-- `coordinator.Analyze`, the correlator loses and repeats nothing.
use mathlib.Core.Path.{subst}
use mathlib.Core.List.{Perm, Permᴰ, Perm-prop, perm_middle}
use mathlib.Core.List.Perm
use mathlib.Core.Logic.{∥∥₁_elim}
use distributed_gpu_training.Base.{
  ℕ, ◌≡◌, refl, sym, ap, Bool, true, ◌&&◌, inl, inr, some, List, [], ◌∷◌, ◌++◌, arith, Bool-cases,
  Option-cases, append-nil, keep, ◌==◌, ==_iff,
}
use distributed_gpu_training.Base.Int.{ℤ, pos, leb_ℤ, ◌≤ℤ◌}
use distributed_gpu_training.Base.Assoc.{nat-IsEquality, lookup, lookup-insert}
use distributed_gpu_training.Event.{Event, rank}
use distributed_gpu_training.Correlator.Store.{
  Correlator, Config, or_empty, not_before, store_event, ingest_event, new_correlator,
  events_for_rank,
}
use distributed_gpu_training.Correlator.Store.Lookup.{
  IsTimed, keep-IsTimed, drop-not_before, insert_event-perm,
}
use distributed_gpu_training.Correlator.Store.Invariant.{
  IsValid, ingest_event-IsValid, new_correlator-IsValid, lookup-All,
}

module _ {F : Type 0} where
  -- `for _, e := range events { c.IngestEvent(e.Rank(), e) }`
  unfoldable pub ingest_all : Correlator F → List (Event F) → Correlator F
  ingest_all c [] = c
  ingest_all c (e ∷ es) = ingest_all (ingest_event c (rank e) (some e)) es

  abbrev pub events_of : ℕ → Correlator F → List (Event F)
  events_of r c = or_empty (lookup ◌==◌ r c.rank_events)

  abbrev pub has_rank : ℕ → Event F → Bool
  has_rank r e = rank e == r

keep-permᴰ :
    {A : Type 0} (p : A → Bool) {xs ys : List A} → Permᴰ xs ys → Perm (keep p xs) (keep p ys)
keep-permᴰ p Permᴰ.nil = Perm.refl []
keep-permᴰ p (Permᴰ.cons {a} {b} {l₁} {l₂} e h) = rw (← e) (elim (Bool-cases (p a)) [
  | inl t ↦ rw t (Perm.cons a (keep-permᴰ p h))
  | inr t ↦ rw t (keep-permᴰ p h)
])
keep-permᴰ p (Permᴰ.swap {a} {b} {l} e f) =
    rw (← e, ← f)
      (elim (Bool-cases (p a)) [
        | inl t ↦ elim (Bool-cases (p b)) [
          | inl u ↦ rw (t, u) (Perm.swap b a (keep p l))
          | inr u ↦ rw (t, u) (Perm.refl (a ∷ keep p l))
        ]
        | inr t ↦ elim (Bool-cases (p b)) [
          | inl u ↦ rw (t, u) (Perm.refl (b ∷ keep p l))
          | inr u ↦ rw (t, u) (Perm.refl (keep p l))
        ]
      ])
keep-permᴰ p (Permᴰ.trans h k) = Perm.trans (keep-permᴰ p h) (keep-permᴰ p k)

pub keep-perm :
    {A : Type 0} (p : A → Bool) {xs ys : List A} → Perm xs ys → Perm (keep p xs) (keep p ys)
keep-perm p h = ∥∥₁_elim h Perm-prop (keep-permᴰ p)

keep_and : {A : Type 0} (p q : A → Bool) (l : List A) → keep q (keep p l) ≡ keep (λ a. p a && q a) l
keep_and p q [] = refl
keep_and p q (x ∷ xs) = elim (Bool-cases (p x)) [
  | inl t ↦ elim (Bool-cases (q x)) [
    | inl u ↦ rw (t, u) (ap (◌∷◌ x) (keep_and p q xs))
    | inr u ↦ rw (t, u) (keep_and p q xs)
  ]
  | inr t ↦ rw t (keep_and p q xs)
]

module _ {F : Type 0} where
  -- Trimming is off.
  abbrev pub IsWhole : Correlator F → Type 0
  IsWhole c = c.cfg.lookback ≤ℤ pos 0

  ingest_event-store_event :
      (c : Correlator F) (r : ℕ) (e : Event F)
      → IsWhole c
      → ingest_event c r (some e) ≡ store_event c r e
  unfolding ingest_event
  ingest_event-store_event c r e w =
      let off : leb_ℤ c.cfg.lookback (pos 0) ≡ true = ground arith in rw off

  events_of-store_event :
      (r : ℕ) (c : Correlator F) (e : Event F)
      → Perm (events_of r (store_event c (rank e) e)) (keep (has_rank r) (e ∷ []) ++ events_of r c)
  unfolding store_event
  events_of-store_event r c e = elim (Bool-cases (rank e == r)) [
    | inl t ↦
        let same : rank e ≡ r = (==_iff (rank e) r).0 t in
        rw (lookup-insert ◌==◌ nat-IsEquality (rank e) r, t, same)
          (insert_event-perm e (events_of r c))
    | inr t ↦ rw (lookup-insert ◌==◌ nat-IsEquality (rank e) r, t) (Perm.refl (events_of r c))
  ]

  events_of-ingest_all :
      (r : ℕ) (es : List (Event F)) (c : Correlator F)
      → IsWhole c
      → Perm (events_of r (ingest_all c es)) (keep (has_rank r) es ++ events_of r c)
  unfolding ingest_all
  events_of-ingest_all r [] c w = Perm.refl (events_of r c)
  events_of-ingest_all r (e ∷ es) c w =
      let c' = store_event c (rank e) e in
      let rest : Perm (events_of r (ingest_all c' es)) (keep (has_rank r) es ++ events_of r c') =
        events_of-ingest_all r es c' (unfold store_event in w) in
      subst
        (λ x. Perm (events_of r (ingest_all x es)) (keep (has_rank r) (e ∷ es) ++ events_of r c))
        (sym (ingest_event-store_event c (rank e) e w))
        (Perm.trans rest (
          Perm.trans (Perm.append (Perm.refl (keep (has_rank r) es)) (events_of-store_event r c e))
            (elim (Bool-cases (rank e == r)) [
              | inl t ↦ rw t (perm_middle (keep (has_rank r) es) (events_of r c))
              | inr t ↦ rw t (Perm.refl (keep (has_rank r) es ++ events_of r c))
            ])))

  pub ingest_all-IsValid :
      (es : List (Event F)) (c : Correlator F) → IsValid c → IsValid (ingest_all c es)
  unfolding ingest_all
  ingest_all-IsValid [] c v = v
  ingest_all-IsValid (e ∷ es) c v =
      ingest_all-IsValid es (ingest_event c (rank e) (some e))
        (ingest_event-IsValid c (rank e) (some e) v)

  pub events_of-IsTimed : (r : ℕ) (c : Correlator F) → IsValid c → IsTimed (events_of r c)
  events_of-IsTimed r c v = elim (Option-cases (lookup ◌==◌ r c.rank_events)) [
    | inl q ↦ rw q tt
    | inr (l, q) ↦ rw q (lookup-All ◌==◌ IsTimed r c.rank_events l v.timed q)
  ]

  -- `EventsForRank` on a well-formed correlator: exactly the retained events of the rank that are
  -- not older than `since`, in time order.
  events_for_rank-keep :
      (c : Correlator F) (r : ℕ) (since : ℤ)
      → IsValid c
      → (events_for_rank c r since ≡ keep (not_before since) (events_of r c))
        × IsTimed (events_for_rank c r since)
  unfolding events_for_rank
  events_for_rank-keep c r since v =
      let timed = events_of-IsTimed r c v in
      let same = drop-not_before since (events_of r c) timed in
      (same, rw same (keep-IsTimed (not_before since) (events_of r c) timed))

  -- With trimming off, ingesting events in any order of arrival and then asking for the events of
  -- a rank since a time gives exactly the ingested events of that rank that are not older, each as
  -- often as it was ingested, in time order.
  pub events_for_rank-ingest_all :
      (cfg : Config F) (es : List (Event F)) (r : ℕ) (since : ℤ)
      → cfg.lookback ≤ℤ pos 0
      → let found = events_for_rank (ingest_all (new_correlator cfg) es) r since in
        Perm found (keep (λ e. has_rank r e && not_before since e) es) × IsTimed found
  unfolding new_correlator
  events_for_rank-ingest_all cfg es r since w =
      let start = new_correlator cfg in
      let c = ingest_all start es in
      let (same, timed) =
        events_for_rank-keep c r since (ingest_all-IsValid es start (new_correlator-IsValid cfg)) in
      let stored : Perm (events_of r c) (keep (has_rank r) es) =
        rw (← append-nil (keep (has_rank r) es)) (events_of-ingest_all r es start w) in
      (
        rw (same, ← keep_and (has_rank r) (not_before since) es)
            (keep-perm (not_before since) stored),
        timed,
      )
