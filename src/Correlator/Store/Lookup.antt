-- ===== src/Correlator/Store/Lookup.antt =====
-- Time order of the events of one rank (internal/correlator/correlator.go): what the binary
-- searches of `IngestEvent`, `trimLocked` and `EventsForRank` do to a list in time order.
use mathlib.Core.Path.{subst}
use mathlib.Core.List.{Perm, perm_middle}
use distributed_gpu_training.Base.{
  ◌≡◌, Bool, true, not, inl, inr, List, [], ◌∷◌, ◌++◌, arith, Bool-cases, take, drop, keep, All,
  All-append, All-map_imp, take-append-drop, ◌==◌, ==_iff,
}
use distributed_gpu_training.Base.Int.{ℤ, ◌≤ℤ◌}
use distributed_gpu_training.Base.Cut.{cut, IsUp, drop-cut, take-cut, All-keep, keep-All}
use distributed_gpu_training.Event.{Event, timestamp_ns}
use distributed_gpu_training.Correlator.Store.{insert_event, newer, not_before, trim_events}

module _ {F : Type 0} where
  -- Ascending timestamps.
  abbrev pub IsTimed : List (Event F) → Type 0
  IsTimed [] = Unit
  IsTimed (x ∷ xs) = All (λ y. timestamp_ns x ≤ℤ timestamp_ns y) xs × IsTimed xs

  later_newer :
      (ts : ℤ) (x : Event F) (xs : List (Event F))
      → newer ts x ≡ true
      → All (λ y. timestamp_ns x ≤ℤ timestamp_ns y) xs
      → All (λ y. newer ts y ≡ true) xs
  later_newer ts x xs t h =
      All-map_imp (λ y. timestamp_ns x ≤ℤ timestamp_ns y) (λ y. newer ts y ≡ true) xs
        (λ y le. ground arith) h

  newer-IsUp : (ts : ℤ) (l : List (Event F)) → IsTimed l → IsUp (newer ts) l
  newer-IsUp ts [] h = tt
  newer-IsUp ts (x ∷ xs) h = (λ t. later_newer ts x xs t h.0, newer-IsUp ts xs h.1)

  later_not_before :
      (since : ℤ) (x : Event F) (xs : List (Event F))
      → not_before since x ≡ true
      → All (λ y. timestamp_ns x ≤ℤ timestamp_ns y) xs
      → All (λ y. not_before since y ≡ true) xs
  later_not_before since x xs t h =
      All-map_imp (λ y. timestamp_ns x ≤ℤ timestamp_ns y) (λ y. not_before since y ≡ true) xs
        (λ y le. ground arith) h

  not_before-IsUp : (since : ℤ) (l : List (Event F)) → IsTimed l → IsUp (not_before since) l
  not_before-IsUp since [] h = tt
  not_before-IsUp since (x ∷ xs) h =
      (λ t. later_not_before since x xs t h.0, not_before-IsUp since xs h.1)

  pub keep-IsTimed : (p : Event F → Bool) (l : List (Event F)) → IsTimed l → IsTimed (keep p l)
  keep-IsTimed p [] h = tt
  keep-IsTimed p (x ∷ xs) h = elim (Bool-cases (p x)) [
    | inl e ↦
        rw e (All-keep (λ y. timestamp_ns x ≤ℤ timestamp_ns y) p xs h.0, keep-IsTimed p xs h.1)
    | inr e ↦ rw e (keep-IsTimed p xs h.1)
  ]

  -- On events in time order the cut keeps exactly the events that are not older.
  pub drop-not_before :
      (since : ℤ) (l : List (Event F))
      → IsTimed l
      → drop (cut (not_before since) l) l ≡ keep (not_before since) l
  drop-not_before since l h = drop-cut (not_before since) l (not_before-IsUp since l h)

  pub trim_events-keep :
      (cutoff : ℤ) (l : List (Event F))
      → IsTimed l
      → trim_events cutoff l ≡ keep (not_before cutoff) l
  trim_events-keep cutoff l h =
      let same = drop-not_before cutoff l h in
      elim (Bool-cases (cut (not_before cutoff) l == 0)) [
        | inl e ↦
            let none_cut : cut (not_before cutoff) l ≡ 0 = (==_iff _ _).0 e in
            rw e (rw none_cut at same)
        | inr e ↦ rw e same
      ]

  append-IsTimed :
      (xs ys : List (Event F))
      → IsTimed xs
      → IsTimed ys
      → All (λ x. All (λ y. timestamp_ns x ≤ℤ timestamp_ns y) ys) xs
      → IsTimed (xs ++ ys)
  append-IsTimed [] ys hx hy h = hy
  append-IsTimed (x ∷ xs) ys hx hy h =
      (All-append _ xs ys hx.0 h.0, append-IsTimed xs ys hx.1 hy h.1)

  -- `IngestEvent` puts an event behind those that are not newer.
  pub insert_event-keep :
      (e : Event F) (l : List (Event F))
      → IsTimed l
      → insert_event e l
        ≡ keep (λ y. not (newer (timestamp_ns e) y)) l ++ (e ∷ keep (newer (timestamp_ns e)) l)
  unfolding insert_event
  insert_event-keep e l h =
      let up = newer-IsUp (timestamp_ns e) l h in
      rw (take-cut (newer (timestamp_ns e)) l up, drop-cut (newer (timestamp_ns e)) l up)

  pub insert_event-IsTimed :
      (e : Event F) (l : List (Event F)) → IsTimed l → IsTimed (insert_event e l)
  insert_event-IsTimed e l h =
      let ts = timestamp_ns e in
      let back = keep (newer ts) l in
      let after : All (λ y. newer ts y ≡ true) back = keep-All (newer ts) l in
      let front : All (λ x. not (newer ts x) ≡ true) (keep (λ y. not (newer ts y)) l) =
        keep-All (λ y. not (newer ts y)) l in
      rw (insert_event-keep e l h) (
        append-IsTimed (keep (λ y. not (newer ts y)) l) (e ∷ back)
          (keep-IsTimed (λ y. not (newer ts y)) l h)
          (
            All-map_imp (λ y. newer ts y ≡ true) (λ y. ts ≤ℤ timestamp_ns y) back
                (λ y t. ground arith) after,
            keep-IsTimed (newer ts) l h,
          )
          (All-map_imp (λ x. not (newer ts x) ≡ true)
            (λ x. All (λ y. timestamp_ns x ≤ℤ timestamp_ns y) (e ∷ back))
            (keep (λ y. not (newer ts y)) l)
            (λ x t. (
              ground arith,
              All-map_imp (λ y. newer ts y ≡ true) (λ y. timestamp_ns x ≤ℤ timestamp_ns y) back
                  (λ y u. ground arith) after,
            ))
            front))

  pub insert_event-perm : (e : Event F) (l : List (Event F)) → Perm (insert_event e l) (e ∷ l)
  unfolding insert_event
  insert_event-perm e l =
      let i = cut (newer (timestamp_ns e)) l in
      subst (λ t. Perm (take i l ++ (e ∷ drop i l)) (e ∷ t)) (take-append-drop i l)
        (perm_middle (take i l) (drop i l))
