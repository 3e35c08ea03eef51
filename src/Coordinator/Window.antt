-- ===== src/Coordinator/Window.antt =====
-- internal/coordinator/coordinator.go: what a live coordinator remembers, and that the window of
-- `Analyze` cannot overflow.
use distributed_gpu_training.Base.{
  ℕ, ◌+◌, ◌-◌, ◌≤◌, ◌≡◌, refl, sym, ap, ◌∙◌, inl, inr, List, [], ◌∷◌, ◌++◌, arith, ltb,
  if◌then◌else◌, Bool-cases, length, length-append, length-drop, drop, drop-append, drop-drop,
  drop-nil, append-nil, append_assoc,
}
use distributed_gpu_training.Base.Int.{ℤ, pos, pos_part, leb_ℤ}
use distributed_gpu_training.Event.{Event}
use distributed_gpu_training.Coordinator.{Options, Live, new_live, ingest}

-- The number of events that a coordinator keeps, for the `maxEvents` that `NewLive` is given.
abbrev pub capacity_of : ℤ → ℕ
capacity_of m = if leb_ℤ m (pos 0) then 2_000_000 else pos_part m

module _ {F : Type 0} where
  -- Events as the server's streams hand them over, one after the other.
  unfoldable pub ingest_all : Live F → List (Event F) → Live F
  ingest_all l [] = l
  ingest_all l (e ∷ es) = ingest_all (ingest l e) es

  -- The last `n` events of a history.
  abbrev pub newest : ℕ → List (Event F) → List (Event F)
  newest n h = drop (length h - n) h

  -- What holds after the history `h`.
  abbrev Tracks : Live F → List (Event F) → Type 0
  Tracks l h = l.events ≡ newest l.max_events h

  newest-snoc :
      (n : ℕ) (h : List (Event F)) (e : Event F)
      → newest n (newest n h ++ (e ∷ [])) ≡ newest n (h ++ (e ∷ []))
  newest-snoc n h e =
      let k = length h - n in
      let kept : newest n h ++ (e ∷ []) ≡ drop k (h ++ (e ∷ [])) =
        sym (drop-append k h (e ∷ []) (omega arith)) in
      let short : length (drop k (h ++ (e ∷ []))) ≡ length h + 1 - k =
        omega (arith, length-drop k (h ++ (e ∷ [])), length-append h (e ∷ [])) in
      rw kept (
        drop-drop (length (drop k (h ++ (e ∷ []))) - n) k (h ++ (e ∷ []))
        ∙ ap (λ i. drop i (h ++ (e ∷ []))) {x = k + (length (drop k (h ++ (e ∷ []))) - n)}
            {y = length (h ++ (e ∷ [])) - n} (omega (arith, short, length-append h (e ∷ []))))

  bounded-newest :
      (n : ℕ) (l : List (Event F))
      → (if ltb n (length l) then drop (length l - n) l else l) ≡ newest n l
  bounded-newest n l = elim (Bool-cases (ltb n (length l))) [
    | inl t ↦ rw t
    | inr t ↦ let all : length l - n ≡ 0 = ground arith in rw (t, all)
  ]

  ingest-Tracks :
      (l : Live F) (h : List (Event F)) (e : Event F)
      → Tracks l h
      → Tracks (ingest l e) (h ++ (e ∷ []))
  unfolding ingest
  ingest-Tracks l h e t =
      bounded-newest l.max_events (l.events ++ (e ∷ []))
      ∙ ap (λ x. newest l.max_events (x ++ (e ∷ []))) t
      ∙ newest-snoc l.max_events h e

  ingest-same :
      (l : Live F) (e : Event F)
      → ((ingest l e).max_events ≡ l.max_events) × ((ingest l e).opts ≡ l.opts)
  unfolding ingest
  ingest-same l e = (refl, refl)

  ingest_all-Tracks :
      (es : List (Event F)) (l : Live F) (h : List (Event F))
      → Tracks l h
      → (Tracks (ingest_all l es) (h ++ es))
        × ((ingest_all l es).max_events ≡ l.max_events)
        × ((ingest_all l es).opts ≡ l.opts)
  unfolding ingest_all
  ingest_all-Tracks [] l h t = (rw append-nil t, refl, refl)
  ingest_all-Tracks (e ∷ es) l h t =
      let (tracks, same, opts) =
        ingest_all-Tracks es (ingest l e) (h ++ (e ∷ [])) (ingest-Tracks l h e t) in
      let (same₁, opts₁) = ingest-same l e in
      (rw append_assoc at tracks, same ∙ same₁, opts ∙ opts₁)

  pub ingest_all-opts :
      (o : Options F) (m : ℤ) (es : List (Event F)) → (ingest_all (new_live o m) es).opts ≡ o
  unfolding new_live
  ingest_all-opts o m es =
      let (_, _, opts) =
        ingest_all-Tracks es (new_live o m) [] (sym (drop-nil (0 - capacity_of m))) in
      opts

  -- A live coordinator holds exactly the newest `maxEvents` of all events ever ingested, in their
  -- order (2,000,000 of them if `maxEvents` is not positive), so never more than that many.
  pub ingest_all-newest :
      (o : Options F) (m : ℤ) (es : List (Event F))
      → ((ingest_all (new_live o m) es).events ≡ newest (capacity_of m) es)
        × (length (ingest_all (new_live o m) es).events ≤ capacity_of m)
  unfolding new_live
  ingest_all-newest o m es =
      let (tracks, same, _) =
        ingest_all-Tracks es (new_live o m) [] (sym (drop-nil (0 - capacity_of m))) in
      let n = capacity_of m in
      let held : (ingest_all (new_live o m) es).events ≡ newest n es =
        tracks ∙ ap (λ k. newest k es) same in
      (held, rw held (omega (arith, length-drop (length es - n) es)))
