-- ===== src/Collector/Replay/Partition.antt =====
-- internal/collector/replay.go: several collectors that play a trace, each some of its ranks.
use mathlib.Core.List.{Perm, perm_middle}
use mathlib.Core.List.Perm
use mathlib.Core.Path.{subst}
use distributed_gpu_training.Base.{
  ℕ, zero, suc, ◌≡◌, refl, sym, ap₂, inl, inr, none, List, [], ◌∷◌, ◌++◌, if◌then◌else◌, Bool-cases,
  keep, All,
}
use distributed_gpu_training.Event.{Event, rank}
use distributed_gpu_training.Collector.Replay.{new_replay_collector, play}
use distributed_gpu_training.Collector.Replay.Ranks.{is_among, play-keep}

-- How many of the collectors play a rank.
abbrev pub players : List (List ℕ) → ℕ → ℕ
players [] r = 0
players (g ∷ gs) r = let n = players gs r in if is_among g r then suc n else n

-- A collector without ranks plays all of them.
abbrev pub HasRank : List ℕ → Type 0
HasRank [] = ⊥
HasRank (r ∷ rs) = Unit

copies : {A : Type 0} → ℕ → A → List A → List A
copies zero a l = l
copies (suc n) a l = a ∷ copies n a l

module _ {F : Type 0} where
  -- What collectors with these ranks emit, one behind the other.
  unfoldable pub play_all : List (List ℕ) → List (Event F) → List (Event F)
  play_all [] es = []
  play_all (g ∷ gs) es = play (new_replay_collector g).ranks none es ++ play_all gs es

  kept_by : List (List ℕ) → List (Event F) → List (Event F)
  kept_by [] es = []
  kept_by (g ∷ gs) es = keep (λ e. is_among g (rank e)) es ++ kept_by gs es

  play_all-kept_by :
      (gs : List (List ℕ)) (es : List (Event F)) → All HasRank gs → play_all gs es ≡ kept_by gs es
  unfolding play_all kept_by new_replay_collector
  play_all-kept_by [] es h = refl
  play_all-kept_by ([] ∷ gs) es h = absurd h.0
  play_all-kept_by ((r ∷ rs) ∷ gs) es h =
      ap₂ ◌++◌ (play-keep (r ∷ rs) none es) (play_all-kept_by gs es h.1)

  copies-append :
      (n : ℕ) (e : Event F) (xs ys : List (Event F))
      → Perm (xs ++ copies n e ys) (copies n e (xs ++ ys))
  unfolding copies
  copies-append zero e xs ys = Perm.refl (xs ++ ys)
  copies-append (suc n) e xs ys =
      Perm.trans (perm_middle xs (copies n e ys)) (Perm.cons e (copies-append n e xs ys))

  kept_by-copies :
      (gs : List (List ℕ)) (e : Event F) (es : List (Event F))
      → Perm (kept_by gs (e ∷ es)) (copies (players gs (rank e)) e (kept_by gs es))
  unfolding kept_by copies
  kept_by-copies [] e es = Perm.refl []
  kept_by-copies (g ∷ gs) e es =
      let mine = keep (λ a. is_among g (rank a)) es in
      let n = players gs (rank e) in
      let rest : Perm (mine ++ kept_by gs (e ∷ es)) (copies n e (mine ++ kept_by gs es)) =
        Perm.trans (Perm.append_left mine (kept_by-copies gs e es))
          (copies-append n e mine (kept_by gs es)) in
      elim (Bool-cases (is_among g (rank e))) [
        | inl q ↦ rw q (Perm.cons e rest)
        | inr q ↦ rw q rest
      ]

  kept_by-nil : (gs : List (List ℕ)) → kept_by gs [] ≡ []
  unfolding kept_by
  kept_by-nil [] = refl
  kept_by-nil (g ∷ gs) = kept_by-nil gs

  kept_by-perm :
      (gs : List (List ℕ)) (es : List (Event F))
      → All (λ e. players gs (rank e) ≡ 1) es
      → Perm (kept_by gs es) es
  unfolding copies
  kept_by-perm gs [] h = subst (λ l. Perm l []) (sym (kept_by-nil gs)) (Perm.refl [])
  kept_by-perm gs (e ∷ es) h =
      Perm.trans
        (subst (λ n. Perm (kept_by gs (e ∷ es)) (copies n e (kept_by gs es))) h.0
          (kept_by-copies gs e es))
        (Perm.cons e (kept_by-perm gs es h.1))

  -- Several agents, each with its own ranks, play a trace among them: if each has at least one rank,
  -- and exactly one of them has the rank of each event, then together they emit every event of the
  -- trace exactly as often as it stands there.
  pub play_all-perm :
      (gs : List (List ℕ)) (es : List (Event F))
      → All HasRank gs
      → All (λ e. players gs (rank e) ≡ 1) es
      → Perm (play_all gs es) es
  play_all-perm gs es h k =
      subst (λ l. Perm l es) (sym (play_all-kept_by gs es h)) (kept_by-perm gs es k)
