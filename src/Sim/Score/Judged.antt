-- ===== src/Sim/Score/Judged.antt =====
-- internal/sim/score.go: what `Score` says of a run.
use distributed_gpu_training.Base.{
  or_false, or_shift, both_true, ℕ, zero, suc, ◌≤◌, ◌+◌, ◌≡◌, refl, sym, ap, ◌∙◌, Bool, true, false,
  ◌&&◌, ◌⊎◌, map, take, inl, inr, List, [], ◌∷◌, ◌==◌, ltb, ◌||◌, ==_iff, Bool-cases, length, All,
  arith,
}
use distributed_gpu_training.Base.Int.{pos, eqb_ℤ}
use distributed_gpu_training.Base.Assoc.{IsEquality, insert, lookup-insert}
use distributed_gpu_training.Attribution.Chain.{number}
use distributed_gpu_training.Attribution.Rules.{CauseType, CausalLink}
use distributed_gpu_training.Attribution.Engine.{Attribution}
use distributed_gpu_training.Sim.{GroundTruth}
use distributed_gpu_training.Sim.Score.{cause_eq, holds, wanted, all_got, got_from}

cause_sound : (a b : CauseType) → cause_eq a b ≡ true → a ≡ b
cause_sound a b h = ground arith

cause-IsEquality : IsEquality cause_eq
cause-IsEquality = record { sound = cause_sound; self = λ a. (==_iff (number a) (number a)).1 refl }

-- One of the elements satisfies `P`.
abbrev pub Exists : {A : Type 0} → (A → Type 0) → List A → Type 0
Exists P [] = ⊥
Exists P (x ∷ xs) = P x ⊎ Exists P xs

-- Whether a cause is among the causes.
abbrev pub is_named : CauseType → List CauseType → Bool
is_named c [] = false
is_named c (x ∷ xs) = cause_eq x c || is_named c xs

holds-insert :
    (x c : CauseType) (m : List (CauseType × Bool))
    → holds (insert cause_eq x true m) c ≡ (cause_eq x c || holds m c)
holds-insert x c m = elim (Bool-cases (cause_eq x c)) [
  | inl e ↦ rw (lookup-insert cause_eq cause-IsEquality x c true m, holds, e)
  | inr e ↦ rw (lookup-insert cause_eq cause-IsEquality x c true m, holds, e)
]

pub holds-wanted :
    (m : List (CauseType × Bool)) (cs : List CauseType) (c : CauseType)
    → holds (wanted m cs) c ≡ (holds m c || is_named c cs)
holds-wanted m [] c = ground arith
holds-wanted m (x ∷ xs) c =
    holds-wanted (insert cause_eq x true m) xs c
    ∙ ap (λ b. b || is_named c xs) (holds-insert x c m)
    ∙ ground arith

holds-set :
    (c : CauseType) (m : List (CauseType × Bool))
    → holds m c ≡ true
    → Exists (λ e. cause_eq e.0 c ≡ true) m
holds-set c [] h = absurd (ground arith)
holds-set c ((k, v) ∷ m) h = elim (Bool-cases (cause_eq k c)) [
  | inl e ↦ inl e
  | inr e ↦ inr (holds-set c m (rw (e, holds) at h))
]

-- If the loop over `want` ends with true, it began with true, and every key is in `got`.
all_got-true :
    (got : List (CauseType × Bool)) (b : Bool) (want : List (CauseType × Bool))
    → all_got got b want ≡ true
    → (b ≡ true) × All (λ e. holds got e.0 ≡ true) want
all_got-true got b [] h = (h, tt)
all_got-true got b ((c, v) ∷ want) h =
    let (both, rest) = all_got-true got (b && holds got c) want h in
    let (first, mine) = both_true b (holds got c) both in (first, (mine, rest))

-- A cause that `want` holds is one that `got` holds.
Exists-holds :
    (got want : List (CauseType × Bool)) (c : CauseType)
    → All (λ e. holds got e.0 ≡ true) want
    → Exists (λ e. cause_eq e.0 c ≡ true) want
    → holds got c ≡ true
Exists-holds got [] c h e = elim e [ ]
Exists-holds got ((k, v) ∷ want) c h (inl e) = rw (← cause_sound k c e) h.0
Exists-holds got ((k, v) ∷ want) c h (inr e) = Exists-holds got want c h.1 e

module _ {F : Type 0} where
  -- The causes of the first links of a chain.
  abbrev pub top_causes : ℕ → List (CausalLink F) → List CauseType
  top_causes n chain = map (λ l. l.cause) (take n chain)

  got_from_self :
      (i limit : ℕ) (m : List (CauseType × Bool)) (chain : List (CausalLink F))
      → limit ≤ i
      → got_from i limit m chain ≡ m
  got_from_self i limit m [] le = refl
  got_from_self i limit m (l ∷ ls) le =
      let out : ltb i limit ≡ false = ground arith in
      rw out (got_from_self (suc i) limit m ls (omega arith))

  holds-got_from :
      (i k : ℕ) (m : List (CauseType × Bool)) (chain : List (CausalLink F)) (c : CauseType)
      → holds (got_from i (i + k) m chain) c ≡ (holds m c || is_named c (top_causes k chain))
  holds-got_from i zero m chain c =
      ap (λ x. holds x c) (got_from_self i (i + 0) m chain (omega arith)) ∙ or_false (holds m c)
  holds-got_from i (suc k) m [] c = or_false (holds m c)
  holds-got_from i (suc k) m (l ∷ ls) c =
      let here : ltb i (i + suc k) ≡ true = ground arith in
      let next : i + suc k ≡ suc i + k = omega arith in
      rw here (
        ap (λ n. holds (got_from (suc i) n (insert cause_eq l.cause true m) ls) c) next
        ∙ holds-got_from (suc i) k (insert cause_eq l.cause true m) ls c
        ∙ ap (λ b. b || is_named c (top_causes k ls)) (holds-insert l.cause c m)
        ∙ or_shift (cause_eq l.cause c) (holds m c) (is_named c (top_causes k ls)))

  -- The attribution is about the true straggler.
  abbrev pub is_right : GroundTruth → Attribution F → Bool
  is_right t a = eqb_ℤ (pos a.anomaly.straggler_rank) t.straggler

  -- Every true cause is among the causes of the first links, as many as there are true causes.
  abbrev pub NamesAll : GroundTruth → Attribution F → Type 0
  NamesAll t a =
      (is_right t a ≡ true)
      × ((c : CauseType)
          → is_named c t.causes ≡ true
          → is_named c (top_causes (length t.causes) a.causal_chain) ≡ true)

  -- The first link names a true cause.
  abbrev pub NamesTop : GroundTruth → Attribution F → Type 0
  NamesTop t a =
      (is_right t a ≡ true)
      × ((l : CausalLink F) × (ls : List (CausalLink F)) × (a.causal_chain ≡ l ∷ ls)
          × (is_named l.cause t.causes ≡ true))

  pub names_all :
      (t : GroundTruth) (a : Attribution F)
      → let want = wanted [] t.causes in
        let got = got_from 0 (length t.causes) [] a.causal_chain in
        is_right t a ≡ true → all_got got (length got == length want) want ≡ true → NamesAll t a
  names_all t a r h =
      let want = wanted [] t.causes in
      let got = got_from 0 (length t.causes) [] a.causal_chain in
      let (sizes, all) = all_got-true got (length got == length want) want h in
      (
        r,
        λ c named.
            sym (holds-got_from 0 (length t.causes) [] a.causal_chain c)
            ∙ ap (λ n. holds (got_from 0 n [] a.causal_chain) c) (omega arith)
            ∙ Exists-holds got want c all (holds-set c want (holds-wanted [] t.causes c ∙ named)),
      )
