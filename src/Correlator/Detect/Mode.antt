-- ===== src/Correlator/Detect/Mode.antt =====
-- internal/correlator/correlator.go: `modeKey`.
use mathlib.Core.List.{Perm}
use mathlib.Core.List.Perm
use mathlib.Core.Path.{subst}
use distributed_gpu_training.Base.{
  ℕ, ◌≡◌, refl, sym, ap, keep, ◌⊎◌, inl, inr, Bool, true, false, not, ◌&&◌, ◌||◌, Bytes, some, List,
  [], ◌∷◌, arith, Bool-cases, ltb, ◌==◌, bytes_lt, All,
}
use distributed_gpu_training.Correlator.Store.History.{keep-perm}
use distributed_gpu_training.Correlator.Detect.{mode_from, mode_key}

bytes_lt_trans : (a b c : Bytes) → bytes_lt a b ≡ true → bytes_lt b c ≡ true → bytes_lt a c ≡ true
unfolding bytes_lt
bytes_lt_trans [] [] c h k = ground arith
bytes_lt_trans [] (y ∷ b) [] h k = ground arith
bytes_lt_trans [] (y ∷ b) (z ∷ c) h k = refl
bytes_lt_trans (x ∷ a) [] c h k = ground arith
bytes_lt_trans (x ∷ a) (y ∷ b) [] h k = ground arith
bytes_lt_trans (x ∷ a) (y ∷ b) (z ∷ c) h k = ground (arith, bytes_lt_trans a b c)

bytes_lt_asym : (a b : Bytes) → bytes_lt a b ≡ true → bytes_lt b a ≡ false
unfolding bytes_lt
bytes_lt_asym [] [] h = ground arith
bytes_lt_asym [] (y ∷ b) h = refl
bytes_lt_asym (x ∷ a) [] h = ground arith
bytes_lt_asym (x ∷ a) (y ∷ b) h = ground (arith, bytes_lt_asym a b)

bytes_lt_self : (a : Bytes) → bytes_lt a a ≡ false
unfolding bytes_lt
bytes_lt_self [] = refl
bytes_lt_self (x ∷ a) = ground (arith, bytes_lt_self a)

bytes_lt_total : (a b : Bytes) → bytes_lt a b ≡ false → bytes_lt b a ≡ false → a ≡ b
unfolding bytes_lt
bytes_lt_total [] [] h k = refl
bytes_lt_total [] (y ∷ b) h k = absurd (ground arith)
bytes_lt_total (x ∷ a) [] h k = absurd (ground arith)
bytes_lt_total (x ∷ a) (y ∷ b) h k = ground (arith, bytes_lt_total a b)

-- A key with a smaller count, or with the same count and not before the best.
abbrev pub is_beaten : Bytes → ℕ → Bytes × ℕ → Bool
is_beaten best bn e = ltb e.1 bn || ((e.1 == bn) && not (bytes_lt e.0 best))

-- The loop's test.
abbrev is_better : Bytes → ℕ → Bytes → ℕ → Bool
is_better best bn k n = ltb bn n || ((n == bn) && bytes_lt k best)

lt_of_le : (a b c : Bytes) → bytes_lt a b ≡ true → bytes_lt c b ≡ false → bytes_lt a c ≡ true
lt_of_le a b c h k = elim (Bool-cases (bytes_lt b c)) [
  | inl t ↦ bytes_lt_trans a b c h t
  | inr t ↦ rw (← bytes_lt_total b c t k) h
]

beaten_trans :
    (a : Bytes) (an : ℕ) (b : Bytes) (bn : ℕ) (e : Bytes × ℕ)
    → is_beaten a an (b, bn) ≡ true
    → is_beaten b bn e ≡ true
    → is_beaten a an e ≡ true
beaten_trans a an b bn e h k = ground (arith, lt_of_le e.0 a b)

better_beaten :
    (best : Bytes) (bn : ℕ) (k : Bytes) (n : ℕ)
    → is_better best bn k n ≡ true
    → is_beaten k n (best, bn) ≡ true
better_beaten best bn k n h = ground (arith, bytes_lt_asym k best)

not_better :
    (best : Bytes) (bn : ℕ) (k : Bytes) (n : ℕ)
    → is_better best bn k n ≡ false
    → is_beaten best bn (k, n) ≡ true
not_better best bn k n h = ground arith

self_beaten : (k : Bytes) (n : ℕ) → is_beaten k n (k, n) ≡ true
self_beaten k n = ground (arith, bytes_lt_self k)

abbrev Stands : {A : Type 0} → A → List A → Type 0
Stands e [] = ⊥
Stands e (x ∷ xs) = (x ≡ e) ⊎ Stands e xs

-- The key stands in the map, with a count that no other key beats.
record IsMode (m : List (Bytes × ℕ)) (k : Bytes) : Type 0 where
  count : ℕ
  stands : Stands (k, count) m
  best : All (λ e. is_beaten k count e ≡ true) m

mode_from-IsMode :
    (best : Bytes) (bn : ℕ) (m : List (Bytes × ℕ))
    → IsMode ((best, bn) ∷ m) (mode_from (best, some bn) m)
mode_from-IsMode best bn [] = record {
  count = bn;
  stands = inl refl;
  best = (self_beaten best bn, tt);
}
mode_from-IsMode best bn ((k, n) ∷ m) = elim (Bool-cases (is_better best bn k n)) [
  | inl t ↦
      let x = mode_from-IsMode k n m in
      rw t (record {
        count = x.count;
        stands = inr x.stands;
        best =
            (beaten_trans _ x.count k n (best, bn) x.best.0 (better_beaten best bn k n t), x.best);
      })
  | inr t ↦
      let x = mode_from-IsMode best bn m in
      rw t (record {
        count = x.count;
        stands = elim x.stands [ inl e ↦ inl e | inr e ↦ inr (inr e) ];
        best = (
          x.best.0,
          (beaten_trans _ x.count best bn (k, n) x.best.0 (not_better best bn k n t), x.best.1),
        );
      })
]

mode_key-IsMode : (e : Bytes × ℕ) (m : List (Bytes × ℕ)) → IsMode (e ∷ m) (mode_key (e ∷ m))
unfolding mode_key
mode_key-IsMode e m = mode_from-IsMode e.0 e.1 m

-- What holds of all elements holds of all in another order.
keep-All :
    {A : Type 0} (p : A → Bool) (l : List A)
    → All (λ a. p a ≡ true) l
    → keep (λ a. not (p a)) l ≡ []
keep-All p [] h = refl
keep-All p (x ∷ xs) h = rw h.0 (keep-All p xs h.1)

cons_absurd : {A : Type 0} (x : A) (xs : List A) → x ∷ xs ≡ [] → ⊥
cons_absurd x xs h = cc

All-kept :
    {A : Type 0} (p : A → Bool) (l : List A)
    → keep (λ a. not (p a)) l ≡ []
    → All (λ a. p a ≡ true) l
All-kept p [] h = tt
All-kept p (x ∷ xs) h = elim (Bool-cases (p x)) [
  | inl t ↦ (t, All-kept p xs (rw t at h))
  | inr t ↦ absurd (cons_absurd x _ (rw t at h))
]

All-perm :
    {A : Type 0} (p : A → Bool) (xs ys : List A)
    → Perm xs ys
    → All (λ a. p a ≡ true) xs
    → All (λ a. p a ≡ true) ys
All-perm p xs ys h a = All-kept p ys (
    Perm.eq-nil (
      Perm.trans (keep-perm (λ x. not (p x)) (Perm.symm h))
        (subst (λ l. Perm l []) (sym (keep-All p xs a)) (Perm.refl []))))

at_All :
    {A : Type 0} (p : A → Bool) (e : A) (l : List A)
    → All (λ a. p a ≡ true) l
    → Stands e l
    → p e ≡ true
at_All p e [] h s = elim s [ ]
at_All p e (x ∷ xs) h (inl q) = rw (← q) h.0
at_All p e (x ∷ xs) h (inr s) = at_All p e xs h.1 s

beaten_same :
    (a : Bytes) (n : ℕ) (b : Bytes) (k : ℕ)
    → is_beaten a n (b, k) ≡ true
    → is_beaten b k (a, n) ≡ true
    → a ≡ b
beaten_same a n b k h i = bytes_lt_total a b (ground arith) (ground arith)

-- `modeKey` does not depend on the order in which Go visits the map: it returns the same key for
-- every order of the entries.
pub mode_key-perm : (m l : List (Bytes × ℕ)) → Perm m l → mode_key m ≡ mode_key l
mode_key-perm [] l h = ap mode_key (sym (Perm.eq-nil (Perm.symm h)))
mode_key-perm (e ∷ m) [] h = ap mode_key (Perm.eq-nil h)
mode_key-perm (e ∷ m) (f ∷ l) h =
    let x = mode_key-IsMode e m in
    let y = mode_key-IsMode f l in
    beaten_same _ x.count _ y.count
      (at_All (is_beaten _ x.count) _ (f ∷ l) (All-perm (is_beaten _ x.count) _ _ h x.best)
        y.stands)
      (at_All (is_beaten _ y.count) _ (e ∷ m)
        (All-perm (is_beaten _ y.count) _ _ (Perm.symm h) y.best) x.stands)
