-- ===== src/Collector/Tail/Follow.antt =====
-- internal/collector/tail.go: a file that grows by appending, in pieces of any size.
use distributed_gpu_training.Base.{
  ℕ, zero, suc, ◌≤◌, ◌<◌, ◌≡◌, refl, sym, ap, ◌∙◌, ◌⊎◌, true, false, inl, inr, Bytes, none, some,
  List, [], ◌∷◌, ◌++◌, ◌==◌, ltb, if◌then◌else◌, Bool-cases, Option-cases, some-none, pair_cancel,
  length, length-append, drop, arith, append-nil, append_assoc,
}
use distributed_gpu_training.Event.{Event}
use distributed_gpu_training.Trace.{Json}
use distributed_gpu_training.Collector.Tail.{
  TailState, fresh_state, Look, file, next_line, rewind, event_in, emit, drain,
}

-- One byte more in front of a text that is read.
abbrev prepend : ℕ → List Bytes × Bytes → List Bytes × Bytes
prepend b r =
    if b == 10
    then ([] ∷ r.0, r.1)
    else elim r.0 [ [] ↦ ([], b ∷ r.1) | l ∷ ls ↦ ((b ∷ l) ∷ ls, r.1) ]

-- The complete lines of a text, without their newlines, and what follows the last of them.
abbrev pub lines_of : Bytes → List Bytes × Bytes
lines_of [] = ([], [])
lines_of (b ∷ bs) = prepend b (lines_of bs)

list_cases : {A : Type 0} (l : List A) → (l ≡ []) ⊎ ((x : A) × (xs : List A) × (l ≡ x ∷ xs))
list_cases [] = inl refl
list_cases (x ∷ xs) = inr (x, xs, refl)

lines_of-none : (buf : Bytes) → next_line buf ≡ none → lines_of buf ≡ ([], buf)
lines_of-none [] h = refl
lines_of-none (b ∷ bs) h = elim (Bool-cases (b == 10)) [
  | inl t ↦ absurd (some-none _ (rw t at h))
  | inr t ↦ elim (Option-cases (next_line bs)) [
    | inl q ↦ let e = lines_of-none bs q in rw (t, ap (λ r. r.0) e, ap (λ r. r.1) e)
    | inr ((l, r), q) ↦ absurd (some-none _ (rw (t, q) at h))
  ]
]

-- What a text with a complete line is.
abbrev Splits : Bytes → Bytes → Bytes → Type 0
Splits buf l r =
    ((lines_of buf).0 ≡ l ∷ (lines_of r).0)
    × ((lines_of buf).1 ≡ (lines_of r).1)
    × (length r < length buf)

lines_of-some : (buf l r : Bytes) → next_line buf ≡ some (l, r) → Splits buf l r
lines_of-some [] l r h = cc
lines_of-some (b ∷ bs) l r h = elim (Bool-cases (b == 10)) [
  | inl t ↦
      let (front, back) = pair_cancel [] l bs r (rw t at h) in
      rw (t, ← front, ← back) (refl, refl, omega arith)
  | inr t ↦ elim (Option-cases (next_line bs)) [
    | inl q ↦ absurd (some-none (l, r) (sym (rw (t, q) at h)))
    | inr ((k, s), q) ↦
        let (front, back) = pair_cancel (b ∷ k) l s r (rw (t, q) at h) in
        let (first, rest, less) = lines_of-some bs k s q in
        rw (t, first, rest, ← front, ← back) (refl, refl, omega arith)
  ]
]

-- What is read when `ys` follows a text with the lines `r`.
abbrev continued : List Bytes × Bytes → Bytes → List Bytes × Bytes
continued r ys = (r.0 ++ (lines_of (r.1 ++ ys)).0, (lines_of (r.1 ++ ys)).1)

prepend-continued :
    (b : ℕ) (ls : List Bytes) (p ys : Bytes)
    → prepend b (continued (ls, p) ys) ≡ continued (prepend b (ls, p)) ys
prepend-continued b [] p ys = elim (Bool-cases (b == 10)) [ inl t ↦ rw t | inr t ↦ rw (t, t) ]
prepend-continued b (l ∷ ls) p ys = elim (Bool-cases (b == 10)) [ inl t ↦ rw t | inr t ↦ rw t ]

-- Reading a text in two pieces, and keeping the partial line of the first.
pub lines_of-append : (xs ys : Bytes) → lines_of (xs ++ ys) ≡ continued (lines_of xs) ys
lines_of-append [] ys = refl
lines_of-append (b ∷ bs) ys =
    ap (prepend b) (lines_of-append bs ys) ∙ prepend-continued b (lines_of bs).0 (lines_of bs).1 ys

lines_of-partial : (xs : Bytes) → lines_of (lines_of xs).1 ≡ ([], (lines_of xs).1)
lines_of-partial [] = refl
lines_of-partial (b ∷ bs) =
    let same = lines_of-partial bs in
    elim (Bool-cases (b == 10)) [
      | inl t ↦ rw t same
      | inr t ↦ elim (list_cases (lines_of bs).0) [
        | inl q ↦ rw (t, q, t, ap (λ r. r.0) same, ap (λ r. r.1) same) refl
        | inr (l, ls, q) ↦ rw (t, q) same
      ]
    ]

module _ {F : Type 0} (j : Json F) (trim : Bytes → Bytes) where
  -- The events of complete lines, without the blank and the bad ones.
  abbrev pub events_in : List Bytes → List (Event F)
  events_in [] = []
  events_in (l ∷ ls) = elim (event_in j trim l) [ none ↦ events_in ls | some e ↦ e ∷ events_in ls ]

  pub events_in-append : (ks ls : List Bytes) → events_in (ks ++ ls) ≡ events_in ks ++ events_in ls
  events_in-append [] ls = refl
  events_in-append (k ∷ ks) ls = elim (Option-cases (event_in j trim k)) [
    | inl q ↦ rw (q, events_in) (events_in-append ks ls)
    | inr (e, q) ↦ rw (q, events_in) (ap (◌∷◌ e) (events_in-append ks ls))
  ]

  emit-lines_of :
      (fuel : ℕ) (buf : Bytes)
      → length buf ≤ fuel
      → emit j trim fuel none buf
        ≡ record { events = events_in (lines_of buf).0; sends = none; rest = some (lines_of buf).1 }
  unfolding emit
  emit-lines_of zero [] h = refl
  emit-lines_of zero (b ∷ bs) h = absurd (omega arith)
  emit-lines_of (suc fuel) buf h = elim (Option-cases (next_line buf)) [
    | inl q ↦ let e = lines_of-none buf q in rw (q, emit, ap (λ r. r.0) e, ap (λ r. r.1) e)
    | inr ((l, r), q) ↦
        let (first, rest, less) = lines_of-some buf l r q in
        let more = emit-lines_of fuel r (omega arith) in
        elim (Option-cases (event_in j trim l)) [
          | inl n ↦ rw (q, emit, n, first, rest, events_in, n) more
          | inr (e, n) ↦ rw (q, emit, n, first, rest, events_in, n, more)
        ]
  ]

-- The state when a file with the contents has been read.
abbrev pub state_after : Bytes → TailState
state_after contents = record { off = length contents; partial = (lines_of contents).1 }

-- The file as it is, with nothing cancelled.
abbrev pub whole_file : Bytes → Look
whole_file contents = file (some (length contents)) (some contents)

abbrev pub joined : List Bytes → Bytes
joined [] = []
joined (c ∷ cs) = c ++ joined cs

drop_own : (xs ys : Bytes) → drop (length xs) (xs ++ ys) ≡ ys
drop_own [] ys = refl
drop_own (x ∷ xs) ys = drop_own xs ys

rewind_same :
    (old chunk : Bytes) → rewind (some (length (old ++ chunk))) (state_after old) ≡ state_after old
rewind_same old chunk =
    let more : ltb (length (old ++ chunk)) (length old) ≡ false =
      ground (arith, length-append old chunk) in
    rw more

module _ {F : Type 0} (j : Json F) (trim : Bytes → Bytes) where
  -- A read of a file that has grown by `chunk`.
  pub drain-continued :
      (old chunk : Bytes)
      → drain j trim none (whole_file (old ++ chunk)) (state_after old) ≡ record {
        events = events_in j trim (lines_of ((lines_of old).1 ++ chunk)).0;
        sends = none;
        state = state_after (old ++ chunk);
        going = true;
      }
  unfolding drain
  drain-continued old [] =
      let same = lines_of-partial old in
      rw (rewind_same old [], drop_own old [], append-nil, append-nil, ap (λ r. r.0) same)
  drain-continued old (c ∷ cs) =
      let buf = (lines_of old).1 ++ c ∷ cs in
      let read = emit-lines_of j trim (length buf) buf (omega arith) in
      let tail_of : (lines_of (old ++ c ∷ cs)).1 ≡ (lines_of buf).1 =
        ap (λ r. r.1) (lines_of-append old (c ∷ cs)) in
      let new : (length (c ∷ cs) == 0) ≡ false = ground arith in
      rw (
        rewind_same old (c ∷ cs),
        drop_own old (c ∷ cs),
        read,
        tail_of,
        length-append old (c ∷ cs),
        new,
      )

  -- The polls of a file between which the chunks are appended, from the contents on.
  unfoldable pub follow : TailState → Bytes → List Bytes → List (Event F) × TailState
  follow st contents [] = ([], st)
  follow st contents (chunk ∷ chunks) =
      let d = drain j trim none (whole_file (contents ++ chunk)) st in
      let (events, last) = follow d.state (contents ++ chunk) chunks in (d.events ++ events, last)

  follow-continued :
      (chunks : List Bytes) (old : Bytes)
      → follow (state_after old) old chunks ≡ (
        events_in j trim (lines_of ((lines_of old).1 ++ joined chunks)).0,
        state_after (old ++ joined chunks),
      )
  unfolding follow
  follow-continued [] old = rw (append-nil, append-nil, ap (λ r. r.0) (lines_of-partial old))
  follow-continued (c ∷ cs) old =
      let p = (lines_of old).1 in
      let rest = joined cs in
      let whole : events_in j trim (lines_of (p ++ (c ++ rest))).0
          ≡ events_in j trim (lines_of (p ++ c)).0
            ++ events_in j trim (lines_of ((lines_of (old ++ c)).1 ++ rest)).0 =
        ap (λ t. events_in j trim (lines_of t).0) (sym (append_assoc p c rest))
        ∙ ap (λ r. events_in j trim r.0) (lines_of-append (p ++ c) rest)
        ∙ events_in-append j trim (lines_of (p ++ c)).0 _
        ∙ ap
            (λ t.
              events_in j trim (lines_of (p ++ c)).0 ++ events_in j trim (lines_of (t ++ rest)).0)
            (sym (ap (λ r. r.1) (lines_of-append old c))) in
      rw (drain-continued old c, follow-continued cs (old ++ c), whole, append_assoc old c rest)

  -- A file that grows by appending, in pieces of any size and cut anywhere, yields exactly the
  -- events of its complete lines, each once and in order, as one read of the whole file would;
  -- the bytes behind the last newline are kept for the next poll.
  pub follow-lines_of :
      (chunks : List Bytes)
      → follow fresh_state [] chunks
        ≡ (events_in j trim (lines_of (joined chunks)).0, state_after (joined chunks))
  follow-lines_of chunks = follow-continued chunks []
