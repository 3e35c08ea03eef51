-- ===== src/Trace/File/Lines.antt =====
-- internal/trace/trace.go: what `Read` returns, on every input.
use distributed_gpu_training.Base.{
  ℕ, suc, ◌+◌, ◌≡◌, refl, sym, ap, ap₂, ◌∙◌, ◌⊎◌, inl, inr, false, Bytes, Option, none, some, List,
  [], ◌∷◌, ◌++◌, ◌==◌, Option-cases, length, arith, append-nil, append_assoc,
}
use distributed_gpu_training.Event.{Event}
use distributed_gpu_training.Trace.{Json, decode_line}
use distributed_gpu_training.Trace.File.{
  Input, ReadError, at_line, ReadResult, scan, scan_error, read_loop, read,
}

module _ {F : Type 0} (j : Json F) where
  -- The events of lines that are all blank or good, one for each line that is not blank.
  pub data Decodes : List Bytes → List (Event F) → Type 0 where
    no_lines : Decodes [] []
    blank : {ls : List Bytes} {es : List (Event F)} → Decodes ls es → Decodes ([] ∷ ls) es
    good :
        {b : ℕ} {l : Bytes} {ls : List Bytes} {e : Event F} {es : List (Event F)}
        → decode_line j (b ∷ l) ≡ some e
        → Decodes ls es
        → Decodes ((b ∷ l) ∷ ls) (e ∷ es)

  -- A line that is neither.
  abbrev pub IsBad : Bytes → Type 0
  IsBad l = ((length l == 0) ≡ false) × (decode_line j l ≡ none)

  pub read_loop-Decodes :
      (line : ℕ) (out es : List (Event F)) (ls rest : List Bytes) (end : Option ReadError)
      → Decodes ls es
      → read_loop j line out (ls ++ rest) end ≡ read_loop j (length ls + line) (out ++ es) rest end
  unfolding read_loop
  read_loop-Decodes line out es ls rest end no_lines =
      ap₂ (λ n o. read_loop j n o rest end) (omega arith) (sym (append-nil out))
  read_loop-Decodes line out es ls rest end (blank {ls = ks} d) =
      read_loop-Decodes (suc line) out es ks rest end d
      ∙ ap (λ n. read_loop j n (out ++ es) rest end) (omega arith)
  read_loop-Decodes line out es ls rest end (good {b = b} {l = l} {ls = ks} {e = e} {es = fs} q d) =
      let full : (length (b ∷ l) == 0) ≡ false = ground arith in
      rw (full, q)
        (read_loop-Decodes (suc line) (out ++ e ∷ []) fs ks rest end d
          ∙ ap₂ (λ n o. read_loop j n o rest end) (omega arith) (append_assoc out (e ∷ []) fs))

  -- Lines that all decode, or a first one that is bad, behind lines that decode.
  abbrev pub Readable : List Bytes → Type 0
  Readable ls = (es : List (Event F)) × Decodes ls es

  abbrev pub Broken : List Bytes → ℕ → Type 0
  Broken ls n =
      (front : List Bytes) × (bad : Bytes) × (rest : List Bytes) × (ls ≡ front ++ bad ∷ rest)
      × Readable front
      × IsBad bad
      × (length front ≡ n)

  lines_cases : (ls : List Bytes) → Readable ls ⊎ ((n : ℕ) × Broken ls n)
  lines_cases [] = inl ([], no_lines)
  lines_cases ([] ∷ ls) = elim (lines_cases ls) [
    | inl (es, d) ↦ inl (es, blank d)
    | inr (n, (front, bad, rest, q, (es, d), b, len)) ↦
        inr (suc n, ([] ∷ front, bad, rest, ap (◌∷◌ []) q, (es, blank d), b, ap suc len))
  ]
  lines_cases ((b ∷ l) ∷ ls) = elim (Option-cases (decode_line j (b ∷ l))) [
    | inl q ↦ inr (0, ([], b ∷ l, ls, refl, ([], no_lines), (ground arith, q), refl))
    | inr (e, q) ↦ elim (lines_cases ls) [
      | inl (es, d) ↦ inl (e ∷ es, good q d)
      | inr (n, (front, bad, rest, t, (es, d), x, len)) ↦ inr (
        suc n,
        ((b ∷ l) ∷ front, bad, rest, ap (◌∷◌ (b ∷ l)) t, (e ∷ es, good q d), x, ap suc len),
      )
    ]
  ]

  read_loop-Broken :
      (ls : List Bytes) (n : ℕ) (end : Option ReadError)
      → Broken ls n
      → read_loop j 1 [] ls end ≡ record { events = []; error = some (at_line (suc n)) }
  unfolding read_loop
  read_loop-Broken ls n end (front, bad, rest, q, (es, d), b, len) =
      ap (λ k. read_loop j 1 [] k end) q
      ∙ read_loop-Decodes 1 [] es front (bad ∷ rest) end d
      ∙ rw (b.0, b.1) (ap (λ k. record { events = []; error = some (at_line k) }) (omega arith))

  -- The result of `Read` that the scanner's lines call for.
  abbrev pub IsReadOf : Input → ReadResult F → Type 0
  IsReadOf r x =
      ((es : List (Event F)) × Decodes (scan r.content).0 es
        × (x ≡ record { events = es; error = scan_error (scan r.content).1 r.broken }))
      ⊎ ((n : ℕ) × Broken (scan r.content).0 n
          × (x ≡ record { events = []; error = some (at_line (suc n)) }))

  -- What `Read` returns on every input. If every line of the scanner is blank or decodes, it returns
  -- the events of the lines that are not blank, in order, with the scanner's own error, if any: a
  -- line that is too long, or a reader that failed. Otherwise it returns no event, and an error with
  -- the number, counted from 1 and over blank lines too, of the first line that does not decode.
  pub read-IsReadOf : (r : Input) → IsReadOf r (read j r)
  unfolding read read_loop
  read-IsReadOf r =
      let end = scan_error (scan r.content).1 r.broken in
      elim (lines_cases (scan r.content).0) [
        | inl (es, d) ↦ inl (
          es,
          d,
          ap (λ k. read_loop j 1 [] k end) (sym (append-nil (scan r.content).0))
              ∙ read_loop-Decodes 1 [] es (scan r.content).0 [] end d,
        )
        | inr (n, b) ↦ inr (n, b, read_loop-Broken (scan r.content).0 n end b)
      ]
