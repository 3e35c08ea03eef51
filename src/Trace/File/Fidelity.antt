-- ===== src/Trace/File/Fidelity.antt =====
-- internal/trace/trace.go: a trace that is written and read back.
pub mod Texts
use distributed_gpu_training.Trace.File.Fidelity.Texts.{
  IsWritable, IsPlain, take-IsPlain, drop_cr_plain, take-whole, decode_line-IsWritable,
  line_of-IsWritable, IsTrace, is_whole, IsTorn, line-IsPlain, write-IsTrace, write-IsTorn,
}
use distributed_gpu_training.Base.{
  ℕ, zero, suc, ◌+◌, ◌<◌, ◌≤◌, ◌⊎◌, inl, inr, true, leb, drop, if◌then◌else◌, length-take,
  length-drop, length-append, ◌≡◌, refl, sym, ap, ◌∙◌, Bool, false, Bytes, Option, none, some, List,
  [], ◌∷◌, ◌++◌, ◌==◌, ltb, lt→ltb, length, take, All, arith,
}
use distributed_gpu_training.Event.{Event, gpu_metric, nccl, pcie, nvlink, thermal}
use distributed_gpu_training.Trace.{Json, type_of, as_event, decode, decode_line}
use distributed_gpu_training.Collector.Tail.Follow.{lines_of}
use distributed_gpu_training.Trace.File.{
  Marshal, max_token, drop_cr, tokens, line_of, write, ReadResult, at_line, read_loop, read,
}
use distributed_gpu_training.Trace.File.Lines.{Decodes, no_lines, good, read_loop-Decodes}

module _ {F : Type 0} (j : Json F) (w : Marshal F) where
  read-IsTrace :
      (text : Bytes) (es : List (Event F))
      → IsTrace j w text es []
      → read j (record { content = text; broken = false }) ≡ record { events = es; error = none }
  unfolding read read_loop
  read-IsTrace text es t =
      rw (ap (λ r. r.0) t.complete, ap (λ r. r.1) t.complete, t.tokenised [])
        (read_loop-Decodes j 1 [] es t.lines [] none t.decodes)

  -- A rest that is not empty is one more line.
  read-rest :
      (text : Bytes) (es : List (Event F)) (b : ℕ) (bs : Bytes)
      → IsTrace j w text es (b ∷ bs)
      → IsPlain (b ∷ bs)
      → length (b ∷ bs) < max_token
      → read j (record { content = text; broken = false }) ≡ elim (decode_line j (b ∷ bs)) [
        | none ↦ record { events = []; error = some (at_line (suc (length es))) }
        | some e ↦ record { events = es ++ e ∷ []; error = none }
      ]
  unfolding read read_loop
  read-rest text es b bs t plain fits =
      let full : (length (b ∷ bs) == 0) ≡ false = ground arith in
      let count : length t.lines + 1 ≡ suc (length es) = omega (arith, t.as_many) in
      rw
        (
          ap (λ r. r.0) t.complete,
          ap (λ r. r.1) t.complete,
          t.tokenised ((b ∷ bs) ∷ []),
          lt→ltb (length (b ∷ bs)) max_token fits,
          drop_cr_plain (b ∷ bs) plain,
        )
        (read_loop-Decodes j 1 [] es t.lines ((b ∷ bs) ∷ []) none t.decodes
          ∙ ap (λ k. read_loop j k es ((b ∷ bs) ∷ []) none) count
          ∙ rw full refl)

  -- What is read of a trace whose writer failed behind `n` writes: the events of these; of the next
  -- one nothing is there, or a part of its line, which is an error, or the whole of it.
  abbrev pub read_torn : ℕ → ℕ → List (Event F) → ReadResult F
  read_torn n kept es = elim (drop n es) [
    | [] ↦ record { events = es; error = none }
    | e ∷ _ ↦
        if kept == 0
        then record { events = take n es; error = none }
        else (if is_whole j w kept e
            then record { events = take n es ++ e ∷ []; error = none }
            else record { events = []; error = some (at_line (suc n)) })
  ]

  drop-none : (n : ℕ) (es : List (Event F)) → drop n es ≡ [] → ltb n (length es) ≡ false
  drop-none n es q = let d = length-drop n es in ground (arith, d, ap length q)

  drop-some :
      (n : ℕ) (es back : List (Event F)) (e : Event F)
      → drop n es ≡ e ∷ back
      → ltb n (length es) ≡ true
  drop-some n es back e q = let d = length-drop n es in ground (arith, d, ap length q)

  -- What is read of a torn trace.
  read-IsTorn :
      (n kept : ℕ) (es back : List (Event F)) (e : Event F) (text : Bytes)
      → drop n es ≡ e ∷ back
      → length (take n es) ≡ n
      → IsTorn j w (take n es) e kept text
      → read j (record { content = text; broken = false }) ≡ read_torn n kept es
  read-IsTorn n kept es back e text q many (p, inl (long, t)) =
      let l = line_of-IsWritable j w e p in
      let some_kept : (kept == 0) ≡ false = ground arith in
      let all : leb (length (p.first ∷ p.line)) kept ≡ true = ground arith in
      rw (q, read_torn, some_kept, l, is_whole, all) (read-IsTrace text (take n es ++ e ∷ []) t)
  read-IsTorn n zero es back e text q many (p, inr (short, t)) =
      rw (q, read_torn) (read-IsTrace text (take n es) t)
  read-IsTorn n (suc k) es back e text q many (p, inr (short, t)) =
      let l = line_of-IsWritable j w e p in
      let part = take k p.line in
      let fits : length (p.first ∷ part) < max_token =
        omega (arith, p.fits, length-take k p.line) in
      let said =
        read-rest text (take n es) p.first part t
          (take-IsPlain (suc k) (p.first ∷ p.line) (line-IsPlain j w e p)) fits in
      let side : (suc k < length (p.first ∷ p.line)) ⊎ (length (p.first ∷ p.line) ≡ suc k) =
        ground arith in
      elim side [
        | inl less ↦
            let none_kept : (suc k == 0) ≡ false = ground arith in
            let not_all : leb (length (p.first ∷ p.line)) (suc k) ≡ false = ground arith in
            rw (q, read_torn, none_kept, l, is_whole, not_all)
              (said ∙ rw (p.no_part (suc k) (omega arith) less, many) refl)
        | inr same ↦
            let none_kept : (suc k == 0) ≡ false = ground arith in
            let all : leb (length (p.first ∷ p.line)) (suc k) ≡ true = ground arith in
            let whole : take (suc k) (p.first ∷ p.line) ≡ p.first ∷ p.line =
              take-whole (suc k) (p.first ∷ p.line) (omega arith) in
            rw (q, read_torn, none_kept, l, is_whole, all)
              (said ∙ rw (whole, decode_line-IsWritable j w e p) refl)
      ]

  -- A trace of writable events comes back whole: `Write` returns no error, and `Read` of its text
  -- returns exactly the events, in order, without an error. If the writer fails behind `n` writes
  -- and keeps some bytes of the next line, `Write` returns an error. `Read` then returns the events
  -- of these writes if nothing of the next line was kept, also the next event if the line was kept
  -- without its newline or with it, and otherwise no event and the number of the torn line.
  pub read-write :
      (n kept : ℕ) (es : List (Event F))
      → All (IsWritable j w) es
      → let whole = write w none es in
        let part = write w (some (n, kept)) es in
        (read j (record { content = whole.text; broken = false })
          ≡ record { events = es; error = none })
        × (whole.failed ≡ false)
        × (read j (record { content = part.text; broken = false }) ≡ read_torn n kept es)
        × (part.failed ≡ ltb n (length es))
  read-write n kept es h =
      let (t, end) = write-IsTrace j w es h in
      let whole = read-IsTrace (write w none es).text es t in
      elim (write-IsTorn j w n kept es h) [
        | inl (q, some_t, ok) ↦
            (whole, end, rw (q, read_torn) (read-IsTrace _ es some_t), ok ∙ sym (drop-none n es q))
        | inr (e, back, q, many, bad, torn_t) ↦ (
          whole,
          end,
          read-IsTorn n kept es back e _ q many torn_t,
          bad ∙ sym (drop-some n es back e q),
        )
      ]
