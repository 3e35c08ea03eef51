-- ===== src/Trace/File/Fidelity/Texts.antt =====
-- internal/trace/trace.go: the text that `Write` leaves of events that can be written.
use distributed_gpu_training.Base.{
  ℕ, zero, suc, ◌<◌, ◌≤◌, ◌⊎◌, inl, inr, true, leb, drop, length-append, ◌≡◌, refl, ap, ◌∙◌, Bool,
  false, Bytes, Option, none, some, List, [], ◌∷◌, ◌++◌, ◌==◌, lt→ltb, length, take, All, arith,
}
use distributed_gpu_training.Event.{Event, gpu_metric, nccl, pcie, nvlink, thermal}
use distributed_gpu_training.Trace.{Json, type_of, as_event, decode, decode_line}
use distributed_gpu_training.Collector.Tail.Follow.{lines_of}
use distributed_gpu_training.Trace.File.{Marshal, max_token, drop_cr, tokens, line_of, write}
use distributed_gpu_training.Trace.File.Lines.{Decodes, no_lines, good}

-- `json.Unmarshal` of the raw JSON into the event's own struct.
abbrev pub event_back : {F : Type 0} → Json F → Event F → Bytes → Option (Event F)
event_back j (gpu_metric v) raw = as_event gpu_metric (j.read_gpu_metric raw)
event_back j (nccl v) raw = as_event nccl (j.read_nccl raw)
event_back j (pcie v) raw = as_event pcie (j.read_pcie raw)
event_back j (nvlink v) raw = as_event nvlink (j.read_nvlink raw)
event_back j (thermal v) raw = as_event thermal (j.read_thermal raw)

-- What `encoding/json` documents of an event without NaN, infinities and invalid UTF-8: both the
-- struct and its envelope come back from their JSON, which is one line, without a newline or a
-- carriage return in it. No shorter beginning of the line is JSON, for the line is an object. The
-- line has to fit into the scanner's buffer.
pub record IsWritable {F : Type 0} (j : Json F) (w : Marshal F) (e : Event F) : Type 0 where
  pub raw : Bytes
  pub first : ℕ
  pub line : Bytes
  pub marshalled : w.marshal e ≡ some raw
  pub encoded : w.encode (record { kind = type_of e; event = raw }) ≡ some (first ∷ line)
  pub envelope_read : j.envelope (first ∷ line) ≡ some (record { kind = type_of e; event = raw })
  pub event_read : event_back j e raw ≡ some e
  pub one_line : All (λ b. ((b == 10) ≡ false) × ((b == 13) ≡ false)) (first ∷ line)
  pub no_part :
      (k : ℕ) → 0 < k → k < length (first ∷ line) → decode_line j (take k (first ∷ line)) ≡ none
  pub fits : length (first ∷ line) < max_token

pub IsPlain : Bytes → Type 0
IsPlain = All (λ b. ((b == 10) ≡ false) × ((b == 13) ≡ false))

pub lines_of-line :
    (l rest : Bytes)
    → IsPlain l
    → lines_of (l ++ 10 ∷ rest) ≡ (l ∷ (lines_of rest).0, (lines_of rest).1)
unfolding IsPlain
lines_of-line [] rest h = refl
lines_of-line (b ∷ l) rest h =
    rw (h.0.0, ap (λ r. r.0) (lines_of-line l rest h.1))
      (ap (λ r. ((b ∷ l) ∷ (lines_of rest).0, r.1)) (lines_of-line l rest h.1))

pub drop_cr_plain : (l : Bytes) → IsPlain l → drop_cr l ≡ l
unfolding IsPlain
drop_cr_plain [] h = refl
drop_cr_plain (b ∷ []) h = rw h.0.1
drop_cr_plain (b ∷ c ∷ l) h = ap (◌∷◌ b) (drop_cr_plain (c ∷ l) h.1)

pub take-IsPlain : (k : ℕ) (l : Bytes) → IsPlain l → IsPlain (take k l)
unfolding IsPlain
take-IsPlain zero l h = tt
take-IsPlain (suc k) [] h = tt
take-IsPlain (suc k) (b ∷ l) h = (h.0, take-IsPlain k l h.1)

lines_of-plain : (l : Bytes) → IsPlain l → lines_of l ≡ ([], l)
unfolding IsPlain
lines_of-plain [] h = refl
lines_of-plain (b ∷ l) h =
    rw (h.0.0, ap (λ r. r.0) (lines_of-plain l h.1))
      (ap (λ r. ([], b ∷ r.1)) (lines_of-plain l h.1))

take-all : (k : ℕ) (l r : Bytes) → k ≤ length l → take k (l ++ r) ≡ take k l
take-all zero l r h = refl
take-all (suc k) [] r h = absurd (omega arith)
take-all (suc k) (b ∷ l) r h = ap (◌∷◌ b) (take-all k l r (omega arith))

pub take-whole : (k : ℕ) (l : Bytes) → length l ≤ k → take k l ≡ l
take-whole zero [] h = refl
take-whole zero (b ∷ l) h = absurd (omega arith)
take-whole (suc k) [] h = refl
take-whole (suc k) (b ∷ l) h = ap (◌∷◌ b) (take-whole k l (omega arith))

length-take_le : (k : ℕ) (l : Bytes) → length (take k l) ≤ length l
length-take_le zero l = omega arith
length-take_le (suc k) [] = omega arith
length-take_le (suc k) (b ∷ l) = omega (arith, length-take_le k l)

module _ {F : Type 0} (j : Json F) (w : Marshal F) where
  decode_own :
      (e : Event F) (raw : Bytes)
      → decode j (record { kind = type_of e; event = raw }) ≡ event_back j e raw
  unfolding decode
  decode_own (gpu_metric v) raw = refl
  decode_own (nccl v) raw = refl
  decode_own (pcie v) raw = refl
  decode_own (nvlink v) raw = refl
  decode_own (thermal v) raw = refl

  pub decode_line-IsWritable :
      (e : Event F) (p : IsWritable j w e) → decode_line j (p.first ∷ p.line) ≡ some e
  unfolding decode_line
  decode_line-IsWritable e p = rw (p.envelope_read, decode_line) (decode_own e p.raw ∙ p.event_read)

  pub line_of-IsWritable :
      (e : Event F) (p : IsWritable j w e) → line_of w e ≡ some (p.first ∷ p.line)
  line_of-IsWritable e p = rw (p.marshalled, line_of) p.encoded

  -- A text of complete lines that fit and decode, one for each event, and a rest.
  pub record IsTrace (text : Bytes) (es : List (Event F)) (rest : Bytes) : Type 0 where
    pub lines : List Bytes
    pub complete : lines_of text ≡ (lines, rest)
    pub tokenised :
        (ls : List Bytes) → tokens (lines ++ ls) ≡ (lines ++ (tokens ls).0, (tokens ls).1)
    pub decodes : Decodes j lines es
    pub as_many : length lines ≡ length es

  nil-IsTrace : (rest : Bytes) → IsPlain rest → IsTrace rest [] rest
  nil-IsTrace rest h = record {
    lines = [];
    complete = lines_of-plain rest h;
    tokenised = λ ls. refl;
    decodes = no_lines;
    as_many = refl;
  }

  cons-IsTrace :
      (e : Event F) (p : IsWritable j w e) (text : Bytes) (es : List (Event F)) (rest : Bytes)
      → IsTrace text es rest
      → IsTrace ((p.first ∷ p.line) ++ 10 ∷ text) (e ∷ es) rest
  unfolding IsPlain
  cons-IsTrace e p text es rest t = record {
    lines = (p.first ∷ p.line) ∷ t.lines;
    complete =
        lines_of-line (p.first ∷ p.line) text p.one_line
        ∙ ap (λ r. ((p.first ∷ p.line) ∷ r.0, r.1)) t.complete;
    tokenised = λ ls.
        rw
          (
            lt→ltb (length (p.first ∷ p.line)) max_token p.fits,
            drop_cr_plain (p.first ∷ p.line) p.one_line,
            t.tokenised ls,
          )
          refl;
    decodes = good (decode_line-IsWritable e p) t.decodes;
    as_many = ap suc t.as_many;
  }

  pub write-IsTrace :
      (es : List (Event F))
      → All (IsWritable j w) es
      → IsTrace (write w none es).text es [] × ((write w none es).failed ≡ false)
  unfolding write IsPlain
  write-IsTrace [] h = (nil-IsTrace [] tt, refl)
  write-IsTrace (e ∷ es) h =
      let (rest, end) = write-IsTrace es h.1 in
      rw (line_of-IsWritable e h.0, write) (cons-IsTrace e h.0 _ es [] rest, end)

  -- Whether the bytes that are left of the line of an event are all of it.
  abbrev pub is_whole : ℕ → Event F → Bool
  is_whole kept e = elim (line_of w e) [ none ↦ false | some l ↦ leb (length l) kept ]

  -- What was written when the writer failed behind the events of `front`, in the write of `e`.
  abbrev pub IsTorn : List (Event F) → Event F → ℕ → Bytes → Type 0
  IsTorn front e kept text =
      (p : IsWritable j w e) × (((length (p.first ∷ p.line) < kept)
          × IsTrace text (front ++ e ∷ []) [])
        ⊎ ((kept ≤ length (p.first ∷ p.line)) × IsTrace text front (take kept (p.first ∷ p.line))))

  take-IsTorn :
      (e : Event F) (p : IsWritable j w e) (kept : ℕ)
      → IsTorn [] e kept (take kept ((p.first ∷ p.line) ++ 10 ∷ []))
  unfolding IsPlain
  take-IsTorn e p kept =
      let l = p.first ∷ p.line in
      let side : (length l < kept) ⊎ (kept ≤ length l) = ground arith in
      elim side [
        | inl long ↦
            let all = take-whole kept (l ++ 10 ∷ []) (omega (arith, length-append l (10 ∷ []))) in
            (p, inl (long, rw all (cons-IsTrace e p [] [] [] (nil-IsTrace [] tt))))
        | inr short ↦ (
          p,
          inr (
            short,
            rw (take-all kept l (10 ∷ []) short)
                (nil-IsTrace (take kept l) (take-IsPlain kept l p.one_line)),
          ),
        )
      ]

  later-IsTorn :
      (f : Event F) (q : IsWritable j w f) (front : List (Event F)) (e : Event F) (kept : ℕ)
      (text : Bytes)
      → IsTorn front e kept text
      → IsTorn (f ∷ front) e kept ((q.first ∷ q.line) ++ 10 ∷ text)
  later-IsTorn f q front e kept text (p, inl (long, t)) =
      (p, inl (long, cons-IsTrace f q text (front ++ e ∷ []) [] t))
  later-IsTorn f q front e kept text (p, inr (short, t)) =
      (p, inr (short, cons-IsTrace f q text front _ t))

  -- A failing writer fails, unless there are no more events than writes before that.
  pub write-IsTorn :
      (n kept : ℕ) (es : List (Event F))
      → All (IsWritable j w) es
      → let r = write w (some (n, kept)) es in
        ((drop n es ≡ []) × IsTrace r.text es [] × (r.failed ≡ false))
        ⊎ ((e : Event F) × (back : List (Event F)) × (drop n es ≡ e ∷ back)
            × (length (take n es) ≡ n)
            × (r.failed ≡ true)
            × IsTorn (take n es) e kept r.text)
  unfolding write IsPlain
  write-IsTorn zero kept [] h = inl (refl, nil-IsTrace [] tt, refl)
  write-IsTorn (suc n) kept [] h = inl (refl, nil-IsTrace [] tt, refl)
  write-IsTorn zero kept (e ∷ es) h =
      rw (line_of-IsWritable e h.0, write) (inr (e, es, refl, refl, refl, take-IsTorn e h.0 kept))
  write-IsTorn (suc n) kept (e ∷ es) h =
      rw (line_of-IsWritable e h.0, write)
        (elim (write-IsTorn n kept es h.1) [
          | inl (q, t, ok) ↦ inl (q, cons-IsTrace e h.0 _ es [] t, ok)
          | inr (f, back, q, many, bad, t) ↦
              inr (f, back, q, ap suc many, bad, later-IsTorn e h.0 (take n es) f kept _ t)
        ])

  pub line-IsPlain : (e : Event F) (p : IsWritable j w e) → IsPlain (p.first ∷ p.line)
  unfolding IsPlain
  line-IsPlain e p = p.one_line
