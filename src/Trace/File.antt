-- ===== src/Trace/File.antt =====
-- internal/trace/trace.go: `Write` and `Read` of a whole trace, with the `bufio.Scanner` that splits
-- it into lines.
pub mod Fidelity
pub mod Lines
use distributed_gpu_training.Base.{
  ℕ, zero, suc, ◌+◌, ◌^◌, Bool, true, false, Bytes, Option, none, some, List, [], ◌∷◌, ◌++◌, ◌==◌,
  ltb, if◌then◌else◌, length, take,
}
use distributed_gpu_training.Event.{Event}
use distributed_gpu_training.Trace.{Envelope, Json, type_of, decode_line}
use distributed_gpu_training.Collector.Tail.Follow.{lines_of}

-- `json.Marshal` of an event, and the text that the encoder makes of an envelope, without the
-- newline that it puts behind; `none` is an error.
pub record Marshal (F : Type 0) : Type 0 where
  pub marshal : Event F → Option Bytes
  pub encode : Envelope → Option Bytes

-- The lines that were written, and whether `Write` returns an error.
pub record Written : Type 0 where
  pub text : Bytes
  pub failed : Bool

-- What a writer keeps of its next write if that fails, and its behaviour behind a write.
abbrev pub torn : Option (ℕ × ℕ) → Option ℕ
torn none = none
torn (some (zero, kept)) = some kept
torn (some (suc n, kept)) = none

abbrev pub later : Option (ℕ × ℕ) → Option (ℕ × ℕ)
later none = none
later (some (zero, kept)) = some (zero, kept)
later (some (suc n, kept)) = some (n, kept)

-- What a reader gives: its bytes, and then either EOF or another error (`broken`).
pub record Input : Type 0 where
  pub content : Bytes
  pub broken : Bool

pub data ReadError : Type 0 where
  at_line : ℕ → ReadError
  too_long : ReadError
  broken_input : ReadError

-- The two results of `Read`.
pub record ReadResult (F : Type 0) : Type 0 where
  pub events : List (Event F)
  pub error : Option ReadError

-- `16<<20`, the size to which the scanner's buffer may grow.
abbrev pub max_token : ℕ
max_token = 2 ^ 24

-- A line without the carriage return at its end.
abbrev pub drop_cr : Bytes → Bytes
drop_cr [] = []
drop_cr (b ∷ []) = if b == 13 then [] else b ∷ []
drop_cr (b ∷ c ∷ bs) = b ∷ drop_cr (c ∷ bs)

-- What follows the last newline is a line, unless it is empty.
abbrev pub last_line : Bytes → List Bytes
last_line [] = []
last_line (b ∷ bs) = (b ∷ bs) ∷ []

-- The tokens of `Scan` until a line, with its newline, does not fit into the buffer, and whether
-- there was one.
abbrev pub tokens : List Bytes → List Bytes × Bool
tokens [] = ([], false)
tokens (l ∷ ls) =
    let rest = tokens ls in
    if ltb (length l) max_token then (drop_cr l ∷ rest.0, rest.1) else ([], true)

abbrev pub scan : Bytes → List Bytes × Bool
scan text = let lines = lines_of text in tokens (lines.0 ++ last_line lines.1)

-- `sc.Err()`
abbrev pub scan_error : Bool → Bool → Option ReadError
scan_error long broken =
    if long then some too_long else (if broken then some broken_input else none)

module _ {F : Type 0} (w : Marshal F) where
  abbrev pub line_of : Event F → Option Bytes
  line_of e = elim (w.marshal e) [
    | none ↦ none
    | some raw ↦ w.encode (record { kind = type_of e; event = raw })
  ]

  -- `writes` is `none` for a writer that never fails, and `some (n, kept)` for one that fails in
  -- the write behind `n` others, of which it keeps the first `kept` bytes.
  unfoldable pub write : Option (ℕ × ℕ) → List (Event F) → Written
  write writes [] = record { text = []; failed = false }
  write writes (e ∷ es) =
      let rest = write (later writes) es in
      elim (line_of e) [
        | none ↦ record { text = []; failed = true }
        | some line ↦ elim (torn writes) [
          | none ↦ record rest { text = line ++ 10 ∷ rest.text }
          | some kept ↦ record { text = take kept (line ++ 10 ∷ []); failed = true }
        ]
      ]

module _ {F : Type 0} (j : Json F) where
  -- The loop over the tokens, from a line number on, with the events of the lines before.
  unfoldable pub read_loop : ℕ → List (Event F) → List Bytes → Option ReadError → ReadResult F
  read_loop line out [] end = record { events = out; error = end }
  read_loop line out (b ∷ bs) end =
      let skipped = read_loop (suc line) out bs end in
      if length b == 0 then skipped else elim (decode_line j b) [
        | none ↦ record { events = []; error = some (at_line line) }
        | some e ↦ read_loop (suc line) (out ++ e ∷ []) bs end
      ]

  unfoldable pub read : Input → ReadResult F
  unfolding read_loop
  read r = let (lines, long) = scan r.content in read_loop 1 [] lines (scan_error long r.broken)
