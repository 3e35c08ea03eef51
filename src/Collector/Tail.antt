-- ===== src/Collector/Tail.antt =====
-- internal/collector/tail.go: `drain`, which reads what is new in a file, and the loop of `Start`
-- over the files. What the file system shows in a call is a `Look`. `sends` is how many sends
-- succeed before the context is cancelled, `none` if it never is. File offsets are far below 2^63.
pub mod Follow
pub mod Polling
pub mod Files
use distributed_gpu_training.Base.{
  ℕ, zero, suc, ◌+◌, Bool, true, false, Bytes, bytes_eq, Option, none, some, List, [], ◌∷◌, ◌++◌,
  ◌==◌, ltb, if◌then◌else◌, length, drop,
}
use distributed_gpu_training.Base.Assoc.{lookup, insert}
use distributed_gpu_training.Event.{Event}
use distributed_gpu_training.Trace.{Json, decode_line}

pub record TailState : Type 0 where
  pub off : ℕ
  pub partial : Bytes

abbrev pub fresh_state : TailState
fresh_state = record { off = 0; partial = [] }

-- `os.Open` fails; or it opens a file with what `Stat` says of its size (`none`: an error) and the
-- whole contents that `Seek` and `ReadAll` find (`none`: an error of one of them).
pub data Look : Type 0 where
  no_file : Look
  file : Option ℕ → Option Bytes → Look

-- `bytes.IndexByte(buf, '\n')` with the two slices around it.
abbrev pub next_line : Bytes → Option (Bytes × Bytes)
next_line [] = none
next_line (b ∷ bs) =
    if b == 10
    then some ([], bs)
    else elim (next_line bs) [ none ↦ none | some (line, rest) ↦ some (b ∷ line, rest) ]

-- A send, with the sends that are left after it; `none` if the context is done.
abbrev pub send : Option ℕ → Option (Option ℕ)
send none = some none
send (some zero) = none
send (some (suc n)) = some (some n)

-- What a loop has sent, the sends left, and the rest of the buffer, or `none` if it was cancelled.
pub record Sent (F : Type 0) : Type 0 where
  pub events : List (Event F)
  pub sends : Option ℕ
  pub rest : Option Bytes

pub record Drained (F : Type 0) : Type 0 where
  pub events : List (Event F)
  pub sends : Option ℕ
  pub state : TailState
  -- False if the context was cancelled.
  pub going : Bool

-- `if err == nil && fi.Size() < st.off { st.off, st.partial = 0, nil }`
abbrev pub rewind : Option ℕ → TailState → TailState
rewind none st = st
rewind (some size) st = if ltb size st.off then fresh_state else st

-- `st := files[m]`, or a fresh state for a file not seen before.
abbrev pub state_of : Option TailState → TailState
state_of none = fresh_state
state_of (some st) = st

module _ {F : Type 0} (j : Json F) (trim : Bytes → Bytes) where
  -- What a complete line yields: `none` for a blank or a bad line. `trim` is `bytes.TrimSpace`.
  abbrev pub event_in : Bytes → Option (Event F)
  event_in raw = let line = trim raw in if length line == 0 then none else decode_line j line

  -- The loop over the lines of the buffer, with one round of fuel for a line.
  unfoldable pub emit : ℕ → Option ℕ → Bytes → Sent F
  emit zero sends buf = record { events = []; sends = sends; rest = some buf }
  emit (suc fuel) sends buf = elim (next_line buf) [
    | none ↦ record { events = []; sends = sends; rest = some buf }
    | some (raw, rest) ↦ elim (event_in raw) [
      | none ↦ emit fuel sends rest
      | some e ↦ elim (send sends) [
        | none ↦ record { events = []; sends = sends; rest = none }
        | some left ↦ let more = emit fuel left rest in record more { events = e ∷ more.events }
      ]
    ]
  ]

  abbrev pub drained : TailState → Sent F → Drained F
  drained st s = elim s.rest [
    | none ↦ record { events = s.events; sends = s.sends; state = st; going = false }
    | some rest ↦ record {
      events = s.events;
      sends = s.sends;
      state = record st { partial = rest };
      going = true;
    }
  ]

  unfoldable pub drain : Option ℕ → Look → TailState → Drained F
  unfolding emit
  drain sends no_file st = record { events = []; sends = sends; state = st; going = true }
  drain sends (file size none) st = record {
    events = [];
    sends = sends;
    state = rewind size st;
    going = true;
  }
  drain sends (file size (some contents)) st =
      let st' = rewind size st in
      let data' = drop st'.off contents in
      let buf = st'.partial ++ data' in
      let read = record st' { off = st'.off + length data' } in
      if length data' == 0
      then record { events = []; sends = sends; state = st'; going = true }
      else drained read (emit (length buf) sends buf)

  -- One round of the loop of `Start` over the files that match, each with what is seen of it.
  unfoldable pub poll :
      Option ℕ
      → List (Bytes × TailState)
      → List (Bytes × Look)
      → List (Event F) × List (Bytes × TailState) × Bool
  unfolding drain
  poll sends files [] = ([], files, true)
  poll sends files ((path, look) ∷ matches) =
      let d = drain sends look (state_of (lookup bytes_eq path files)) in
      let files' = insert bytes_eq path d.state files in
      let (events, last, going) = poll d.sends files' matches in
      if d.going then (d.events ++ events, last, going) else (d.events, files', false)
