-- ===== src/Collector/Tail/Files.antt =====
-- internal/collector/tail.go: several files that grow by appending, while the collector polls them.
use mathlib.Core.List.{Perm, perm_append_comm}
use mathlib.Core.List.Perm
use distributed_gpu_training.Base.{
  Bool, ◌⊎◌, ◌≡◌, refl, ap, ◌∙◌, inl, inr, true, false, Bool-cases, Bytes, bytes_eq, Option, none,
  some, List, [], ◌∷◌, ◌++◌, append-nil, append_assoc,
}
use distributed_gpu_training.Base.Assoc.{lookup, insert}
use distributed_gpu_training.Base.Int.{ℤ}
use distributed_gpu_training.Event.{Event}
use distributed_gpu_training.Trace.{Json}
use distributed_gpu_training.Collector.Tail.{TailState, Look, state_of, poll}
use distributed_gpu_training.Collector.Tail.Follow.{
  lines_of, lines_of-append, events_in, events_in-append, state_after, whole_file, drain-continued,
}
use distributed_gpu_training.Collector.Tail.Polling.{Round, new_tail_collector, run, start}

-- The files on the disk, each with its contents.
abbrev pub Disk : Type 0
Disk = List (Bytes × Bytes)

-- The contents of a file, which is empty before its first write.
abbrev pub text_of : Option Bytes → Bytes
text_of none = []
text_of (some t) = t

abbrev pub text : Bytes → Disk → Bytes
text path disk = text_of (lookup bytes_eq path disk)

abbrev pub appended : Bytes → Bytes → Disk → Disk
appended path chunk disk = insert bytes_eq path (text path disk ++ chunk) disk

-- The disk after chunks have been appended, each to the file of its path.
abbrev pub grown : Disk → List (Bytes × Bytes) → Disk
grown disk [] = disk
grown disk ((path, chunk) ∷ ws) = grown (appended path chunk disk) ws

-- What a round sees that reads each file just after a chunk has been appended to it.
abbrev pub shown : Disk → List (Bytes × Bytes) → List (Bytes × Look)
shown disk [] = []
shown disk ((path, chunk) ∷ ws) =
    (path, whole_file (text path disk ++ chunk)) ∷ shown (appended path chunk disk) ws

abbrev pub all_grown : Disk → List (List (Bytes × Bytes)) → Disk
all_grown disk [] = disk
all_grown disk (ws ∷ rounds) = all_grown (grown disk ws) rounds

abbrev pub all_shown : Disk → List (List (Bytes × Bytes)) → List Round
all_shown disk [] = []
all_shown disk (ws ∷ rounds) =
    record { seen = shown disk ws; sends = none } ∷ all_shown (grown disk ws) rounds

-- The state of every file that has been read up to its end.
abbrev pub states : Disk → List (Bytes × TailState)
states [] = []
states ((path, t) ∷ disk) = (path, state_after t) ∷ states disk

state_of-states :
    (path : Bytes) (disk : Disk)
    → state_of (lookup bytes_eq path (states disk)) ≡ state_after (text path disk)
state_of-states path [] = refl
state_of-states path ((p, t) ∷ disk) = elim (Bool-cases (bytes_eq p path)) [
  | inl q ↦ rw (q, state_of)
  | inr q ↦ rw (q, state_of) (state_of-states path disk)
]

states-insert :
    (path t : Bytes) (disk : Disk)
    → insert bytes_eq path (state_after t) (states disk) ≡ states (insert bytes_eq path t disk)
states-insert path t [] = refl
states-insert path t ((p, u) ∷ disk) = elim (Bool-cases (bytes_eq p path)) [
  | inl q ↦ rw (q, states)
  | inr q ↦ rw (q, states) (ap (◌∷◌ (p, state_after u)) (states-insert path t disk))
]

Perm-chain :
    {A : Type 0} (a x b y c : List A) → Perm (a ++ x) b → Perm (b ++ y) c → Perm (a ++ (x ++ y)) c
Perm-chain a x b y c h k = rw (← append_assoc) (Perm.trans (Perm.append_right y h) k)

module _ {F : Type 0} (j : Json F) (trim : Bytes → Bytes) where
  -- The events of the complete lines of all files, one file behind the other.
  abbrev pub events_on : Disk → List (Event F)
  events_on [] = []
  events_on ((path, t) ∷ disk) = events_in j trim (lines_of t).0 ++ events_on disk

  -- What a chunk adds to a file.
  abbrev added : Bytes → Bytes → List (Event F)
  added t chunk = events_in j trim (lines_of ((lines_of t).1 ++ chunk)).0

  events_in-grown :
      (t chunk : Bytes)
      → events_in j trim (lines_of (t ++ chunk)).0
        ≡ events_in j trim (lines_of t).0 ++ added t chunk
  events_in-grown t chunk =
      ap (λ r. events_in j trim r.0) (lines_of-append t chunk)
      ∙ events_in-append j trim (lines_of t).0 _

  events_on-insert :
      (path old chunk : Bytes) (disk : Disk)
      → text path disk ≡ old
      → Perm
          (events_on disk ++ added old chunk)
          (events_on (insert bytes_eq path (old ++ chunk) disk))
  events_on-insert path old chunk [] h = rw (← h, append-nil) (Perm.refl (added [] chunk))
  events_on-insert path old chunk ((p, t) ∷ disk) h = elim (Bool-cases (bytes_eq p path)) [
    | inl q ↦
        let same : t ≡ old = rw (q, text_of) at h in
        rw (q, events_on, ← same, events_in-grown t chunk, append_assoc, append_assoc)
          (Perm.append_left (events_in j trim (lines_of t).0)
            (perm_append_comm (events_on disk) (added t chunk)))
    | inr q ↦
        let below : text path disk ≡ old = rw (q, text_of) at h in
        rw (q, events_on, append_assoc)
          (Perm.append_left (events_in j trim (lines_of t).0)
            (events_on-insert path old chunk disk below))
  ]

  poll-grown :
      (disk : Disk) (ws : List (Bytes × Bytes))
      → let p = poll j trim none (states disk) (shown disk ws) in
        Perm (events_on disk ++ p.0) (events_on (grown disk ws))
        × (p.1 ≡ states (grown disk ws))
        × (p.2 ≡ true)
  unfolding poll
  poll-grown disk [] = rw append-nil (Perm.refl (events_on disk), refl, refl)
  poll-grown disk ((path, chunk) ∷ ws) =
      let old = text path disk in
      let (more, last, going) = poll-grown (appended path chunk disk) ws in
      let read = drain-continued j trim old chunk in
      let first : state_of (lookup bytes_eq path (states disk)) ≡ state_after old =
        state_of-states path disk in
      let now = events_on-insert path old chunk disk refl in
      rw (first, read, states-insert path (old ++ chunk) disk, poll)
        (Perm-chain (events_on disk) (added old chunk) _ _ _ now more, last, going)

  run-all_grown :
      (disk : Disk) (rounds : List (List (Bytes × Bytes)))
      → let r = run j trim (states disk) (all_shown disk rounds) in
        Perm (events_on disk ++ r.0) (events_on (all_grown disk rounds))
        × (r.1 ≡ states (all_grown disk rounds))
  unfolding run
  run-all_grown disk [] = rw append-nil (Perm.refl (events_on disk), refl)
  run-all_grown disk (ws ∷ rounds) =
      let (now, files, going) = poll-grown disk ws in
      let (later, last) = run-all_grown (grown disk ws) rounds in
      rw (going, files) (Perm-chain (events_on disk) _ _ _ _ now later, last)

  -- A collector fails to start exactly if its pattern is malformed. Otherwise, if the files that
  -- match only grow, in pieces of any size, and each is read after each of its pieces, it emits in
  -- whatever rounds the events of the complete lines of all files, each exactly as often as it stands
  -- there: no line is lost, sent twice, or mixed with a line of another file.
  pub start-all_grown :
      (is_malformed : Bytes → Bool) (glob : Bytes) (interval : ℤ)
      (rounds : List (List (Bytes × Bytes)))
      → let c = new_tail_collector glob interval in
        let started = start j trim is_malformed c (all_shown [] rounds) in
        ((is_malformed glob ≡ true) × (started ≡ none))
        ⊎ ((is_malformed glob ≡ false)
            × (es : List (Event F)) × (started ≡ some (record c { started = true }, es))
            × Perm es (events_on (all_grown [] rounds)))
  unfolding start new_tail_collector
  start-all_grown is_malformed glob interval rounds = elim (Bool-cases (is_malformed glob)) [
    | inl q ↦ inl (q, rw q)
    | inr q ↦
        let es = (run j trim [] (all_shown [] rounds)).0 in
        inr (q, es, rw q, (run-all_grown [] rounds).0)
  ]
