-- ===== src/Tests/Traces.antt =====
-- The theorems on trace files and on their replay, at concrete inputs.
use mathlib.Core.List.{Perm}
use distributed_gpu_training.Base.{
  ℕ, ◌≡◌, ◌⊎◌, refl, Bytes, List, codes, none, some, [], ◌∷◌, ◌==◌, true, false, arith, ltb, length,
}
use distributed_gpu_training.Base.Int.{pos, negsuc}
use distributed_gpu_training.Float.Fixed.{Fixed, fixed_float}
use distributed_gpu_training.Event.{Event, timestamp_ns, thermal}
use distributed_gpu_training.Trace.File.{Marshal, Input, write, read}
use distributed_gpu_training.Trace.File.Lines.{IsReadOf, read-IsReadOf}
use distributed_gpu_training.Trace.File.Fidelity.Texts.{IsWritable}
use distributed_gpu_training.Trace.File.Fidelity.{read_torn, read-write}
use distributed_gpu_training.Collector.Tail.Polling
use distributed_gpu_training.Collector.Tail.Polling.{new_tail_collector}
use distributed_gpu_training.Collector.Tail.Files.{events_on, all_grown, all_shown, start-all_grown}
use distributed_gpu_training.Collector.Replay.{new_replay_collector, start}
use distributed_gpu_training.Collector.Replay.Ranks.{start_result, start-keep}
use distributed_gpu_training.Collector.Replay.Partition.{play_all, play_all-perm}
use distributed_gpu_training.Tests.Data.{toy_json, whole_f, late_group}

-- The time of an event as one byte, and a codec that keeps nothing else.
abbrev time_byte : Event Fixed → Bytes
time_byte e = elim (timestamp_ns e) [ pos n ↦ n ∷ [] | negsuc n ↦ [] ]

abbrev pub toy_marshal : Marshal Fixed
toy_marshal = record { marshal = λ e. some (time_byte e); encode = λ env. some env.event }

abbrev pub warm : ℕ → Event Fixed
warm b = thermal (record {
  base = record { timestamp = pos b; rank_id = 0; node_id = codes "n0"; gpu_uuid = codes "g0" };
  temperature_c = whole_f 70;
  throttle_active = true;
})

pub warm-IsWritable :
    (b : ℕ)
    → (b == 10) ≡ false
    → (b == 13) ≡ false
    → (b == 120) ≡ false
    → IsWritable toy_json toy_marshal (warm b)
warm-IsWritable b p q r = record {
  raw = b ∷ [];
  first = b;
  line = [];
  marshalled = refl;
  encoded = refl;
  envelope_read = refl;
  event_read = rw r refl;
  one_line = ((p, q), tt);
  no_part = λ k a b. absurd (omega arith);
  fits = ground arith;
}

-- A good line, a blank one, one that does not decode, and a good one.
abbrev bad_input : Input
bad_input = record { content = 65 ∷ 10 ∷ 10 ∷ 120 ∷ 10 ∷ 66 ∷ 10 ∷ []; broken = false }

abbrev good_input : Input
good_input = record { content = 65 ∷ 10 ∷ 66 ∷ 10 ∷ 67 ∷ []; broken = false }

read-IsReadOf_example : IsReadOf toy_json bad_input (read toy_json bad_input)
read-IsReadOf_example = read-IsReadOf toy_json bad_input

read-write_example :
    let es = warm 65 ∷ warm 66 ∷ [] in
    let whole = write toy_marshal none es in
    let part = write toy_marshal (some (1, 0)) es in
    (read toy_json (record { content = whole.text; broken = false })
      ≡ record { events = es; error = none })
    × (whole.failed ≡ false)
    × (read toy_json (record { content = part.text; broken = false })
        ≡ read_torn toy_json toy_marshal 1 0 es)
    × (part.failed ≡ ltb 1 (length es))
read-write_example =
    read-write toy_json toy_marshal 1 0 (warm 65 ∷ warm 66 ∷ [])
      (warm-IsWritable 65 refl refl refl, (warm-IsWritable 66 refl refl refl, tt))

start-keep_example :
    start toy_json (some 1) (new_replay_collector (0 ∷ 3 ∷ [])) (some good_input)
    ≡ start_result toy_json (0 ∷ 3 ∷ []) (some 1) (some good_input)
start-keep_example = start-keep toy_json (0 ∷ 3 ∷ []) (some 1) (some good_input)

-- Two collectors for three ranks.
play_all-perm_example : Perm (play_all ((0 ∷ 2 ∷ []) ∷ (1 ∷ []) ∷ []) (late_group 0)) (late_group 0)
play_all-perm_example =
    play_all-perm ((0 ∷ 2 ∷ []) ∷ (1 ∷ []) ∷ []) (late_group 0) (tt, (tt, tt))
      (refl, (refl, (refl, tt)))

-- Two files, written in pieces that end in the middle of a line, in three rounds.
abbrev writings : List (List (Bytes × Bytes))
writings =
    ((codes "rank0", 65 ∷ []) ∷ (codes "rank1", 66 ∷ 10 ∷ 67 ∷ []) ∷ [])
    ∷ ((codes "rank1", 68 ∷ 10 ∷ []) ∷ (codes "rank0", 69 ∷ 10 ∷ 70 ∷ []) ∷ [])
    ∷ ((codes "rank0", 10 ∷ []) ∷ [])
    ∷ []

start-all_grown_example :
    let c = new_tail_collector (codes "rank*") (pos 0) in
    let started = Polling.start toy_json (λ l. l) (λ g. false) c (all_shown [] writings) in
    ((false ≡ true) × (started ≡ none))
    ⊎ ((false ≡ false)
        × (es : List (Event Fixed)) × (started ≡ some (record c { started = true }, es))
        × Perm es (events_on toy_json (λ l. l) (all_grown [] writings)))
start-all_grown_example =
    start-all_grown toy_json (λ l. l) (λ g. false) (codes "rank*") (pos 0) writings
