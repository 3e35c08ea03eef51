-- ===== src/Tests/Claims.antt =====
-- The theorems on the buffer, the wire, the tail collector and the agent at concrete inputs.
use distributed_gpu_training.Base.{
  ◌++◌, ◌==◌, if◌then◌else◌, ℕ, ◌+◌, ◌-◌, ◌^◌, ◌%◌, ◌≡◌, ◌↔◌, ◌⊎◌, refl, none, some, List, [], ◌∷◌,
  map, true, false, length, drop, min, replicate, length-replicate, All, arith,
}
use distributed_gpu_training.Base.Int.{pos}
use distributed_gpu_training.Float.Fixed.{Fixed, fixed_float}
use distributed_gpu_training.Event.{Event}
use distributed_gpu_training.Buffer.{RingBuffer, push, new, cap, snapshot, len, dropped}
use distributed_gpu_training.Buffer.Refine.{push_all, snapshot-push_all}
use distributed_gpu_training.Transport.{EventMessage, to_proto, from_proto}
use distributed_gpu_training.Transport.RoundTrip.{
  FitsWire, from_proto-to_proto, to_proto-from_proto,
}
use distributed_gpu_training.Transport.Server.{
  Server, StreamEnd, broken, eof, ack, ending, stream_events, accepted, served,
  stream_events-served,
}
use distributed_gpu_training.Transport.Client.{
  Turn, got, closed, waiting, error, opened, cancelled, refusals, waits_from,
}
use distributed_gpu_training.Transport.Session.{
  received, outcome, client_stream_events, client_stream_events-refusals,
}
use distributed_gpu_training.Base.Family.{replace}
use distributed_gpu_training.Transport.Streams.{
  at_recv, ingested, returned, Hub, drop_message, ingest_event, count_event, return_from, Rounds,
  none_yet, one_more, accept,
}
use distributed_gpu_training.Transport.Streams.Served.{IsServed, Rounds-IsServed}
use distributed_gpu_training.Agent.{
  State, sending, begin, record_and_send, sent, cancel, Steps, here, next,
}
use distributed_gpu_training.Agent.Record.{IsBlocked, Steps-IsBlocked}
use distributed_gpu_training.Collector.Tail.{fresh_state}
use distributed_gpu_training.Collector.Tail.Follow.{
  follow, lines_of, events_in, joined, state_after, follow-lines_of,
}
use distributed_gpu_training.Tests.Data.{sample_of, collective, hot, trace, toy_json, chunks}

-- The buffer.
abbrev numbers : List ℕ
numbers = 1 ∷ 2 ∷ 3 ∷ 4 ∷ 5 ∷ 6 ∷ []

snapshot-push_all_example :
    (rb rb' : RingBuffer ℕ) × (new (pos 3) ≡ some rb)
    × (push_all rb numbers ≡ some rb')
    × (cap rb' ≡ cap rb)
    × (snapshot rb' ≡ some (map some (drop (length numbers - cap rb) numbers)))
    × (len rb' ≡ min (length numbers) (cap rb))
    × (dropped rb' ≡ length numbers - cap rb)
snapshot-push_all_example = snapshot-push_all (pos 3) numbers (omega arith) (omega arith)

-- The wire.
abbrev warm_sample : Event Fixed
warm_sample = sample_of 1100 2 0x20 1400

abbrev message : EventMessage Fixed
message = to_proto warm_sample

abbrev no_payload : EventMessage Fixed
no_payload = record { timestamp_ns = pos 7; rank = 3; node_id = []; gpu_uuid = []; event = none }

from_proto-to_proto_example :
    (from_proto (to_proto warm_sample) ≡ some warm_sample) ↔ FitsWire warm_sample
from_proto-to_proto_example = from_proto-to_proto warm_sample

to_proto-from_proto_example :
    ((from_proto no_payload ≡ none) ↔ (no_payload.event ≡ none))
    × ((e : Event Fixed) → from_proto no_payload ≡ some e → to_proto e ≡ no_payload)
to_proto-from_proto_example = to_proto-from_proto no_payload tt

abbrev counting : ℕ → Event Fixed → ℕ
counting n e = n + 1

abbrev server : Server ℕ
server = record { handler = some 0; received = 2 ^ 64 - 1 }

abbrev messages : List (EventMessage Fixed)
messages = to_proto (hot 5 1 true) ∷ no_payload ∷ to_proto (collective 6 1 0 9) ∷ []

stream_events-served_example : stream_events counting server messages broken ≡ (
  served counting server (accepted messages),
  ending (length (accepted messages) % 2 ^ 64) broken,
)
stream_events-served_example = stream_events-served counting server messages broken (omega arith)

pub trace_fits : All FitsWire trace
trace_fits = (
  (omega arith, omega arith),
  (tt, (tt, (tt, (tt, (tt, (tt, (tt, (tt, (tt, (tt, (tt, (tt, (tt, tt))))))))))))),
)

abbrev turns : List (Turn Fixed)
turns = got warm_sample true ∷ got (hot 5 1 true) false ∷ closed (some 2) ∷ []

client_stream_events-refusals_example :
    (client_stream_events (refusals 9) turns
      ≡ record { waits = waits_from 0 9; sent = []; result = waiting })
    × (client_stream_events (refusals 9 ++ cancelled ∷ []) turns
        ≡ record { waits = waits_from 0 9; sent = []; result = error })
    × (client_stream_events (refusals 9 ++ opened ∷ []) turns ≡ record {
      waits = waits_from 0 9;
      sent = map to_proto (received turns);
      result = outcome turns;
    })
client_stream_events-refusals_example = client_stream_events-refusals 9 [] turns

-- Two streams: one with a message that is dropped, and one that breaks.
abbrev sent_by : ℕ → List (EventMessage Fixed)
sent_by i =
    if i == 0 then to_proto (hot 5 1 true) ∷ no_payload ∷ [] else to_proto (collective 6 1 0 9) ∷ []

abbrev ends_of : ℕ → StreamEnd
ends_of i = if i == 0 then eof else broken

abbrev hub : Hub Fixed ℕ
hub = record {
  calls =
      replace
        (replace
          (replace
            (replace (replace (λ i. at_recv (sent_by i) 0) 1 (ingested [] 0)) 0
              (ingested (no_payload ∷ []) 0))
            0 (at_recv (no_payload ∷ []) 1))
          0 (at_recv [] 1))
        0 (returned (ack 1));
  server = record { handler = some 2; received = 0 };
  log = (1, collective 6 1 0 9) ∷ (0, hot 5 1 true) ∷ [];
}

-- The second stream ingests between the rounds of the first, and has not counted yet.
two_streams : Rounds counting 2 ends_of (accept server sent_by) hub
unfolding from_proto to_proto
two_streams =
    let r1 = one_more none_yet (ingest_event {i = 1} (omega arith) refl refl) in
    let r2 = one_more r1 (ingest_event {i = 0} (omega arith) refl refl) in
    let r3 = one_more r2 (count_event {i = 0} (omega arith) refl) in
    let r4 = one_more r3 (drop_message {i = 0} (omega arith) refl refl) in
    one_more r4 (return_from {i = 0} (omega arith) refl)

Rounds-IsServed_example : IsServed counting 2 ends_of server sent_by hub
Rounds-IsServed_example = Rounds-IsServed counting (omega arith) two_streams

-- The tail collector.
follow-lines_of_example :
    follow toy_json (λ l. l) fresh_state [] chunks
    ≡ (events_in toy_json (λ l. l) (lines_of (joined chunks)).0, state_after (joined chunks))
follow-lines_of_example = follow-lines_of toy_json (λ l. l) chunks

-- The agent.
abbrev two_slots : RingBuffer ℕ
two_slots = record { events = none ∷ none ∷ []; mask = 1; written = 0 }

abbrev one_slot_used : RingBuffer ℕ
one_slot_used = record { events = some 7 ∷ none ∷ []; mask = 1; written = 1 }

abbrev in_channel : State ℕ
in_channel = record (begin one_slot_used (8 ∷ [])) { out = 7 ∷ [] }

one_sent : Steps true (begin two_slots (7 ∷ 8 ∷ [])) in_channel
unfolding push
one_sent =
    next
      (next here (record_and_send {e = 7} {es = 8 ∷ []} {rb = one_slot_used} refl refl refl refl))
      (sent {e = 7} refl (omega arith))

abbrev blocked : State ℕ
blocked = record {
  phase = sending 5;
  coming = 6 ∷ [];
  buf = one_slot_used;
  out = replicate 1024 7;
  taken = [];
  opened = true;
  streaming = false;
  cancelled = false;
}

blocked-IsBlocked : IsBlocked blocked
blocked-IsBlocked = record {
  hand = 5;
  select = refl;
  broken = refl;
  full = length-replicate {A = ℕ} 1024 7;
}

abbrev released : State ℕ
released = record blocked { cancelled = true }

Steps-IsBlocked_example : (released.cancelled ≡ true) ⊎ (released ≡ blocked)
Steps-IsBlocked_example = Steps-IsBlocked {client = true} (next here cancel) blocked-IsBlocked
