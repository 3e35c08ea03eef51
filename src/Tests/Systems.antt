-- ===== src/Tests/Systems.antt =====
-- The theorem on the whole system at a concrete input: one agent with one collector and one event.
use mathlib.Core.List.{Perm}
use distributed_gpu_training.Base.{ℕ, zero, suc, ◌<◌, ◌≡◌, refl, true, some, none, [], ◌∷◌, arith}
use distributed_gpu_training.Base.Int.{pos}
use distributed_gpu_training.Base.Family.{replace, entries}
use distributed_gpu_training.Base.Merge.{concat_to}
use distributed_gpu_training.Float.Fixed.{Fixed, fixed_float}
use distributed_gpu_training.Event.{Event}
use distributed_gpu_training.Buffer.{RingBuffer, push}
use distributed_gpu_training.Agent.{
  ended, begin, record_and_send, sent, stream_opens, take_event, finish,
}
use distributed_gpu_training.Agent.Flow.{
  Feeder, ranging, selecting, over, is_over, Flow, Moves, still, and_then, range_next, merge,
  range_end, close_merged, in_loop, launch,
}
use distributed_gpu_training.Transport.{to_proto, from_proto}
use distributed_gpu_training.Transport.Server.{Outcome, eof, ack}
use distributed_gpu_training.Transport.Streams.{
  at_recv, ingested, returned, Hub, Rounds, none_yet, one_more, ingest_event, count_event,
  return_from, accept,
}
use distributed_gpu_training.Coordinator.{Options, Live, new_live, ingest, report, analyze}
use distributed_gpu_training.Coordinator.Window.{capacity_of, newest}
use distributed_gpu_training.Coordinator.Stream.{live_server}
use distributed_gpu_training.System.{IsSpent, report-Rounds}
use distributed_gpu_training.Tests.Data.{whole_f, hot}

abbrev only : Event Fixed
only = hot 5 1 true

abbrev settings : Options Fixed
settings = record { threshold_sigma = whole_f 4; attribution_window = pos 500 }

abbrev slots : RingBuffer (Event Fixed)
slots = record { events = none ∷ none ∷ []; mask = 1; written = 0 }

abbrev used : RingBuffer (Event Fixed)
used = record { events = some only ∷ none ∷ []; mask = 1; written = 1 }

abbrev gone : ℕ → Feeder (Event Fixed)
gone =
    replace (replace (replace (λ i. ranging (only ∷ [])) 0 (selecting only [])) 0 (ranging [])) 0
      (over [])

abbrev spent : Flow (Event Fixed)
spent = record {
  feeders = gone;
  log = (0, only) ∷ [];
  closed = true;
  loop = record (begin used []) { phase = ended; opened = true; taken = only ∷ [] };
}

all_gone : (i : ℕ) → i < 1 → is_over (gone i) ≡ true
all_gone zero lt = refl
all_gone (suc i) lt = absurd (omega arith)

whole_run : Moves 1 true (launch slots (λ c. only ∷ [])) spent
unfolding push
whole_run =
    let m1 = and_then still (range_next {i = 0} {e = only} {es = []} (omega arith) refl) in
    let m2 = and_then m1 (merge {i = 0} {e = only} {es = []} (omega arith) refl (omega arith)) in
    let m3 =
      and_then m2 (
        in_loop (record_and_send {e = only} {es = []} {rb = used} refl refl refl refl) (λ h. cc)) in
    let m4 = and_then m3 (in_loop (sent {e = only} refl (omega arith)) (λ h. cc)) in
    let up = and_then m4 (in_loop (stream_opens refl refl refl) (λ h. cc)) in
    let m5 = and_then up (in_loop (take_event {e = only} {es = []} refl refl refl) (λ h. cc)) in
    let m6 = and_then m5 (range_end {i = 0} (omega arith) refl) in
    let m7 = and_then m6 (close_merged refl all_gone) in
    and_then m7 (in_loop (finish refl refl) (λ h. refl))

spent-IsSpent : IsSpent 1 (λ c. only ∷ []) spent
spent-IsSpent = record {
  buffer = slots;
  run = whole_run;
  ended = refl;
  live = refl;
  drained = refl;
  fits = λ i lt. (tt, tt);
}

abbrev final : Hub Fixed (Live Fixed)
final = record {
  calls =
      replace
        (replace (replace (λ i. at_recv (to_proto only ∷ []) 0) 0 (ingested [] 0)) 0 (at_recv [] 1))
        0 (returned (ack 1));
  server = record { handler = some (ingest (new_live settings (pos 4)) only); received = 1 };
  log = (0, only) ∷ [];
}

rounds :
    Rounds ingest 1
      (λ i. eof)
      (accept (live_server settings (pos 4)) (λ i. to_proto only ∷ []))
      final
unfolding from_proto to_proto
rounds =
    let r1 = one_more none_yet (ingest_event {i = 0} (omega arith) refl refl) in
    let r2 = one_more r1 (count_event {i = 0} (omega arith) refl) in
    one_more r2 (return_from {i = 0} (omega arith) refl)

all_returned : (i : ℕ) → i < 1 → (x : Outcome) × (final.calls i ≡ returned x)
all_returned zero lt = (ack 1, refl)
all_returned (suc i) lt = absurd (omega arith)

report-Rounds_example :
    Perm (entries final.log) (concat_to 1 (λ i. concat_to 1 (λ c. only ∷ [])))
    × ((l : Live Fixed) × (final.server.handler ≡ some l)
        × (report l
            ≡ (analyze (newest (capacity_of (pos 4)) (entries final.log)) settings).attributions))
report-Rounds_example =
    report-Rounds settings (pos 4) 1 (λ i. 1) (λ i c. only ∷ []) (λ i. spent) (λ i. eof) final
      (λ i lt. spent-IsSpent) rounds all_returned
