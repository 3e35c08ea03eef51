-- ===== src/Tests/Agents.antt =====
-- The theorems on the goroutines of an agent at concrete inputs.
use distributed_gpu_training.Base.{
  ℕ, zero, suc, ◌<◌, ◌≡◌, refl, true, false, some, none, List, [], ◌∷◌, ◌==◌, arith, if◌then◌else◌,
}
use distributed_gpu_training.Base.Family.{replace}
use distributed_gpu_training.Buffer.{RingBuffer, push}
use distributed_gpu_training.Agent.{record_only, finish, begin, ended}
use distributed_gpu_training.Agent.Flow.{
  Feeder, ranging, selecting, over, is_over, Flow, range_next, merge, range_end, close_merged,
  in_loop, Moves, still, and_then, launch,
}
use distributed_gpu_training.Agent.Flow.Whole.{IsRun, Moves-IsRun}

abbrev two_slots : RingBuffer ℕ
two_slots = record { events = none ∷ none ∷ []; mask = 1; written = 0 }

-- Two collectors with an event each.
abbrev streams : ℕ → List ℕ
streams i = if i == 0 then 7 ∷ [] else (if i == 1 then 8 ∷ [] else [])

two_over :
    (f : ℕ → Feeder ℕ)
    → is_over (f 0) ≡ true
    → is_over (f 1) ≡ true
    → (i : ℕ) → i < 2
    → is_over (f i) ≡ true
two_over f p q zero lt = p
two_over f p q (suc zero) lt = q
two_over f p q (suc (suc i)) lt = absurd (omega arith)

abbrev one_used : RingBuffer ℕ
one_used = record { events = some 8 ∷ none ∷ []; mask = 1; written = 1 }

abbrev both_used : RingBuffer ℕ
both_used = record { events = some 8 ∷ some 7 ∷ []; mask = 1; written = 2 }

abbrev gone : ℕ → Feeder ℕ
gone =
    replace
      (replace
        (replace
          (replace (replace (replace (λ i. ranging (streams i)) 1 (selecting 8 [])) 1 (ranging []))
            0 (selecting 7 []))
          1 (over []))
        0 (ranging []))
      0 (over [])

abbrev finished : Flow ℕ
finished = record {
  feeders = gone;
  log = (1, 8) ∷ (0, 7) ∷ [];
  closed = true;
  loop = record (begin both_used []) { phase = ended };
}

-- The second collector comes first; all return, and the loop ends.
whole_run : Moves 2 false (launch two_slots streams) finished
unfolding push
whole_run =
    let m1 = and_then still (range_next {i = 1} {e = 8} {es = []} (omega arith) refl) in
    let m2 = and_then m1 (merge {i = 1} {e = 8} {es = []} (omega arith) refl (omega arith)) in
    let m3 = and_then m2 (range_next {i = 0} {e = 7} {es = []} (omega arith) refl) in
    let m4 = and_then m3 (range_end {i = 1} (omega arith) refl) in
    let m5 =
      and_then m4
        (in_loop (record_only {e = 8} {es = []} {rb = one_used} refl refl refl refl) (λ h. h)) in
    let m6 = and_then m5 (merge {i = 0} {e = 7} {es = []} (omega arith) refl (omega arith)) in
    let m7 = and_then m6 (range_end {i = 0} (omega arith) refl) in
    let m8 = and_then m7 (close_merged refl (two_over gone refl refl)) in
    let m9 =
      and_then m8 (
        in_loop (record_only {e = 7} {es = []} {rb = both_used} refl refl refl refl) (λ h. refl)) in
    and_then m9 (in_loop (finish refl refl) (λ h. refl))

Moves-IsRun_example : IsRun 2 false two_slots streams finished
Moves-IsRun_example = Moves-IsRun whole_run
