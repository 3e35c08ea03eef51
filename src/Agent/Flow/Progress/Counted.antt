-- ===== src/Agent/Flow/Progress/Counted.antt =====
-- All goroutines of `Run` (internal/agent/agent.go): what they have not merged yet, and the room of
-- the buffer.
use distributed_gpu_training.Base.{
  ℕ, ◌+◌, ◌^◌, ◌<◌, ◌≡◌, sym, ap, ◌∙◌, inl, inr, Bool, Option-cases, none, some, List, [], ◌∷◌,
  ◌++◌, length, length-append, arith,
}
use distributed_gpu_training.Base.Int.{ℤ, pos, ◌≤ℤ◌}
use distributed_gpu_training.Base.Family.{sum_to, sum_to-replace, sum_to-map, entries, entries-snoc}
use distributed_gpu_training.Buffer.{RingBuffer, new, push}
use distributed_gpu_training.Buffer.Refine.{push_all, snapshot-push_all}
use distributed_gpu_training.Agent.Flow.{
  Feeder, ranging, selecting, over, Flow, range_next, merge, give_up, range_end, close_merged,
  in_loop, Moves, still, and_then, launch,
}
use distributed_gpu_training.Agent.Flow.Fair.{unmerged}

module _ {A : Type 0} where
  abbrev pub left_over : Feeder A → ℕ
  left_over f = length (unmerged f)

  -- What is in the log and what is not make up all events.
  pub Moves-counted :
      {n : ℕ} {client : Bool} {rb : RingBuffer A} {streams : ℕ → List A} {s : Flow A}
      → Moves n client (launch rb streams) s
      → length (entries s.log) + sum_to left_over n s.feeders ≡ sum_to length n streams
  Moves-counted {n} {streams = streams} still =
      omega (arith, sum_to-map left_over ranging n streams)
  Moves-counted {n} (and_then {t} run (range_next {i = i} {e = e} {es = es} lt q)) = omega (
    arith,
    Moves-counted run,
    sum_to-replace left_over n t.feeders i (selecting e es) lt,
    ap left_over q,
  )
  Moves-counted {n} (and_then {t} run (merge {i = i} {e = e} {es = es} lt q small)) = omega (
    arith,
    Moves-counted run,
    sum_to-replace left_over n t.feeders i (ranging es) lt,
    ap left_over q,
    ap length (entries-snoc i e t.log),
    length-append (entries t.log) (e ∷ []),
  )
  Moves-counted {n} (and_then {t} run (give_up {i = i} {e = e} {es = es} lt q done)) = omega (
    arith,
    Moves-counted run,
    sum_to-replace left_over n t.feeders i (over (e ∷ es)) lt,
    ap left_over q,
  )
  Moves-counted {n} (and_then {t} run (range_end {i = i} lt q)) = omega (
    arith,
    Moves-counted run,
    sum_to-replace left_over n t.feeders i (over []) lt,
    ap left_over q,
  )
  Moves-counted (and_then run (close_merged open_yet all)) = Moves-counted run
  Moves-counted (and_then run (in_loop step closed)) = Moves-counted run

  push_all-last :
      (rb rb' rb'' : RingBuffer A) (xs : List A) (x : A)
      → push_all rb xs ≡ some rb'
      → push_all rb (xs ++ x ∷ []) ≡ some rb''
      → push rb' x ≡ some rb''
  unfolding push_all
  push_all-last rb rb' rb'' [] x h k =
      let start : some rb ≡ some rb' = h in
      let same : rb' ≡ rb = cc in
      elim (Option-cases (push rb x)) [
        | inl q ↦ let none_some : none ≡ some rb'' = rw q at k in cc
        | inr (b, q) ↦ let last : some b ≡ some rb'' = rw q at k in rw same (q ∙ last)
      ]
  push_all-last rb rb' rb'' (y ∷ ys) x h k = elim (Option-cases (push rb y)) [
    | inl q ↦ let none_some : none ≡ some rb' = rw q at h in cc
    | inr (b, q) ↦ push_all-last b rb' rb'' ys x (rw q at h) (rw q at k)
  ]

  -- A new buffer takes one more event.
  pub next_push :
      (c : ℤ) (rb b : RingBuffer A) (xs : List A) (x : A)
      → c ≤ℤ pos (2 ^ 62)
      → new c ≡ some rb
      → push_all rb xs ≡ some b
      → length xs + 1 < 2 ^ 64
      → (b' : RingBuffer A) × (push b x ≡ some b')
  next_push c rb b xs x small made run few =
      let (rb', b', made', run', _, _, _, _) =
        snapshot-push_all c (xs ++ x ∷ []) small (omega (arith, few, length-append xs (x ∷ []))) in
      let same : rb' ≡ rb = let e : some rb' ≡ some rb = sym made' ∙ made in cc in
      (b', push_all-last rb b b' xs x run (rw same at run'))
