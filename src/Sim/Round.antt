-- ===== src/Sim/Round.antt =====
-- internal/sim/sim.go: what one round of the two loops of `Generate` emits, whatever the generator of
-- random numbers yields.
use distributed_gpu_training.Base.{
  ℕ, ◌%◌, ◌≡◌, refl, ◌∙◌, ◌⊎◌, Bool, true, false, inl, inr, List, [], ◌∷◌, ◌==◌, ◌&&◌, Bool-cases,
}
use distributed_gpu_training.Base.Int.{ℤ, pos, eqb_ℤ}
use distributed_gpu_training.Float.{Float64, zero_f}
use distributed_gpu_training.Event.{BaseEvent, GpuMetric, Event, gpu_metric, nccl, pcie, nvlink}
use distributed_gpu_training.Sim.{
  Fault, thermal, power, ecc, pcie_fault, nvlink_fault, stalled, contention, contention_hidden,
  compound, clean, other, Params, Rng, SimState, Readings, is_faulty, base_event, base_procs,
  all_reduce, afflict, healthy, collective_at, sample_events, sample, emit_rank,
}

module _ {F : Type 0} ⦃d : Float64 F⦄ where
  -- No throttling, the full clock, and the usual number of processes.
  pub record IsHealthy (f : Fault) (m : GpuMetric F) : Type 0 where
    pub unthrottled : m.throttle_reasons ≡ 0
    pub full_clock : m.sm_clock_mhz ≡ d.lit 1900 0
    pub alone : m.compute_procs ≡ base_procs f

  -- A sample of the base event, which is healthy unless `hit`.
  abbrev pub IsReading : Fault → Bool → BaseEvent → GpuMetric F → Type 0
  IsReading f hit base m = (m.base ≡ base) × (IsHealthy f m ⊎ (hit ≡ true))

  -- The events of the rank `r` in the step `s`.
  pub data IsRound (f : Fault) (hit : Bool) (s r : ℕ) : List (Event F) → Type 0 where
    plain :
        {duration : ℤ}
        → ((s % 5) == 0) ≡ false
        → IsRound f hit s r (nccl (all_reduce s r duration) ∷ [])
    sampled :
        {duration : ℤ} {m : GpuMetric F} {mbs gb : F}
        → ((s % 5) == 0) ≡ true
        → IsReading f hit (base_event s r) m
        → IsRound f hit s r (
            nccl (all_reduce s r duration)
            ∷ gpu_metric m
            ∷ pcie
                (record { base = base_event s r; read_bandwidth = mbs; write_bandwidth = zero_f })
            ∷ nvlink (record { base = base_event s r; link_id = 0; throughput_gb = gb })
            ∷ [])

module _ {F S : Type 0} ⦃d : Float64 F⦄ (g : Rng S F) where
  healthy-base :
      (f : Fault) (base : BaseEvent) (rng : S) → (healthy g f base rng).0.metric.base ≡ base
  unfolding healthy
  healthy-base f base rng = refl

  healthy-IsHealthy :
      (f : Fault) (base : BaseEvent) (rng : S) → IsHealthy f (healthy g f base rng).0.metric
  unfolding healthy
  healthy-IsHealthy f base rng = record { unthrottled = refl; full_clock = refl; alone = refl }

  afflict-base :
      (f : Fault) (x : Readings F) (rng : S) → (afflict g f x rng).0.metric.base ≡ x.metric.base
  unfolding afflict
  afflict-base clean x rng = refl
  afflict-base thermal x rng = refl
  afflict-base power x rng = refl
  afflict-base ecc x rng = refl
  afflict-base pcie_fault x rng = refl
  afflict-base nvlink_fault x rng = refl
  afflict-base stalled x rng = refl
  afflict-base contention x rng = refl
  afflict-base contention_hidden x rng = refl
  afflict-base compound x rng = refl
  afflict-base (other name) x rng = refl

  -- The events of a sample.
  record IsSample (f : Fault) (hit : Bool) (base : BaseEvent) (es : List (Event F)) : Type 0 where
    m : GpuMetric F
    mbs : F
    gb : F
    reading : IsReading f hit base m
    shape :
        es
        ≡ gpu_metric m
          ∷ pcie (record { base = base; read_bandwidth = mbs; write_bandwidth = zero_f })
          ∷ nvlink (record { base = base; link_id = 0; throughput_gb = gb })
          ∷ []

  sample-IsSample :
      (f : Fault) (hit : Bool) (base : BaseEvent) (st : SimState S)
      → IsSample f hit base (sample g f hit base st).0
  unfolding sample sample_events
  sample-IsSample f true base st =
      let (x, rng) = healthy g f base st.rng in
      record {
        m = _;
        mbs = _;
        gb = _;
        reading = (afflict-base f x rng ∙ healthy-base f base st.rng, inr refl);
        shape = refl;
      }
  sample-IsSample f false base st =
      let h = healthy-IsHealthy f base st.rng in
      record {
        m = _;
        mbs = _;
        gb = _;
        reading = (
          healthy-base f base st.rng,
          inl (record { unthrottled = h.unthrottled; full_clock = h.full_clock; alone = h.alone }),
        );
        shape = refl;
      }

  collective_at-all_reduce :
      (p : Params F) (straggler : ℤ) (faulty : Bool) (s r : ℕ) (rng : S)
      → (duration : ℤ) × ((collective_at g p straggler faulty s r rng).0
          ≡ nccl (all_reduce s r duration))
  unfolding collective_at
  collective_at-all_reduce p straggler faulty s r rng = (_, refl)

  -- Each round emits the collective of its rank and step, and in every fifth step a sample and the
  -- two bandwidths; a sample that is not healthy is one of the straggler in the faulty part.
  pub emit_rank-IsRound :
      (p : Params F) (straggler : ℤ) (onset s r : ℕ) (st : SimState S)
      → IsRound p.fault
          (is_faulty p.fault onset s && eqb_ℤ (pos r) straggler)
          s
          r
          (emit_rank g p straggler onset s r st).0
  unfolding emit_rank
  emit_rank-IsRound p straggler onset s r st =
      let faulty = is_faulty p.fault onset s in
      let (duration, c) = collective_at-all_reduce p straggler faulty s r st.rng in
      let st' : SimState S = record st {
        rng = (collective_at g p straggler faulty s r st.rng).1;
      } in
      let x = sample-IsSample p.fault (faulty && eqb_ℤ (pos r) straggler) (base_event s r) st' in
      elim (Bool-cases ((s % 5) == 0)) [
        | inl q ↦ rw (q, c, x.shape) (sampled q x.reading)
        | inr q ↦ rw (q, c) (plain q)
      ]
