-- ===== src/Transport/RoundTrip.antt =====
-- internal/transport/convert.go: the wire form loses nothing that fits it.
use distributed_gpu_training.Base.{
  ◌≡◌, refl, ap, ◌∙◌, sym, ◌↔◌, inl, inr, Option-cases, Option, none, some,
}
use distributed_gpu_training.Base.Int.{ℤ, pos, IsInt32, wrap_32, wrap_32_self, wrap_32-IsInt32}
use distributed_gpu_training.Event.{Event, gpu_metric, nccl}
use distributed_gpu_training.Transport.{
  Payload, EventMessage, to_proto, event_of, from_proto, base_of_message,
}

pub some_cancel : {A : Type 0} (a b : A) → some a ≡ some b → a ≡ b
some_cancel a b h = cc

module _ {F : Type 0} where
  -- Everything but the process count is carried at its full width.
  abbrev pub FitsWire : Event F → Type 0
  FitsWire (gpu_metric v) = IsInt32 v.compute_procs
  FitsWire _ = Unit

  -- The process count that arrives.
  abbrev procs_of : Event F → ℤ
  procs_of (gpu_metric v) = v.compute_procs
  procs_of _ = pos 0

  abbrev narrowed : Event F → Event F
  narrowed (gpu_metric v) = gpu_metric (record v { compute_procs = wrap_32 v.compute_procs })
  narrowed e = e

  from_proto-narrowed : (e : Event F) → from_proto (to_proto e) ≡ some (narrowed e)
  unfolding from_proto to_proto
  from_proto-narrowed (gpu_metric v) = refl
  from_proto-narrowed _ = refl

  narrowed_self : (e : Event F) → FitsWire e → narrowed e ≡ e
  narrowed_self (gpu_metric v) h = rw (wrap_32_self v.compute_procs h)
  narrowed_self _ h = refl

  fits_of_narrowed : (e : Event F) → narrowed e ≡ e → FitsWire e
  fits_of_narrowed (gpu_metric v) h = rw (ap procs_of h) at (wrap_32-IsInt32 v.compute_procs)
  fits_of_narrowed (nccl v) h = tt
  fits_of_narrowed _ h = tt

  -- `FromProto(ToProto(e))` gives back `e` exactly when the process count of a GPU sample fits an
  -- `int32`; every other kind of event always survives.
  pub from_proto-to_proto : (e : Event F) → (from_proto (to_proto e) ≡ some e) ↔ FitsWire e
  from_proto-to_proto e = (
    λ h. fits_of_narrowed e (some_cancel _ _ (sym (from_proto-narrowed e) ∙ h)),
    λ h. from_proto-narrowed e ∙ ap some (narrowed_self e h),
  )

  -- A message as it comes off the wire: its process count is an `int32`.
  abbrev pub IsWire : Option (Payload F) → Type 0
  IsWire (some (Payload.gpu_metric g)) = IsInt32 g.compute_procs
  IsWire _ = Unit

  restored :
      (m : EventMessage F) (p : Payload F)
      → IsWire (some p)
      → to_proto (event_of (base_of_message m) p) ≡ record m { event = some p }
  unfolding to_proto
  restored m (Payload.gpu_metric g) w = rw (wrap_32_self g.compute_procs w)
  restored m (Payload.nccl_collective n) w = refl
  restored m _ w = refl

  decoded :
      (m : EventMessage F) (p : Payload F)
      → m.event ≡ some p
      → from_proto m ≡ some (event_of (base_of_message m) p)
  unfolding from_proto
  decoded m p q = rw (q, from_proto)

  -- `FromProto` refuses exactly the messages with no payload, and `ToProto` gives back every other
  -- message whose process count is an `int32`.
  pub to_proto-from_proto :
      (m : EventMessage F)
      → IsWire m.event
      → ((from_proto m ≡ none) ↔ (m.event ≡ none))
        × ((e : Event F) → from_proto m ≡ some e → to_proto e ≡ m)
  to_proto-from_proto m h = elim (Option-cases m.event) [
    | inl q ↦
        let empty : from_proto m ≡ none = unfold from_proto in rw (q, from_proto) in
        ((λ _. q, λ _. empty), λ e d. cc)
    | inr (p, q) ↦ (
      (λ d. cc (decoded m p q), λ d. cc),
      λ e d.
          let same : event_of (base_of_message m) p ≡ e =
            some_cancel _ _ (sym (decoded m p q) ∙ d) in
          rw (← same, restored m p (rw q at h), ← q),
    )
  ]
