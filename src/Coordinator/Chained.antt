-- ===== src/Coordinator/Chained.antt =====
-- internal/coordinator/coordinator.go: no attribution of a report has an empty chain.
use distributed_gpu_training.Base.{◌≡◌, refl, ap, ◌∙◌, List, [], ◌∷◌, All, All-map_imp}
use distributed_gpu_training.Float.{Float64}
use distributed_gpu_training.Event.{Event}
use distributed_gpu_training.Correlator.Detect.{Anomaly}
use distributed_gpu_training.Attribution.Rules.{CausalLink}
use distributed_gpu_training.Attribution.Engine.{Engine, Attribution, or_unknown, attribute}
use distributed_gpu_training.Coordinator.{Options, analyze}
use distributed_gpu_training.Coordinator.Analysis.{IsExplained, analyze-IsExplained, engine_of}

module _ {F : Type 0} where
  abbrev pub HasLink : Attribution F → Type 0
  HasLink a = (l : CausalLink F) × (ls : List (CausalLink F)) × (a.causal_chain ≡ l ∷ ls)

module _ {F : Type 0} ⦃d : Float64 F⦄ where
  or_unknown-head :
      (xs : List (CausalLink F))
      → (l : CausalLink F) × (ls : List (CausalLink F)) × (or_unknown xs ≡ l ∷ ls)
  or_unknown-head [] = (_, _, refl)
  or_unknown-head (x ∷ xs) = (x, xs, refl)

  attribute-HasLink :
      (eng : Engine) (a : Anomaly F) (own : List (Event F)) → HasLink (attribute eng a own)
  unfolding attribute
  attribute-HasLink eng a own = or_unknown-head _

  pub analyze-HasLink :
      (es : List (Event F)) (o : Options F) → All HasLink (analyze es o).attributions
  analyze-HasLink es o =
      All-map_imp (IsExplained (engine_of o) es) HasLink (analyze es o).attributions
        (λ x e.
          let (l, ls, q) = attribute-HasLink (engine_of o) x.anomaly e.own in
          (l, ls, ap (λ y. y.causal_chain) e.answer ∙ q))
        (analyze-IsExplained es o).0
