-- ===== src/Transport/Report.antt =====
-- internal/transport/grpc.go: `Server.GetReport`. Its messages are declared in
-- api/proto/flightrecorder.pb.go.
use distributed_gpu_training.Base.{ℕ, Bytes, Option, none, some, List, [], ◌∷◌, map}
use distributed_gpu_training.Base.Int.{ℤ}
use distributed_gpu_training.Float.{Float64}
use distributed_gpu_training.Buffer.{◌>>=◌}
use distributed_gpu_training.Attribution.Rules.{CausalLink}
use distributed_gpu_training.Attribution.Engine.{Attribution}
use distributed_gpu_training.Attribution.Summary.{cause_text, link_detail, summary}

pub record CausalLinkMessage (F : Type 0) : Type 0 where
  pub cause : Bytes
  pub confidence : F
  pub detail : Bytes

pub record AnomalyDetail (F : Type 0) : Type 0 where
  pub detected_at_ns : ℤ
  pub straggler_rank : ℕ
  pub op_type : Bytes
  pub lag_ns : ℤ
  pub deviation_sigma : F
  pub attribution_summary : Bytes
  pub hits : ℕ
  pub groups : ℕ
  pub causal_chain : List (CausalLinkMessage F)

module _ {F : Type 0} ⦃d : Float64 F⦄ (fixed : ℕ → F → Bytes) where
  abbrev pub link_message : CausalLink F → CausalLinkMessage F
  link_message l = record {
    cause = cause_text l.cause;
    confidence = l.confidence;
    detail = link_detail fixed l;
  }

  -- The message of an attribution with its `Summary`.
  abbrev pub anomaly_detail : Attribution F → Bytes → AnomalyDetail F
  anomaly_detail a text = record {
    detected_at_ns = a.anomaly.detected_at;
    straggler_rank = a.anomaly.straggler_rank;
    op_type = a.anomaly.op_type;
    lag_ns = a.anomaly.lag_ns;
    deviation_sigma = a.anomaly.deviation_sigma;
    attribution_summary = text;
    hits = a.anomaly.hits;
    groups = a.anomaly.groups;
    causal_chain = map link_message a.causal_chain;
  }

  -- The loop over the attributions. `none` is the panic of `summarize`.
  unfoldable pub details : List (Attribution F) → Option (List (AnomalyDetail F))
  unfolding summary
  details [] = some []
  details (a ∷ as') =
      summary fixed a >>= λ text. details as' >>= λ rest. some (anomaly_detail a text ∷ rest)

  -- `none` as the report is a server without a handler.
  unfoldable pub get_report : Option (List (Attribution F)) → Option (List (AnomalyDetail F))
  unfolding details
  get_report none = some []
  get_report (some attributions) = details attributions
