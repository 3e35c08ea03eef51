-- ===== src/Attribution.antt =====
-- internal/attribution/engine.go: the rules and the engine. A `Detail` text is printed with `fmt`
-- from a few numbers; the model keeps these numbers (`Rules.Detail`). `Summary`, which is text only,
-- is left out.
pub mod Rules
pub mod Engine
pub mod Described
pub mod Confidence
pub mod Evidence
pub mod Grounded
pub mod Chain
pub mod Baseline
pub mod Summary
