-- ===== src/Tests.antt =====
-- Small runs of the model, and the theorems at concrete inputs.
pub mod Data
pub mod Runs
pub mod Claims
pub mod Analyses
pub mod Traces
pub mod Sims
pub mod Commands
pub mod Detection
pub mod Agents
pub mod Systems
