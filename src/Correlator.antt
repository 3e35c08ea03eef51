-- ===== src/Correlator.antt =====
-- internal/correlator: straggler detection over collectives of many ranks.
pub mod Stats
pub mod Store
pub mod Detect
