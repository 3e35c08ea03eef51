-- ===== src/Collector.antt =====
-- internal/collector: the collectors that read files.
pub mod Tail
pub mod Replay
