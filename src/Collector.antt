-- ===== src/Collector.antt =====
-- internal/collector: what the collectors compute from the rows they read.
pub mod LockTree
mod Samples
