-- ===== src/Storage.antt =====
-- internal/storage: where metrics are kept.
pub mod Memory
mod Samples
