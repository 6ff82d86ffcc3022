-- ===== src/Statements.antt =====
-- internal/statements: the captures of pg_stat_statements.
pub mod Types
pub mod Duration
pub mod Diff
mod Samples
