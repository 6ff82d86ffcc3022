-- ===== src/Statements/Types.antt =====
-- internal/statements/types.go: the fields that the difference of two captures reads and fills.
use pgpulse.Common.{ℕ, Bool, Option, List}
use pgpulse.Common.Text.{Text, text_eq}
use pgpulse.Common.Integers.{ℤ}

-- The fields that the difference reads.
pub record Snapshot : Type 0 where
  pub id : ℕ
  pub instance_id : Text
  pub captured_at : ℕ
  pub stats_reset : Option ℕ

pub record SnapshotEntry (F : Type 0) : Type 0 where
  pub query_id : ℕ
  pub user_id : ℕ
  pub db_id : ℕ
  pub database_name : Text
  pub user_name : Text
  pub query : Text
  pub calls : ℕ
  pub total_exec_time : F
  pub total_plan_time : Option F
  pub rows : ℕ
  pub shared_blks_hit : ℕ
  pub shared_blks_read : ℕ
  pub temp_blks_read : ℕ
  pub temp_blks_written : ℕ
  pub blk_read_time : F
  pub blk_write_time : F
  pub wal_bytes : Option F

pub record DiffEntry (F : Type 0) : Type 0 where
  pub query_id : ℕ
  pub user_id : ℕ
  pub db_id : ℕ
  pub query : Text
  pub database_name : Text
  pub user_name : Text
  pub calls_delta : ℤ
  pub exec_time_delta : F
  pub plan_time_delta : Option F
  pub rows_delta : ℤ
  pub shared_blks_read_delta : ℤ
  pub shared_blks_hit_delta : ℤ
  pub temp_blks_read_delta : ℤ
  pub temp_blks_written_delta : ℤ
  pub blk_read_time_delta : F
  pub blk_write_time_delta : F
  pub wal_bytes_delta : Option F
  pub avg_exec_time_per_call : F
  pub io_time_pct : F
  pub cpu_time_delta : F
  pub shared_hit_ratio : F

pub record DiffOptions : Type 0 where
  pub sort_by : Text
  pub limit : ℕ
  pub offset : ℕ

pub record DiffResult (F : Type 0) : Type 0 where
  pub from_snapshot : Snapshot
  pub to_snapshot : Snapshot
  pub stats_reset_warning : Bool
  pub duration : ℤ
  pub duration_str : Text
  pub total_calls_delta : ℤ
  pub total_exec_time_delta : F
  pub entries : List (DiffEntry F)
  pub new_queries : List (DiffEntry F)
  pub evicted_queries : List (DiffEntry F)
  pub total_entries : ℕ
