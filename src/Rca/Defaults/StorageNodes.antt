-- ===== src/Rca/Defaults/StorageNodes.antt =====
-- internal/rca/chains.go: the nodes of storage and replication, as the arguments of the calls of addNode.
use pgpulse.Common.{List, [], ◌∷◌}
use pgpulse.Common.Text.{text}
use pgpulse.Rca.Ontology.Keys.{
  mech_autovacuum_storm, mech_blocked_queries, mech_buffer_backend_writes, mech_checkpoint_storm,
  mech_lock_contention, mech_temp_file_spike, mech_wal_retention, mech_wal_spike,
  sym_connection_exhaustion, sym_disk_io_saturated, sym_disk_space_low, sym_query_latency_high,
  sym_replication_lag_high,
}
use pgpulse.Rca.Graph.{NodeArgs}

abbrev pub storage_nodes : List NodeArgs
storage_nodes =
    (
      text "bulk_workload",
      text "Bulk Workload",
      (text "pg.statements.top.total_time_ms" ∷ text "pg.statements.top.calls" ∷ []),
      text "workload",
      [],
      [],
    )
    ∷ (
      text "wal_generation",
      text "WAL Generation Rate",
      (text "pg.checkpoint.buffers_written_per_second" ∷ []),
      text "db",
      [],
      mech_wal_spike,
    )
    ∷ (
      text "checkpoint_storm",
      text "Checkpoint Storm",
      (text "pg.checkpoint.requested_per_second" ∷ text "pg.checkpoint.sync_time_ms" ∷ []),
      text "db",
      [],
      mech_checkpoint_storm,
    )
    ∷ (
      text "disk_io",
      text "Disk I/O Saturation",
      (text "os.disk.util_pct"
          ∷ text "os.disk.write_bytes_per_sec"
          ∷ text "os.cpu.iowait_pct"
          ∷ []),
      text "os",
      sym_disk_io_saturated,
      [],
    )
    ∷ (
      text "replication_lag",
      text "Replication Lag",
      (text "pg.replication.lag.replay_bytes" ∷ text "pg.replication.lag.replay_seconds" ∷ []),
      text "db",
      sym_replication_lag_high,
      [],
    )
    ∷ (
      text "inactive_slot",
      text "Inactive Replication Slot",
      (text "pg.replication.slot.active" ∷ text "pg.replication.slot.retained_bytes" ∷ []),
      text "db",
      [],
      [],
    )
    ∷ (
      text "wal_retention",
      text "WAL Retention",
      (text "pg.replication.slot.retained_bytes" ∷ []),
      text "db",
      [],
      mech_wal_retention,
    )
    ∷ (
      text "disk_fill",
      text "Disk Space Low",
      (text "os.disk.used_bytes" ∷ text "os.disk.free_bytes" ∷ []),
      text "os",
      sym_disk_space_low,
      [],
    )
    ∷ (
      text "long_tx_primary",
      text "Long Transaction on Primary",
      (text "pg.long_transactions.oldest_seconds" ∷ text "pg.long_transactions.count" ∷ []),
      text "db",
      [],
      [],
    )
    ∷ (
      text "replication_apply_delay",
      text "Replication Apply Delay",
      (text "pg.replication.lag.replay_bytes" ∷ text "pg.replication.lag.replay_seconds" ∷ []),
      text "db",
      sym_replication_lag_high,
      [],
    )
    ∷ (
      text "autovacuum_storm",
      text "Autovacuum Storm",
      (text "pg.progress.vacuum.completion_pct" ∷ text "pg.db.vacuum.dead_tuples" ∷ []),
      text "db",
      [],
      mech_autovacuum_storm,
    )
    ∷ (
      text "query_latency",
      text "Query Latency",
      (text "pg.statements.top.avg_time_ms" ∷ text "pg.wait_events.count" ∷ []),
      text "db",
      sym_query_latency_high,
      [],
    )
    ∷ (
      text "temp_file_spike",
      text "Temp File Spike",
      (text "pg.io.writes" ∷ text "pg.io.write_time" ∷ []),
      text "db",
      [],
      mech_temp_file_spike,
    )
    ∷ (
      text "query_slowdown",
      text "Query Slowdown",
      (text "pg.statements.top.avg_time_ms" ∷ []),
      text "db",
      sym_query_latency_high,
      [],
    )
    ∷ (
      text "buffer_eviction",
      text "Shared Buffers Eviction",
      (text "pg.bgwriter.buffers_backend_per_second"
          ∷ text "pg.bgwriter.buffers_alloc_per_second"
          ∷ []),
      text "db",
      [],
      [],
    )
    ∷ (
      text "backend_writes",
      text "Backend Direct Writes",
      (text "pg.bgwriter.buffers_backend_per_second" ∷ []),
      text "db",
      [],
      mech_buffer_backend_writes,
    )
    ∷ (
      text "lock_contention",
      text "Lock Contention",
      (text "pg.locks.blocker_count"
          ∷ text "pg.locks.blocked_count"
          ∷ text "pg.locks.max_chain_depth"
          ∷ []),
      text "db",
      [],
      mech_lock_contention,
    )
    ∷ (
      text "blocked_queries",
      text "Blocked Queries",
      (text "pg.wait_events.count" ∷ []),
      text "db",
      [],
      mech_blocked_queries,
    )
    ∷ (
      text "connection_pileup",
      text "Connection Pileup",
      (text "pg.connections.total" ∷ text "pg.connections.utilization_pct" ∷ []),
      text "db",
      sym_connection_exhaustion,
      [],
    )
    ∷ (
      text "connection_spike",
      text "Connection Spike",
      (text "pg.connections.total" ∷ text "pg.connections.utilization_pct" ∷ []),
      text "db",
      [],
      [],
    )
    ∷ []
