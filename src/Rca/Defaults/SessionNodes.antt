-- ===== src/Rca/Defaults/SessionNodes.antt =====
-- internal/rca/chains.go: the nodes of sessions, memory and vacuum, as the arguments of the calls of addNode.
use pgpulse.Common.{List, [], ◌∷◌}
use pgpulse.Common.Text.{text}
use pgpulse.Rca.Ontology.Keys.{
  mech_aggressive_vacuum, mech_memory_pressure, mech_mvcc_bloat, mech_oom_killer, mech_seq_scans,
  mech_table_bloat, mech_vacuum_blocked, sym_connection_exhaustion, sym_dead_tuple_growth,
  sym_oom_risk, sym_pg_crash, sym_pgss_eviction, sym_scan_degradation,
}
use pgpulse.Rca.Graph.{NodeArgs}

abbrev pub session_nodes : List NodeArgs
session_nodes =
    (
      text "memory_pressure",
      text "Memory Pressure",
      (text "os.memory.available_kb" ∷ text "os.memory.used_kb" ∷ []),
      text "os",
      [],
      mech_memory_pressure,
    )
    ∷ (
      text "oom_risk",
      text "OOM Risk",
      (text "os.memory.available_kb" ∷ []),
      text "os",
      sym_oom_risk,
      [],
    )
    ∷ (
      text "long_tx",
      text "Long Transaction",
      (text "pg.long_transactions.oldest_seconds" ∷ text "pg.long_transactions.count" ∷ []),
      text "db",
      [],
      [],
    )
    ∷ (
      text "mvcc_bloat",
      text "MVCC Bloat",
      (text "pg.db.vacuum.dead_tuples" ∷ text "pg.db.vacuum.dead_pct" ∷ []),
      text "db",
      [],
      mech_mvcc_bloat,
    )
    ∷ (
      text "conn_holding",
      text "Connection Holding",
      (text "pg.connections.total" ∷ text "pg.connections.utilization_pct" ∷ []),
      text "db",
      sym_connection_exhaustion,
      [],
    )
    ∷ (
      text "missing_index",
      text "Missing Index",
      (text "pg.db.index.unused_scans" ∷ text "pg.db.table.cache_hit_pct" ∷ []),
      text "db",
      [],
      [],
    )
    ∷ (
      text "seq_scans",
      text "Sequential Scans",
      (text "pg.io.reads" ∷ text "pg.io.read_time" ∷ []),
      text "db",
      [],
      mech_seq_scans,
    )
    ∷ (
      text "pgss_fill",
      text "pg_stat_statements Fill",
      (text "pg.statements.fill_pct" ∷ text "pg.extensions.pgss_fill_pct" ∷ []),
      text "db",
      [],
      [],
    )
    ∷ (
      text "pgss_eviction",
      text "pg_stat_statements Eviction",
      (text "pg.statements.fill_pct" ∷ []),
      text "db",
      sym_pgss_eviction,
      [],
    )
    ∷ (
      text "dead_tuples",
      text "Dead Tuple Accumulation",
      (text "pg.db.vacuum.dead_tuples" ∷ text "pg.db.vacuum.dead_pct" ∷ []),
      text "db",
      [],
      [],
    )
    ∷ (
      text "table_bloat",
      text "Table Bloat",
      (text "pg.db.bloat.table_ratio" ∷ []),
      text "db",
      [],
      mech_table_bloat,
    )
    ∷ (
      text "scan_degradation",
      text "Scan Degradation",
      (text "pg.statements.top.avg_time_ms" ∷ text "pg.io.reads" ∷ []),
      text "db",
      sym_scan_degradation,
      [],
    )
    ∷ (
      text "wraparound_risk",
      text "Wraparound Risk",
      (text "pg.server.wraparound_pct" ∷ []),
      text "db",
      [],
      [],
    )
    ∷ (
      text "aggressive_vacuum",
      text "Aggressive Anti-Wraparound Vacuum",
      (text "pg.progress.vacuum.completion_pct" ∷ text "pg.db.vacuum.dead_tuples" ∷ []),
      text "db",
      [],
      mech_aggressive_vacuum,
    )
    ∷ (
      text "long_tx_blocking",
      text "Long TX Blocking Vacuum",
      (text "pg.long_transactions.oldest_seconds" ∷ []),
      text "db",
      [],
      [],
    )
    ∷ (
      text "vacuum_blocked",
      text "Vacuum Blocked",
      (text "pg.db.vacuum.dead_tuples" ∷ text "pg.db.vacuum.dead_pct" ∷ []),
      text "db",
      [],
      mech_vacuum_blocked,
    )
    ∷ (
      text "dead_tuple_growth",
      text "Dead Tuple Growth",
      (text "pg.db.vacuum.dead_tuples" ∷ text "pg.db.bloat.table_ratio" ∷ []),
      text "db",
      sym_dead_tuple_growth,
      [],
    )
    ∷ (
      text "os_memory_pressure",
      text "OS Memory Pressure",
      (text "os.memory.available_kb" ∷ text "os.memory.used_kb" ∷ text "os.memory.total_kb" ∷ []),
      text "os",
      [],
      [],
    )
    ∷ (
      text "oom_killer",
      text "OOM Killer",
      (text "os.memory.available_kb" ∷ []),
      text "os",
      [],
      mech_oom_killer,
    )
    ∷ (
      text "pg_crash",
      text "PostgreSQL Crash",
      (text "pg.server.uptime_seconds" ∷ []),
      text "db",
      sym_pg_crash,
      [],
    )
    ∷ []
