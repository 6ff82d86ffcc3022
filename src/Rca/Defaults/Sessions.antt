-- ===== src/Rca/Defaults/Sessions.antt =====
-- internal/rca/chains.go: the edges of the built-in graph, of the chains that start in sessions, queries and indexes.
use pgpulse.Common.{List, [], ◌∷◌, ◌*◌}
use pgpulse.Common.Text.{text}
use pgpulse.Common.Float.{Float, decimal}
use pgpulse.Rca.Graph.{
  CausalEdge, bounded_lag, persistent_state, evidence_required, evidence_supporting,
}
use pgpulse.Rca.Durations.{minute, second}
use pgpulse.Rca.Ontology.{
  chain_conn_spike_memory_oom, chain_lock_blocked_conn_pileup, chain_long_tx_bloat_conn,
  chain_missing_index_seq_scan_io, chain_new_query_resource_shift, chain_pgss_fill_eviction,
  chain_query_regression_cpu_latency, hook_connection_pooling, hook_index_creation,
  hook_kill_long_tx, hook_lock_investigation, hook_pgss_reset, hook_query_optimization,
}

module _ {F : Type 0} ⦃f : Float F⦄ where
  -- Lock contention -> blocked queries -> connection pileup
  abbrev pub lock_blocked_conn_pileup_edges : List (CausalEdge F)
  lock_blocked_conn_pileup_edges =
      record {
        from_node = text "lock_contention";
        to_node = text "blocked_queries";
        min_lag = 0;
        max_lag = 10 * second;
        temporal = bounded_lag;
        evidence = evidence_required;
        description = text "Lock contention blocks waiting queries";
        base_confidence = decimal 9 10;
        chain_id = chain_lock_blocked_conn_pileup;
        remediation_hook = hook_lock_investigation;
      }
      ∷ record {
        from_node = text "blocked_queries";
        to_node = text "connection_pileup";
        min_lag = 10 * second;
        max_lag = 2 * minute;
        temporal = bounded_lag;
        evidence = evidence_required;
        description = text "Blocked queries accumulate open connections";
        base_confidence = decimal 8 10;
        chain_id = chain_lock_blocked_conn_pileup;
        remediation_hook = [];
      }
      ∷ []

  -- Connection spike -> memory pressure -> OOM risk
  abbrev pub conn_spike_memory_oom_edges : List (CausalEdge F)
  conn_spike_memory_oom_edges =
      record {
        from_node = text "connection_spike";
        to_node = text "memory_pressure";
        min_lag = 0;
        max_lag = 2 * minute;
        temporal = bounded_lag;
        evidence = evidence_required;
        description = text "Excessive connections consume work_mem allocations";
        base_confidence = decimal 75 100;
        chain_id = chain_conn_spike_memory_oom;
        remediation_hook = hook_connection_pooling;
      }
      ∷ record {
        from_node = text "memory_pressure";
        to_node = text "oom_risk";
        min_lag = 0;
        max_lag = 0;
        temporal = persistent_state;
        evidence = evidence_supporting;
        description = text "Sustained memory pressure increases OOM risk";
        base_confidence = decimal 7 10;
        chain_id = chain_conn_spike_memory_oom;
        remediation_hook = [];
      }
      ∷ []

  -- Long tx -> MVCC bloat -> connection holding
  abbrev pub long_tx_bloat_conn_edges : List (CausalEdge F)
  long_tx_bloat_conn_edges =
      record {
        from_node = text "long_tx";
        to_node = text "mvcc_bloat";
        min_lag = 0;
        max_lag = 0;
        temporal = persistent_state;
        evidence = evidence_required;
        description = text "Long transaction prevents dead tuple cleanup";
        base_confidence = decimal 8 10;
        chain_id = chain_long_tx_bloat_conn;
        remediation_hook = hook_kill_long_tx;
      }
      ∷ record {
        from_node = text "mvcc_bloat";
        to_node = text "conn_holding";
        min_lag = 1 * minute;
        max_lag = 10 * minute;
        temporal = bounded_lag;
        evidence = evidence_supporting;
        description = text "Table bloat causes longer scans, holding connections";
        base_confidence = decimal 6 10;
        chain_id = chain_long_tx_bloat_conn;
        remediation_hook = [];
      }
      ∷ []

  -- Query regression -> CPU spike -> latency spike
  abbrev pub query_regression_cpu_latency_edges : List (CausalEdge F)
  query_regression_cpu_latency_edges =
      record {
        from_node = text "query_regression";
        to_node = text "cpu_spike";
        min_lag = 0;
        max_lag = 2 * minute;
        temporal = bounded_lag;
        evidence = evidence_required;
        description = text "Query regression increases CPU consumption";
        base_confidence = decimal 75 100;
        chain_id = chain_query_regression_cpu_latency;
        remediation_hook = hook_query_optimization;
      }
      ∷ record {
        from_node = text "cpu_spike";
        to_node = text "latency_spike";
        min_lag = 0;
        max_lag = 30 * second;
        temporal = bounded_lag;
        evidence = evidence_supporting;
        description = text "CPU saturation increases query latency";
        base_confidence = decimal 7 10;
        chain_id = chain_query_regression_cpu_latency;
        remediation_hook = [];
      }
      ∷ []

  -- New query -> resource shift
  abbrev pub new_query_resource_shift_edges : List (CausalEdge F)
  new_query_resource_shift_edges =
      record {
        from_node = text "new_query";
        to_node = text "resource_shift";
        min_lag = 0;
        max_lag = 5 * minute;
        temporal = bounded_lag;
        evidence = evidence_required;
        description = text "New query after deployment shifts resource usage";
        base_confidence = decimal 65 100;
        chain_id = chain_new_query_resource_shift;
        remediation_hook = [];
      }
      ∷ []

  -- Missing index -> sequential scans -> disk I/O
  abbrev pub missing_index_seq_scan_io_edges : List (CausalEdge F)
  missing_index_seq_scan_io_edges =
      record {
        from_node = text "missing_index";
        to_node = text "seq_scans";
        min_lag = 0;
        max_lag = 0;
        temporal = persistent_state;
        evidence = evidence_required;
        description = text "Missing index forces sequential scans";
        base_confidence = decimal 8 10;
        chain_id = chain_missing_index_seq_scan_io;
        remediation_hook = hook_index_creation;
      }
      ∷ record {
        from_node = text "seq_scans";
        to_node = text "disk_io";
        min_lag = 0;
        max_lag = 30 * second;
        temporal = bounded_lag;
        evidence = evidence_required;
        description = text "Sequential scans generate heavy read I/O";
        base_confidence = decimal 85 100;
        chain_id = chain_missing_index_seq_scan_io;
        remediation_hook = [];
      }
      ∷ []

  -- pg_stat_statements fill -> eviction
  abbrev pub pgss_fill_eviction_edges : List (CausalEdge F)
  pgss_fill_eviction_edges =
      record {
        from_node = text "pgss_fill";
        to_node = text "pgss_eviction";
        min_lag = 0;
        max_lag = 0;
        temporal = persistent_state;
        evidence = evidence_required;
        description = text "pg_stat_statements at capacity triggers eviction";
        base_confidence = decimal 9 10;
        chain_id = chain_pgss_fill_eviction;
        remediation_hook = hook_pgss_reset;
      }
      ∷ []
