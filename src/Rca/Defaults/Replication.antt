-- ===== src/Rca/Defaults/Replication.antt =====
-- internal/rca/chains.go: the edges of the built-in graph, of the chains that start in bulk workload, slots or the network or delay replication.
use pgpulse.Common.{List, [], ◌∷◌, ◌*◌}
use pgpulse.Common.Text.{text}
use pgpulse.Common.Float.{Float, decimal}
use pgpulse.Rca.Graph.{
  CausalEdge, bounded_lag, persistent_state, evidence_required, evidence_supporting,
}
use pgpulse.Rca.Durations.{hour, minute, second}
use pgpulse.Rca.Ontology.{
  chain_bulk_wal_checkpoint_io_repl_lag, chain_inactive_slot_wal_disk, chain_long_tx_repl_delay,
  chain_network_wal_recv_repl_lag, hook_checkpoint_tuning, hook_kill_long_tx,
  hook_network_diagnostics, hook_query_optimization, hook_slot_cleanup,
}

module _ {F : Type 0} ⦃f : Float F⦄ where
  -- Bulk workload -> WAL -> checkpoint -> disk I/O -> replication lag
  abbrev pub bulk_wal_checkpoint_io_repl_lag_edges : List (CausalEdge F)
  bulk_wal_checkpoint_io_repl_lag_edges =
      record {
        from_node = text "bulk_workload";
        to_node = text "wal_generation";
        min_lag = 0;
        max_lag = 30 * second;
        temporal = bounded_lag;
        evidence = evidence_required;
        description = text "Bulk workload drives increased WAL generation";
        base_confidence = decimal 8 10;
        chain_id = chain_bulk_wal_checkpoint_io_repl_lag;
        remediation_hook = hook_query_optimization;
      }
      ∷ record {
        from_node = text "wal_generation";
        to_node = text "checkpoint_storm";
        min_lag = 30 * second;
        max_lag = 3 * minute;
        temporal = bounded_lag;
        evidence = evidence_required;
        description = text "High WAL rate triggers frequent checkpoints";
        base_confidence = decimal 85 100;
        chain_id = chain_bulk_wal_checkpoint_io_repl_lag;
        remediation_hook = hook_checkpoint_tuning;
      }
      ∷ record {
        from_node = text "checkpoint_storm";
        to_node = text "disk_io";
        min_lag = 0;
        max_lag = 30 * second;
        temporal = bounded_lag;
        evidence = evidence_required;
        description = text "Checkpoint fsync saturates disk I/O";
        base_confidence = decimal 9 10;
        chain_id = chain_bulk_wal_checkpoint_io_repl_lag;
        remediation_hook = [];
      }
      ∷ record {
        from_node = text "disk_io";
        to_node = text "replication_lag";
        min_lag = 10 * second;
        max_lag = 2 * minute;
        temporal = bounded_lag;
        evidence = evidence_supporting;
        description = text "Disk I/O saturation delays WAL replay on replica";
        base_confidence = decimal 75 100;
        chain_id = chain_bulk_wal_checkpoint_io_repl_lag;
        remediation_hook = [];
      }
      ∷ []

  -- Inactive slot -> WAL retention -> disk fill
  abbrev pub inactive_slot_wal_disk_edges : List (CausalEdge F)
  inactive_slot_wal_disk_edges =
      record {
        from_node = text "inactive_slot";
        to_node = text "wal_retention";
        min_lag = 0;
        max_lag = 0;
        temporal = persistent_state;
        evidence = evidence_required;
        description = text "Inactive replication slot prevents WAL cleanup";
        base_confidence = decimal 9 10;
        chain_id = chain_inactive_slot_wal_disk;
        remediation_hook = hook_slot_cleanup;
      }
      ∷ record {
        from_node = text "wal_retention";
        to_node = text "disk_fill";
        min_lag = 5 * minute;
        max_lag = 2 * hour;
        temporal = bounded_lag;
        evidence = evidence_required;
        description = text "Accumulated WAL files consume disk space";
        base_confidence = decimal 85 100;
        chain_id = chain_inactive_slot_wal_disk;
        remediation_hook = [];
      }
      ∷ []

  -- Network issue -> WAL receiver disconnect -> replication lag
  abbrev pub network_wal_recv_repl_lag_edges : List (CausalEdge F)
  network_wal_recv_repl_lag_edges =
      record {
        from_node = text "network_issue";
        to_node = text "wal_receiver_disconnect";
        min_lag = 0;
        max_lag = 30 * second;
        temporal = bounded_lag;
        evidence = evidence_required;
        description = text "Network failure disconnects WAL receiver";
        base_confidence = decimal 7 10;
        chain_id = chain_network_wal_recv_repl_lag;
        remediation_hook = hook_network_diagnostics;
      }
      ∷ record {
        from_node = text "wal_receiver_disconnect";
        to_node = text "replication_lag";
        min_lag = 0;
        max_lag = 2 * minute;
        temporal = bounded_lag;
        evidence = evidence_required;
        description = text "Disconnected WAL receiver causes growing replication lag";
        base_confidence = decimal 8 10;
        chain_id = chain_network_wal_recv_repl_lag;
        remediation_hook = [];
      }
      ∷ []

  -- Long transaction on primary -> replication apply delay
  abbrev pub long_tx_repl_delay_edges : List (CausalEdge F)
  long_tx_repl_delay_edges =
      record {
        from_node = text "long_tx_primary";
        to_node = text "replication_apply_delay";
        min_lag = 0;
        max_lag = 0;
        temporal = persistent_state;
        evidence = evidence_required;
        description = text "Long transaction on primary delays replication apply";
        base_confidence = decimal 75 100;
        chain_id = chain_long_tx_repl_delay;
        remediation_hook = hook_kill_long_tx;
      }
      ∷ []
