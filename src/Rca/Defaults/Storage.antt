-- ===== src/Rca/Defaults/Storage.antt =====
-- internal/rca/chains.go: the edges of the built-in graph, of the chains that start in the write-ahead log, vacuum, temporary files or buffers.
use pgpulse.Common.{List, [], ◌∷◌, ◌*◌}
use pgpulse.Common.Text.{text}
use pgpulse.Common.Float.{Float, decimal}
use pgpulse.Rca.Graph.{CausalEdge, bounded_lag, evidence_required, evidence_supporting}
use pgpulse.Rca.Durations.{minute, second}
use pgpulse.Rca.Ontology.{
  chain_autovacuum_disk_latency, chain_buffer_eviction_backend_io, chain_temp_file_disk_query,
  chain_wal_spike_checkpoint_io, hook_checkpoint_tuning, hook_shared_buffers, hook_temp_file_work,
  hook_vacuum_tuning,
}

module _ {F : Type 0} ⦃f : Float F⦄ where
  -- WAL spike -> checkpoint storm -> disk I/O
  abbrev pub wal_spike_checkpoint_io_edges : List (CausalEdge F)
  wal_spike_checkpoint_io_edges =
      record {
        from_node = text "wal_generation";
        to_node = text "checkpoint_storm";
        min_lag = 30 * second;
        max_lag = 3 * minute;
        temporal = bounded_lag;
        evidence = evidence_required;
        description = text "WAL spike forces frequent checkpoints";
        base_confidence = decimal 85 100;
        chain_id = chain_wal_spike_checkpoint_io;
        remediation_hook = hook_checkpoint_tuning;
      }
      ∷ record {
        from_node = text "checkpoint_storm";
        to_node = text "disk_io";
        min_lag = 0;
        max_lag = 30 * second;
        temporal = bounded_lag;
        evidence = evidence_required;
        description = text "Checkpoint storm saturates disk I/O";
        base_confidence = decimal 9 10;
        chain_id = chain_wal_spike_checkpoint_io;
        remediation_hook = [];
      }
      ∷ []

  -- Autovacuum storm -> disk I/O -> query latency
  abbrev pub autovacuum_disk_latency_edges : List (CausalEdge F)
  autovacuum_disk_latency_edges =
      record {
        from_node = text "autovacuum_storm";
        to_node = text "disk_io";
        min_lag = 0;
        max_lag = 2 * minute;
        temporal = bounded_lag;
        evidence = evidence_required;
        description = text "Autovacuum storm generates heavy disk I/O";
        base_confidence = decimal 8 10;
        chain_id = chain_autovacuum_disk_latency;
        remediation_hook = hook_vacuum_tuning;
      }
      ∷ record {
        from_node = text "disk_io";
        to_node = text "query_latency";
        min_lag = 0;
        max_lag = 30 * second;
        temporal = bounded_lag;
        evidence = evidence_supporting;
        description = text "Disk I/O contention increases query latency";
        base_confidence = decimal 7 10;
        chain_id = chain_autovacuum_disk_latency;
        remediation_hook = [];
      }
      ∷ []

  -- Temp file spike -> disk I/O -> query slowdown
  abbrev pub temp_file_disk_query_edges : List (CausalEdge F)
  temp_file_disk_query_edges =
      record {
        from_node = text "temp_file_spike";
        to_node = text "disk_io";
        min_lag = 0;
        max_lag = 30 * second;
        temporal = bounded_lag;
        evidence = evidence_required;
        description = text "Temporary file writes saturate disk I/O";
        base_confidence = decimal 8 10;
        chain_id = chain_temp_file_disk_query;
        remediation_hook = hook_temp_file_work;
      }
      ∷ record {
        from_node = text "disk_io";
        to_node = text "query_slowdown";
        min_lag = 0;
        max_lag = 30 * second;
        temporal = bounded_lag;
        evidence = evidence_supporting;
        description = text "Disk I/O contention slows queries";
        base_confidence = decimal 7 10;
        chain_id = chain_temp_file_disk_query;
        remediation_hook = [];
      }
      ∷ []

  -- Buffer eviction -> backend writes -> disk I/O
  abbrev pub buffer_eviction_backend_io_edges : List (CausalEdge F)
  buffer_eviction_backend_io_edges =
      record {
        from_node = text "buffer_eviction";
        to_node = text "backend_writes";
        min_lag = 0;
        max_lag = 10 * second;
        temporal = bounded_lag;
        evidence = evidence_required;
        description = text "Shared buffer eviction forces backend direct writes";
        base_confidence = decimal 85 100;
        chain_id = chain_buffer_eviction_backend_io;
        remediation_hook = hook_shared_buffers;
      }
      ∷ record {
        from_node = text "backend_writes";
        to_node = text "disk_io";
        min_lag = 0;
        max_lag = 30 * second;
        temporal = bounded_lag;
        evidence = evidence_required;
        description = text "Backend direct writes saturate disk I/O";
        base_confidence = decimal 8 10;
        chain_id = chain_buffer_eviction_backend_io;
        remediation_hook = [];
      }
      ∷ []
