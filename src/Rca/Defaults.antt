-- ===== src/Rca/Defaults.antt =====
-- internal/rca/chains.go: the built-in graph, of 20 chains.
use pgpulse.Common.{List, [], ◌∷◌, ◌++◌}
use pgpulse.Common.Text.{Text, text_eq}
use pgpulse.Common.Map.{Map, insert}
use pgpulse.Common.Float.{Float}
use pgpulse.Rca.Graph.{CausalNode, CausalEdge, CausalGraph, NodeArgs}
use pgpulse.Rca.Ontology.{all_chain_ids}
use StorageNodes.{storage_nodes}
use SessionNodes.{session_nodes}
use ExperimentalNodes.{experimental_nodes}
use Replication.{
  bulk_wal_checkpoint_io_repl_lag_edges, inactive_slot_wal_disk_edges,
  network_wal_recv_repl_lag_edges, long_tx_repl_delay_edges,
}
use Storage.{
  wal_spike_checkpoint_io_edges, autovacuum_disk_latency_edges, temp_file_disk_query_edges,
  buffer_eviction_backend_io_edges,
}
use Sessions.{
  lock_blocked_conn_pileup_edges, conn_spike_memory_oom_edges, long_tx_bloat_conn_edges,
  query_regression_cpu_latency_edges, new_query_resource_shift_edges,
  missing_index_seq_scan_io_edges, pgss_fill_eviction_edges,
}
use Maintenance.{
  dead_tuple_bloat_scan_edges, wraparound_vacuum_io_edges, long_tx_block_vacuum_growth_edges,
  settings_change_behavior_edges, os_memory_oom_crash_edges,
}
mod StorageNodes
mod SessionNodes
mod ExperimentalNodes
mod Replication
mod Storage
mod Sessions
mod Maintenance

-- addNode
abbrev pub add_default_node : NodeArgs → Map Text CausalNode → Map Text CausalNode
add_default_node (id, name, metric_keys, layer, symptom, mechanism) nodes =
    insert id
      (record {
        id = id;
        name = name;
        metric_keys = metric_keys;
        layer = layer;
        symptom_key = symptom;
        mechanism_key = mechanism;
      })
      nodes

-- The calls of addNode in order, on the map they fill.
abbrev pub add_default_nodes : List NodeArgs → Map Text CausalNode → Map Text CausalNode
add_default_nodes [] nodes = nodes
add_default_nodes (n ∷ ns) nodes = add_default_nodes ns (add_default_node n nodes)

module _ {F : Type 0} ⦃f : Float F⦄ where
  -- The calls of addEdge append.
  unfoldable pub default_edges : List (CausalEdge F)
  default_edges =
      bulk_wal_checkpoint_io_repl_lag_edges ++ inactive_slot_wal_disk_edges
      ++ network_wal_recv_repl_lag_edges ++ long_tx_repl_delay_edges
      ++ wal_spike_checkpoint_io_edges ++ autovacuum_disk_latency_edges
      ++ temp_file_disk_query_edges ++ buffer_eviction_backend_io_edges
      ++ lock_blocked_conn_pileup_edges ++ conn_spike_memory_oom_edges ++ long_tx_bloat_conn_edges
      ++ query_regression_cpu_latency_edges ++ new_query_resource_shift_edges
      ++ missing_index_seq_scan_io_edges ++ pgss_fill_eviction_edges ++ dead_tuple_bloat_scan_edges
      ++ wraparound_vacuum_io_edges ++ long_tx_block_vacuum_growth_edges
      ++ settings_change_behavior_edges ++ os_memory_oom_crash_edges

  -- NewDefaultGraph
  unfoldable pub new_default_graph : CausalGraph F
  unfolding default_edges
  new_default_graph = record {
    nodes = add_default_nodes (storage_nodes ++ session_nodes ++ experimental_nodes) [];
    edges = default_edges;
    chain_ids = all_chain_ids;
  }
