-- ===== src/Rca/Ontology.antt =====
-- internal/rca/ontology.go: the chains and the hooks of remediation; the keys are in Keys.
use pgpulse.Common.{List, [], ◌∷◌}
use pgpulse.Common.Text.{Text, text}
use pgpulse.Common.Map.{Map}
pub mod Keys

abbrev pub chain_bulk_wal_checkpoint_io_repl_lag : Text
chain_bulk_wal_checkpoint_io_repl_lag = text "chain.bulk_wal_checkpoint_io_repllag"

abbrev pub chain_inactive_slot_wal_disk : Text
chain_inactive_slot_wal_disk = text "chain.inactive_slot_wal_disk"

abbrev pub chain_network_wal_recv_repl_lag : Text
chain_network_wal_recv_repl_lag = text "chain.network_walrecv_repllag"

abbrev pub chain_long_tx_repl_delay : Text
chain_long_tx_repl_delay = text "chain.longtx_repl_delay"

abbrev pub chain_wal_spike_checkpoint_io : Text
chain_wal_spike_checkpoint_io = text "chain.walspike_checkpoint_io"

abbrev pub chain_autovacuum_disk_latency : Text
chain_autovacuum_disk_latency = text "chain.autovacuum_disk_latency"

abbrev pub chain_temp_file_disk_query : Text
chain_temp_file_disk_query = text "chain.tempfile_disk_query"

abbrev pub chain_buffer_eviction_backend_io : Text
chain_buffer_eviction_backend_io = text "chain.buffer_eviction_backend_io"

abbrev pub chain_lock_blocked_conn_pileup : Text
chain_lock_blocked_conn_pileup = text "chain.lock_blocked_conn_pileup"

abbrev pub chain_conn_spike_memory_oom : Text
chain_conn_spike_memory_oom = text "chain.conn_spike_memory_oom"

abbrev pub chain_long_tx_bloat_conn : Text
chain_long_tx_bloat_conn = text "chain.longtx_bloat_conn"

abbrev pub chain_query_regression_cpu_latency : Text
chain_query_regression_cpu_latency = text "chain.query_regression_cpu_latency"

abbrev pub chain_new_query_resource_shift : Text
chain_new_query_resource_shift = text "chain.new_query_resource_shift"

abbrev pub chain_missing_index_seq_scan_io : Text
chain_missing_index_seq_scan_io = text "chain.missing_index_seqscan_io"

abbrev pub chain_pgss_fill_eviction : Text
chain_pgss_fill_eviction = text "chain.pgss_fill_eviction"

abbrev pub chain_dead_tuple_bloat_scan : Text
chain_dead_tuple_bloat_scan = text "chain.dead_tuple_bloat_scan"

abbrev pub chain_wraparound_vacuum_io : Text
chain_wraparound_vacuum_io = text "chain.wraparound_vacuum_io"

abbrev pub chain_long_tx_block_vacuum_growth : Text
chain_long_tx_block_vacuum_growth = text "chain.longtx_block_vacuum_growth"

abbrev pub chain_settings_change_behavior : Text
chain_settings_change_behavior = text "chain.settings_change_behavior"

abbrev pub chain_os_memory_oom_crash : Text
chain_os_memory_oom_crash = text "chain.os_memory_oom_crash"

abbrev pub hook_checkpoint_tuning : Text
hook_checkpoint_tuning = text "remediation.checkpoint_completion_target"

abbrev pub hook_vacuum_tuning : Text
hook_vacuum_tuning = text "remediation.vacuum_cost_settings"

abbrev pub hook_connection_pooling : Text
hook_connection_pooling = text "remediation.connection_pooling"

abbrev pub hook_index_creation : Text
hook_index_creation = text "remediation.create_missing_index"

abbrev pub hook_slot_cleanup : Text
hook_slot_cleanup = text "remediation.drop_inactive_slot"

abbrev pub hook_kill_long_tx : Text
hook_kill_long_tx = text "remediation.kill_long_transaction"

abbrev pub hook_shared_buffers : Text
hook_shared_buffers = text "remediation.shared_buffers_tuning"

abbrev pub hook_temp_file_work : Text
hook_temp_file_work = text "remediation.work_mem_tuning"

abbrev pub hook_pgss_reset : Text
hook_pgss_reset = text "remediation.pgss_reset"

abbrev pub hook_vacuum_aggressive : Text
hook_vacuum_aggressive = text "remediation.vacuum_aggressive"

abbrev pub hook_wraparound_vacuum : Text
hook_wraparound_vacuum = text "remediation.wraparound_vacuum"

abbrev pub hook_memory_tuning : Text
hook_memory_tuning = text "remediation.memory_tuning"

abbrev pub hook_lock_investigation : Text
hook_lock_investigation = text "remediation.lock_investigation"

abbrev pub hook_query_optimization : Text
hook_query_optimization = text "remediation.query_optimization"

abbrev pub hook_network_diagnostics : Text
hook_network_diagnostics = text "remediation.network_diagnostics"

abbrev pub hook_wal_archive : Text
hook_wal_archive = text "remediation.wal_archive"

abbrev pub hook_replication_lag : Text
hook_replication_lag = text "remediation.replication_lag"

abbrev pub hook_disk_capacity : Text
hook_disk_capacity = text "remediation.disk_capacity"

abbrev pub tier_a : Text
tier_a = text "stable"

abbrev pub tier_b : Text
tier_b = text "experimental"

abbrev pub knowledge_version : Text
knowledge_version = text "1.0.0"

abbrev pub all_chain_ids : List Text
all_chain_ids =
    chain_bulk_wal_checkpoint_io_repl_lag ∷ chain_inactive_slot_wal_disk
    ∷ chain_network_wal_recv_repl_lag ∷ chain_long_tx_repl_delay ∷ chain_wal_spike_checkpoint_io
    ∷ chain_autovacuum_disk_latency ∷ chain_temp_file_disk_query ∷ chain_buffer_eviction_backend_io
    ∷ chain_lock_blocked_conn_pileup ∷ chain_conn_spike_memory_oom ∷ chain_long_tx_bloat_conn
    ∷ chain_query_regression_cpu_latency ∷ chain_new_query_resource_shift
    ∷ chain_missing_index_seq_scan_io ∷ chain_pgss_fill_eviction ∷ chain_dead_tuple_bloat_scan
    ∷ chain_wraparound_vacuum_io ∷ chain_long_tx_block_vacuum_growth
    ∷ chain_settings_change_behavior ∷ chain_os_memory_oom_crash ∷ []

abbrev pub tier_for_chain : Map Text Text
tier_for_chain =
    (chain_bulk_wal_checkpoint_io_repl_lag, tier_a)
    ∷ (chain_inactive_slot_wal_disk, tier_a)
    ∷ (chain_network_wal_recv_repl_lag, tier_b)
    ∷ (chain_long_tx_repl_delay, tier_a)
    ∷ (chain_wal_spike_checkpoint_io, tier_a)
    ∷ (chain_autovacuum_disk_latency, tier_a)
    ∷ (chain_temp_file_disk_query, tier_a)
    ∷ (chain_buffer_eviction_backend_io, tier_a)
    ∷ (chain_lock_blocked_conn_pileup, tier_a)
    ∷ (chain_conn_spike_memory_oom, tier_a)
    ∷ (chain_long_tx_bloat_conn, tier_a)
    ∷ (chain_query_regression_cpu_latency, tier_b)
    ∷ (chain_new_query_resource_shift, tier_b)
    ∷ (chain_missing_index_seq_scan_io, tier_a)
    ∷ (chain_pgss_fill_eviction, tier_a)
    ∷ (chain_dead_tuple_bloat_scan, tier_a)
    ∷ (chain_wraparound_vacuum_io, tier_a)
    ∷ (chain_long_tx_block_vacuum_growth, tier_a)
    ∷ (chain_settings_change_behavior, tier_b)
    ∷ (chain_os_memory_oom_crash, tier_a)
    ∷ []
