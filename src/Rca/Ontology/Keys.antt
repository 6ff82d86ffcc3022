-- ===== src/Rca/Ontology/Keys.antt =====
-- internal/rca/ontology.go: the keys of the symptoms, mechanisms and root causes.
use pgpulse.Common.Text.{Text, text}

abbrev pub sym_replication_lag_high : Text
sym_replication_lag_high = text "symptom.replication_lag_high"

abbrev pub sym_disk_io_saturated : Text
sym_disk_io_saturated = text "symptom.disk_io_saturated"

abbrev pub sym_connection_exhaustion : Text
sym_connection_exhaustion = text "symptom.connection_exhaustion"

abbrev pub sym_query_latency_high : Text
sym_query_latency_high = text "symptom.query_latency_high"

abbrev pub sym_disk_space_low : Text
sym_disk_space_low = text "symptom.disk_space_low"

abbrev pub sym_oom_risk : Text
sym_oom_risk = text "symptom.oom_risk"

abbrev pub sym_pgss_eviction : Text
sym_pgss_eviction = text "symptom.pgss_eviction"

abbrev pub sym_scan_degradation : Text
sym_scan_degradation = text "symptom.scan_degradation"

abbrev pub sym_dead_tuple_growth : Text
sym_dead_tuple_growth = text "symptom.dead_tuple_growth"

abbrev pub sym_pg_crash : Text
sym_pg_crash = text "symptom.pg_crash"

abbrev pub sym_cpu_spike : Text
sym_cpu_spike = text "symptom.cpu_spike"

abbrev pub sym_resource_shift : Text
sym_resource_shift = text "symptom.resource_shift"

abbrev pub sym_behavioral_shift : Text
sym_behavioral_shift = text "symptom.behavioral_shift"

abbrev pub mech_checkpoint_storm : Text
mech_checkpoint_storm = text "mechanism.checkpoint_storm"

abbrev pub mech_wal_spike : Text
mech_wal_spike = text "mechanism.wal_spike"

abbrev pub mech_wal_retention : Text
mech_wal_retention = text "mechanism.wal_retention"

abbrev pub mech_buffer_backend_writes : Text
mech_buffer_backend_writes = text "mechanism.buffer_backend_writes"

abbrev pub mech_lock_contention : Text
mech_lock_contention = text "mechanism.lock_contention"

abbrev pub mech_blocked_queries : Text
mech_blocked_queries = text "mechanism.blocked_queries"

abbrev pub mech_autovacuum_storm : Text
mech_autovacuum_storm = text "mechanism.autovacuum_storm"

abbrev pub mech_temp_file_spike : Text
mech_temp_file_spike = text "mechanism.temp_file_spike"

abbrev pub mech_mvcc_bloat : Text
mech_mvcc_bloat = text "mechanism.mvcc_bloat"

abbrev pub mech_vacuum_blocked : Text
mech_vacuum_blocked = text "mechanism.vacuum_blocked"

abbrev pub mech_memory_pressure : Text
mech_memory_pressure = text "mechanism.memory_pressure"

abbrev pub mech_seq_scans : Text
mech_seq_scans = text "mechanism.seq_scans"

abbrev pub mech_aggressive_vacuum : Text
mech_aggressive_vacuum = text "mechanism.aggressive_vacuum"

abbrev pub mech_wal_recv_disconnect : Text
mech_wal_recv_disconnect = text "mechanism.wal_receiver_disconnect"

abbrev pub mech_oom_killer : Text
mech_oom_killer = text "mechanism.oom_killer"

abbrev pub mech_table_bloat : Text
mech_table_bloat = text "mechanism.table_bloat"

abbrev pub rc_bulk_workload : Text
rc_bulk_workload = text "root_cause.bulk_workload"

abbrev pub rc_inactive_slot : Text
rc_inactive_slot = text "root_cause.inactive_replication_slot"

abbrev pub rc_long_transaction : Text
rc_long_transaction = text "root_cause.long_transaction"

abbrev pub rc_missing_index : Text
rc_missing_index = text "root_cause.missing_index"

abbrev pub rc_wraparound_risk : Text
rc_wraparound_risk = text "root_cause.wraparound_approaching"

abbrev pub rc_memory_pressure : Text
rc_memory_pressure = text "root_cause.memory_pressure"

abbrev pub rc_config_change : Text
rc_config_change = text "root_cause.config_change"

abbrev pub rc_network_issue : Text
rc_network_issue = text "root_cause.network_issue"

abbrev pub rc_query_regression : Text
rc_query_regression = text "root_cause.query_regression"

abbrev pub rc_new_query : Text
rc_new_query = text "root_cause.new_query"

abbrev pub rc_buffer_eviction : Text
rc_buffer_eviction = text "root_cause.buffer_eviction"

abbrev pub rc_connection_spike : Text
rc_connection_spike = text "root_cause.connection_spike"

abbrev pub rc_pgss_fill : Text
rc_pgss_fill = text "root_cause.pgss_fill"

abbrev pub rc_dead_tuples : Text
rc_dead_tuples = text "root_cause.dead_tuple_accumulation"

abbrev pub rc_long_tx_blocking : Text
rc_long_tx_blocking = text "root_cause.long_tx_blocking_vacuum"

abbrev pub rc_os_memory_pressure : Text
rc_os_memory_pressure = text "root_cause.os_memory_pressure"
