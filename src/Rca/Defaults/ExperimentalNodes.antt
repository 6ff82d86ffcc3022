-- ===== src/Rca/Defaults/ExperimentalNodes.antt =====
-- internal/rca/chains.go: the nodes of the experimental chains only, as the arguments of the calls of addNode.
use pgpulse.Common.{List, [], ◌∷◌}
use pgpulse.Common.Text.{text}
use pgpulse.Rca.Ontology.Keys.{
  mech_wal_recv_disconnect, sym_behavioral_shift, sym_cpu_spike, sym_query_latency_high,
  sym_resource_shift,
}
use pgpulse.Rca.Graph.{NodeArgs}

abbrev pub experimental_nodes : List NodeArgs
experimental_nodes =
    (text "network_issue", text "Network Issue", [], text "os", [], [])
    ∷ (
      text "wal_receiver_disconnect",
      text "WAL Receiver Disconnect",
      (text "pg.replication.wal_receiver.connected" ∷ []),
      text "db",
      [],
      mech_wal_recv_disconnect,
    )
    ∷ (
      text "query_regression",
      text "Query Regression",
      (text "pg.statements.regression" ∷ text "pg.statements.top.avg_time_ms" ∷ []),
      text "workload",
      [],
      [],
    )
    ∷ (
      text "cpu_spike",
      text "CPU Spike",
      (text "os.cpu.user_pct" ∷ text "os.cpu.system_pct" ∷ []),
      text "os",
      sym_cpu_spike,
      [],
    )
    ∷ (
      text "latency_spike",
      text "Latency Spike",
      (text "pg.statements.top.avg_time_ms" ∷ []),
      text "db",
      sym_query_latency_high,
      [],
    )
    ∷ (
      text "new_query",
      text "New Query (Deployment)",
      (text "pg.statements.new_query" ∷ text "pg.statements.count" ∷ []),
      text "workload",
      [],
      [],
    )
    ∷ (
      text "resource_shift",
      text "Resource Shift",
      (text "os.cpu.user_pct" ∷ text "pg.statements.top.total_time_ms" ∷ []),
      text "workload",
      sym_resource_shift,
      [],
    )
    ∷ (text "settings_change", text "Settings Change", [], text "config", [], [])
    ∷ (
      text "behavioral_shift",
      text "Behavioral Shift",
      [],
      text "workload",
      sym_behavioral_shift,
      [],
    )
    ∷ []
