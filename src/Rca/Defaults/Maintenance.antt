-- ===== src/Rca/Defaults/Maintenance.antt =====
-- internal/rca/chains.go: the edges of the built-in graph, of the chains that start in dead tuples, wraparound, settings or the memory of the machine.
use pgpulse.Common.{List, [], ◌∷◌, ◌*◌}
use pgpulse.Common.Text.{text}
use pgpulse.Common.Float.{Float, decimal}
use pgpulse.Rca.Graph.{
  CausalEdge, bounded_lag, persistent_state, while_effective, evidence_required,
  evidence_supporting,
}
use pgpulse.Rca.Durations.{minute}
use pgpulse.Rca.Ontology.{
  chain_dead_tuple_bloat_scan, chain_long_tx_block_vacuum_growth, chain_os_memory_oom_crash,
  chain_settings_change_behavior, chain_wraparound_vacuum_io, hook_kill_long_tx, hook_memory_tuning,
  hook_vacuum_aggressive, hook_wraparound_vacuum,
}

module _ {F : Type 0} ⦃f : Float F⦄ where
  -- Dead tuple accumulation -> table bloat -> scan degradation
  abbrev pub dead_tuple_bloat_scan_edges : List (CausalEdge F)
  dead_tuple_bloat_scan_edges =
      record {
        from_node = text "dead_tuples";
        to_node = text "table_bloat";
        min_lag = 0;
        max_lag = 0;
        temporal = persistent_state;
        evidence = evidence_required;
        description = text "Dead tuple accumulation causes table bloat";
        base_confidence = decimal 85 100;
        chain_id = chain_dead_tuple_bloat_scan;
        remediation_hook = hook_vacuum_aggressive;
      }
      ∷ record {
        from_node = text "table_bloat";
        to_node = text "scan_degradation";
        min_lag = 0;
        max_lag = 0;
        temporal = persistent_state;
        evidence = evidence_supporting;
        description = text "Bloated tables degrade scan performance";
        base_confidence = decimal 7 10;
        chain_id = chain_dead_tuple_bloat_scan;
        remediation_hook = [];
      }
      ∷ []

  -- Wraparound risk -> aggressive vacuum -> disk I/O
  abbrev pub wraparound_vacuum_io_edges : List (CausalEdge F)
  wraparound_vacuum_io_edges =
      record {
        from_node = text "wraparound_risk";
        to_node = text "aggressive_vacuum";
        min_lag = 0;
        max_lag = 0;
        temporal = persistent_state;
        evidence = evidence_required;
        description = text "Approaching wraparound triggers aggressive vacuum";
        base_confidence = decimal 9 10;
        chain_id = chain_wraparound_vacuum_io;
        remediation_hook = hook_wraparound_vacuum;
      }
      ∷ record {
        from_node = text "aggressive_vacuum";
        to_node = text "disk_io";
        min_lag = 0;
        max_lag = 5 * minute;
        temporal = bounded_lag;
        evidence = evidence_required;
        description = text "Anti-wraparound vacuum generates heavy disk I/O";
        base_confidence = decimal 8 10;
        chain_id = chain_wraparound_vacuum_io;
        remediation_hook = [];
      }
      ∷ []

  -- Long tx blocking vacuum -> dead tuple growth
  abbrev pub long_tx_block_vacuum_growth_edges : List (CausalEdge F)
  long_tx_block_vacuum_growth_edges =
      record {
        from_node = text "long_tx_blocking";
        to_node = text "vacuum_blocked";
        min_lag = 0;
        max_lag = 0;
        temporal = persistent_state;
        evidence = evidence_required;
        description = text "Long transaction prevents vacuum from cleaning dead tuples";
        base_confidence = decimal 85 100;
        chain_id = chain_long_tx_block_vacuum_growth;
        remediation_hook = hook_kill_long_tx;
      }
      ∷ record {
        from_node = text "vacuum_blocked";
        to_node = text "dead_tuple_growth";
        min_lag = 0;
        max_lag = 0;
        temporal = persistent_state;
        evidence = evidence_required;
        description = text "Blocked vacuum causes dead tuple accumulation";
        base_confidence = decimal 8 10;
        chain_id = chain_long_tx_block_vacuum_growth;
        remediation_hook = [];
      }
      ∷ []

  -- Settings change -> behavioral shift
  abbrev pub settings_change_behavior_edges : List (CausalEdge F)
  settings_change_behavior_edges =
      record {
        from_node = text "settings_change";
        to_node = text "behavioral_shift";
        min_lag = 0;
        max_lag = 0;
        temporal = while_effective;
        evidence = evidence_required;
        description = text "Configuration change causes behavioral shift";
        base_confidence = decimal 6 10;
        chain_id = chain_settings_change_behavior;
        remediation_hook = [];
      }
      ∷ []

  -- OS memory pressure -> OOM killer -> PG crash
  abbrev pub os_memory_oom_crash_edges : List (CausalEdge F)
  os_memory_oom_crash_edges =
      record {
        from_node = text "os_memory_pressure";
        to_node = text "oom_killer";
        min_lag = 0;
        max_lag = 0;
        temporal = persistent_state;
        evidence = evidence_required;
        description = text "OS memory exhaustion activates OOM killer";
        base_confidence = decimal 85 100;
        chain_id = chain_os_memory_oom_crash;
        remediation_hook = hook_memory_tuning;
      }
      ∷ record {
        from_node = text "oom_killer";
        to_node = text "pg_crash";
        min_lag = 0;
        max_lag = 5 * minute;
        temporal = bounded_lag;
        evidence = evidence_supporting;
        description = text "OOM killer terminates PostgreSQL process";
        base_confidence = decimal 7 10;
        chain_id = chain_os_memory_oom_crash;
        remediation_hook = [];
      }
      ∷ []
