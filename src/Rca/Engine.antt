-- ===== src/Rca/Engine.antt =====
-- internal/rca/engine.go: the walk along a chain. A walk that answers false makes the engine drop the
-- chain with all that the walk gathered; here, it answers `none`.
use pgpulse.Common.{
  ℕ, zero, suc, ◌+◌, ◌-◌, ◌*◌, ◌/◌, Bool, true, false, not, ◌&&◌, ◌||◌, Option, none, some, List,
  [], ◌∷◌, ◌++◌, if◌then◌else◌, ltb, leb, ◌==◌, ◌=?◌, any, keep, last_or,
}
use pgpulse.Common.Text.{Text, text, text_eq}
use pgpulse.Common.Map.{Map, lookup}
use pgpulse.Common.Float.{Float, decimal}
use pgpulse.Common.Sorting.{Sorting}
use pgpulse.Rca.Graph.{
  CausalNode, CausalEdge, CausalGraph, bounded_lag, persistent_state, while_effective,
  evidence_required, evidence_supporting, EvidenceRequirement, incoming_edges, edges_for_chain,
  terminal_nodes, contains,
}
use pgpulse.Rca.Events.{AnomalyEvent, TimelineEvent, TimeWindow, SettingChange, CausalChainResult}
use pgpulse.Rca.Evidence.{
  collection_jitter, node_role, node_root_cause_key, latest_of, find_strongest_anomaly,
  temporal_proximity, build_timeline_event,
}
-- What one run of the engine reads: the graph, the provider of settings with its answer for the
-- instance of the run, where one is set, and what the run found out.
mod Samples
pub mod Walk
pub mod Depth
pub mod Branches
pub mod BuiltIn
pub mod Analyze
pub mod Accepted
pub mod Best
pub mod Provenance

pub record Run (F : Type 0) : Type 0 where
  pub graph : CausalGraph F
  pub settings_provider : Option (ℕ → ℕ → Option (List SettingChange))
  pub trigger_time : ℕ
  pub window : TimeWindow
  pub anomaly_map : Map Text (List (AnomalyEvent F))

-- The results `score`, `event` and `found`.
pub record EdgeEvidence (F : Type 0) : Type 0 where
  pub score : F
  pub event : Option (TimelineEvent F)
  pub found : Bool

-- The variables that the walk fills.
pub record Trail (F : Type 0) : Type 0 where
  pub events : List (TimelineEvent F)
  pub total_score : F
  pub edge_count : ℕ
  pub root_cause_key : Text

unfoldable pub is_required : EvidenceRequirement → Bool
is_required evidence_required = true
is_required evidence_supporting = false

-- The answer of the provider, an error being no change.
unfoldable pub changes_of : Option (List SettingChange) → List SettingChange
changes_of none = []
changes_of (some changes) = changes

module _ {F : Type 0} where
  -- The window of a bounded lag, clamped to that of the analysis.
  unfoldable pub search_from : Run F → CausalEdge F → CausalNode → ℕ
  search_from run edge node =
      let start = (run.trigger_time - edge.max_lag) - collection_jitter node in
      if ltb start run.window.from then run.window.from else start

  unfoldable pub search_to : Run F → CausalEdge F → CausalNode → ℕ
  search_to run edge node =
      let end = (run.trigger_time + collection_jitter node) - edge.min_lag in
      if ltb run.window.to end then run.window.to else end

module _ {F : Type 0} ⦃f : Float F⦄ where
  unfoldable pub no_evidence : EdgeEvidence F
  no_evidence = record { score = f.of_nat 0; event = none; found = false }

  -- Where nothing was found.
  unfoldable pub absent : CausalEdge F → EdgeEvidence F
  unfolding no_evidence is_required
  absent edge =
      if is_required edge.evidence
      then no_evidence
      else record { score = f.mul edge.base_confidence (decimal 3 10); event = none; found = true }

  unfoldable pub setting_event : CausalNode → SettingChange → TimelineEvent F
  setting_event node change = record {
    timestamp = change.changed_at;
    node_id = node.id;
    node_name = node.name;
    metric_key = text "pg.settings." ++ change.name;
    value = f.of_nat 0;
    baseline_val = f.of_nat 0;
    z_score = f.of_nat 0;
    strength = decimal 7 10;
    layer = node.layer;
    role = text "root_cause";
    evidence = text "required";
    description =
        text "Setting "
        ++ change.name
        ++ text " changed from "
        ++ change.old_value
        ++ text " to "
        ++ change.new_value;
    edge_desc = [];
  }

  unfoldable pub changed : CausalEdge F → CausalNode → Option SettingChange → EdgeEvidence F
  unfolding absent setting_event
  changed edge node none = absent edge
  changed edge node (some change) = record {
    score = f.mul edge.base_confidence (decimal 7 10);
    event = some (setting_event node change);
    found = true;
  }

  unfoldable pub effective :
      Run F
      → CausalEdge F
      → CausalNode
      → Option (ℕ → ℕ → Option (List SettingChange))
      → EdgeEvidence F
  unfolding no_evidence changed changes_of
  effective run edge node none = no_evidence
  effective run edge node (some get_changes) =
      changed edge node (latest_of (changes_of (get_changes run.window.from run.window.to)))

module _ {F : Type 0} ⦃f : Float F⦄ (exp : F → F) (fixed2 : F → Text) where
  unfoldable pub lagged :
      Run F → CausalEdge F → CausalNode → Option (AnomalyEvent F) → EdgeEvidence F
  unfolding absent
  lagged run edge node none = absent edge
  lagged run edge node (some anomaly) = record {
    score =
        f.mul (f.mul edge.base_confidence anomaly.strength)
          (temporal_proximity exp anomaly.timestamp run.trigger_time edge.min_lag edge.max_lag);
    event = some (build_timeline_event fixed2 node anomaly (some edge) (node_role node));
    found = true;
  }

  unfoldable pub persistent : CausalEdge F → CausalNode → Option (AnomalyEvent F) → EdgeEvidence F
  unfolding absent
  persistent edge node none = absent edge
  persistent edge node (some anomaly) = record {
    score = f.mul edge.base_confidence anomaly.strength;
    event = some (build_timeline_event fixed2 node anomaly (some edge) (node_role node));
    found = true;
  }

  unfoldable pub evidence_at : Run F → CausalEdge F → Option CausalNode → EdgeEvidence F
  unfolding no_evidence lagged persistent effective search_from search_to
  evidence_at run edge none = no_evidence
  evidence_at run edge (some node) = elim edge.temporal [
    | bounded_lag ↦ lagged run edge node (
        find_strongest_anomaly run.anomaly_map node.metric_keys (search_from run edge node)
          (search_to run edge node))
    | persistent_state ↦
        persistent edge node
          (find_strongest_anomaly run.anomaly_map node.metric_keys run.window.from run.window.to)
    | while_effective ↦ effective run edge node run.settings_provider
  ]

  unfoldable pub evaluate_edge : Run F → CausalEdge F → EdgeEvidence F
  unfolding evidence_at
  evaluate_edge run edge = evidence_at run edge (lookup edge.from_node run.graph.nodes)
