-- ===== src/Rca/Engine/Walk.antt =====
-- internal/rca/engine.go: walkBackward and traverseChain.
use pgpulse.Common.{
  ◌>>=◌, option_list, ℕ, zero, suc, Bool, true, false, not, ◌&&◌, Option, none, some, List, [], ◌∷◌,
  ◌++◌, if◌then◌else◌, ltb, ◌==◌, ◌=?◌, any, keep, last_or,
}
use pgpulse.Common.Text.{Text, text, text_eq}
use pgpulse.Common.Map.{lookup}
use pgpulse.Common.Float.{Float}
use pgpulse.Common.Sorting.{Sorting}
use pgpulse.Rca.Graph.{
  CausalNode, CausalEdge, CausalGraph, incoming_edges, edges_for_chain, terminal_nodes,
}
use pgpulse.Rca.Events.{AnomalyEvent, TimelineEvent, CausalChainResult}
use pgpulse.Rca.Evidence.{node_root_cause_key, find_strongest_anomaly, build_timeline_event}
use pgpulse.Rca.Engine.{Run, EdgeEvidence, Trail, is_required, evaluate_edge}

has_metric : Text → Option CausalNode → Bool
has_metric trigger_metric none = false
has_metric trigger_metric (some node) = any (λ mk. mk =? trigger_metric) node.metric_keys

module _ {F : Type 0} where
  unfoldable pub chain_edges : Run F → Text → Text → List (CausalEdge F)
  unfolding incoming_edges
  chain_edges run chain_id node_id =
      keep (λ e. e.chain_id =? chain_id) (incoming_edges run.graph node_id)

  -- The first terminal node that measures the trigger, else the first one.
  matching_terminal : CausalGraph F → Text → Text → List Text → Text
  unfolding has_metric
  matching_terminal g trigger_metric fallback [] = fallback
  matching_terminal g trigger_metric fallback (t ∷ ts) =
      let rest = matching_terminal g trigger_metric fallback ts in
      if has_metric trigger_metric (lookup t g.nodes) then t else rest

  unfoldable pub start_node : CausalGraph F → Text → List Text → Option Text
  unfolding matching_terminal
  start_node g trigger_metric [] = none
  start_node g trigger_metric (t ∷ ts) = some (matching_terminal g trigger_metric t (t ∷ ts))

  unfoldable pub chain_name : Text → List (TimelineEvent F) → Text
  chain_name chain_id [] = chain_id
  chain_name chain_id (e ∷ es) = e.node_name ++ text " -> " ++ (last_or e es).node_name

  unfoldable pub has_edges : List (CausalEdge F) → Bool
  has_edges [] = false
  has_edges (_ ∷ _) = true

module _ {F : Type 0} ⦃f : Float F⦄ where
  unfoldable pub add_edge : EdgeEvidence F → Trail F → Trail F
  add_edge ev t = record {
    events = t.events ++ option_list ev.event;
    total_score = f.add t.total_score ev.score;
    edge_count = suc t.edge_count;
    root_cause_key = t.root_cause_key;
  }

  unfoldable pub start_trail : Trail F
  start_trail = record {
    events = [];
    total_score = f.of_nat 0;
    edge_count = 0;
    root_cause_key = [];
  }

  unfoldable pub chain_result : Sorting → Text → Trail F → Option (CausalChainResult F)
  unfolding chain_name
  chain_result sorting chain_id t =
      let events = sorting.sort_slice (λ a b. ltb a.timestamp b.timestamp) t.events in
      if t.edge_count == 0
      then none
      else some (record {
        chain_id = chain_id;
        chain_name = chain_name chain_id events;
        score = f.div t.total_score (f.of_nat t.edge_count);
        root_cause_key = t.root_cause_key;
        events = events;
      })

module _ {F : Type 0} ⦃f : Float F⦄ (fixed2 : F → Text) where
  unfoldable pub add_root : Text → CausalNode → Option (AnomalyEvent F) → Trail F → Trail F
  add_root node_id node none t = t
  add_root node_id node (some anomaly) t = record {
    events = t.events ++ (build_timeline_event fixed2 node anomaly none (text "root_cause") ∷ []);
    total_score = t.total_score;
    edge_count = t.edge_count;
    root_cause_key = node_root_cause_key node_id;
  }

  -- At a node that no edge of the chain leads to.
  unfoldable pub at_root : Run F → Text → Option CausalNode → Trail F → Trail F
  unfolding add_root
  at_root run node_id none t = t
  at_root run node_id (some node) t =
      add_root node_id node
        (find_strongest_anomaly run.anomaly_map node.metric_keys run.window.from run.window.to) t

module _ {F : Type 0} ⦃f : Float F⦄ (exp : F → F) (fixed2 : F → Text) where
  unfoldable pub killed : Run F → CausalEdge F → Bool
  unfolding is_required
  killed run edge = not (evaluate_edge exp fixed2 run edge).found && is_required edge.evidence

  -- The loop over the edges; `go` is the walk with one level less.
  unfoldable pub walk_edges :
      (Text → Trail F → Option (Trail F)) → Run F → List (CausalEdge F) → Trail F → Option (Trail F)
  unfolding add_edge killed
  walk_edges go run [] t = some t
  walk_edges go run (edge ∷ edges) t = if killed run edge then none else do
    t' ← go edge.from_node (add_edge (evaluate_edge exp fixed2 run edge) t)
    walk_edges go run edges t'

  unfoldable pub at_node :
      (Text → Trail F → Option (Trail F))
      → Run F
      → Text
      → List (CausalEdge F)
      → Trail F
      → Option (Trail F)
  unfolding walk_edges at_root
  at_node go run node_id [] t = some (at_root fixed2 run node_id (lookup node_id run.graph.nodes) t)
  at_node go run node_id (edge ∷ edges) t = walk_edges go run (edge ∷ edges) t

  -- The first argument is `MaxTraversalDepth - depth`.
  unfoldable pub walk_backward : ℕ → Run F → Text → Text → Trail F → Option (Trail F)
  unfolding chain_edges at_node
  walk_backward zero run chain_id node_id t = some t
  walk_backward (suc levels) run chain_id node_id t =
      at_node (walk_backward levels run chain_id) run node_id (chain_edges run chain_id node_id) t

  unfoldable pub traverse_chain : Sorting → ℕ → Run F → Text → Text → Option (CausalChainResult F)
  unfolding has_edges start_node start_trail walk_backward chain_result
  traverse_chain sorting max_traversal_depth run chain_id trigger_metric =
      if has_edges (edges_for_chain run.graph chain_id)
      then (do
        start ← start_node run.graph trigger_metric (terminal_nodes run.graph chain_id)
        trail ← walk_backward max_traversal_depth run chain_id start start_trail
        chain_result sorting chain_id trail)
      else none
