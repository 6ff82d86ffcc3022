-- ===== src/Rca/Graph.antt =====
-- internal/rca/graph.go. The pointers to nodes are the nodes; maps from keys to `true` are the lists
-- of their keys. Where the source ranges over a map, the order is that of the list.
use pgpulse.Common.{
  ℕ, zero, suc, Bool, true, false, not, ◌&&◌, ◌||◌, Option, none, some, List, [], ◌∷◌, ◌++◌,
  if◌then◌else◌, ◌=?◌, keep, any, map,
}
use pgpulse.Common.Text.{Text, text_eq}
use pgpulse.Common.Map.{Map, lookup}
pub mod Reach
pub mod Chains

pub data TemporalSemantics : Type 0 where
  bounded_lag : TemporalSemantics
  persistent_state : TemporalSemantics
  while_effective : TemporalSemantics

pub data EvidenceRequirement : Type 0 where
  evidence_required : EvidenceRequirement
  evidence_supporting : EvidenceRequirement

pub record CausalNode : Type 0 where
  pub id : Text
  pub name : Text
  pub metric_keys : List Text
  pub layer : Text
  pub symptom_key : Text
  pub mechanism_key : Text

-- The arguments of addNode: id, name, metric keys, layer, symptom and mechanism.
abbrev pub NodeArgs : Type 0
NodeArgs = Text × Text × List Text × Text × Text × Text

pub record CausalEdge (F : Type 0) : Type 0 where
  pub from_node : Text
  pub to_node : Text
  pub min_lag : ℕ
  pub max_lag : ℕ
  pub temporal : TemporalSemantics
  pub evidence : EvidenceRequirement
  pub description : Text
  pub base_confidence : F
  pub chain_id : Text
  pub remediation_hook : Text

pub record CausalGraph (F : Type 0) : Type 0 where
  pub nodes : Map Text CausalNode
  pub edges : List (CausalEdge F)
  pub chain_ids : List Text

-- `m[k]` for a map to `true`.
abbrev pub contains : Text → List Text → Bool
contains k ks = any (λ j. j =? k) ks

-- The entries whose key is not held yet, once each.
abbrev pub add_new : List Text → List Text → List Text
add_new [] seen = []
add_new (k ∷ ks) seen = if contains k seen then add_new ks seen else k ∷ add_new ks (k ∷ seen)

unfoldable pub matching_nodes : Text → Map Text CausalNode → List Text
matching_nodes metric_key [] = []
matching_nodes metric_key ((id, node) ∷ ns) =
    let rest = matching_nodes metric_key ns in
    if any (λ mk. mk =? metric_key) node.metric_keys then id ∷ rest else rest

-- `visited` and `result` of the walk.
abbrev pub Walk : Type 0
Walk = List Text × List CausalNode

add_node : Option CausalNode → List CausalNode → List CausalNode
add_node none result = result
add_node (some node) result = result ++ (node ∷ [])

module _ {F : Type 0} where
  unfoldable pub incoming_edges : CausalGraph F → Text → List (CausalEdge F)
  incoming_edges g node_id = keep (λ e. e.to_node =? node_id) g.edges

  unfoldable pub edges_for_chain : CausalGraph F → Text → List (CausalEdge F)
  edges_for_chain g chain_id = keep (λ e. e.chain_id =? chain_id) g.edges

  -- The loop over the edges, with the chains seen so far.
  chains_of_edges : List Text → List Text → List (CausalEdge F) → List Text
  chains_of_edges matching seen [] = seen
  chains_of_edges matching seen (e ∷ es) =
      chains_of_edges matching
        (if contains e.to_node matching && not (contains e.chain_id seen)
          then seen ++ (e.chain_id ∷ [])
          else seen)
        es

  -- The loop over the registered chains.
  chains_of_ids : List Text → List (CausalEdge F) → List Text → List Text → List Text
  chains_of_ids matching edges seen [] = seen
  chains_of_ids matching edges seen (c ∷ cs) =
      chains_of_ids matching edges
        (if contains c seen
          then seen
          else if any (λ e. e.chain_id =? c && contains e.to_node matching) edges
          then seen ++ (c ∷ [])
          else seen)
        cs

  unfoldable pub chains_for_trigger : CausalGraph F → Text → List Text
  unfolding matching_nodes chains_of_edges chains_of_ids
  chains_for_trigger g metric_key =
      let matching = matching_nodes metric_key g.nodes in
      chains_of_ids matching g.edges (chains_of_edges matching [] g.edges) g.chain_ids

  -- The loop over the edges at one node. `go` is the walk with one level less.
  walk_edges : (Text → Walk → Walk) → CausalGraph F → Text → List (CausalEdge F) → Walk → Walk
  walk_edges go g node_id [] w = w
  walk_edges go g node_id (e ∷ es) w = walk_edges go g node_id es (
      if e.to_node =? node_id && not (contains e.from_node w.0)
      then go e.from_node (e.from_node ∷ w.0, add_node (lookup e.from_node g.nodes) w.1)
      else w)

  reachable_walk : CausalGraph F → ℕ → Text → Walk → Walk
  unfolding walk_edges add_node
  reachable_walk g zero node_id w = w
  reachable_walk g (suc depth) node_id w = walk_edges (reachable_walk g depth) g node_id g.edges w

  unfoldable pub reachable_nodes : CausalGraph F → Text → ℕ → List CausalNode
  unfolding reachable_walk
  reachable_nodes g node_id max_depth = (reachable_walk g max_depth node_id ([], [])).1

  node_ids_for_chains : List Text → List (CausalEdge F) → List Text
  node_ids_for_chains chain_ids [] = []
  node_ids_for_chains chain_ids (e ∷ es) =
      let rest = node_ids_for_chains chain_ids es in
      if contains e.chain_id chain_ids then e.from_node ∷ e.to_node ∷ rest else rest

  metric_keys_of : CausalGraph F → List Text → List Text
  metric_keys_of g [] = []
  metric_keys_of g (id ∷ ids) = elim (lookup id g.nodes) [
    | none ↦ metric_keys_of g ids
    | some node ↦ node.metric_keys ++ metric_keys_of g ids
  ]

  unfoldable pub metric_keys_for_chains : CausalGraph F → List Text → List Text
  unfolding node_ids_for_chains metric_keys_of
  metric_keys_for_chains g chain_ids =
      add_new (metric_keys_of g (add_new (node_ids_for_chains chain_ids g.edges) [])) []

  unfoldable pub terminal_nodes : CausalGraph F → Text → List Text
  unfolding edges_for_chain
  terminal_nodes g chain_id =
      let edges = edges_for_chain g chain_id in
      keep (λ id. not (contains id (map (λ e. e.from_node) edges)))
        (add_new (map (λ e. e.to_node) edges) [])
