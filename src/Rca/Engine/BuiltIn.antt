-- ===== src/Rca/Engine/BuiltIn.antt =====
-- The walk on the built-in graph.
use mathlib.Core.Path.{subst}
use pgpulse.Common.{
  ℕ, Bool, true, false, ◌≡◌, refl, sym, ◌∙◌, List, [], ◌∷◌, ◌≤◌, ◌<◌, All, arith, ltb, leb,
  if◌then◌else◌, any, ◌=?◌, ◌&&◌, not, every-All, every, All-mono, ◌||◌,
}
use pgpulse.Common.Text.{Text, text, text_beq, text_eq}
use pgpulse.Common.Float.{Float}
use pgpulse.Common.Sorting.{Sorting}
use pgpulse.Common.Map.{Map, lookup, insert, get_or}
use pgpulse.Rca.Graph.{CausalNode, CausalEdge, contains, matching_nodes, chains_for_trigger}
use pgpulse.Rca.Graph.Chains.{chains_for_trigger-contains}
use pgpulse.Rca.Ontology.{chain_settings_change_behavior}
use pgpulse.Rca.Defaults.{new_default_graph, default_edges}
use pgpulse.Rca.Engine.{Run}
use pgpulse.Rca.Engine.Walk.{traverse_chain}
use pgpulse.Rca.Engine.Depth.{Ranks, traverse_chain-agree}

-- The nodes that others lead to, by how many edges at most; all else is 0.
abbrev effect_ranks : Map Text ℕ
effect_ranks =
    (text "wal_generation", 1)
    ∷ (text "checkpoint_storm", 2)
    ∷ (text "disk_io", 3)
    ∷ (text "replication_lag", 4)
    ∷ (text "wal_retention", 1)
    ∷ (text "disk_fill", 2)
    ∷ (text "wal_receiver_disconnect", 1)
    ∷ (text "replication_apply_delay", 1)
    ∷ (text "query_latency", 4)
    ∷ (text "query_slowdown", 4)
    ∷ (text "backend_writes", 1)
    ∷ (text "blocked_queries", 1)
    ∷ (text "connection_pileup", 2)
    ∷ (text "memory_pressure", 1)
    ∷ (text "oom_risk", 2)
    ∷ (text "mvcc_bloat", 1)
    ∷ (text "conn_holding", 2)
    ∷ (text "cpu_spike", 1)
    ∷ (text "latency_spike", 2)
    ∷ (text "resource_shift", 1)
    ∷ (text "seq_scans", 1)
    ∷ (text "pgss_eviction", 1)
    ∷ (text "table_bloat", 1)
    ∷ (text "scan_degradation", 2)
    ∷ (text "aggressive_vacuum", 1)
    ∷ (text "vacuum_blocked", 1)
    ∷ (text "dead_tuple_growth", 2)
    ∷ (text "behavioral_shift", 1)
    ∷ (text "oom_killer", 1)
    ∷ (text "pg_crash", 2)
    ∷ []

default_rank : Text → ℕ
default_rank k = get_or 0 k effect_ranks

get_or-low : (k : Text) (m : Map Text ℕ) → All (λ p. leb p.1 4 ≡ true) m → get_or 0 k m < 5
unfolding get_or lookup
get_or-low k [] h = omega arith
get_or-low k ((j, n) ∷ m) (h, hs) = ground (arith, h, get_or-low k m hs)

default_rank-low : (k : Text) → default_rank k < 5
unfolding default_rank
default_rank-low k = get_or-low k effect_ranks (every-All (λ p. leb p.1 4) effect_ranks refl)

module _ (F : Type 0) ⦃f : Float F⦄ where
  ascending :
      every (λ e. ltb (default_rank e.from_node) (default_rank e.to_node)) (default_edges {F = F})
      ≡ true
  unfolding default_edges default_rank get_or lookup text text_beq
  ascending = refl

  new_default_graph-Ranks : Ranks default_rank (new_default_graph {F = F})
  unfolding new_default_graph
  new_default_graph-Ranks =
      let ascends : CausalEdge F → Bool =
        λ e. ltb (default_rank e.from_node) (default_rank e.to_node) in
      All-mono (λ e. ascends e ≡ true) (λ e. default_rank e.from_node < default_rank e.to_node)
        default_edges (λ e h. ground (arith, h)) (every-All ascends default_edges ascending)

-- On the built-in graph, a walk of five levels, the default, reads each chain to its root: any greater depth
-- gives the same result, for every chain, trigger and set of anomalies.
pub traverse_chain-default_depth :
    {F : Type 0} ⦃f : Float F⦄ (exp : F → F) (fixed2 : F → Text) (run : Run F) (sorting : Sorting)
    (depth : ℕ) (chain_id trigger_metric : Text)
    → run.graph ≡ new_default_graph
    → 5 ≤ depth
    → traverse_chain exp fixed2 sorting depth run chain_id trigger_metric
      ≡ traverse_chain exp fixed2 sorting 5 run chain_id trigger_metric
traverse_chain-default_depth {F} exp fixed2 run sorting depth chain_id trigger_metric same deep =
    traverse_chain-agree exp fixed2 run sorting default_rank 5 depth chain_id trigger_metric
      (subst (Ranks default_rank) (sym same) (new_default_graph-Ranks F)) default_rank-low deep

is_empty : List Text → Bool
is_empty [] = true
is_empty (_ ∷ _) = false

-- No node under the id measures a metric.
unfoldable silent : Map Text CausalNode → Text → Bool
unfolding is_empty
silent nodes id = every (λ n. not (n.0 =? id) || is_empty n.1.metric_keys) nodes

-- Whether the node is listed, and the rest is not.
skipped :
    (id k metric_key : Text) (mks rest : List Text)
    → (not (k =? id) || is_empty mks) ≡ true
    → contains id rest ≡ false
    → contains id (if any (λ mk. mk =? metric_key) mks then k ∷ rest else rest) ≡ false
unfolding is_empty
skipped id k metric_key [] rest h none_left = none_left
skipped id k metric_key (mk ∷ mks) rest h none_left = ground (arith, h, none_left)

both : (a b : Bool) → (a && b) ≡ true → (a ≡ true) × (b ≡ true)
both a b h = (ground (arith, h), ground (arith, h))

silent_lem :
    (id metric_key : Text) (ns : Map Text CausalNode)
    → silent ns id ≡ true
    → contains id (matching_nodes metric_key ns) ≡ false
unfolding matching_nodes silent
silent_lem id metric_key [] h = refl
silent_lem id metric_key ((k, node) ∷ ns) h =
    let parts = both (not (k =? id) || is_empty node.metric_keys) (silent ns id) h in
    skipped id k metric_key node.metric_keys (matching_nodes metric_key ns) parts.0
      (silent_lem id metric_key ns parts.1)

module _ {F : Type 0} (nodes : Map Text CausalNode) (chain_id metric_key : Text) where
  silent-triggers :
      (es : List (CausalEdge F))
      → every (λ e. not (e.chain_id =? chain_id) || silent nodes e.to_node) es ≡ true
      → any (λ e. e.chain_id =? chain_id && contains e.to_node (matching_nodes metric_key nodes)) es
        ≡ false
  silent-triggers [] h = refl
  silent-triggers (e ∷ es) h =
      ground (arith, h, silent_lem e.to_node metric_key nodes, silent-triggers es)

-- The chain of the built-in graph that starts from a change of settings is a candidate for no trigger:
-- the node where it ends measures no metric.
pub chains_for_trigger-settings :
    (F : Type 0) ⦃f : Float F⦄ (metric_key : Text)
    → contains chain_settings_change_behavior
        (chains_for_trigger (new_default_graph {F = F}) metric_key)
      ≡ false
unfolding new_default_graph default_edges text text_beq insert is_empty silent
chains_for_trigger-settings F metric_key =
    chains_for_trigger-contains new_default_graph metric_key chain_settings_change_behavior
    ∙ silent-triggers {F = F} (new_default_graph {F = F}).nodes chain_settings_change_behavior
        metric_key default_edges refl
