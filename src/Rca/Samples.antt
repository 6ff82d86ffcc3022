-- ===== src/Rca/Samples.antt =====
-- Tests of internal/rca/graph.go, and the theorems at concrete inputs.
use pgpulse.Common.{ℕ, ◌≡◌, refl, not, ◌&&◌, [], ◌∷◌, ◌=?◌, any, All}
use pgpulse.Common.Text.{Text, text, text_eq, text_beq}
use pgpulse.Common.Map.{lookup}
use pgpulse.Rca.Graph.{
  CausalNode, CausalEdge, CausalGraph, bounded_lag, evidence_required, contains, terminal_nodes,
  reachable_nodes,
}
use pgpulse.Rca.Graph.Reach.{Found, reachable_nodes_sound}
use pgpulse.Rca.Graph.Chains.{terminal_nodes-contains}

abbrev pub node : Text → CausalNode
node id = record {
  id = id;
  name = id;
  metric_keys = id ∷ [];
  layer = [];
  symptom_key = [];
  mechanism_key = [];
}

abbrev pub link : Text → Text → CausalEdge ℕ
link a b = record {
  from_node = a;
  to_node = b;
  min_lag = 0;
  max_lag = 9;
  temporal = bounded_lag;
  evidence = evidence_required;
  description = [];
  base_confidence = 1;
  chain_id = text "c";
  remediation_hook = [];
}

-- `p` causes `s` straight and by way of `x`.
abbrev pub detour : CausalGraph ℕ
detour = record {
  nodes =
      (text "s", node (text "s"))
      ∷ (text "x", node (text "x"))
      ∷ (text "p", node (text "p"))
      ∷ (text "q", node (text "q"))
      ∷ [];
  edges =
      link (text "x") (text "s")
      ∷ link (text "p") (text "x")
      ∷ link (text "p") (text "s")
      ∷ link (text "q") (text "p")
      ∷ [];
  chain_ids = text "c" ∷ [];
}

-- `q` causes `s` in two steps, but a walk of depth two does not find it: it meets `p` by the detour
-- first, at its last level, and does not go on from there when it meets it again.
misses : reachable_nodes detour (text "s") 2 ≡ node (text "x") ∷ node (text "p") ∷ []
unfolding reachable_nodes lookup text text_beq
misses = refl

reachable_nodes_sound_example :
    All (Found detour 2 (text "s")) (reachable_nodes detour (text "s") 2)
reachable_nodes_sound_example = reachable_nodes_sound detour (text "s") 2

terminal_nodes-contains_example : contains (text "s") (terminal_nodes detour (text "c")) ≡ (
    any (λ e. e.chain_id =? text "c" && (e.to_node =? text "s")) detour.edges
    && not (any (λ e. e.chain_id =? text "c" && (e.from_node =? text "s")) detour.edges))
terminal_nodes-contains_example = terminal_nodes-contains detour (text "c") (text "s")
