-- ===== src/Rca/Engine/Provenance/Chain.antt =====
-- What the events of a chain's result report.
use pgpulse.Common.{
  ℕ, ◌≡◌, refl, Option, none, some, List, [], ◌∷◌, Bool-cases, inl, inr, OnSome, All, option_list,
  ◌>>=◌, All-append, suc, Bool, ◌==◌, zero, if◌then◌else◌, false, true,
}
use pgpulse.Common.Text.{Text, text_eq}
use pgpulse.Common.Map.{lookup}
use pgpulse.Common.Float.{Float}
use pgpulse.Rca.Graph.{CausalNode, CausalEdge, edges_for_chain, terminal_nodes}
use pgpulse.Rca.Events.{AnomalyEvent, TimelineEvent, CausalChainResult}
use pgpulse.Rca.Evidence.{build_timeline_event}
use pgpulse.Rca.Evidence.Strongest.{Candidate, find_strongest_anomaly-Candidate}
use pgpulse.Rca.Engine.{Run, evaluate_edge, Trail}
use pgpulse.Common.Sorting.{Sorting, IsSorting, All-Permᴰ}
use pgpulse.Rca.Engine.Walk.{
  add_root, at_root, add_edge, killed, walk_edges, at_node, walk_backward, chain_edges,
  chain_result, has_edges, start_node, start_trail, traverse_chain,
}
use pgpulse.Rca.Engine.Provenance.{Explained, evaluate_edge-Explained}

-- The result reports only events that the run explains.
abbrev pub Reports : {F : Type 0} → Run F → CausalChainResult F → Type 0
Reports run r = All (Explained run) r.events

module _ {F : Type 0} ⦃f : Float F⦄ (exp : F → F) (fixed2 : F → Text) (run : Run F) where
  abbrev Sound : Trail F → Type 0
  Sound t = All (Explained run) t.events

  option_list-All :
      (o : Option (TimelineEvent F))
      → OnSome (Explained run) o
      → All (Explained run) (option_list o)
  option_list-All none h = tt
  option_list-All (some ev) h = (h, tt)

  add_root-Sound :
      (node_id : Text) (node : CausalNode) (found : Option (AnomalyEvent F)) (t : Trail F)
      → lookup node_id run.graph.nodes ≡ some node
      → OnSome (Candidate run.window.from run.window.to run.anomaly_map node.metric_keys) found
      → Sound t
      → Sound (add_root fixed2 node_id node found t)
  unfolding add_root build_timeline_event
  add_root-Sound node_id node none t is c h = h
  add_root-Sound node_id node (some a) t is c h =
      All-append (Explained run) t.events _ h
        ((node_id, node, is, refl, inl (a, c, refl, refl, refl)), tt)

  at_root-Sound :
      (node_id : Text) (found : Option CausalNode) (t : Trail F)
      → lookup node_id run.graph.nodes ≡ found
      → Sound t
      → Sound (at_root fixed2 run node_id found t)
  unfolding at_root
  at_root-Sound node_id none t is h = h
  at_root-Sound node_id (some node) t is h =
      add_root-Sound node_id node _ t is
        (find_strongest_anomaly-Candidate run.window.from run.window.to run.anomaly_map
          node.metric_keys)
        h

  add_edge-Sound :
      (edge : CausalEdge F) (t : Trail F)
      → Sound t
      → Sound (add_edge (evaluate_edge exp fixed2 run edge) t)
  unfolding add_edge
  add_edge-Sound edge t h =
      All-append (Explained run) t.events _ h
        (option_list-All _ (evaluate_edge-Explained exp fixed2 run edge))

  bind-Sound :
      (o : Option (Trail F)) (k : Trail F → Option (Trail F))
      → OnSome Sound o
      → ((v : Trail F) → Sound v → OnSome Sound (k v))
      → OnSome Sound (o >>= k)
  bind-Sound none k h rest = tt
  bind-Sound (some v) k h rest = rest v h

  walk_edges-Sound :
      (go : Text → Trail F → Option (Trail F)) (es : List (CausalEdge F)) (t : Trail F)
      → ((k : Text) (v : Trail F) → Sound v → OnSome Sound (go k v))
      → Sound t
      → OnSome Sound (walk_edges exp fixed2 go run es t)
  unfolding walk_edges
  walk_edges-Sound go [] t deeper h = h
  walk_edges-Sound go (e ∷ es) t deeper h = elim (Bool-cases (killed exp fixed2 run e)) [
    | inl dead ↦ rw dead tt
    | inr alive ↦ rw alive (
        bind-Sound (go e.from_node (add_edge (evaluate_edge exp fixed2 run e) t))
          (λ v. walk_edges exp fixed2 go run es v) (deeper e.from_node _ (add_edge-Sound e t h))
          (λ v g. walk_edges-Sound go es v deeper g))
  ]

  at_node-Sound :
      (go : Text → Trail F → Option (Trail F)) (node_id : Text) (es : List (CausalEdge F))
      (t : Trail F)
      → ((k : Text) (v : Trail F) → Sound v → OnSome Sound (go k v))
      → Sound t
      → OnSome Sound (at_node exp fixed2 go run node_id es t)
  unfolding at_node
  at_node-Sound go node_id [] t deeper h =
      at_root-Sound node_id (lookup node_id run.graph.nodes) t refl h
  at_node-Sound go node_id (e ∷ es) t deeper h = walk_edges-Sound go (e ∷ es) t deeper h

  walk_backward-Sound :
      (levels : ℕ) (chain_id node_id : Text) (t : Trail F)
      → Sound t
      → OnSome Sound (walk_backward exp fixed2 levels run chain_id node_id t)
  unfolding walk_backward
  walk_backward-Sound zero chain_id node_id t h = h
  walk_backward-Sound (suc n) chain_id node_id t h =
      at_node-Sound (walk_backward exp fixed2 n run chain_id) node_id
        (chain_edges run chain_id node_id) t (λ k v g. walk_backward-Sound n chain_id k v g) h

  chain_result-Reports :
      (sorting : Sorting)
      → IsSorting sorting
      → (chain_id : Text) (t : Trail F) → Sound t
      → OnSome (Reports run) (chain_result sorting chain_id t)
  unfolding chain_result
  chain_result-Reports sorting laws chain_id t h = elim (Bool-cases (t.edge_count == 0)) [
    | inl e ↦ rw e tt
    | inr e ↦ rw e (All-Permᴰ (Explained run) t.events _ (laws.permutes _ t.events) h)
  ]

  bind-Reports :
      (sorting : Sorting)
      → IsSorting sorting
      → (chain_id : Text) (o : Option (Trail F)) → OnSome Sound o
      → OnSome (Reports run) (o >>= λ t. chain_result sorting chain_id t)
  bind-Reports sorting laws chain_id none h = tt
  bind-Reports sorting laws chain_id (some t) h = chain_result-Reports sorting laws chain_id t h

  -- Where the sort is one, every event in the result of a chain stands at a node of the graph, and reports either an
  -- anomaly of one of that node's metrics in the window, with its time, value and strength, or a change of settings
  -- that the provider answered for the window.
  pub traverse_chain-Reports :
      (sorting : Sorting)
      → IsSorting sorting
      → (levels : ℕ) (chain_id trigger_metric : Text)
      → OnSome (Reports run) (traverse_chain exp fixed2 sorting levels run chain_id trigger_metric)
  unfolding traverse_chain start_trail
  traverse_chain-Reports sorting laws levels chain_id trigger_metric =
      go (has_edges (edges_for_chain run.graph chain_id))
        (start_node run.graph trigger_metric (terminal_nodes run.graph chain_id))
    where
      go :
          (b : Bool) (o : Option Text)
          → OnSome (Reports run) (
              if b
              then (o >>= λ start.
                  walk_backward exp fixed2 levels run chain_id start start_trail >>= λ t.
                  chain_result sorting chain_id t)
              else none)
      go false o = tt
      go true none = tt
      go true (some start) =
          bind-Reports sorting laws chain_id _
            (walk_backward-Sound levels chain_id start start_trail tt)
