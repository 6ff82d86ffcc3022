-- ===== src/Rca/Engine/Depth.antt =====
-- How deep the walk goes.
use pgpulse.Common.{
  ℕ, zero, suc, ◌≡◌, refl, ap, Option, none, List, [], ◌∷◌, ◌≤◌, ◌<◌, All, arith, if◌then◌else◌,
  Bool-cases, inl, inr, bind_agree, keep, ◌=?◌, keep-All, sym,
}
use pgpulse.Common.Text.{Text, text_eq, text_beq_iff}
use pgpulse.Common.Float.{Float}
use pgpulse.Rca.Graph.{CausalEdge, CausalGraph, incoming_edges}
use pgpulse.Rca.Engine.{Run, Trail, evaluate_edge, Sorting, edges_for_chain}
use pgpulse.Rca.Engine.Walk.{
  killed, add_edge, walk_edges, at_node, chain_edges, walk_backward, traverse_chain, has_edges,
  start_trail,
}

-- A cause ranks below its effect.
abbrev pub Ranks : {F : Type 0} → (Text → ℕ) → CausalGraph F → Type 0
Ranks rank g = All (λ e. rank e.from_node < rank e.to_node) g.edges

module _ {F : Type 0} ⦃f : Float F⦄ (exp : F → F) (fixed2 : F → Text) (run : Run F) where
  walk_edges-agree :
      (go go' : Text → Trail F → Option (Trail F)) (es : List (CausalEdge F)) (t : Trail F)
      → All (λ e. (v : Trail F) → go e.from_node v ≡ go' e.from_node v) es
      → walk_edges exp fixed2 go run es t ≡ walk_edges exp fixed2 go' run es t
  unfolding walk_edges
  walk_edges-agree go go' [] t h = refl
  walk_edges-agree go go' (e ∷ es) t (h, hs) =
      ap (λ o. if killed exp fixed2 run e then none else o)
        (bind_agree _ _ _ _ (h (add_edge (evaluate_edge exp fixed2 run e) t))
          (λ v. walk_edges-agree go go' es v hs))

  at_node-agree :
      (go go' : Text → Trail F → Option (Trail F)) (node_id : Text) (es : List (CausalEdge F))
      (t : Trail F)
      → All (λ e. (v : Trail F) → go e.from_node v ≡ go' e.from_node v) es
      → at_node exp fixed2 go run node_id es t ≡ at_node exp fixed2 go' run node_id es t
  unfolding at_node
  at_node-agree go go' node_id [] t h = refl
  at_node-agree go go' node_id (e ∷ es) t h = walk_edges-agree go go' (e ∷ es) t h

  module _ (chain_id : Text) (rank : Text → ℕ) where
    keep-Ranks :
        (node_id : Text) (es : List (CausalEdge F))
        → All (λ e. rank e.from_node < rank e.to_node) es
        → All (λ e. rank e.from_node < rank node_id) (keep (λ e. e.to_node =? node_id) es)
    keep-Ranks node_id [] h = tt
    keep-Ranks node_id (e ∷ es) (h, hs) = elim (Bool-cases (e.to_node =? node_id)) [
      | inl c ↦
          let at = ap rank ((text_beq_iff e.to_node node_id).0 c) in
          rw c (omega (arith, h, at), keep-Ranks node_id es hs)
      | inr c ↦ rw c (keep-Ranks node_id es hs)
    ]

    deeper_agree :
        (levels deeper : ℕ) (node_id : Text) (es : List (CausalEdge F))
        → rank node_id ≤ levels
        → ((k : Text) (v : Trail F)
            → rank k < levels
            → walk_backward exp fixed2 levels run chain_id k v
              ≡ walk_backward exp fixed2 deeper run chain_id k v)
        → All (λ e. rank e.from_node < rank node_id) es
        → All
            (λ e.
              (v : Trail F)
              → walk_backward exp fixed2 levels run chain_id e.from_node v
                ≡ walk_backward exp fixed2 deeper run chain_id e.from_node v)
            es
    deeper_agree levels deeper node_id [] low ih h = tt
    deeper_agree levels deeper node_id (e ∷ es) low ih (h, hs) = (
      λ v. ih e.from_node v (omega (arith, low, h)),
      deeper_agree levels deeper node_id es low ih hs,
    )

    -- On a graph whose edges ascend in rank, more levels than the rank of the node are not used.
    pub walk_backward-agree :
        Ranks rank run.graph
        → (levels deeper : ℕ) (node_id : Text) (t : Trail F) → rank node_id < levels
        → levels ≤ deeper
        → walk_backward exp fixed2 levels run chain_id node_id t
          ≡ walk_backward exp fixed2 deeper run chain_id node_id t
    unfolding walk_backward chain_edges incoming_edges
    walk_backward-agree ranks zero deeper node_id t low more = absurd (omega (arith, low))
    walk_backward-agree ranks (suc levels) zero node_id t low more = absurd (omega (arith, more))
    walk_backward-agree ranks (suc levels) (suc deeper) node_id t low more =
        at_node-agree (walk_backward exp fixed2 levels run chain_id)
          (walk_backward exp fixed2 deeper run chain_id) node_id _ t
          (deeper_agree levels deeper node_id (chain_edges run chain_id node_id)
            (omega (arith, low))
            (λ k v l. walk_backward-agree ranks levels deeper k v l (omega (arith, more)))
            (keep-All (λ e. rank e.from_node < rank node_id) (λ e. e.chain_id =? chain_id)
              (keep (λ e. e.to_node =? node_id) run.graph.edges)
              (keep-Ranks node_id run.graph.edges ranks)))

  -- The depth at which a chain is walked does not matter from the length of the longest path on.
  pub traverse_chain-agree :
      (sorting : Sorting) (rank : Text → ℕ) (levels deeper : ℕ) (chain_id trigger_metric : Text)
      → Ranks rank run.graph
      → ((k : Text) → rank k < levels)
      → levels ≤ deeper
      → traverse_chain exp fixed2 sorting deeper run chain_id trigger_metric
        ≡ traverse_chain exp fixed2 sorting levels run chain_id trigger_metric
  unfolding traverse_chain
  traverse_chain-agree sorting rank levels deeper chain_id trigger_metric ranks low more =
      ap (λ o. if has_edges (edges_for_chain run.graph chain_id) then o else none)
        (bind_agree _ _ _ _ refl λ start.
          bind_agree _ _ _ _
            (sym (
              walk_backward-agree chain_id rank ranks levels deeper start start_trail (low start)
                more))
            (λ trail. refl))
