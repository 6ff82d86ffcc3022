-- ===== src/Rca/Graph/Chains.antt =====
-- Which chains a metric triggers, and where a chain ends.
use pgpulse.Common.{
  ◌≡◌, refl, ◌∙◌, ap, Bool, true, false, not, ◌&&◌, ◌||◌, List, [], ◌∷◌, ◌++◌, arith, if◌then◌else◌,
  ◌=?◌, any, keep, map, Bool-cases, inl, inr, ◌⊎◌,
}
use pgpulse.Common.Text.{Text, text_eq, text_beq_iff}
use pgpulse.Rca.Graph.{
  CausalEdge, CausalGraph, contains, add_new, matching_nodes, chains_of_edges, chains_of_ids,
  chains_for_trigger, terminal_nodes, edges_for_chain,
}

contains-append :
    (c : Text) (xs ys : List Text) → contains c (xs ++ ys) ≡ (contains c xs || contains c ys)
contains-append c [] ys = refl
contains-append c (x ∷ xs) ys = ground (arith, contains-append c xs ys)

add_new-contains :
    (ks seen : List Text) (k : Text)
    → contains k (add_new ks seen) ≡ (contains k ks && not (contains k seen))
add_new-contains [] seen k = refl
add_new-contains (j ∷ ks) seen k = elim (Bool-cases (j =? k)) [
  | inl e ↦
      let same = (text_beq_iff j k).0 e in
      rw same (ground (arith, text_beq_iff k k, add_new-contains ks seen k))
  | inr e ↦ ground (arith, e, add_new-contains ks seen k, add_new-contains ks (j ∷ seen) k)
]

contains-keep :
    (p : Text → Bool) (ks : List Text) (k : Text) → contains k (keep p ks) ≡ (contains k ks && p k)
contains-keep p [] k = refl
contains-keep p (j ∷ ks) k = elim (Bool-cases (j =? k)) [
  | inl e ↦
      let same = (text_beq_iff j k).0 e in
      rw same (ground (arith, text_beq_iff k k, contains-keep p ks k))
  | inr e ↦ ground (arith, e, contains-keep p ks k)
]

module _ {F : Type 0} where
  -- An edge of the chain leads to a node that measures the metric.
  abbrev pub triggers : CausalGraph F → Text → Text → Bool
  triggers g metric_key c =
      any (λ e. e.chain_id =? c && contains e.to_node (matching_nodes metric_key g.nodes)) g.edges

  chains_of_edges-contains :
      (matching : List Text) (c : Text) (es : List (CausalEdge F)) (seen : List Text)
      → contains c (chains_of_edges matching seen es)
        ≡ (contains c seen || any (λ e. e.chain_id =? c && contains e.to_node matching) es)
  unfolding chains_of_edges
  chains_of_edges-contains matching c [] seen = ground arith
  chains_of_edges-contains matching c (e ∷ es) seen =
      chains_of_edges-contains matching c es _
      ∙ same e.chain_id refl (Bool-cases (e.chain_id =? c)) (contains e.to_node matching)
    where
      rest : Bool
      rest = any (λ x. x.chain_id =? c && contains x.to_node matching) es

      same :
          (d : Text)
          → d ≡ e.chain_id
          → ((d =? c) ≡ true) ⊎ ((d =? c) ≡ false)
          → (hit : Bool)
          → (contains c (if hit && not (contains d seen) then seen ++ (d ∷ []) else seen) || rest)
            ≡ (contains c seen || ((d =? c) && hit || rest))
      same d is (inl e') hit =
          let at = (text_beq_iff d c).0 e' in
          rw at (ground (arith, contains-append c seen (c ∷ []), text_beq_iff c c))
      same d is (inr e') hit = ground (arith, e', contains-append c seen (d ∷ []))

  chains_of_ids_same :
      (matching : List Text) (edges : List (CausalEdge F)) (seen cs : List Text)
      → ((c : Text)
          → any (λ e. e.chain_id =? c && contains e.to_node matching) edges ≡ true
          → contains c seen ≡ true)
      → chains_of_ids matching edges seen cs ≡ seen
  unfolding chains_of_ids
  chains_of_ids_same matching edges seen [] all = refl
  chains_of_ids_same matching edges seen (d ∷ ds) all =
      let hit = any (λ e. e.chain_id =? d && contains e.to_node matching) edges in
      elim (Bool-cases (contains d seen)) [
        | inl e ↦ rw e (chains_of_ids_same matching edges seen ds all)
        | inr e ↦ elim (Bool-cases hit) [
          | inl a ↦ absurd (ground (arith, e, all d a))
          | inr a ↦ rw e (rw a (chains_of_ids_same matching edges seen ds all))
        ]
      ]

  pub chains_for_trigger-contains :
      (g : CausalGraph F) (metric_key c : Text)
      → contains c (chains_for_trigger g metric_key) ≡ triggers g metric_key c
  unfolding chains_for_trigger
  chains_for_trigger-contains g metric_key c =
      let matching = matching_nodes metric_key g.nodes in
      let listed = λ (d : Text). chains_of_edges-contains matching d g.edges [] in
      ap (contains c) (
        chains_of_ids_same matching g.edges (chains_of_edges matching [] g.edges) g.chain_ids
          (λ d a. listed d ∙ a))
      ∙ listed c

  contains-map :
      (field : CausalEdge F → Text) (p : CausalEdge F → Bool) (es : List (CausalEdge F)) (k : Text)
      → contains k (map field (keep p es)) ≡ any (λ e. p e && (field e =? k)) es
  contains-map field p [] k = refl
  contains-map field p (e ∷ es) k = ground (arith, contains-map field p es k)

  -- The terminal nodes of a chain are those that some edge of the chain leads to and no edge of it
  -- leaves.
  pub terminal_nodes-contains :
      (g : CausalGraph F) (chain_id k : Text)
      → contains k (terminal_nodes g chain_id) ≡ (
          any (λ e. e.chain_id =? chain_id && (e.to_node =? k)) g.edges
          && not (any (λ e. e.chain_id =? chain_id && (e.from_node =? k)) g.edges))
  unfolding terminal_nodes edges_for_chain
  terminal_nodes-contains g chain_id k =
      let edges = keep (λ e. e.chain_id =? chain_id) g.edges in
      let leaves = map (λ e. e.from_node) edges in
      let led_to = map (λ e. e.to_node) edges in
      let in_chain : CausalEdge F → Bool = λ e. e.chain_id =? chain_id in
      ground (
        arith,
        contains-keep (λ id. not (contains id leaves)) (add_new led_to []) k,
        add_new-contains led_to [] k,
        contains-map (λ e. e.to_node) in_chain g.edges k,
        contains-map (λ e. e.from_node) in_chain g.edges k,
      )
