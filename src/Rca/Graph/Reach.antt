-- ===== src/Rca/Graph/Reach.antt =====
-- Which nodes the walk upstream finds.
use pgpulse.Common.{
  refl, here, there, ℕ, suc, ◌≡◌, some, Any, ◌≤◌, List, Option, All, All-append, ◌∷◌, ◌+◌, [],
  arith, if◌then◌else◌, ◌=?◌, none, zero, ◌&&◌, not, Bool-cases, inl, here, inr,
}
use pgpulse.Common.Text.{Text, text_eq, text_beq_iff}
use pgpulse.Common.Map.{lookup}
use pgpulse.Rca.Graph.{
  CausalNode, CausalGraph, CausalEdge, add_node, walk_edges, reachable_walk, reachable_nodes, Walk,
  contains,
}

-- The edge stands in the list.
abbrev pub In : {F : Type 0} → CausalEdge F → List (CausalEdge F) → Type 0
In e es = Any (λ x. x ≡ e) es

-- `Upstream g n a b`: along `n` edges of the graph, `b` causes `a`.
pub data Upstream {F : Type 0} (g : CausalGraph F) : ℕ → Text → Text → Type 0 where
  itself : {a : Text} → Upstream g 0 a a
  caused :
      {n : ℕ} {a : Text} (b : Text) (e : CausalEdge F)
      → Upstream g n a b
      → In e g.edges
      → e.to_node ≡ b
      → Upstream g (suc n) a e.from_node

module _ {F : Type 0} (g : CausalGraph F) (max_depth : ℕ) (root : Text) where
  -- The node is in the graph and causes the root along `max_depth` edges or fewer, and at least one.
  abbrev pub Found : CausalNode → Type 0
  Found node =
      (b : Text) × (n : ℕ) × (lookup b g.nodes ≡ some node)
      × (1 ≤ n)
      × (n ≤ max_depth)
      × Upstream g n root b

  add_node-Found :
      (e : CausalEdge F) (k : ℕ) (found : Option CausalNode) (result : List CausalNode)
      → lookup e.from_node g.nodes ≡ found
      → suc k ≤ max_depth
      → Upstream g (suc k) root e.from_node
      → All Found result
      → All Found (add_node found result)
  unfolding add_node
  add_node-Found e k none result is deep up h = h
  add_node-Found e k (some node) result is deep up h =
      All-append Found result (node ∷ []) h ((e.from_node, suc k, is, omega arith, deep, up), tt)

  walk_edges-Found :
      (go : Text → Walk → Walk) (k : ℕ) (node_id : Text) (es : List (CausalEdge F)) (w : Walk)
      → ((b : Text) (v : Walk) → Upstream g (suc k) root b → All Found v.1 → All Found (go b v).1)
      → ((e : CausalEdge F) → In e es → In e g.edges)
      → suc k ≤ max_depth
      → Upstream g k root node_id
      → All Found w.1
      → All Found (walk_edges go g node_id es w).1
  unfolding walk_edges
  walk_edges-Found go k node_id [] w deeper inside deep up h = h
  walk_edges-Found go k node_id (e ∷ es) w deeper inside deep up h =
      walk_edges-Found go k node_id es _ deeper (λ x p. inside x (there p)) deep up next
    where
      next :
          All Found
            (if e.to_node =? node_id && not (contains e.from_node w.0)
              then go e.from_node (e.from_node ∷ w.0, add_node (lookup e.from_node g.nodes) w.1)
              else w).1
      next = elim (Bool-cases (e.to_node =? node_id && not (contains e.from_node w.0))) [
        | inl c ↦
            let at : e.to_node ≡ node_id = (text_beq_iff e.to_node node_id).0 (ground (arith, c)) in
            let up' = caused node_id e up (inside e (here {x = e} refl)) at in
            rw c (
              deeper e.from_node _ up'
                (add_node-Found e k (lookup e.from_node g.nodes) w.1 refl deep up' h))
        | inr c ↦ rw c h
      ]

  reachable_walk-Found :
      (depth k : ℕ) (node_id : Text) (w : Walk)
      → depth + k ≡ max_depth
      → Upstream g k root node_id
      → All Found w.1
      → All Found (reachable_walk g depth node_id w).1
  unfolding reachable_walk
  reachable_walk-Found zero k node_id w levels up h = h
  reachable_walk-Found (suc depth) k node_id w levels up h =
      walk_edges-Found (reachable_walk g depth) k node_id g.edges w
        (λ b v up' h'. reachable_walk-Found depth (suc k) b v (omega (arith, levels)) up' h')
        (λ e p. p) (omega (arith, levels)) up h

-- Every node that the walk upstream answers is a node of the graph that causes the node it starts from
-- along a path of edges, of as many edges as the depth or fewer.
pub reachable_nodes_sound :
    {F : Type 0} (g : CausalGraph F) (node_id : Text) (max_depth : ℕ)
    → All (Found g max_depth node_id) (reachable_nodes g node_id max_depth)
unfolding reachable_nodes
reachable_nodes_sound g node_id max_depth =
    reachable_walk-Found g max_depth node_id max_depth 0 node_id ([], []) (omega arith) itself tt
