-- ===== src/Rca/Engine/Branches.antt =====
-- When the walk kills a branch, and what it keeps.
use mathlib.Core.Path.{subst, sym, ap}
use pgpulse.Common.{
  ℕ, zero, suc, true, false, ◌≡◌, refl, Option, none, some, List, [], ◌∷◌, here, there, Bool-cases,
  inl, inr, ◌>>=◌, ◌⊎◌, ◌∙◌, sym, arith, ap,
}
use pgpulse.Common.Text.{Text}
use pgpulse.Common.Float.{Float}
use pgpulse.Rca.Graph.{CausalEdge, EvidenceRequirement, evidence_required, evidence_supporting}
use pgpulse.Rca.Graph.Reach.{In}
use pgpulse.Rca.Engine.{is_required, Run, Trail, evaluate_edge}
use pgpulse.Rca.Engine.Walk.{killed, add_edge, walk_edges, at_node, chain_edges, walk_backward}

-- `Reached run chain_id n node_id e`: a walk of `n` levels from the node comes to the edge of the chain.
pub data Reached {F : Type 0} (run : Run F) (chain_id : Text)
    : ℕ → Text → CausalEdge F → Type 0 where
  next :
      {n : ℕ} {node_id : Text} {e : CausalEdge F}
      → In e (chain_edges run chain_id node_id)
      → Reached run chain_id (suc n) node_id e
  beyond :
      {n : ℕ} {node_id : Text} {e : CausalEdge F} (d : CausalEdge F)
      → In d (chain_edges run chain_id node_id)
      → Reached run chain_id n d.from_node e
      → Reached run chain_id (suc n) node_id e

module _ {F : Type 0} ⦃f : Float F⦄ (exp : F → F) (fixed2 : F → Text) (run : Run F) where
  -- A walk comes to the edges of `at`: if it breaks off, one of them is killed, and else, none is.
  abbrev pub Outcome : (CausalEdge F → Type 0) → Option (Trail F) → Type 0
  Outcome at none = (e : CausalEdge F) × at e × (killed exp fixed2 run e ≡ true)
  Outcome at (some t) = (e : CausalEdge F) → at e → killed exp fixed2 run e ≡ false

  -- The edges, and those that `at` reaches from their causes.
  abbrev From : (Text → CausalEdge F → Type 0) → List (CausalEdge F) → CausalEdge F → Type 0
  From at es e = (d : CausalEdge F) × In d es × ((d ≡ e) ⊎ at d.from_node e)

  bind-Outcome :
      (at : Text → CausalEdge F → Type 0) (e : CausalEdge F) (es : List (CausalEdge F))
      (o : Option (Trail F)) (k : Trail F → Option (Trail F))
      → killed exp fixed2 run e ≡ false
      → Outcome (at e.from_node) o
      → ((v : Trail F) → Outcome (From at es) (k v))
      → Outcome (From at (e ∷ es)) (o >>= k)
  bind-Outcome at e es none k alive (x, far, dead) rest = (x, (e, here {x = e} refl, inr far), dead)
  bind-Outcome at e es (some t) k alive below rest = join (k t) (rest t)
    where
      join : (o : Option (Trail F)) → Outcome (From at es) o → Outcome (From at (e ∷ es)) o
      join none (x, (d, i, far), dead) = (x, (d, there i, far), dead)
      join (some v) above = λ x from. reach x from.0 from.1 from.2
        where
          reach :
              (x d : CausalEdge F)
              → In d (e ∷ es)
              → ((d ≡ x) ⊎ at d.from_node x)
              → killed exp fixed2 run x ≡ false
          reach x d (here is) (inl same) =
              subst (λ c. killed exp fixed2 run c ≡ false) (is ∙ same) alive
          reach x d (here is) (inr far) = below x (subst (λ c. at c.from_node x) (sym is) far)
          reach x d (there i) far = above x (d, i, far)

  walk_edges-Outcome :
      (go : Text → Trail F → Option (Trail F)) (at : Text → CausalEdge F → Type 0)
      (es : List (CausalEdge F)) (t : Trail F)
      → ((k : Text) (v : Trail F) → Outcome (at k) (go k v))
      → Outcome (From at es) (walk_edges exp fixed2 go run es t)
  unfolding walk_edges
  walk_edges-Outcome go at [] t below = λ e from. elim from.1 [ ]
  walk_edges-Outcome go at (e ∷ es) t below = elim (Bool-cases (killed exp fixed2 run e)) [
    | inl dead ↦ rw dead (e, (e, here {x = e} refl, inl refl), dead)
    | inr alive ↦ rw alive (
        bind-Outcome at e es (go e.from_node (add_edge (evaluate_edge exp fixed2 run e) t))
          (λ v. walk_edges exp fixed2 go run es v) alive
          (below e.from_node (add_edge (evaluate_edge exp fixed2 run e) t))
          (λ v. walk_edges-Outcome go at es v below))
  ]

  at_node-Outcome :
      (go : Text → Trail F → Option (Trail F)) (at : Text → CausalEdge F → Type 0) (node_id : Text)
      (es : List (CausalEdge F)) (t : Trail F)
      → ((k : Text) (v : Trail F) → Outcome (at k) (go k v))
      → Outcome (From at es) (at_node exp fixed2 go run node_id es t)
  unfolding at_node
  at_node-Outcome go at node_id [] t below = λ e from. elim from.1 [ ]
  at_node-Outcome go at node_id (e ∷ es) t below = walk_edges-Outcome go at (e ∷ es) t below

  From-Reached :
      (chain_id node_id : Text) (n : ℕ) (o : Option (Trail F))
      → Outcome (From (Reached run chain_id n) (chain_edges run chain_id node_id)) o
      → Outcome (Reached run chain_id (suc n) node_id) o
  From-Reached chain_id node_id n none (e, (d, i, inl same), dead) =
      (e, next (subst (λ c. In c (chain_edges run chain_id node_id)) same i), dead)
  From-Reached chain_id node_id n none (e, (d, i, inr far), dead) = (e, beyond d i far, dead)
  From-Reached chain_id node_id n (some t) alive = λ e reached. go e reached
    where
      go :
          (e : CausalEdge F)
          → Reached run chain_id (suc n) node_id e
          → killed exp fixed2 run e ≡ false
      go e (next i) = alive e (e, i, inl refl)
      go e (beyond d i far) = alive e (d, i, inr far)

  walk_backward-Outcome :
      (levels : ℕ) (chain_id node_id : Text) (t : Trail F)
      → Outcome
          (Reached run chain_id levels node_id)
          (walk_backward exp fixed2 levels run chain_id node_id t)
  unfolding walk_backward
  walk_backward-Outcome zero chain_id node_id t = λ e reached. elim reached [ ]
  walk_backward-Outcome (suc n) chain_id node_id t = From-Reached chain_id node_id n _ (
      at_node-Outcome (walk_backward exp fixed2 n run chain_id) (Reached run chain_id n) node_id
        (chain_edges run chain_id node_id) t (λ k v. walk_backward-Outcome n chain_id k v))

  -- The edge requires evidence, and there is none.
  abbrev pub Dead : CausalEdge F → Type 0
  Dead e = ((evaluate_edge exp fixed2 run e).found ≡ false) × (e.evidence ≡ evidence_required)

  -- A walk that breaks off comes to a dead edge, and one that does not comes to none.
  abbrev pub Verdict : (CausalEdge F → Type 0) → Option (Trail F) → Type 0
  Verdict at none = (e : CausalEdge F) × at e × Dead e
  Verdict at (some t) = (e : CausalEdge F) → at e → Dead e → ⊥

  is_required_lem : (r : EvidenceRequirement) → is_required r ≡ true → r ≡ evidence_required
  unfolding is_required
  is_required_lem evidence_required h = refl
  is_required_lem evidence_supporting h = absurd (ground (arith, h))

  killed-Dead : (e : CausalEdge F) → killed exp fixed2 run e ≡ true → Dead e
  unfolding killed
  killed-Dead e h = (ground (arith, h), is_required_lem e.evidence (ground (arith, h)))

  Dead-killed : (e : CausalEdge F) → killed exp fixed2 run e ≡ false → Dead e → ⊥
  unfolding killed is_required
  Dead-killed e h (lost, required) =
      let must : is_required e.evidence ≡ true = ap is_required required in
      ground (arith, h, lost, must)

  judged : (at : CausalEdge F → Type 0) (o : Option (Trail F)) → Outcome at o → Verdict at o
  judged at none (e, reached, dead) = (e, reached, killed-Dead e dead)
  judged at (some t) alive = λ e reached dead. Dead-killed e (alive e reached) dead

  -- The walk breaks off exactly when it comes to an edge, within its levels, that requires evidence and
  -- has none: where it breaks off, there is such an edge, and where it does not, no edge that it comes to is one.
  pub walk_backward-Verdict :
      (levels : ℕ) (chain_id node_id : Text) (t : Trail F)
      → Verdict
          (Reached run chain_id levels node_id)
          (walk_backward exp fixed2 levels run chain_id node_id t)
  walk_backward-Verdict levels chain_id node_id t =
      judged (Reached run chain_id levels node_id)
        (walk_backward exp fixed2 levels run chain_id node_id t)
        (walk_backward-Outcome levels chain_id node_id t)
