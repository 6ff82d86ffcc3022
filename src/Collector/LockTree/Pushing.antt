-- ===== src/Collector/LockTree/Pushing.antt =====
-- What the loop over the children of a process leaves.
use pgpulse.Common.{
  ℕ, suc, ◌+◌, ◌≤◌, true, ◌≡◌, List, [], ◌∷◌, All, ◌⊎◌, inl, inr, ◌==◌, length, Bool-cases, arith,
}
use pgpulse.Collector.LockTree.{member, Item, push_children}
use pgpulse.Collector.LockTree.Search.{
  Queued, unvisited, push_one, push_one-measure, push_one-keeps, push_one-Queued, push_one-takes,
  push_one-origin, push_one-All,
}

-- Nothing is lost, the children are visited, and what is visited now was so before or is queued.
pub record Pushed (children : List ℕ) (s t : List ℕ × List Item) : Type 0 where
  pub keeps : (p : ℕ) → member p s.0 ≡ true → member p t.0 ≡ true
  pub queues : (p : ℕ) → Queued p s.1 → Queued p t.1
  pub takes : (c : ℕ) → member c children ≡ true → member c t.0 ≡ true
  pub origin : (p : ℕ) → member p t.0 ≡ true → (member p s.0 ≡ true) ⊎ Queued p t.1

module _ (depth : ℕ) where
  Pushed-next :
      (child : ℕ) (children : List ℕ) (s t : List ℕ × List Item)
      → Pushed children (push_one depth child s) t
      → Pushed (child ∷ children) s t
  Pushed-next child children s t rest = record {
    keeps = λ p i. rest.keeps p (push_one-keeps depth child p s i);
    queues = λ p i. rest.queues p (push_one-Queued depth child p s i);
    takes = λ c is. elim (Bool-cases (child == c)) [
      | inl same ↦
          let at : child ≡ c = ground (arith, same) in
          rw⁻¹ at (rest.keeps child (push_one-takes depth child s))
      | inr other ↦ rest.takes c (ground (arith, is, other))
    ];
    origin = λ p i. elim (rest.origin p i) [
      | inl before ↦ elim (push_one-origin depth child p s before) [
        | inl j ↦ inl j
        | inr j ↦ inr (rest.queues p j)
      ]
      | inr j ↦ inr j
    ];
  }

  pub push_children-Pushed :
      (children : List ℕ) (s : List ℕ × List Item)
      → Pushed children s (push_children depth children s)
  unfolding push_children
  push_children-Pushed [] s = record {
    keeps = λ p i. i;
    queues = λ p i. i;
    takes = λ c is. absurd (ground (arith, is));
    origin = λ p i. inl i;
  }
  push_children-Pushed (c ∷ cs) s =
      Pushed-next c cs s (push_children depth cs (push_one depth c s))
        (push_children-Pushed cs (push_one depth c s))

  -- The queue grows by no more than the children that become visited.
  pub push_children-measure :
      (universe children : List ℕ) (s : List ℕ × List Item)
      → ((c : ℕ) → member c children ≡ true → member c universe ≡ true)
      → length (push_children depth children s).1
          + unvisited universe (push_children depth children s).0
        ≤ length s.1 + unvisited universe s.0
  unfolding push_children
  push_children-measure universe [] s inside = omega arith
  push_children-measure universe (c ∷ cs) s inside = omega (
    arith,
    push_one-measure depth universe c s (inside c (ground arith)),
    push_children-measure universe cs (push_one depth c s) (λ d is. inside d (ground (arith, is))),
  )

  pub push_children-All :
      (P : Item → Type 0) (children : List ℕ) (s : List ℕ × List Item)
      → ((c : ℕ) → member c children ≡ true → P (c, suc depth))
      → All P s.1
      → All P (push_children depth children s).1
  unfolding push_children
  push_children-All P [] s new h = h
  push_children-All P (c ∷ cs) s new h =
      push_children-All P cs (push_one depth c s) (λ d is. new d (ground (arith, is)))
        (push_one-All depth P c s (new c (ground arith)) h)
