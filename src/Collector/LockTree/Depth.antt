-- ===== src/Collector/LockTree/Depth.antt =====
-- The depth that the search from one blocker answers.
use pgpulse.Common.{
  nat_eq, ℕ, zero, suc, ◌+◌, ◌≤◌, true, not, ◌≡◌, refl, sym, some, List, [], ◌∷◌, ◌++◌, All, here,
  there, ◌⊎◌, inl, inr, if◌then◌else◌, ltb, ◌==◌, length, length-keep, Bool-cases, arith, ◌||◌,
}
use mathlib.Core.Path.{subst}
use pgpulse.Common.Map.{Map, get_or, lookup}
use pgpulse.Collector.LockTree.{member, Item, push_children, search, all_children, bfs_max_depth}
use pgpulse.Collector.LockTree.Search.{Behind, itself, blocked, Queued, unvisited, in_map}
use pgpulse.Collector.LockTree.Pushing.{
  Pushed, push_children-Pushed, push_children-measure, push_children-All,
}

member-append : (c : ℕ) (xs ys : List ℕ) → member c (xs ++ ys) ≡ (member c xs || member c ys)
member-append c [] ys = refl
member-append c (x ∷ xs) ys = ground (arith, member-append c xs ys)

child_listed :
    (blocks : Map ℕ (List ℕ)) (p c : ℕ)
    → member c (get_or [] p blocks) ≡ true
    → member c (all_children blocks) ≡ true
unfolding get_or lookup all_children
child_listed [] p c is = absurd (ground (arith, is))
child_listed ((q, children) ∷ blocks) p c is = elim (Bool-cases (q == p)) [
  | inl e ↦ ground (arith, is, e, member-append c children (all_children blocks))
  | inr e ↦
      ground (arith, is, e, member-append c children (all_children blocks), child_listed blocks p c)
]

module _ (blocks : Map ℕ (List ℕ)) (root : ℕ) where
  -- Some process stands at this depth behind the blocker, and whoever stands behind it does so by a
  -- chain that is no longer.
  abbrev pub IsDepth : ℕ → Type 0
  IsDepth d =
      ((p : ℕ) × Behind (in_map blocks) d root p)
      × ((n p : ℕ)
          → Behind (in_map blocks) n root p
          → (k : ℕ) × Behind (in_map blocks) k root p × (k ≤ d))

  record Inv (queue : List Item) (visited : List ℕ) (max_depth : ℕ) : Type 0 where
    queued : All (λ i. Behind (in_map blocks) i.1 root i.0) queue
    attained : (p : ℕ) × Behind (in_map blocks) max_depth root p
    covered :
        (p : ℕ)
        → member p visited ≡ true
        → ((k : ℕ) × Behind (in_map blocks) k root p × (k ≤ max_depth)) ⊎ Queued p queue
    closed :
        (p c : ℕ)
        → member p visited ≡ true
        → member c (get_or [] p blocks) ≡ true
        → (member c visited ≡ true) ⊎ Queued p queue
    rooted : member root visited ≡ true

  -- When nothing is queued any more, all that stand behind the blocker are visited.
  all_visited :
      (visited : List ℕ) (max_depth n p : ℕ)
      → Inv [] visited max_depth
      → Behind (in_map blocks) n root p
      → member p visited ≡ true
  all_visited visited max_depth n p inv itself = inv.rooted
  all_visited visited max_depth n p inv (blocked q c far is) =
      elim (inv.closed q c (all_visited visited max_depth _ q inv far) is) [
        | inl i ↦ i
        | inr i ↦ absurd (elim i [ ])
      ]

  finished : (visited : List ℕ) (max_depth : ℕ) → Inv [] visited max_depth → IsDepth max_depth
  finished visited max_depth inv = (
    inv.attained,
    λ n p far. elim (inv.covered p (all_visited visited max_depth n p inv far)) [
      | inl short ↦ short
      | inr i ↦ absurd (elim i [ ])
    ],
  )

  abbrev deeper : ℕ → ℕ → ℕ
  deeper max_depth depth = if ltb max_depth depth then depth else max_depth

  module _ (pid depth : ℕ) (queue : List Item) (visited : List ℕ) (max_depth : ℕ) where
    abbrev next : List ℕ × List Item
    next = push_children depth (get_or [] pid blocks) (visited, queue)

    abbrev Turn : Type 0
    Turn = Pushed (get_or [] pid blocks) (visited, queue) next

    turn-attained :
        Inv ((pid, depth) ∷ queue) visited max_depth
        → (p : ℕ) × Behind (in_map blocks) (deeper max_depth depth) root p
    turn-attained inv = elim (Bool-cases (ltb max_depth depth)) [
      | inl e ↦ rw e (pid, inv.queued.0)
      | inr e ↦ rw e inv.attained
    ]

    turn-covered :
        (p : ℕ)
        → Turn
        → Behind (in_map blocks) depth root pid
        → ((k : ℕ) × Behind (in_map blocks) k root p × (k ≤ max_depth))
          ⊎ Queued p ((pid, depth) ∷ queue)
        → ((k : ℕ) × Behind (in_map blocks) k root p × (k ≤ deeper max_depth depth))
          ⊎ Queued p next.1
    turn-covered p pushed far (inl (k, short, low)) = inl (k, short, ground (arith, low))
    turn-covered p pushed far (inr (here is)) =
        inl (depth, subst (λ q. Behind (in_map blocks) depth root q) is far, ground arith)
    turn-covered p pushed far (inr (there i)) = inr (pushed.queues p i)

    turn-closed :
        (p c : ℕ)
        → Turn
        → member c (get_or [] p blocks) ≡ true
        → (member c visited ≡ true) ⊎ Queued p ((pid, depth) ∷ queue)
        → (member c next.0 ≡ true) ⊎ Queued p next.1
    turn-closed p c pushed is (inl i) = inl (pushed.keeps c i)
    turn-closed p c pushed is (inr (here same)) =
        inl (pushed.takes c (subst (λ q. member c (get_or [] q blocks) ≡ true) (sym same) is))
    turn-closed p c pushed is (inr (there i)) = inr (pushed.queues p i)

    turn-Inv :
        Inv ((pid, depth) ∷ queue) visited max_depth → Inv next.1 next.0 (deeper max_depth depth)
    turn-Inv inv =
        let children = get_or [] pid blocks in
        let pushed : Turn = push_children-Pushed depth children (visited, queue) in
        record {
          queued =
              push_children-All depth (λ i. Behind (in_map blocks) i.1 root i.0) children
                (visited, queue) (λ c is. blocked pid c inv.queued.0 is) inv.queued.1;
          attained = turn-attained inv;
          covered = λ p i. elim (pushed.origin p i) [
            | inl before ↦ turn-covered p pushed inv.queued.0 (inv.covered p before)
            | inr j ↦ inr j
          ];
          closed = λ p c i is. elim (pushed.origin p i) [
            | inl before ↦ turn-closed p c pushed is (inv.closed p c before is)
            | inr j ↦ inr j
          ];
          rooted = pushed.keeps root inv.rooted;
        }

  search-IsDepth :
      (turns : ℕ) (queue : List Item) (visited : List ℕ) (max_depth : ℕ)
      → length queue + unvisited (all_children blocks) visited ≤ turns
      → Inv queue visited max_depth
      → (d : ℕ) × (search turns blocks queue visited max_depth ≡ some d) × IsDepth d
  unfolding search
  search-IsDepth zero [] visited max_depth enough inv =
      (max_depth, refl, finished visited max_depth inv)
  search-IsDepth (suc turns) [] visited max_depth enough inv =
      (max_depth, refl, finished visited max_depth inv)
  search-IsDepth zero (item ∷ queue) visited max_depth enough inv = absurd (omega (arith, enough))
  search-IsDepth (suc turns) ((pid, depth) ∷ queue) visited max_depth enough inv =
      let pushed = push_children depth (get_or [] pid blocks) (visited, queue) in
      let falls =
        push_children-measure depth (all_children blocks) (get_or [] pid blocks) (visited, queue)
          (λ c is. child_listed blocks pid c is) in
      search-IsDepth turns pushed.1 pushed.0 (deeper max_depth depth) (omega (arith, enough, falls))
        (turn-Inv pid depth queue visited max_depth inv)

  unvisited-low : (children visited : List ℕ) → unvisited children visited ≤ length children
  unvisited-low children visited = length-keep (λ c. not (member c visited)) children

  -- The search from a blocker ends, and answers how deep the processes behind it stand.
  pub bfs_max_depth-IsDepth : (d : ℕ) × (bfs_max_depth root blocks ≡ some d) × IsDepth d
  unfolding bfs_max_depth
  bfs_max_depth-IsDepth =
      search-IsDepth (suc (length (all_children blocks))) ((root, 0) ∷ []) (root ∷ []) 0
        (omega (arith, unvisited-low (all_children blocks) (root ∷ [])))
        (record {
          queued = (itself, tt);
          attained = (root, itself);
          covered = λ p i. inr (here (ground (arith, i)));
          closed = λ p c i is. inr (here (ground (arith, i)));
          rooted = ground arith;
        })
