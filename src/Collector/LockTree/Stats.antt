-- ===== src/Collector/LockTree/Stats.antt =====
-- What the statistics say of the edges.
use pgpulse.Common.{
  nat_eq, ℕ, ◌≤◌, Bool, true, false, not, ◌&&◌, ◌≡◌, refl, sym, ◌∙◌, some, List, [], ◌∷◌, ◌==◌, any,
  ◌⊎◌, inl, inr, arith, length,
}
use pgpulse.Collector.LockTree.{
  LockEdge, LockSets, LockStats, member, lock_sets, length, root_blockers, compute_lock_stats,
}
use pgpulse.Collector.LockTree.Search.{Behind, itself, blocked, in_map}
use pgpulse.Collector.LockTree.Depth.{IsDepth}
use pgpulse.Collector.LockTree.Deepest.{Deepest, deepest-Deepest}
use pgpulse.Collector.LockTree.Sets.{
  IsCount, blocked_set-member, blocker_set-member, Distinct, keep-Distinct, sets-Distinct,
  member-keep, blocks-member,
}
use pgpulse.Common.Map.{get_or, lookup}

abbrev pub is_blocked : List LockEdge → ℕ → Bool
is_blocked edges p = any (λ e. e.blocked_pid == p) edges

-- The process blocks another and is not blocked itself.
abbrev pub is_root : List LockEdge → ℕ → Bool
is_root edges p = any (λ e. e.blocker_pid == p) edges && not (is_blocked edges p)

abbrev pub blocks_directly : List LockEdge → ℕ → ℕ → Bool
blocks_directly edges q c = any (λ e. e.blocker_pid == q && e.blocked_pid == c) edges

-- The depth is 0 or that of some process behind a root blocker, and whoever stands behind a root
-- blocker does so by a chain that is no longer.
abbrev pub IsMaxDepth : List LockEdge → ℕ → Type 0
IsMaxDepth edges d =
    ((d ≡ 0)
      ⊎ ((r : ℕ) × (p : ℕ) × (is_root edges r ≡ true) × Behind (blocks_directly edges) d r p))
    × ((r n p : ℕ)
        → is_root edges r ≡ true
        → Behind (blocks_directly edges) n r p
        → (k : ℕ) × Behind (blocks_directly edges) k r p × (k ≤ d))

abbrev pub Describes : List LockEdge → LockStats → Type 0
Describes edges stats =
    IsCount (is_root edges) stats.blocker_count
    × IsCount (is_blocked edges) stats.blocked_count
    × IsMaxDepth edges stats.max_chain_depth

Behind-mono :
    (f g : ℕ → ℕ → Bool) (n p q : ℕ) → ((a b : ℕ) → f a b ≡ g a b) → Behind f n p q → Behind g n p q
Behind-mono f g n p q same itself = itself
Behind-mono f g n p q same (blocked b c far is) =
    blocked b c (Behind-mono f g _ p b same far) (sym (same b c) ∙ is)

module _ (edges : List LockEdge) where
  abbrev sets : LockSets
  sets = lock_sets edges

  blocked_eq : (p : ℕ) → member p sets.blocked_set ≡ is_blocked edges p
  unfolding lock_sets
  blocked_eq p = blocked_set-member p _ edges

  blocker_eq : (p : ℕ) → member p sets.blocker_set ≡ any (λ e. e.blocker_pid == p) edges
  unfolding lock_sets
  blocker_eq p = blocker_set-member p _ edges

  blocks_eq : (q c : ℕ) → in_map sets.blocks q c ≡ blocks_directly edges q c
  unfolding lock_sets get_or lookup
  blocks_eq q c = blocks-member q c _ edges

  lock_sets-Distinct : Distinct sets.blocked_set × Distinct sets.blocker_set
  unfolding lock_sets
  lock_sets-Distinct = sets-Distinct _ edges tt tt

  blocked-IsCount : IsCount (is_blocked edges) (length sets.blocked_set)
  blocked-IsCount = (sets.blocked_set, lock_sets-Distinct.0, blocked_eq, refl)

  roots-IsCount : IsCount (is_root edges) (length (root_blockers sets))
  unfolding root_blockers
  roots-IsCount =
      let test : ℕ → Bool = λ p. not (member p sets.blocked_set) in
      (
        root_blockers sets,
        keep-Distinct test sets.blocker_set lock_sets-Distinct.1,
        (λ p. ground (arith, member-keep test p sets.blocker_set, blocked_eq p, blocker_eq p)),
        refl,
      )

  to_edges : (n p q : ℕ) → Behind (in_map sets.blocks) n p q → Behind (blocks_directly edges) n p q
  to_edges n p q = Behind-mono (in_map sets.blocks) (blocks_directly edges) n p q blocks_eq

  of_edges : (n p q : ℕ) → Behind (blocks_directly edges) n p q → Behind (in_map sets.blocks) n p q
  of_edges n p q =
      Behind-mono (blocks_directly edges) (in_map sets.blocks) n p q (λ a b. sym (blocks_eq a b))

  Deepest-IsMaxDepth : (d : ℕ) → Deepest sets sets.blocker_set 0 d → IsMaxDepth edges d
  Deepest-IsMaxDepth d (low, from, bound) = (source from, λ r n p root far. within r n p root far)
    where
      source :
          (d ≡ 0)
            ⊎ ((r : ℕ) × (member r sets.blocker_set ≡ true)
                × (member r sets.blocked_set ≡ false)
                × IsDepth sets.blocks r d)
          → (d ≡ 0)
            ⊎ ((r : ℕ) × (p : ℕ) × (is_root edges r ≡ true) × Behind (blocks_directly edges) d r p)
      source (inl e) = inl e
      source (inr (r, i, root, depth)) = inr (
        r,
        depth.0.0,
        ground (arith, i, root, blocker_eq r, blocked_eq r),
        to_edges d r depth.0.0 depth.0.1,
      )

      within :
          (r n p : ℕ)
          → is_root edges r ≡ true
          → Behind (blocks_directly edges) n r p
          → (k : ℕ) × Behind (blocks_directly edges) k r p × (k ≤ d)
      within r n p root far =
          let depth =
            bound r (ground (arith, root, blocker_eq r)) (ground (arith, root, blocked_eq r)) in
          let near = depth.1.1 n p (of_edges n r p far) in
          (near.0, to_edges near.0 r p near.1, omega (arith, near.2, depth.2))

-- The statistics are computed for every list of edges, deadlocks included. They count the root blockers and the
-- blocked processes, each once, and give a depth at which some process stands behind a root blocker, or 0, such that
-- whoever stands behind a root blocker does so by a chain that is no longer.
pub compute_lock_stats-Describes :
    (edges : List LockEdge)
    → (stats : LockStats) × (compute_lock_stats edges ≡ some stats) × Describes edges stats
unfolding compute_lock_stats
compute_lock_stats-Describes [] = (
  record { blocker_count = 0; blocked_count = 0; max_chain_depth = 0 },
  refl,
  (
    ([], tt, (λ p. refl), refl),
    ([], tt, (λ p. refl), refl),
    (inl refl, λ r n p root far. absurd (ground (arith, root))),
  ),
)
compute_lock_stats-Describes (e ∷ es) =
    let s = lock_sets (e ∷ es) in
    let found = deepest-Deepest s s.blocker_set 0 in
    rw found.1 (
      _,
      refl,
      (
        roots-IsCount (e ∷ es),
        blocked-IsCount (e ∷ es),
        Deepest-IsMaxDepth (e ∷ es) found.0 found.2,
      ),
    )
