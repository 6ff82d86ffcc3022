-- ===== src/Collector/LockTree/Deepest.antt =====
-- The greatest depth over the blockers that are not blocked.
use mathlib.Core.Path.{subst}
use pgpulse.Common.{
  nat_eq, ℕ, ◌≤◌, true, false, ◌≡◌, refl, some, List, [], ◌∷◌, if◌then◌else◌, ◌==◌, Bool-cases, ◌⊎◌,
  inl, inr, arith, ltb,
}
use pgpulse.Collector.LockTree.{LockSets, member, deepest}
use pgpulse.Collector.LockTree.Depth.{IsDepth, bfs_max_depth-IsDepth}

-- What the loop over the blockers answers.
abbrev pub Deepest : LockSets → List ℕ → ℕ → ℕ → Type 0
Deepest s pids least d =
    (least ≤ d)
    × ((d ≡ least)
        ⊎ ((r : ℕ) × (member r pids ≡ true)
            × (member r s.blocked_set ≡ false)
            × IsDepth s.blocks r d))
    × ((r : ℕ)
        → member r pids ≡ true
        → member r s.blocked_set ≡ false
        → (k : ℕ) × IsDepth s.blocks r k × (k ≤ d))

skip :
    (s : LockSets) (pid : ℕ) (pids : List ℕ) (least d : ℕ)
    → member pid s.blocked_set ≡ true
    → Deepest s pids least d
    → Deepest s (pid ∷ pids) least d
skip s pid pids least d is (low, from, bound) =
    (low, source from, λ r i root. bound r (other r i root) root)
  where
    source :
        (d ≡ least)
          ⊎ ((r : ℕ) × (member r pids ≡ true)
              × (member r s.blocked_set ≡ false)
              × IsDepth s.blocks r d)
        → (d ≡ least)
          ⊎ ((r : ℕ) × (member r (pid ∷ pids) ≡ true)
              × (member r s.blocked_set ≡ false)
              × IsDepth s.blocks r d)
    source (inl e) = inl e
    source (inr (r, i, root, depth)) = inr (r, ground (arith, i), root, depth)

    other :
        (r : ℕ)
        → member r (pid ∷ pids) ≡ true
        → member r s.blocked_set ≡ false
        → member r pids ≡ true
    other r i root = elim (Bool-cases (pid == r)) [
      | inl e ↦
          let same : pid ≡ r = ground (arith, e) in
          let is' : member r s.blocked_set ≡ true =
            subst (λ q. member q s.blocked_set ≡ true) same is in
          absurd (ground (arith, is', root))
      | inr e ↦ ground (arith, i, e)
    ]

take_depth :
    (s : LockSets) (pid : ℕ) (pids : List ℕ) (least k d : ℕ)
    → member pid s.blocked_set ≡ false
    → IsDepth s.blocks pid k
    → Deepest s pids (if ltb least k then k else least) d
    → Deepest s (pid ∷ pids) least d
take_depth s pid pids least k d root depth (low, from, bound) =
    (ground (arith, low), source from, both)
  where
    source :
        (d ≡ (if ltb least k then k else least))
          ⊎ ((r : ℕ) × (member r pids ≡ true)
              × (member r s.blocked_set ≡ false)
              × IsDepth s.blocks r d)
        → (d ≡ least)
          ⊎ ((r : ℕ) × (member r (pid ∷ pids) ≡ true)
              × (member r s.blocked_set ≡ false)
              × IsDepth s.blocks r d)
    source (inl e) = elim (Bool-cases (ltb least k)) [
      | inl more ↦
          let at : k ≡ d = ground (arith, e, more) in
          inr (pid, ground arith, root, subst (λ x. IsDepth s.blocks pid x) at depth)
      | inr less ↦ inl (ground (arith, e, less))
    ]
    source (inr (r, i, root', depth')) = inr (r, ground (arith, i), root', depth')

    both :
        (r : ℕ)
        → member r (pid ∷ pids) ≡ true
        → member r s.blocked_set ≡ false
        → (k' : ℕ) × IsDepth s.blocks r k' × (k' ≤ d)
    both r i root' = elim (Bool-cases (pid == r)) [
      | inl e ↦
          let same : pid ≡ r = ground (arith, e) in
          (k, subst (λ x. IsDepth s.blocks x k) same depth, ground (arith, low))
      | inr e ↦ bound r (ground (arith, i, e)) root'
    ]

pub deepest-Deepest :
    (s : LockSets) (pids : List ℕ) (least : ℕ)
    → (d : ℕ) × (deepest s pids least ≡ some d) × Deepest s pids least d
unfolding deepest
deepest-Deepest s [] least =
    (least, refl, (omega arith, inl refl, λ r i root. absurd (ground (arith, i))))
deepest-Deepest s (pid ∷ pids) least = elim (Bool-cases (member pid s.blocked_set)) [
  | inl e ↦
      let rest = deepest-Deepest s pids least in
      rw (deepest, e) (rest.0, rest.1, skip s pid pids least rest.0 e rest.2)
  | inr e ↦
      let found = bfs_max_depth-IsDepth s.blocks pid in
      let rest = deepest-Deepest s pids (if ltb least found.0 then found.0 else least) in
      rw (deepest, e)
        (rw found.1 (rest.0, rest.1, take_depth s pid pids least found.0 rest.0 e found.2 rest.2))
]
