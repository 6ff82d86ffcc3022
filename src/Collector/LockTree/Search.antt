-- ===== src/Collector/LockTree/Search.antt =====
-- The search from one blocker ends, and visits all that stand behind it.
use pgpulse.Common.{
  nat_eq, ℕ, suc, ◌≤◌, true, false, not, ◌≡◌, List, [], ◌∷◌, ◌++◌, Any, here, there, ◌⊎◌, inl, inr,
  ◌==◌, keep, length, Bool-cases, arith, All, ◌+◌, if◌then◌else◌, length-append, All-append, Bool,
}
use pgpulse.Common.Map.{Map, get_or}
use pgpulse.Collector.LockTree.{member, Item}

-- `Behind blocks n p q`: from `p`, a chain of `n` blockings leads to `q`.
pub data Behind (blocks : ℕ → ℕ → Bool) : ℕ → ℕ → ℕ → Type 0 where
  itself : {p : ℕ} → Behind blocks 0 p p
  blocked :
      {n p : ℕ} (q c : ℕ) → Behind blocks n p q → blocks q c ≡ true → Behind blocks (suc n) p c

-- The map says that `q` blocks `c`.
abbrev pub in_map : Map ℕ (List ℕ) → ℕ → ℕ → Bool
in_map blocks q c = member c (get_or [] q blocks)

abbrev pub Queued : ℕ → List Item → Type 0
Queued p queue = Any (λ i. i.0 ≡ p) queue

Queued-append : (p : ℕ) (q r : List Item) → Queued p q ⊎ Queued p r → Queued p (q ++ r)
Queued-append p [] r (inl i) = elim i [ ]
Queued-append p [] r (inr i) = i
Queued-append p (x ∷ q) r (inl (here is)) = here is
Queued-append p (x ∷ q) r (inl (there i)) = there (Queued-append p q r (inl i))
Queued-append p (x ∷ q) r (inr i) = there (Queued-append p q r (inr i))

-- The children that are not visited yet.
abbrev pub unvisited : List ℕ → List ℕ → ℕ
unvisited children visited = length (keep (λ c. not (member c visited)) children)

unvisited-add :
    (children visited : List ℕ) (c : ℕ)
    → unvisited children (c ∷ visited) ≤ unvisited children visited
unvisited-add [] visited c = omega arith
unvisited-add (d ∷ ds) visited c = ground (arith, unvisited-add ds visited c)

unvisited-less :
    (children visited : List ℕ) (c : ℕ)
    → member c children ≡ true
    → member c visited ≡ false
    → suc (unvisited children (c ∷ visited)) ≤ unvisited children visited
unvisited-less [] visited c is new = absurd (ground (arith, is))
unvisited-less (d ∷ ds) visited c is new = elim (Bool-cases (d == c)) [
  | inl e ↦
      let same : d ≡ c = ground (arith, e) in
      rw same (ground (arith, new, unvisited-add ds visited c))
  | inr e ↦ ground (arith, e, is, new, unvisited-less ds visited c)
]

-- What the loop over the children does to `visited` and `queue`.
module _ (depth : ℕ) where
  -- One turn.
  abbrev pub push_one : ℕ → List ℕ × List Item → List ℕ × List Item
  push_one child s = if member child s.0 then s else (child ∷ s.0, s.1 ++ ((child, suc depth) ∷ []))

  pub push_one-measure :
      (universe : List ℕ) (child : ℕ) (s : List ℕ × List Item)
      → member child universe ≡ true
      → length (push_one child s).1 + unvisited universe (push_one child s).0
        ≤ length s.1 + unvisited universe s.0
  push_one-measure universe child s is = elim (Bool-cases (member child s.0)) [
    | inl e ↦ rw e (omega arith)
    | inr e ↦ rw e (
        omega (
          arith,
          length-append s.1 ((child, suc depth) ∷ []),
          unvisited-less universe s.0 child is e,
        ))
  ]

  pub push_one-keeps :
      (child p : ℕ) (s : List ℕ × List Item)
      → member p s.0 ≡ true
      → member p (push_one child s).0 ≡ true
  push_one-keeps child p s is = ground (arith, is)

  pub push_one-Queued :
      (child p : ℕ) (s : List ℕ × List Item) → Queued p s.1 → Queued p (push_one child s).1
  push_one-Queued child p s i = elim (Bool-cases (member child s.0)) [
    | inl e ↦ rw e i
    | inr e ↦ rw e (Queued-append p s.1 _ (inl i))
  ]

  pub push_one-takes :
      (child : ℕ) (s : List ℕ × List Item) → member child (push_one child s).0 ≡ true
  push_one-takes child s = ground arith

  pub push_one-origin :
      (child p : ℕ) (s : List ℕ × List Item)
      → member p (push_one child s).0 ≡ true
      → (member p s.0 ≡ true) ⊎ Queued p (push_one child s).1
  push_one-origin child p s = elim (Bool-cases (member child s.0)) [
    | inl e ↦ rw e (λ is. inl is)
    | inr e ↦ rw e (λ is. elim (Bool-cases (child == p)) [
      | inl same ↦ inr (Queued-append p s.1 _ (inr (here (ground (arith, same)))))
      | inr other ↦ inl (ground (arith, is, other))
    ])
  ]

  pub push_one-All :
      (P : Item → Type 0) (child : ℕ) (s : List ℕ × List Item)
      → P (child, suc depth)
      → All P s.1
      → All P (push_one child s).1
  push_one-All P child s new h = elim (Bool-cases (member child s.0)) [
    | inl e ↦ rw e h
    | inr e ↦ rw e (All-append P s.1 _ h (new, tt))
  ]
