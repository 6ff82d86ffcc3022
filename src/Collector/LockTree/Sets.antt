-- ===== src/Collector/LockTree/Sets.antt =====
-- What the sets of process ids hold, and the counts.
use mathlib.Core.Path.{subst, ap}
use pgpulse.Common.{
  nat_eq, ℕ, Bool, true, false, ◌&&◌, ◌||◌, ◌≡◌, refl, List, [], ◌∷◌, ◌++◌, ◌==◌, any, keep,
  Bool-cases, inl, inr, arith, length, ap, ◌∙◌,
}
use pgpulse.Common.Map.{get_or, get_or-insert}
use pgpulse.Collector.LockTree.{LockEdge, LockSets, member, add_pid, add_lock_edge, add_lock_edges}
use pgpulse.Collector.LockTree.Search.{in_map}

-- No id stands twice.
abbrev pub Distinct : List ℕ → Type 0
Distinct [] = Unit
Distinct (x ∷ xs) = (member x xs ≡ false) × Distinct xs

-- `n` is how many ids satisfy the test.
abbrev pub IsCount : (ℕ → Bool) → ℕ → Type 0
IsCount test n =
    (pids : List ℕ) × Distinct pids × ((p : ℕ) → member p pids ≡ test p) × (n ≡ length pids)

member-append_one : (p x : ℕ) (xs : List ℕ) → member p (xs ++ (x ∷ [])) ≡ (member p xs || x == p)
member-append_one p x [] = ground arith
member-append_one p x (y ∷ ys) = ground (arith, member-append_one p x ys)

member_same : (p x : ℕ) (xs : List ℕ) → member x xs ≡ true → member p xs ≡ (member p xs || x == p)
member_same p x xs h = elim (Bool-cases (x == p)) [
  | inl e ↦
      let same : x ≡ p = ground (arith, e) in
      let there : member p xs ≡ true = subst (λ q. member q xs ≡ true) same h in
      ground (arith, there)
  | inr e ↦ ground (arith, e)
]

member-add_pid : (p x : ℕ) (xs : List ℕ) → member p (add_pid x xs) ≡ (member p xs || x == p)
unfolding add_pid
member-add_pid p x xs = elim (Bool-cases (member x xs)) [
  | inl e ↦ rw e (member_same p x xs e)
  | inr e ↦ rw e (member-append_one p x xs)
]

Distinct-append_one :
    (x : ℕ) (xs : List ℕ) → Distinct xs → member x xs ≡ false → Distinct (xs ++ (x ∷ []))
Distinct-append_one x [] d new = (refl, tt)
Distinct-append_one x (y ∷ ys) (h, hs) new = (
  ground (arith, h, new, member-append_one y x ys),
  Distinct-append_one x ys hs (ground (arith, new)),
)

Distinct-add_pid : (x : ℕ) (xs : List ℕ) → Distinct xs → Distinct (add_pid x xs)
unfolding add_pid
Distinct-add_pid x xs d = elim (Bool-cases (member x xs)) [
  | inl e ↦ rw e d
  | inr e ↦ rw e (Distinct-append_one x xs d e)
]

pub member-keep :
    (test : ℕ → Bool) (p : ℕ) (xs : List ℕ) → member p (keep test xs) ≡ (member p xs && test p)
member-keep test p [] = refl
member-keep test p (x ∷ xs) = elim (Bool-cases (x == p)) [
  | inl e ↦ let same : x ≡ p = ground (arith, e) in rw same (ground (arith, member-keep test p xs))
  | inr e ↦ ground (arith, e, member-keep test p xs)
]

pub keep-Distinct : (test : ℕ → Bool) (xs : List ℕ) → Distinct xs → Distinct (keep test xs)
keep-Distinct test [] d = tt
keep-Distinct test (x ∷ xs) (h, hs) = elim (Bool-cases (test x)) [
  | inl e ↦ rw e (ground (arith, h, member-keep test x xs), keep-Distinct test xs hs)
  | inr e ↦ rw e (keep-Distinct test xs hs)
]

pub blocked_set-member :
    (p : ℕ) (s : LockSets) (es : List LockEdge)
    → member p (add_lock_edges s es).blocked_set
      ≡ (member p s.blocked_set || any (λ e. e.blocked_pid == p) es)
unfolding add_lock_edges add_lock_edge
blocked_set-member p s [] = ground arith
blocked_set-member p s (e ∷ es) = ground (
  arith,
  blocked_set-member p (add_lock_edge s e) es,
  member-add_pid p e.blocked_pid s.blocked_set,
)

pub blocker_set-member :
    (p : ℕ) (s : LockSets) (es : List LockEdge)
    → member p (add_lock_edges s es).blocker_set
      ≡ (member p s.blocker_set || any (λ e. e.blocker_pid == p) es)
unfolding add_lock_edges add_lock_edge
blocker_set-member p s [] = ground arith
blocker_set-member p s (e ∷ es) = ground (
  arith,
  blocker_set-member p (add_lock_edge s e) es,
  member-add_pid p e.blocker_pid s.blocker_set,
)

blocks-add_lock_edge :
    (q c : ℕ) (s : LockSets) (e : LockEdge)
    → in_map (add_lock_edge s e).blocks q c
      ≡ (in_map s.blocks q c || (e.blocker_pid == q && e.blocked_pid == c))
unfolding add_lock_edge
blocks-add_lock_edge q c s e =
    ap (member c) (
      get_or-insert [] e.blocker_pid q (add_pid e.blocked_pid (get_or [] e.blocker_pid s.blocks))
        s.blocks)
    ∙ elim (Bool-cases (e.blocker_pid == q)) [
      | inl is ↦
          let same : e.blocker_pid ≡ q = ground (arith, is) in
          rw same (ground (arith, member-add_pid c e.blocked_pid (get_or [] q s.blocks)))
      | inr is ↦ rw is (ground arith)
    ]

pub blocks-member :
    (q c : ℕ) (s : LockSets) (es : List LockEdge)
    → in_map (add_lock_edges s es).blocks q c
      ≡ (in_map s.blocks q c || any (λ e. e.blocker_pid == q && e.blocked_pid == c) es)
unfolding add_lock_edges
blocks-member q c s [] = ground arith
blocks-member q c s (e ∷ es) =
    ground (arith, blocks-member q c (add_lock_edge s e) es, blocks-add_lock_edge q c s e)

pub sets-Distinct :
    (s : LockSets) (es : List LockEdge)
    → Distinct s.blocked_set
    → Distinct s.blocker_set
    → Distinct (add_lock_edges s es).blocked_set × Distinct (add_lock_edges s es).blocker_set
unfolding add_lock_edges add_lock_edge
sets-Distinct s [] d e = (d, e)
sets-Distinct s (x ∷ xs) d e =
    sets-Distinct (add_lock_edge s x) xs (Distinct-add_pid x.blocked_pid s.blocked_set d)
      (Distinct-add_pid x.blocker_pid s.blocker_set e)
