-- ===== src/Statements/Diff/Keyed.antt =====
-- Which keys the map of the loop holds.
use mathlib.Core.Path.{subst}
use pgpulse.Common.{
  ◌≡◌, refl, Bool, true, false, not, ◌&&◌, ◌||◌, Option, none, some, List, [], ◌∷◌, any, All,
  Bool-cases, inl, inr, arith,
}
use pgpulse.Common.Map.{Map, lookup, insert, delete}
use pgpulse.Statements.Types.{SnapshotEntry}
use pgpulse.Statements.Diff.{EntryKey, key_eq, key_beq, key_beq_iff, entry_key, index_from}

unfoldable pub is_some : {V : Type 0} → Option V → Bool
is_some none = false
is_some (some v) = true

module _ {V : Type 0} where
  abbrev pub holds : EntryKey → Map EntryKey V → Bool
  holds k m = any (λ p. key_beq p.0 k) m

  pub insert-holds :
      (k j : EntryKey) (v : V) (m : Map EntryKey V)
      → holds j (insert k v m) ≡ (key_beq k j || holds j m)
  unfolding insert
  insert-holds k j v [] = ground arith
  insert-holds k j v ((i, w) ∷ m) = elim (Bool-cases (key_beq i k)) [
    | inl e ↦ let same : i ≡ k = (key_beq_iff i k).0 e in rw (e, same) (ground arith)
    | inr e ↦ rw e (ground (arith, insert-holds k j v m))
  ]

  pub delete-holds :
      (k j : EntryKey) (m : Map EntryKey V)
      → holds j (delete k m) ≡ (not (key_beq k j) && holds j m)
  unfolding delete
  delete-holds k j [] = ground arith
  delete-holds k j ((i, w) ∷ m) = elim (Bool-cases (key_beq i k)) [
    | inl e ↦
        let same : i ≡ k = (key_beq_iff i k).0 e in
        rw (e, same) (ground (arith, delete-holds k j m))
    | inr e ↦ rw e (elim (Bool-cases (key_beq k j)) [
      | inl g ↦
          let other : key_beq i j ≡ false =
            subst (λ x. key_beq i x ≡ false) ((key_beq_iff k j).0 g) e in
          ground (arith, other, g, delete-holds k j m)
      | inr g ↦ ground (arith, g, delete-holds k j m)
    ])
  ]

  pub lookup-holds :
      (k : EntryKey) (m : Map EntryKey V) (o : Option V) → lookup k m ≡ o → holds k m ≡ is_some o
  unfolding lookup is_some
  lookup-holds k [] none is = refl
  lookup-holds k [] (some v) is = absurd (ground (arith, is))
  lookup-holds k ((i, w) ∷ m) none is = ground (arith, is, lookup-holds k m none)
  lookup-holds k ((i, w) ∷ m) (some v) is = ground (arith, is, lookup-holds k m (some v))

  pub insert-All :
      (P : EntryKey × V → Type 0) (k : EntryKey) (v : V) (m : Map EntryKey V)
      → P (k, v)
      → All P m
      → All P (insert k v m)
  unfolding insert
  insert-All P k v [] new h = (new, tt)
  insert-All P k v ((i, w) ∷ m) new (h, hs) = elim (Bool-cases (key_beq i k)) [
    | inl e ↦ rw e (new, hs)
    | inr e ↦ rw e (h, insert-All P k v m new hs)
  ]

  pub delete-All :
      (P : EntryKey × V → Type 0) (k : EntryKey) (m : Map EntryKey V) → All P m → All P (delete k m)
  unfolding delete
  delete-All P k [] h = tt
  delete-All P k ((i, w) ∷ m) (h, hs) = elim (Bool-cases (key_beq i k)) [
    | inl e ↦ rw e (delete-All P k m hs)
    | inr e ↦ rw e (h, delete-All P k m hs)
  ]

module _ {F : Type 0} where
  -- Some entry has the key.
  abbrev pub has_key : EntryKey → List (SnapshotEntry F) → Bool
  has_key k es = any (λ e. key_beq (entry_key e) k) es

  -- Each entry is held under its own key.
  abbrev pub Keyed : Map EntryKey (SnapshotEntry F) → Type 0
  Keyed m = All (λ p. entry_key p.1 ≡ p.0) m

  pub index_from-holds :
      (k : EntryKey) (es : List (SnapshotEntry F)) (m : Map EntryKey (SnapshotEntry F))
      → holds k (index_from es m) ≡ (has_key k es || holds k m)
  unfolding index_from
  index_from-holds k [] m = ground arith
  index_from-holds k (e ∷ es) m =
      ground
        (arith, index_from-holds k es (insert (entry_key e) e m), insert-holds (entry_key e) k e m)

  pub index_from-Keyed :
      (es : List (SnapshotEntry F)) (m : Map EntryKey (SnapshotEntry F))
      → Keyed m
      → Keyed (index_from es m)
  unfolding index_from
  index_from-Keyed [] m h = h
  index_from-Keyed (e ∷ es) m h =
      index_from-Keyed es (insert (entry_key e) e m)
        (insert-All (λ p. entry_key p.1 ≡ p.0) (entry_key e) e m refl h)
