-- ===== src/Statements/Diff/Partition.antt =====
-- The difference parts the statements of the two captures.
use mathlib.Core.Path.{subst}
use mathlib.Core.List.{Permᴰ}
use pgpulse.Common.{
  ◌≡◌, refl, ◌∙◌, Bool, true, false, not, ◌&&◌, ◌||◌, Option, none, some, List, [], ◌∷◌, ◌++◌, any,
  Bool-cases, inl, inr, arith, ap, sym,
}
use pgpulse.Common.Map.{lookup, Map}
use pgpulse.Common.Sorting.{Sorting, IsSorting}
use pgpulse.Common.Float.{Float}
use pgpulse.Statements.Types.{DiffEntry, DiffOptions, Snapshot, SnapshotEntry}
use pgpulse.Statements.Diff.{
  EntryKey, key_eq, key_beq, key_beq_iff, entry_key, Progress, match_entry, match_entries,
  compute_entry_delta, entry_as_delta, evicted, page, compute_diff, matched, sort_entries,
  index_from,
}
use pgpulse.Statements.Diff.Keyed.{
  is_some, holds, delete-holds, lookup-holds, has_key, Keyed, delete-All, index_from-holds,
  index_from-Keyed,
}
use pgpulse.Common.Text.{Text}

any-append :
    {A : Type 0} (p : A → Bool) (xs ys : List A) → any p (xs ++ ys) ≡ (any p xs || any p ys)
any-append p [] ys = refl
any-append p (x ∷ xs) ys = ground (arith, any-append p xs ys)

any-Permᴰ : {A : Type 0} (p : A → Bool) (xs ys : List A) → Permᴰ xs ys → any p xs ≡ any p ys
any-Permᴰ p xs ys Permᴰ.nil = refl
any-Permᴰ p xs ys (Permᴰ.cons {l₁ = us} {l₂ = vs} e d) = rw e (rw (any-Permᴰ p us vs d) refl)
any-Permᴰ p xs ys (Permᴰ.swap e₁ e₂) = rw (e₁, e₂) (ground arith)
any-Permᴰ p xs ys (Permᴰ.trans {l₂ = zs} c d) = any-Permᴰ p xs zs c ∙ any-Permᴰ p zs ys d

-- All entries on one page.
abbrev pub unpaged : Text → DiffOptions
unpaged sort_by = record { sort_by = sort_by; limit = 0; offset = 0 }

module _ {F : Type 0} where
  -- Some difference is of the statement with the key.
  abbrev pub has_delta : EntryKey → List (DiffEntry F) → Bool
  has_delta k ds = any (λ d. key_beq (d.query_id, d.db_id, d.user_id) k) ds

  -- No key stands twice.
  abbrev pub DistinctKeys : List (SnapshotEntry F) → Type 0
  DistinctKeys [] = Unit
  DistinctKeys (e ∷ es) = (has_key (entry_key e) es ≡ false) × DistinctKeys es

module _ {F : Type 0} ⦃f : Float F⦄ (k : EntryKey) where
  -- What a turn does for the key.
  abbrev Turned : Bool → Progress F → Progress F → Type 0
  Turned here s t =
      (holds k t.left ≡ (holds k s.left && not here))
      × (has_delta k t.continuing ≡ (has_delta k s.continuing || here && holds k s.left))
      × (has_delta k t.new_entries ≡ (has_delta k s.new_entries || here && not (holds k s.left)))

  match_entry-Turned :
      (te : SnapshotEntry F) (o : Option (SnapshotEntry F)) (s : Progress F)
      → lookup (entry_key te) s.left ≡ o
      → Turned (key_beq (entry_key te) k) s (match_entry te o s)
  unfolding match_entry is_some compute_entry_delta entry_as_delta
  match_entry-Turned te none s is =
      let absent = lookup-holds (entry_key te) s.left none is in
      elim (Bool-cases (key_beq (entry_key te) k)) [
        | inl e ↦
            let here : holds k s.left ≡ false =
              subst (λ x. holds x s.left ≡ false) ((key_beq_iff (entry_key te) k).0 e) absent in
            (
              ground (arith, e, here),
              ground (arith, e, here),
              any-append _ s.new_entries _ ∙ ground (arith, e, here),
            )
        | inr e ↦
            (ground (arith, e), ground (arith, e), any-append _ s.new_entries _ ∙ ground (arith, e))
      ]
  match_entry-Turned te (some fe) s is =
      let there = lookup-holds (entry_key te) s.left (some fe) is in
      elim (Bool-cases (key_beq (entry_key te) k)) [
        | inl e ↦
            let here : holds k s.left ≡ true =
              subst (λ x. holds x s.left ≡ true) ((key_beq_iff (entry_key te) k).0 e) there in
            (
              delete-holds (entry_key te) k s.left ∙ ground (arith, e, here),
              any-append _ s.continuing _ ∙ ground (arith, e, here),
              ground (arith, e, here),
            )
        | inr e ↦ (
          delete-holds (entry_key te) k s.left ∙ ground (arith, e),
          any-append _ s.continuing _ ∙ ground (arith, e),
          ground (arith, e),
        )
      ]

  match_entries-Turned :
      (tes : List (SnapshotEntry F)) (s : Progress F)
      → DistinctKeys tes
      → Turned (has_key k tes) s (match_entries tes s)
  unfolding match_entries
  match_entries-Turned [] s distinct = (ground arith, ground arith, ground arith)
  match_entries-Turned (te ∷ tes) s (new, distinct) =
      let turn = match_entry-Turned te (lookup (entry_key te) s.left) s refl in
      let rest =
        match_entries-Turned tes (match_entry te (lookup (entry_key te) s.left) s) distinct in
      elim (Bool-cases (key_beq (entry_key te) k)) [
        | inl e ↦
            let once : has_key k tes ≡ false =
              subst (λ x. has_key x tes ≡ false) ((key_beq_iff (entry_key te) k).0 e) new in
            (
              ground (arith, turn, rest, e, once),
              ground (arith, turn, rest, e, once),
              ground (arith, turn, rest, e, once),
            )
        | inr e ↦ (
          ground (arith, turn, rest, e),
          ground (arith, turn, rest, e),
          ground (arith, turn, rest, e),
        )
      ]

  evicted-holds :
      (left : Map EntryKey (SnapshotEntry F))
      → Keyed left
      → has_delta k (evicted left) ≡ holds k left
  unfolding evicted entry_as_delta
  evicted-holds [] h = refl
  evicted-holds ((i, e) ∷ left) (h, hs) =
      let same : key_beq (entry_key e) k ≡ key_beq i k = ap (λ x. key_beq x k) h in
      ground (arith, same, evicted-holds left hs)

module _ {F : Type 0} ⦃f : Float F⦄ where
  match_entries-Keyed :
      (tes : List (SnapshotEntry F)) (s : Progress F)
      → Keyed s.left
      → Keyed (match_entries tes s).left
  unfolding match_entries match_entry
  match_entries-Keyed [] s h = h
  match_entries-Keyed (te ∷ tes) s h =
      match_entries-Keyed tes _ (kept (lookup (entry_key te) s.left))
    where
      kept : (o : Option (SnapshotEntry F)) → Keyed (match_entry te o s).left
      kept none = h
      kept (some fe) = delete-All (λ p. entry_key p.1 ≡ p.0) (entry_key te) s.left h

  pub page-unpaged : (sort_by : Text) (ds : List (DiffEntry F)) → page (unpaged sort_by) ds ≡ ds
  unfolding page
  page-unpaged sort_by [] = refl
  page-unpaged sort_by (d ∷ ds) = ground arith

  -- Where the sort is one and no statement stands twice in the newer capture, an unpaged difference parts the
  -- statements: its entries are those of both captures, its new queries those of the newer one only, and its
  -- evicted queries those of the older one only.
  pub compute_diff-Partition :
      (sorting : Sorting)
      → IsSorting sorting
      → (start end : Snapshot) (from_entries to_entries : List (SnapshotEntry F)) (sort_by : Text)
        (k : EntryKey)
      → DistinctKeys to_entries
      → (has_delta k
            (compute_diff sorting start end from_entries to_entries (unpaged sort_by)).entries
          ≡ (has_key k to_entries && has_key k from_entries))
        × (has_delta k
              (compute_diff sorting start end from_entries to_entries (unpaged sort_by)).new_queries
            ≡ (has_key k to_entries && not (has_key k from_entries)))
        × (has_delta k
              (compute_diff sorting start end from_entries to_entries
                (unpaged sort_by)).evicted_queries
            ≡ (has_key k from_entries && not (has_key k to_entries)))
  unfolding compute_diff matched sort_entries
  compute_diff-Partition sorting laws start end from_entries to_entries sort_by k distinct =
      let indexed = index_from from_entries [] in
      let started : Progress F = record { left = indexed; continuing = []; new_entries = [] } in
      let turned = match_entries-Turned k to_entries started distinct in
      let held = index_from-holds k from_entries [] in
      let permuted =
        any-Permᴰ (λ d. key_beq (d.query_id, d.db_id, d.user_id) k) _ _
          (laws.permutes _ (match_entries to_entries started).continuing) in
      (
        ap (has_delta k) (page-unpaged sort_by _) ∙ sym permuted ∙ ground (arith, turned, held),
        ground (arith, turned, held),
        evicted-holds k _
              (match_entries-Keyed to_entries started (index_from-Keyed from_entries [] tt))
            ∙ ground (arith, turned, held),
      )
