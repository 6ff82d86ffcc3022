-- ===== src/Statements/Diff/Paging.antt =====
-- The page of a difference.
use pgpulse.Common.{
  ◌≡◌, refl, sym, ap, ◌∙◌, ℕ, zero, suc, ◌≤◌, ◌&&◌, List, [], ◌∷◌, if◌then◌else◌, Bool-cases, inl,
  inr, arith, take, drop, length, ltb, leb, ◌==◌,
}
use pgpulse.Common.Float.{Float}
use pgpulse.Common.Sorting.{Sorting}
use pgpulse.Statements.Types.{Snapshot, SnapshotEntry, DiffEntry, DiffOptions}
use pgpulse.Statements.Diff.{page, compute_diff}
use pgpulse.Statements.Diff.Partition.{unpaged, page-unpaged}

module _ {A : Type 0} where
  drop_all : (n : ℕ) (xs : List A) → length xs ≤ n → drop n xs ≡ []
  drop_all zero [] h = refl
  drop_all zero (x ∷ xs) h = absurd (omega (arith, h))
  drop_all (suc n) [] h = refl
  drop_all (suc n) (x ∷ xs) h = drop_all n xs (omega (arith, h))

  take_all : (n : ℕ) (xs : List A) → length xs ≤ n → take n xs ≡ xs
  take_all zero [] h = refl
  take_all zero (x ∷ xs) h = absurd (omega (arith, h))
  take_all (suc n) [] h = refl
  take_all (suc n) (x ∷ xs) h = ap (λ ys. x ∷ ys) (take_all n xs (omega (arith, h)))

module _ {F : Type 0} where
  -- The entries from the offset on, no more than the limit where there is one.
  abbrev pub window : DiffOptions → List (DiffEntry F) → List (DiffEntry F)
  window opts all =
      let rest = drop opts.offset all in if opts.limit == 0 then rest else take opts.limit rest

  moved :
      (n : ℕ) (xs : List (DiffEntry F))
      → (if ltb 0 n && ltb n (length xs) then drop n xs else if leb (length xs) n then [] else xs)
        ≡ drop n xs
  moved zero [] = refl
  moved zero (x ∷ xs) = ground arith
  moved (suc n) xs = elim (Bool-cases (ltb (suc n) (length xs))) [
    | inl e ↦ ground (arith, e)
    | inr e ↦
        let none_left : drop (suc n) xs ≡ [] = drop_all (suc n) xs (ground (arith, e)) in
        ground (arith, e, none_left)
  ]

  limited :
      (n : ℕ) (xs : List (DiffEntry F))
      → (if ltb 0 n && ltb n (length xs) then take n xs else xs)
        ≡ (if n == 0 then xs else take n xs)
  limited zero xs = refl
  limited (suc n) xs = elim (Bool-cases (ltb (suc n) (length xs))) [
    | inl e ↦ ground (arith, e)
    | inr e ↦
        let all : take (suc n) xs ≡ xs = take_all (suc n) xs (ground (arith, e)) in
        ground (arith, e, all)
  ]

  page-window : (opts : DiffOptions) (ds : List (DiffEntry F)) → page opts ds ≡ window opts ds
  unfolding page
  page-window opts ds =
      ap (λ xs. if ltb 0 opts.limit && ltb opts.limit (length xs) then take opts.limit xs else xs)
        (moved opts.offset ds)
      ∙ limited opts.limit (drop opts.offset ds)

module _ {F : Type 0} ⦃f : Float F⦄ where
  -- The entries of a difference are those of the unpaged one from the offset on, no more than the limit where
  -- there is one, and the total is how many the unpaged one has.
  pub compute_diff-window :
      (sorting : Sorting) (start end : Snapshot) (from_entries to_entries : List (SnapshotEntry F))
      (opts : DiffOptions)
      → ((compute_diff sorting start end from_entries to_entries opts).entries
          ≡ window opts
              (compute_diff sorting start end from_entries to_entries
                (unpaged opts.sort_by)).entries)
        × ((compute_diff sorting start end from_entries to_entries opts).total_entries
            ≡ length
                (compute_diff sorting start end from_entries to_entries
                  (unpaged opts.sort_by)).entries)
  unfolding compute_diff
  compute_diff-window sorting start end from_entries to_entries opts = (
    page-window opts _ ∙ ap (window opts) (sym (page-unpaged opts.sort_by _)),
    ap length (sym (page-unpaged opts.sort_by _)),
  )
