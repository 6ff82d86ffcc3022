-- ===== src/Common/Sorting.antt =====
-- sort.Slice: it permutes the slice, and orders it where the comparison is a strict weak order on the
-- elements. Elements that compare equal come in some order.
use pgpulse.Common.Tests.{if◌then◌else◌, Bool-cases}
use pgpulse.Common.Lists.{All}
use mathlib.Core.Path.{◌≡◌, refl, subst}
use mathlib.Core.Logic.{inl, inr}
use mathlib.Core.Bool.{Bool, true, false}
use mathlib.Core.List.{List, [], ◌∷◌, Permᴰ}
use mathlib.Core.List.Permᴰ

pub record Sorting : Type 1 where
  pub sort_slice : {A : Type 0} → (A → A → Bool) → List A → List A

-- No later element is less than an earlier one.
abbrev pub Ordered : {A : Type 0} → (A → A → Bool) → List A → Type 0
Ordered less [] = Unit
Ordered less (x ∷ xs) = All (λ y. less y x ≡ false) xs × Ordered less xs

-- A strict weak order on the values that satisfy `P`.
pub record IsWeakOrder {A : Type 0} (less : A → A → Bool) (P : A → Type 0) : Type 0 where
  pub asymm : (x y : A) → P x → P y → less x y ≡ true → less y x ≡ false
  pub not_less_trans :
      (x y z : A) → P x → P y → P z → less y x ≡ false → less z y ≡ false → less z x ≡ false

pub irreflexive :
    {A : Type 0} {less : A → A → Bool} {P : A → Type 0}
    → IsWeakOrder less P
    → (x : A) → P x
    → less x x ≡ false
irreflexive {less = less} w x p = elim (Bool-cases (less x x)) [
  | inl e ↦ w.asymm x x p p e
  | inr e ↦ e
]

pub record IsSorting (s : Sorting) : Type 1 where
  pub permutes : {A : Type 0} (less : A → A → Bool) (xs : List A) → Permᴰ xs (s.sort_slice less xs)
  pub orders :
      {A : Type 0} (less : A → A → Bool) (P : A → Type 0) (xs : List A)
      → IsWeakOrder less P
      → All P xs
      → Ordered less (s.sort_slice less xs)

-- The laws can be met: insertion sort.
insert_by : {A : Type 0} → (A → A → Bool) → A → List A → List A
insert_by less x [] = x ∷ []
insert_by less x (y ∷ ys) = if less y x then y ∷ insert_by less x ys else x ∷ y ∷ ys

insertion_sort : {A : Type 0} → (A → A → Bool) → List A → List A
unfolding insert_by
insertion_sort less [] = []
insertion_sort less (x ∷ xs) = insert_by less x (insertion_sort less xs)

unfoldable pub sample_sorting : Sorting
unfolding insertion_sort
sample_sorting = record { sort_slice = insertion_sort }

pub All-Permᴰ : {A : Type 0} (P : A → Type 0) (xs ys : List A) → Permᴰ xs ys → All P xs → All P ys
All-Permᴰ P xs ys Permᴰ.nil h = tt
All-Permᴰ P xs ys (Permᴰ.cons {l₁ = us} {l₂ = vs} e p) (h, hs) =
    (subst P e h, All-Permᴰ P us vs p hs)
All-Permᴰ P xs ys (Permᴰ.swap e₁ e₂) (h₁, (h₂, hs)) = (subst P e₂ h₂, (subst P e₁ h₁, hs))
All-Permᴰ P xs ys (Permᴰ.trans {l₂ = zs} p q) h = All-Permᴰ P zs ys q (All-Permᴰ P xs zs p h)

module _ {A : Type 0} (less : A → A → Bool) where
  insert_by-Permᴰ : (x : A) (ys : List A) → Permᴰ (x ∷ ys) (insert_by less x ys)
  unfolding insert_by
  insert_by-Permᴰ x [] = Permᴰ.refl (x ∷ [])
  insert_by-Permᴰ x (y ∷ ys) = elim (Bool-cases (less y x)) [
    | inl e ↦ rw e (Permᴰ.trans (Permᴰ.swap refl refl) (Permᴰ.cons refl (insert_by-Permᴰ x ys)))
    | inr e ↦ rw e (Permᴰ.refl (x ∷ y ∷ ys))
  ]

  insertion_sort-Permᴰ : (xs : List A) → Permᴰ xs (insertion_sort less xs)
  unfolding insertion_sort
  insertion_sort-Permᴰ [] = Permᴰ.nil
  insertion_sort-Permᴰ (x ∷ xs) =
      Permᴰ.trans (Permᴰ.cons refl (insertion_sort-Permᴰ xs))
        (insert_by-Permᴰ x (insertion_sort less xs))

  module _ (P : A → Type 0) (w : IsWeakOrder less P) where
    not_less-All :
        (x y : A) (ys : List A)
        → P x
        → P y
        → All P ys
        → less y x ≡ false
        → All (λ z. less z y ≡ false) ys
        → All (λ z. less z x ≡ false) ys
    not_less-All x y [] px py ps e h = tt
    not_less-All x y (z ∷ zs) px py (pz, ps) e (h, hs) =
        (w.not_less_trans x y z px py pz e h, not_less-All x y zs px py ps e hs)

    insert_by-Ordered :
        (x : A) (ys : List A)
        → P x
        → All P ys
        → Ordered less ys
        → Ordered less (insert_by less x ys)
    unfolding insert_by
    insert_by-Ordered x [] px ps h = (tt, tt)
    insert_by-Ordered x (y ∷ ys) px (py, ps) (h, hs) = elim (Bool-cases (less y x)) [
      | inl e ↦ rw e (
        All-Permᴰ (λ z. less z y ≡ false) (x ∷ ys) (insert_by less x ys) (insert_by-Permᴰ x ys)
            (w.asymm y x py px e, h),
        insert_by-Ordered x ys px ps hs,
      )
      | inr e ↦ rw e ((e, not_less-All x y ys px py ps e h), (h, hs))
    ]

    insertion_sort-Ordered : (xs : List A) → All P xs → Ordered less (insertion_sort less xs)
    unfolding insertion_sort
    insertion_sort-Ordered [] h = tt
    insertion_sort-Ordered (x ∷ xs) (h, hs) =
        insert_by-Ordered x (insertion_sort less xs) h
          (All-Permᴰ P xs (insertion_sort less xs) (insertion_sort-Permᴰ xs) hs)
          (insertion_sort-Ordered xs hs)

pub sample_sorting-IsSorting : IsSorting sample_sorting
unfolding sample_sorting
sample_sorting-IsSorting = record {
  permutes = λ less xs. insertion_sort-Permᴰ less xs;
  orders = λ less P xs w h. insertion_sort-Ordered less P w xs h;
}
