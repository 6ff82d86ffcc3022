-- ===== src/Common/Options.antt =====
-- Results that may be missing, in chains of `do`.
use mathlib.Core.Option.{Option, none, some}
use mathlib.Core.Path.{◌≡◌, refl, sym}
use mathlib.Core.List.{List, [], ◌∷◌}

infixl 5 ◌>>=◌
abbrev pub ◌>>=◌ {ℓ κ} : {A : Type ℓ} {B : Type κ} → Option A → (A → Option B) → Option B
none >>= f = none
some a >>= f = f a

abbrev pub option_list {ℓ} : {A : Type ℓ} → Option A → List A
option_list none = []
option_list (some a) = a ∷ []

pub bind_agree {ℓ κ} :
    {A : Type ℓ} {B : Type κ} (o p : Option A) (k l : A → Option B)
    → o ≡ p
    → ((a : A) → k a ≡ l a)
    → (o >>= k) ≡ (p >>= l)
bind_agree none p k l same ks = rw (sym same) refl
bind_agree (some a) p k l same ks = rw (sym same) (ks a)

-- What there is satisfies `P`.
abbrev pub OnSome {ℓ κ} : {A : Type ℓ} → (A → Type κ) → Option A → Type κ
OnSome P none = Unit
OnSome P (some a) = P a
