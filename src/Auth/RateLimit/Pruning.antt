-- ===== src/Auth/RateLimit/Pruning.antt =====
-- What pruning does to the entries of the rate limiter, and facts about sorted instants.
use pgpulse.Common.{
  zero, suc, ◌∙◌, ℕ, ◌+◌, ◌-◌, ◌≤◌, ◌≡◌, refl, Bool, true, List, [], ◌∷◌, length, drop, ltb, leb,
  ◌==◌, arith, keep, if◌then◌else◌, ◌=?◌, Bool-cases, inl, inr, ◌∙◌, All, ◌++◌,
}
use pgpulse.Common.Text.{Text, text_eq, text_beq_iff}
use pgpulse.Common.Map.{Map, get_or, get_or-insert, get_or-delete}
use pgpulse.Auth.RateLimit.{RateLimiter, expired, slice_front, drop_empty, prune_expired, suc}

-- A failure at `t` counts at the instant `now`: it is at most `window` old.
abbrev pub fresh : ℕ → ℕ → ℕ → Bool
fresh window now t = leb now (t + window)

-- The instants do not fall, from `low` on.
abbrev pub SortedFrom : ℕ → List ℕ → Type 0
SortedFrom low [] = Unit
SortedFrom low (t ∷ ts) = (low ≤ t) × SortedFrom t ts

keep-fresh_all :
    (w now low : ℕ) (ts : List ℕ) → SortedFrom low ts → now ≤ low + w → keep (fresh w now) ts ≡ ts
keep-fresh_all w now low [] s h = refl
keep-fresh_all w now low (t ∷ ts) (p, s) h =
    ground (arith, keep-fresh_all w now t ts s (omega arith))

-- Slicing off the expired prefix of a sorted list leaves the entries inside the window.
pub drop-expired :
    (w now low : ℕ) (ts : List ℕ)
    → SortedFrom low ts
    → drop (expired (now - w) ts) ts ≡ keep (fresh w now) ts
unfolding expired
drop-expired w now low [] s = refl
drop-expired w now low (t ∷ ts) (p, s) = elim (Bool-cases (ltb t (now - w))) [
  | inl old ↦ ground (arith, drop-expired w now t ts s)
  | inr new ↦ ground (arith, keep-fresh_all w now t ts s (ground arith))
]

length-zero {ℓ} : {A : Type ℓ} (xs : List A) → (length xs == 0) ≡ true → xs ≡ []
length-zero [] h = refl
length-zero (x ∷ xs) h = ground arith

get_or-slice_front :
    (i : ℕ) (ip j : Text) (m : Map Text (List ℕ))
    → get_or [] j (slice_front i ip m)
      ≡ (if ip =? j then drop i (get_or [] ip m) else get_or [] j m)
unfolding slice_front
get_or-slice_front zero ip j m = ground (arith, text_beq_iff ip j)
get_or-slice_front (suc i) ip j m =
    ground (arith, get_or-insert [] ip j (drop (suc i) (get_or [] ip m)) m)

get_or-drop_empty :
    (ip j : Text) (m : Map Text (List ℕ)) → get_or [] j (drop_empty ip m) ≡ get_or [] j m
unfolding drop_empty
get_or-drop_empty ip j m =
    ground (arith, get_or-delete [] ip j m, length-zero (get_or [] ip m), text_beq_iff ip j)

-- Pruning an address cuts its entries and those of no other address.
pub get_or-prune_expired :
    (now : ℕ) (ip j : Text) (rl : RateLimiter)
    → get_or [] j (prune_expired now ip rl).attempts ≡ (
        if ip =? j
        then drop (expired (now - rl.window) (get_or [] ip rl.attempts)) (get_or [] ip rl.attempts)
        else get_or [] j rl.attempts)
unfolding prune_expired
get_or-prune_expired now ip j rl =
    let i = expired (now - rl.window) (get_or [] ip rl.attempts) in
    get_or-drop_empty ip j (slice_front i ip rl.attempts) ∙ get_or-slice_front i ip j rl.attempts

pub SortedFrom-snoc :
    (low now : ℕ) (ts : List ℕ)
    → low ≤ now
    → SortedFrom low ts
    → All (λ t. t ≤ now) ts
    → SortedFrom low (ts ++ (now ∷ []))
SortedFrom-snoc low now [] h s p = (h, tt)
SortedFrom-snoc low now (t ∷ ts) h (q, s) (p, ps) = (q, SortedFrom-snoc t now ts p s ps)

pub All-later : (a b : ℕ) (ts : List ℕ) → a ≤ b → All (λ t. t ≤ a) ts → All (λ t. t ≤ b) ts
All-later a b [] h p = tt
All-later a b (t ∷ ts) h (p, ps) = (omega arith, All-later a b ts h ps)

pub SortedFrom-weaken : (a b : ℕ) (ts : List ℕ) → a ≤ b → SortedFrom b ts → SortedFrom a ts
SortedFrom-weaken a b [] h s = tt
SortedFrom-weaken a b (t ∷ ts) h (q, s) = (omega arith, s)

pub SortedFrom-keep :
    (p : ℕ → Bool) (low : ℕ) (ts : List ℕ) → SortedFrom low ts → SortedFrom low (keep p ts)
SortedFrom-keep p low [] s = tt
SortedFrom-keep p low (t ∷ ts) (h, s) = elim (Bool-cases (p t)) [
  | inl e ↦ rw e (h, SortedFrom-keep p t ts s)
  | inr e ↦ rw e (SortedFrom-weaken low t (keep p ts) h (SortedFrom-keep p t ts s))
]

-- An entry that is stale now is stale later.
pub keep-fresh_twice :
    (w now t : ℕ) (ts : List ℕ)
    → now ≤ t
    → keep (fresh w t) (keep (fresh w now) ts) ≡ keep (fresh w t) ts
keep-fresh_twice w now t [] h = refl
keep-fresh_twice w now t (x ∷ ts) h = ground (arith, keep-fresh_twice w now t ts h)

pub keep-append : (p : ℕ → Bool) (xs ys : List ℕ) → keep p (xs ++ ys) ≡ keep p xs ++ keep p ys
keep-append p [] ys = refl
keep-append p (x ∷ xs) ys = ground (arith, keep-append p xs ys)
