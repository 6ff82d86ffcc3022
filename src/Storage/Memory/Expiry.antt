-- ===== src/Storage/Memory/Expiry.antt =====
-- What expiry leaves.
use mathlib.Core.Path.{subst}
use pgpulse.Common.{
  ℕ, zero, suc, ◌≤◌, ◌<◌, ◌≡◌, refl, sym, ap, Bool, true, false, List, [], ◌∷◌, length, drop, keep,
  arith, leb, none, ◌∙◌, Bool-cases, inl, ◌=?◌, inr, ◌-◌,
}
use pgpulse.Common.Text.{text_eq, Text, text_beq_iff}
use pgpulse.Storage.Memory.{MetricPoint, expire_points, expire_data, expire, MemoryStore}
use pgpulse.Common.Map.{Map, lookup, get_or}
use pgpulse.Storage.Memory.Search.{IsSearch, InTime, fresh, fresh_at, timestamp_at_mono, drop-keep}

module _ {V : Type 0} where
  get_or_here :
      (key k : Text) (v : List V) (m : Map Text (List V))
      → (key =? k) ≡ true
      → get_or [] k ((key, v) ∷ m) ≡ v
  unfolding get_or lookup
  get_or_here key k v m e = ground (arith, e)

  get_or_there :
      (key k : Text) (v : List V) (m : Map Text (List V))
      → (key =? k) ≡ false
      → get_or [] k ((key, v) ∷ m) ≡ get_or [] k m
  unfolding get_or lookup
  get_or_there key k v m e = ground (arith, e)

  get_or-none : (k : Text) (m : Map Text (List V)) → lookup k m ≡ none → get_or [] k m ≡ []
  unfolding get_or
  get_or-none k m e = ground (arith, e)

module _ {F : Type 0} where
  -- Each key is held once, and its points stand in order of time.
  abbrev pub IsSeries : Map Text (List (MetricPoint F)) → Type 0
  IsSeries [] = Unit
  IsSeries ((key, points) ∷ series) = (lookup key series ≡ none) × InTime points × IsSeries series

  module _ (search : ℕ → (ℕ → Bool) → ℕ) (law : IsSearch search) (cutoff : ℕ) where
    fresh_at_mono :
        (ps : List (MetricPoint F))
        → InTime ps
        → (i j : ℕ) → i ≤ j
        → j < length ps
        → fresh_at cutoff ps i ≡ true
        → fresh_at cutoff ps j ≡ true
    fresh_at_mono ps h i j l b e = ground (arith, e, timestamp_at_mono ps i j h l b)

    expire_points-keep :
        (ps : List (MetricPoint F))
        → InTime ps
        → expire_points search cutoff ps ≡ keep (fresh cutoff) ps
    unfolding expire_points
    expire_points-keep ps h =
        let test = fresh_at cutoff ps in
        drop-keep cutoff (search (length ps) test) ps h (law.within (length ps) test)
          (law.below (length ps) test (fresh_at_mono ps h))
          (law.found (length ps) test (fresh_at_mono ps h))

    -- A key that is not held is not held afterwards.
    expire_data-none :
        (k : Text) (series : Map Text (List (MetricPoint F)))
        → lookup k series ≡ none
        → lookup k (expire_data search cutoff series) ≡ none
    unfolding expire_data lookup
    expire_data-none k [] h = refl
    expire_data-none k ((key, ps) ∷ series) h =
        elim (Bool-cases (leb (length ps) (search (length ps) (fresh_at cutoff ps)))) [
          | inl e ↦ rw e (expire_data-none k series (ground (arith, h)))
          | inr e ↦ rw e (ground (arith, h, expire_data-none k series))
        ]

    gone :
        (ps : List (MetricPoint F))
        → InTime ps
        → leb (length ps) (search (length ps) (fresh_at cutoff ps)) ≡ true
        → keep (fresh cutoff) ps ≡ []
    unfolding expire_points
    gone ps h e = sym (expire_points-keep ps h) ∙ drop_past _ ps (ground (arith, e))
      where
        drop_past : (n : ℕ) (qs : List (MetricPoint F)) → length qs ≤ n → drop n qs ≡ []
        drop_past zero [] l = refl
        drop_past zero (q ∷ qs) l = absurd (omega (arith, l))
        drop_past (suc n) [] l = refl
        drop_past (suc n) (q ∷ qs) l = drop_past n qs (omega (arith, l))

    expire_data-keep :
        (k : Text) (series : Map Text (List (MetricPoint F)))
        → IsSeries series
        → get_or [] k (expire_data search cutoff series) ≡ keep (fresh cutoff) (get_or [] k series)
    unfolding expire_data get_or lookup
    expire_data-keep k [] h = refl
    expire_data-keep k ((key, ps) ∷ series) (new, ordered, h) =
        let emptied = leb (length ps) (search (length ps) (fresh_at cutoff ps)) in
        let rest = expire_data search cutoff series in
        elim (Bool-cases (key =? k)) [
          | inl e ↦
              let unheld : lookup k series ≡ none =
                subst (λ x. lookup x series ≡ none) ((text_beq_iff key k).0 e) new in
              let now : keep (fresh cutoff) ps
                  ≡ keep (fresh cutoff) (get_or [] k ((key, ps) ∷ series)) =
                ap (keep (fresh cutoff)) (sym (get_or_here key k ps series e)) in
              elim (Bool-cases emptied) [
                | inl g ↦ rw g (
                    get_or-none k rest (expire_data-none k series unheld)
                    ∙ sym (gone ps ordered g)
                    ∙ now)
                | inr g ↦ rw g (
                    get_or_here key k (expire_points search cutoff ps) rest e
                    ∙ expire_points-keep ps ordered
                    ∙ now)
              ]
          | inr e ↦
              let later : keep (fresh cutoff) (get_or [] k series)
                  ≡ keep (fresh cutoff) (get_or [] k ((key, ps) ∷ series)) =
                ap (keep (fresh cutoff)) (sym (get_or_there key k ps series e)) in
              elim (Bool-cases emptied) [
                | inl g ↦ rw g (expire_data-keep k series h ∙ later)
                | inr g ↦ rw g (
                    get_or_there key k (expire_points search cutoff ps) rest e
                    ∙ expire_data-keep k series h
                    ∙ later)
              ]
        ]

-- Where sort.Search is one, each key is held once and its points stand in order of time, a pass of expiry leaves
-- at every key exactly the points that are not older than the retention, in their order.
pub expire-keep :
    {F : Type 0} (search : ℕ → (ℕ → Bool) → ℕ)
    → IsSearch search
    → (now : ℕ) (m : MemoryStore F) (k : Text) → IsSeries m.series
    → get_or [] k (expire search now m).series
      ≡ keep (fresh (now - m.retention)) (get_or [] k m.series)
unfolding expire
expire-keep search law now m k h = expire_data-keep search law (now - m.retention) k m.series h
