-- ===== src/Storage/Samples.antt =====
-- Tests of internal/storage/memory.go, and the theorems at concrete inputs.
use pgpulse.Common.{
  ℕ, zero, suc, ◌-◌, ◌≤◌, ◌<◌, ◌≡◌, refl, Bool, true, false, [], ◌∷◌, if◌then◌else◌, Bool-cases,
  inl, inr, arith, keep,
}
use pgpulse.Common.Text.{text, text_beq, text_eq}
use pgpulse.Common.Map.{get_or, lookup}
use pgpulse.Storage.Memory.{MetricPoint, MemoryStore, expire, storage_key}
use pgpulse.Storage.Memory.Search.{IsSearch, fresh}
use pgpulse.Storage.Memory.Expiry.{expire-keep}

-- A search from the front meets the law.
linear : ℕ → (ℕ → Bool) → ℕ
linear zero test = 0
linear (suc n) test = let rest = linear n (λ i. test (suc i)) in if test 0 then 0 else suc rest

linear-within : (n : ℕ) (test : ℕ → Bool) → linear n test ≤ n
unfolding linear
linear-within zero test = omega arith
linear-within (suc n) test = ground (arith, linear-within n (λ i. test (suc i)))

linear-below : (n : ℕ) (test : ℕ → Bool) (i : ℕ) → i < linear n test → test i ≡ false
unfolding linear
linear-below zero test i l = absurd (omega (arith, l))
linear-below (suc n) test zero l = ground (arith, l)
linear-below (suc n) test (suc i) l = elim (Bool-cases (test 0)) [
  | inl e ↦ absurd (ground (arith, l, e))
  | inr e ↦ linear-below n (λ j. test (suc j)) i (ground (arith, l, e))
]

linear-found : (n : ℕ) (test : ℕ → Bool) → linear n test < n → test (linear n test) ≡ true
unfolding linear
linear-found zero test l = absurd (omega (arith, l))
linear-found (suc n) test l = elim (Bool-cases (test 0)) [
  | inl e ↦ rw e e
  | inr e ↦ rw e (linear-found n (λ j. test (suc j)) (ground (arith, l, e)))
]

linear-IsSearch : IsSearch linear
linear-IsSearch = record {
  within = linear-within;
  below = λ n test mono i l. linear-below n test i l;
  found = λ n test mono l. linear-found n test l;
}

abbrev reading : ℕ → ℕ → MetricPoint ℕ
reading value at = record {
  instance_id = text "i";
  metric = text "m";
  value = value;
  labels = (text "b", text "2") ∷ (text "a", text "1") ∷ [];
  timestamp = at;
}

abbrev kept : MemoryStore ℕ
kept = record {
  retention = 50;
  series =
      (text "k", reading 1 10 ∷ reading 2 60 ∷ reading 3 70 ∷ [])
      ∷ (text "old", reading 4 20 ∷ [])
      ∷ [];
}

keyed : storage_key (text "i") (text "m") (reading 1 10).labels ≡ 105 ∷ 0 ∷ 109 ∷ 0 ∷ text "a=1,b=2"
unfolding storage_key text text_beq get_or lookup
keyed = refl

expire-keep_example :
    get_or [] (text "k") (expire linear 105 kept).series
    ≡ keep (fresh (105 - 50)) (get_or [] (text "k") kept.series)
unfolding lookup text text_beq
expire-keep_example =
    expire-keep linear linear-IsSearch 105 kept (text "k") (
      refl,
      ((omega arith, (omega arith, tt)), ((omega arith, tt), (tt, tt))),
      (refl, (tt, tt), tt),
    )
