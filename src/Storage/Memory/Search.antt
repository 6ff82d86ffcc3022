-- ===== src/Storage/Memory/Search.antt =====
-- What the binary search finds in points that stand in order of time.
use pgpulse.Common.{
  ℕ, zero, suc, ◌≤◌, ◌<◌, ◌≡◌, refl, sym, ap, Bool, true, false, not, List, [], ◌∷◌, ltb, length,
  drop, keep, All, arith,
}
use pgpulse.Common.Text.{text_eq}
use pgpulse.Storage.Memory.{MetricPoint, timestamp_at}

-- sort.Search on a test that stays true once it is: the first index at which it holds, or `n`.
pub record IsSearch (search : ℕ → (ℕ → Bool) → ℕ) : Type 0 where
  pub within : (n : ℕ) (test : ℕ → Bool) → search n test ≤ n
  pub below :
      (n : ℕ) (test : ℕ → Bool)
      → ((i j : ℕ) → i ≤ j → j < n → test i ≡ true → test j ≡ true)
      → (i : ℕ) → i < search n test
      → test i ≡ false
  pub found :
      (n : ℕ) (test : ℕ → Bool)
      → ((i j : ℕ) → i ≤ j → j < n → test i ≡ true → test j ≡ true)
      → search n test < n
      → test (search n test) ≡ true

module _ {F : Type 0} where
  -- The points stand in order of time.
  abbrev pub InTime : List (MetricPoint F) → Type 0
  InTime [] = Unit
  InTime (p ∷ ps) = All (λ q. p.timestamp ≤ q.timestamp) ps × InTime ps

  abbrev pub fresh : ℕ → MetricPoint F → Bool
  fresh cutoff p = not (ltb p.timestamp cutoff)

  abbrev pub fresh_at : ℕ → List (MetricPoint F) → ℕ → Bool
  fresh_at cutoff ps i = not (ltb (timestamp_at i ps) cutoff)

  timestamp_at-low :
      (t : ℕ) (ps : List (MetricPoint F)) (i : ℕ)
      → All (λ q. t ≤ q.timestamp) ps
      → i < length ps
      → t ≤ timestamp_at i ps
  unfolding timestamp_at
  timestamp_at-low t [] i h l = absurd (omega (arith, l))
  timestamp_at-low t (p ∷ ps) zero (h, hs) l = h
  timestamp_at-low t (p ∷ ps) (suc i) (h, hs) l = timestamp_at-low t ps i hs (omega (arith, l))

  pub timestamp_at_mono :
      (ps : List (MetricPoint F)) (i j : ℕ)
      → InTime ps
      → i ≤ j
      → j < length ps
      → timestamp_at i ps ≤ timestamp_at j ps
  unfolding timestamp_at
  timestamp_at_mono [] i j h l b = absurd (omega (arith, b))
  timestamp_at_mono (p ∷ ps) zero zero h l b = omega arith
  timestamp_at_mono (p ∷ ps) zero (suc j) (h, hs) l b =
      timestamp_at-low p.timestamp ps j h (omega (arith, b))
  timestamp_at_mono (p ∷ ps) (suc i) zero h l b = absurd (omega (arith, l))
  timestamp_at_mono (p ∷ ps) (suc i) (suc j) (h, hs) l b =
      timestamp_at_mono ps i j hs (omega (arith, l)) (omega (arith, b))

  keep-All :
      (cutoff : ℕ) (ps : List (MetricPoint F))
      → All (λ q. cutoff ≤ q.timestamp) ps
      → keep (fresh cutoff) ps ≡ ps
  keep-All cutoff [] h = refl
  keep-All cutoff (p ∷ ps) (h, hs) =
      let new : fresh cutoff p ≡ true = ground (arith, h) in
      rw new (ap (λ qs. p ∷ qs) (keep-All cutoff ps hs))

  -- What stands from the first fresh point on is what is fresh.
  pub drop-keep :
      (cutoff n : ℕ) (ps : List (MetricPoint F))
      → InTime ps
      → n ≤ length ps
      → ((i : ℕ) → i < n → fresh_at cutoff ps i ≡ false)
      → (n < length ps → fresh_at cutoff ps n ≡ true)
      → drop n ps ≡ keep (fresh cutoff) ps
  unfolding timestamp_at
  drop-keep cutoff zero [] h b old new = refl
  drop-keep cutoff (suc n) [] h b old new = refl
  drop-keep cutoff zero (p ∷ ps) (h, hs) b old new =
      let young : fresh cutoff p ≡ true = new (omega arith) in
      sym (keep-All cutoff (p ∷ ps) (ground (arith, young), later cutoff p ps h young))
    where
      later :
          (cutoff : ℕ) (p : MetricPoint F) (ps : List (MetricPoint F))
          → All (λ q. p.timestamp ≤ q.timestamp) ps
          → fresh cutoff p ≡ true
          → All (λ q. cutoff ≤ q.timestamp) ps
      later cutoff p [] h young = tt
      later cutoff p (q ∷ qs) (g, gs) young = (ground (arith, g, young), later cutoff p qs gs young)
  drop-keep cutoff (suc n) (p ∷ ps) (h, hs) b old new =
      let stale : fresh cutoff p ≡ false = old 0 (omega arith) in
      rw stale (
        drop-keep cutoff n ps hs (omega (arith, b)) (λ i l. old (suc i) (omega (arith, l)))
          (λ l. new (omega (arith, l))))
