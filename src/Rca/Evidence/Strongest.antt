-- ===== src/Rca/Evidence/Strongest.antt =====
-- The anomaly that stands for a node.
use pgpulse.Common.{
  ℕ, true, ◌≡◌, refl, Option, none, some, List, [], ◌∷◌, ◌≤◌, Any, here, there, arith, Bool-cases,
  inl, inr, ◌||◌, ltb, OnSome,
}
use pgpulse.Common.Text.{Text, text_eq}
use pgpulse.Common.Float.{Float}
use pgpulse.Common.Map.{Map, lookup}
use pgpulse.Rca.Events.{AnomalyEvent}
use pgpulse.Rca.Evidence.{
  better, stronger, strongest_in, events_of, strongest_of, find_strongest_anomaly,
}

abbrev pub Number : {F : Type 0} ⦃f : Float F⦄ → F → Type 0
Number ⦃f⦄ x = f.eq x x ≡ true

module _ {F : Type 0} (start end : ℕ) where
  -- The anomaly is in the window.
  abbrev pub Within : AnomalyEvent F → Type 0
  Within a = (start ≤ a.timestamp) × (a.timestamp ≤ end)

  -- The map holds the anomaly at one of the keys, and it is in the window.
  abbrev pub Candidate : Map Text (List (AnomalyEvent F)) → List Text → AnomalyEvent F → Type 0
  Candidate anomaly_map keys a =
      Any (λ key. Any (λ x. x ≡ a) (events_of (lookup key anomaly_map))) keys × Within a

module _ {F : Type 0} ⦃f : Float F⦄ (start end : ℕ) where
  pub better-OnSome :
      (P : AnomalyEvent F → Type 0) (best : Option (AnomalyEvent F)) (ev : AnomalyEvent F)
      → OnSome P best
      → P ev
      → OnSome P (better best ev)
  unfolding better
  better-OnSome P none ev h p = p
  better-OnSome P (some b) ev h p = elim (Bool-cases (f.lt b.strength ev.strength)) [
    | inl e ↦ rw e p
    | inr e ↦ rw e h
  ]

  pub stronger-OnSome :
      (P : AnomalyEvent F → Type 0) (best : Option (AnomalyEvent F)) (ev : AnomalyEvent F)
      → OnSome P best
      → (Within start end ev → P ev)
      → OnSome P (stronger start end best ev)
  unfolding stronger
  stronger-OnSome P best ev h p =
      elim (Bool-cases (ltb ev.timestamp start || ltb end ev.timestamp)) [
        | inl e ↦ rw e h
        | inr e ↦ rw e (better-OnSome P best ev h (p (ground (arith, e), ground (arith, e))))
      ]

  pub strongest_in-OnSome :
      (P : AnomalyEvent F → Type 0) (best : Option (AnomalyEvent F)) (evs : List (AnomalyEvent F))
      → OnSome P best
      → ((a : AnomalyEvent F) → Any (λ x. x ≡ a) evs → Within start end a → P a)
      → OnSome P (strongest_in start end best evs)
  unfolding strongest_in
  strongest_in-OnSome P best [] h p = h
  strongest_in-OnSome P best (ev ∷ evs) h p =
      strongest_in-OnSome P (stronger start end best ev) evs
        (stronger-OnSome P best ev h (p ev (here {x = ev} refl))) (λ a i. p a (there i))

  strongest_of-OnSome :
      (P : AnomalyEvent F → Type 0) (anomaly_map : Map Text (List (AnomalyEvent F)))
      (keys : List Text) (best : Option (AnomalyEvent F))
      → OnSome P best
      → ((a : AnomalyEvent F) → Candidate start end anomaly_map keys a → P a)
      → OnSome P (strongest_of anomaly_map keys start end best)
  unfolding strongest_of
  strongest_of-OnSome P anomaly_map [] best h p = h
  strongest_of-OnSome P anomaly_map (key ∷ keys) best h p =
      strongest_of-OnSome P anomaly_map keys _
        (strongest_in-OnSome P best (events_of (lookup key anomaly_map)) h
          (λ a i w. p a (here i, w)))
        (λ a c. p a (there c.0, c.1))

  -- The anomaly that is answered is one of those in the window.
  pub find_strongest_anomaly-Candidate :
      (anomaly_map : Map Text (List (AnomalyEvent F))) (keys : List Text)
      → OnSome
          (Candidate start end anomaly_map keys)
          (find_strongest_anomaly anomaly_map keys start end)
  unfolding find_strongest_anomaly
  find_strongest_anomaly-Candidate anomaly_map keys =
      strongest_of-OnSome (Candidate start end anomaly_map keys) anomaly_map keys none tt (λ a c. c)
