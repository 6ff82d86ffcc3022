-- ===== src/Rca/Evidence/Maximum.antt =====
-- No anomaly in the window is stronger than the one that stands for a node.
use mathlib.Core.Path.{subst}
use pgpulse.Common.{
  ℕ, false, ◌≡◌, refl, sym, Option, none, some, List, [], ◌∷◌, Any, here, there, arith, Bool-cases,
  inl, inr, ◌||◌, ltb, OnSome,
}
use pgpulse.Common.Text.{Text, text_eq}
use pgpulse.Common.Float.{Float}
use pgpulse.Common.Sorting.{IsWeakOrder, irreflexive}
use pgpulse.Common.Map.{Map, lookup}
use pgpulse.Rca.Events.{AnomalyEvent}
use pgpulse.Rca.Evidence.{
  better, stronger, strongest_in, events_of, strongest_of, find_strongest_anomaly,
}
use pgpulse.Rca.Evidence.Strongest.{
  Number, Within, Candidate, stronger-OnSome, strongest_in-OnSome, find_strongest_anomaly-Candidate,
}

module _ {F : Type 0} ⦃f : Float F⦄ (start end : ℕ) where
  -- `a` is answered, and `b` is not stronger.
  abbrev pub Beats : Option (AnomalyEvent F) → AnomalyEvent F → Type 0
  Beats best b = (a : AnomalyEvent F) × (best ≡ some a) × (f.lt a.strength b.strength ≡ false)

  abbrev Strong : AnomalyEvent F → Type 0
  Strong a = Number a.strength

  -- The strengths in the map are numbers.
  abbrev pub Numbers : Map Text (List (AnomalyEvent F)) → Type 0
  Numbers anomaly_map =
      (key : Text) (a : AnomalyEvent F)
      → Any (λ x. x ≡ a) (events_of (lookup key anomaly_map))
      → Strong a

  module _ (w : IsWeakOrder f.lt (Number {F = F})) where
    better-Beats :
        (best : Option (AnomalyEvent F)) (ev : AnomalyEvent F)
        → OnSome Strong best
        → Strong ev
        → Beats (better best ev) ev
    unfolding better
    better-Beats none ev h n = (ev, refl, irreflexive w ev.strength n)
    better-Beats (some b) ev h n = elim (Bool-cases (f.lt b.strength ev.strength)) [
      | inl e ↦ rw e (ev, refl, irreflexive w ev.strength n)
      | inr e ↦ rw e (b, refl, e)
    ]

    better_keeps :
        (ev b a : AnomalyEvent F)
        → Strong ev
        → Strong b
        → Strong a
        → f.lt a.strength b.strength ≡ false
        → Beats (better (some a) ev) b
    unfolding better
    better_keeps ev b a ne nb na h = elim (Bool-cases (f.lt a.strength ev.strength)) [
      | inl e ↦ rw e (
        ev,
        refl,
        w.not_less_trans b.strength a.strength ev.strength nb na ne h
            (w.asymm a.strength ev.strength na ne e),
      )
      | inr e ↦ rw e (a, refl, h)
    ]

    stronger_keeps :
        (best : Option (AnomalyEvent F)) (ev b : AnomalyEvent F)
        → OnSome Strong best
        → Strong ev
        → Strong b
        → Beats best b
        → Beats (stronger start end best ev) b
    unfolding stronger
    stronger_keeps none ev b h ne nb (a, is, l) = absurd (ground (arith, is))
    stronger_keeps (some c) ev b h ne nb (a, is, l) =
        elim (Bool-cases (ltb ev.timestamp start || ltb end ev.timestamp)) [
          | inl e ↦ rw e (a, is, l)
          | inr e ↦ rw e (better_keeps ev b c ne nb h (ground (arith, is, l)))
        ]

    stronger_takes :
        (best : Option (AnomalyEvent F)) (ev : AnomalyEvent F)
        → OnSome Strong best
        → Strong ev
        → Within start end ev
        → Beats (stronger start end best ev) ev
    unfolding stronger
    stronger_takes best ev h ne within =
        let in_window : (ltb ev.timestamp start || ltb end ev.timestamp) ≡ false =
          ground (arith, within) in
        rw in_window (better-Beats best ev h ne)

    strongest_in_keeps :
        (best : Option (AnomalyEvent F)) (evs : List (AnomalyEvent F)) (b : AnomalyEvent F)
        → OnSome Strong best
        → ((a : AnomalyEvent F) → Any (λ x. x ≡ a) evs → Strong a)
        → Strong b
        → Beats best b
        → Beats (strongest_in start end best evs) b
    unfolding strongest_in
    strongest_in_keeps best [] b h ns nb beats = beats
    strongest_in_keeps best (ev ∷ evs) b h ns nb beats =
        let ne = ns ev (here {x = ev} refl) in
        strongest_in_keeps (stronger start end best ev) evs b
          (stronger-OnSome start end Strong best ev h (λ _. ne)) (λ a i. ns a (there i)) nb
          (stronger_keeps best ev b h ne nb beats)

    strongest_in_takes :
        (best : Option (AnomalyEvent F)) (evs : List (AnomalyEvent F)) (b : AnomalyEvent F)
        → OnSome Strong best
        → ((a : AnomalyEvent F) → Any (λ x. x ≡ a) evs → Strong a)
        → Any (λ x. x ≡ b) evs
        → Within start end b
        → Beats (strongest_in start end best evs) b
    unfolding strongest_in
    strongest_in_takes best [] b h ns i within = elim i [ ]
    strongest_in_takes best (ev ∷ evs) b h ns (here is) within =
        let ne = ns ev (here {x = ev} refl) in
        subst (λ c. Beats (strongest_in start end (stronger start end best ev) evs) c) is
          (strongest_in_keeps (stronger start end best ev) evs ev
            (stronger-OnSome start end Strong best ev h (λ _. ne)) (λ a i. ns a (there i)) ne
            (stronger_takes best ev h ne (subst (Within start end) (sym is) within)))
    strongest_in_takes best (ev ∷ evs) b h ns (there i) within =
        strongest_in_takes (stronger start end best ev) evs b
          (stronger-OnSome start end Strong best ev h (λ _. ns ev (here {x = ev} refl)))
          (λ a j. ns a (there j)) i within

    module _ (anomaly_map : Map Text (List (AnomalyEvent F))) (ns : Numbers anomaly_map) where
      strongest_of_keeps :
          (keys : List Text) (best : Option (AnomalyEvent F)) (b : AnomalyEvent F)
          → OnSome Strong best
          → Strong b
          → Beats best b
          → Beats (strongest_of anomaly_map keys start end best) b
      unfolding strongest_of
      strongest_of_keeps [] best b h nb beats = beats
      strongest_of_keeps (key ∷ keys) best b h nb beats =
          let evs = events_of (lookup key anomaly_map) in
          strongest_of_keeps keys (strongest_in start end best evs) b
            (strongest_in-OnSome start end Strong best evs h (λ a i _. ns key a i)) nb
            (strongest_in_keeps best evs b h (ns key) nb beats)

      strongest_of_takes :
          (keys : List Text) (best : Option (AnomalyEvent F)) (b : AnomalyEvent F)
          → OnSome Strong best
          → Candidate start end anomaly_map keys b
          → Beats (strongest_of anomaly_map keys start end best) b
      unfolding strongest_of
      strongest_of_takes [] best b h (i, within) = elim i [ ]
      strongest_of_takes (key ∷ keys) best b h (here i, within) =
          let evs = events_of (lookup key anomaly_map) in
          strongest_of_keeps keys (strongest_in start end best evs) b
            (strongest_in-OnSome start end Strong best evs h (λ a j _. ns key a j)) (ns key b i)
            (strongest_in_takes best evs b h (ns key) i within)
      strongest_of_takes (key ∷ keys) best b h (there i, within) =
          let evs = events_of (lookup key anomaly_map) in
          strongest_of_takes keys (strongest_in start end best evs) b
            (strongest_in-OnSome start end Strong best evs h (λ a j _. ns key a j)) (i, within)

      -- Where the strengths are numbers, the anomaly that stands for a node is one of those in the window at
      -- the node's metrics, some anomaly is answered whenever there is such a one, and none of them is stronger.
      pub find_strongest_anomaly_lem :
          (keys : List Text)
          → OnSome
              (Candidate start end anomaly_map keys)
              (find_strongest_anomaly anomaly_map keys start end)
            × ((b : AnomalyEvent F)
                → Candidate start end anomaly_map keys b
                → Beats (find_strongest_anomaly anomaly_map keys start end) b)
      unfolding find_strongest_anomaly
      find_strongest_anomaly_lem keys = (
        find_strongest_anomaly-Candidate start end anomaly_map keys,
        λ b c. strongest_of_takes keys none b tt c,
      )
