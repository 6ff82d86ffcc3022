-- ===== src/Rca/Engine/Best.antt =====
-- Which chains an incident names.
use mathlib.Core.List.Permᴰ
use pgpulse.Common.{
  ℕ, true, false, ◌≡◌, refl, Option, none, some, List, [], ◌∷◌, All, arith, Bool-cases, inl, inr,
  OnSome,
}
use pgpulse.Common.Text.{Text}
use pgpulse.Common.Float.{Float, decimal}
use pgpulse.Common.Sorting.{Sorting, IsSorting, IsWeakOrder, Ordered, All-Permᴰ, irreflexive}
use pgpulse.Rca.Events.{CausalChainResult, Incident, AnalyzeRequest}
use pgpulse.Rca.Incident.{Formats, first, second, by_score, build, confidence_of}
use pgpulse.Rca.Evidence.Strongest.{Number}
use pgpulse.Rca.Engine.{Run}
use pgpulse.Rca.Engine.Accepted.{Accepted, collect_chains-Accepted, collect_chains_all}
use pgpulse.Rca.Engine.Analyze.{
  Engine, Anomalies, HookCall, candidate_chains, run_of, collect_chains, incident_of,
  anomaly_map_of, store_incident, analyze,
}

module _ {F : Type 0} ⦃f : Float F⦄ (exp : F → F) (formats : Formats F) (sorting : Sorting)
    (e : Engine F) (req : AnalyzeRequest F) where
  -- The chains in order of their scores.
  abbrev ranked : Run F → List Text → List (CausalChainResult F)
  ranked run cs = by_score sorting (collect_chains exp formats sorting e req run cs)

  -- What an incident says of the accepted results: no primary chain is named only when there is none; the
  -- primary chain is one of them, and none scores higher; the alternative is one of them, and its score is at
  -- least four fifths of the primary's.
  abbrev pub Names : Run F → List Text → Incident F → Type 0
  Names run cs incident =
      OnSome
        (λ c.
          Accepted exp formats sorting e req run cs c
          × ((r : CausalChainResult F)
              → Accepted exp formats sorting e req run cs r
              → f.lt c.score r.score ≡ false))
        incident.primary_chain
      × (incident.primary_chain ≡ none
          → (r : CausalChainResult F) → Accepted exp formats sorting e req run cs r
          → ⊥)
      × OnSome
          (λ a.
            Accepted exp formats sorting e req run cs a
            × (f.le (f.mul incident.confidence (decimal 8 10)) a.score ≡ true))
          incident.alternative_chain

  module _ (laws : IsSorting sorting) (w : IsWeakOrder f.lt (Number {F = F})) (run : Run F)
      (cs : List Text)
      (numbers : (r : CausalChainResult F)
        → Accepted exp formats sorting e req run cs r
        → Number r.score) where
    by_score-IsWeakOrder :
        IsWeakOrder {A = CausalChainResult F}
          (λ a b. f.lt b.score a.score)
          (λ r. Number {F = F} r.score)
    by_score-IsWeakOrder = record {
      asymm = λ x y p q. w.asymm y.score x.score q p;
      not_less_trans = λ x y z p q r h g. w.not_less_trans z.score y.score x.score r q p g h;
    }

    ranked-Accepted : All (Accepted exp formats sorting e req run cs) (ranked run cs)
    unfolding by_score
    ranked-Accepted =
        All-Permᴰ (Accepted exp formats sorting e req run cs) _ _ (laws.permutes _ _) (
          collect_chains-Accepted exp formats sorting e req run
            (Accepted exp formats sorting e req run cs) cs (λ r a. a))

    ranked-Ordered : Ordered (λ a b. f.lt b.score a.score) (ranked run cs)
    unfolding by_score
    ranked-Ordered =
        laws.orders _ (λ r. Number {F = F} r.score) _ by_score-IsWeakOrder
          (collect_chains-Accepted exp formats sorting e req run (λ r. Number {F = F} r.score) cs
            numbers)

    ranked_all :
        (P : CausalChainResult F → Type 0)
        → All P (ranked run cs)
        → (r : CausalChainResult F) → Accepted exp formats sorting e req run cs r
        → P r
    unfolding by_score
    ranked_all P h r a =
        collect_chains_all exp formats sorting e req run P cs r
          (All-Permᴰ P _ _ (Permᴰ.symm (laws.permutes _ _)) h) a

    -- What is said of the chains in order.
    abbrev Told : List (CausalChainResult F) → Type 0
    Told l =
        OnSome
          (λ c.
            Accepted exp formats sorting e req run cs c
            × ((r : CausalChainResult F)
                → Accepted exp formats sorting e req run cs r
                → f.lt c.score r.score ≡ false))
          (first l)
        × (first l ≡ none
            → (r : CausalChainResult F) → Accepted exp formats sorting e req run cs r
            → ⊥)
        × OnSome
            (λ a.
              Accepted exp formats sorting e req run cs a
              × (f.le (f.mul (confidence_of (first l)) (decimal 8 10)) a.score ≡ true))
            (second l)

    second-Accepted :
        (c : CausalChainResult F) (l : List (CausalChainResult F))
        → All (Accepted exp formats sorting e req run cs) l
        → OnSome
            (λ a.
              Accepted exp formats sorting e req run cs a
              × (f.le (f.mul c.score (decimal 8 10)) a.score ≡ true))
            (second (c ∷ l))
    unfolding second
    second-Accepted c [] h = tt
    second-Accepted c (d ∷ ds) (h, hs) =
        elim (Bool-cases (f.le (f.mul c.score (decimal 8 10)) d.score)) [
          | inl g ↦ rw g (h, g)
          | inr g ↦ rw g tt
        ]

    told :
        (l : List (CausalChainResult F))
        → All (Accepted exp formats sorting e req run cs) l
        → Ordered (λ a b. f.lt b.score a.score) l
        → ((P : CausalChainResult F → Type 0)
            → All P l
            → (r : CausalChainResult F) → Accepted exp formats sorting e req run cs r
            → P r)
        → Told l
    unfolding first second confidence_of
    told [] h o every = (tt, (λ _ r a. every (λ _. ⊥) tt r a), tt)
    told (c ∷ l) (h, hs) (o, os) every = (
      (h, every (λ r. f.lt c.score r.score ≡ false) (irreflexive w c.score (numbers c h), o)),
      (λ is. absurd (ground (arith, is))),
      second-Accepted c l hs,
    )

  -- Storing the incident gives it its id only.
  store_incident-Names :
      (run : Run F) (cs : List Text) (store : Option (Incident F → Option ℕ))
      (incident : Incident F)
      → Names run cs incident
      → Names run cs (store_incident store incident)
  unfolding store_incident
  store_incident-Names run cs none incident names = names
  store_incident-Names run cs (some create) incident names = go (create incident)
    where
      go :
          (o : Option ℕ)
          → Names run cs (elim o [ none ↦ incident | some id ↦ record incident { id = id } ])
      go none = names
      go (some id) = names

  incident_of-Names :
      IsSorting sorting
      → IsWeakOrder f.lt (Number {F = F})
      → (now : ℕ) (m : Anomalies F)
      → ((r : CausalChainResult F)
          → Accepted exp formats sorting e req (run_of e req m) (candidate_chains e req) r
          → Number r.score)
      → Names
          (run_of e req m)
          (candidate_chains e req)
          (incident_of exp formats sorting e req now m)
  unfolding incident_of build confidence_of
  incident_of-Names laws w now m numbers =
      let run = run_of e req m in
      let cs = candidate_chains e req in
      told laws w run cs numbers (ranked run cs) (ranked-Accepted laws w run cs numbers)
        (ranked-Ordered laws w run cs numbers) (ranked_all laws w run cs numbers)

  -- The answer is an incident, which names its chains by these anomalies.
  abbrev pub Reported : Anomalies F → Option (Incident F × List (HookCall F)) → Type 0
  Reported m answer =
      (out : Incident F × List (HookCall F)) × (answer ≡ some out)
      × Names (run_of e req m) (candidate_chains e req) out.0

  -- Where the sources of anomalies answer, the sort is one and the scores of the accepted results are numbers,
  -- `analyze` returns an incident. It names as its primary chain an accepted result that no other outscores, and
  -- names none only when no candidate is accepted; its alternative is an accepted result with at least four
  -- fifths of the score.
  pub analyze-Names :
      IsSorting sorting
      → IsWeakOrder f.lt (Number {F = F})
      → (now : ℕ) (m : Anomalies F) → anomaly_map_of e req ≡ some m
      → ((r : CausalChainResult F)
          → Accepted exp formats sorting e req (run_of e req m) (candidate_chains e req) r
          → Number r.score)
      → Reported m (analyze exp formats sorting e req now)
  unfolding analyze
  analyze-Names laws w now m is numbers = rw is (
    _,
    refl,
    store_incident-Names (run_of e req m) (candidate_chains e req) e.store _
        (incident_of-Names laws w now m numbers),
  )
