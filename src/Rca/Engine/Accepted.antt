-- ===== src/Rca/Engine/Accepted.antt =====
-- The results that the engine accepts, of the candidates.
use mathlib.Core.Path.{subst}
use pgpulse.Common.{
  true, ◌≡◌, refl, Option, none, some, List, [], ◌∷◌, All, Any, here, there, if◌then◌else◌,
  Bool-cases, inl, inr, All-append, All-append_left, All-append_right,
}
use pgpulse.Common.Text.{Text}
use pgpulse.Common.Float.{Float}
use pgpulse.Common.Sorting.{Sorting}
use pgpulse.Rca.Events.{CausalChainResult, AnalyzeRequest}
use pgpulse.Rca.Incident.{Formats}
use pgpulse.Rca.Engine.{Run}
use pgpulse.Rca.Engine.Analyze.{Engine, candidate, accepted, collect_chains}

module _ {F : Type 0} ⦃f : Float F⦄ (exp : F → F) (formats : Formats F) (sorting : Sorting)
    (e : Engine F) (req : AnalyzeRequest F) where
  -- A candidate's traversal gives the result, and its score is not below the least one.
  abbrev pub Accepted : Run F → List Text → CausalChainResult F → Type 0
  Accepted run cs r =
      Any (λ c. candidate exp formats sorting e req run c ≡ some r) cs
      × (f.le e.cfg.min_chain_score r.score ≡ true)

  accepted-All :
      (P : CausalChainResult F → Type 0) (o : Option (CausalChainResult F))
      → ((r : CausalChainResult F) → o ≡ some r → f.le e.cfg.min_chain_score r.score ≡ true → P r)
      → All P (accepted e.cfg.min_chain_score o)
  unfolding accepted
  accepted-All P none h = tt
  accepted-All P (some r) h = elim (Bool-cases (f.le e.cfg.min_chain_score r.score)) [
    | inl g ↦ rw g (h r refl g, tt)
    | inr g ↦ rw g tt
  ]

  pub collect_chains-Accepted :
      (run : Run F) (P : CausalChainResult F → Type 0) (cs : List Text)
      → ((r : CausalChainResult F) → Accepted run cs r → P r)
      → All P (collect_chains exp formats sorting e req run cs)
  unfolding collect_chains
  collect_chains-Accepted run P [] h = tt
  collect_chains-Accepted run P (c ∷ cs) h =
      All-append P (accepted e.cfg.min_chain_score (candidate exp formats sorting e req run c))
        (collect_chains exp formats sorting e req run cs)
        (accepted-All P (candidate exp formats sorting e req run c) (λ r is g. h r (here is, g)))
        (collect_chains-Accepted run P cs (λ r a. h r (there a.0, a.1)))

  accepted_all :
      (P : CausalChainResult F → Type 0) (o : Option (CausalChainResult F))
      (r : CausalChainResult F)
      → All P (accepted e.cfg.min_chain_score o)
      → o ≡ some r
      → f.le e.cfg.min_chain_score r.score ≡ true
      → P r
  unfolding accepted
  accepted_all P o r h is g =
      (subst (λ b. All P (if b then r ∷ [] else [])) g
        (subst (λ q. All P (accepted e.cfg.min_chain_score q)) is h)).0

  pub collect_chains_all :
      (run : Run F) (P : CausalChainResult F → Type 0) (cs : List Text) (r : CausalChainResult F)
      → All P (collect_chains exp formats sorting e req run cs)
      → Accepted run cs r
      → P r
  unfolding collect_chains
  collect_chains_all run P [] r h (i, g) = elim i [ ]
  collect_chains_all run P (c ∷ cs) r h (here is, g) =
      accepted_all P (candidate exp formats sorting e req run c) r
        (All-append_left P
          (accepted e.cfg.min_chain_score (candidate exp formats sorting e req run c))
          (collect_chains exp formats sorting e req run cs) h)
        is g
  collect_chains_all run P (c ∷ cs) r h (there i, g) =
      collect_chains_all run P cs r
        (All-append_right P
          (accepted e.cfg.min_chain_score (candidate exp formats sorting e req run c))
          (collect_chains exp formats sorting e req run cs) h)
        (i, g)
