-- ===== src/Rca/Engine/Provenance.antt =====
-- Where the events of a chain come from.
use pgpulse.Common.{
  ℕ, ◌≡◌, refl, Option, none, some, List, [], ◌∷◌, ◌≤◌, Any, here, there, arith, Bool-cases, inl,
  inr, ◌⊎◌, ltb, OnSome,
}
use pgpulse.Common.Text.{Text, text_eq}
use pgpulse.Common.Map.{lookup}
use pgpulse.Common.Float.{Float}
use pgpulse.Rca.Graph.{
  CausalNode, CausalEdge, TemporalSemantics, bounded_lag, persistent_state, while_effective,
}
use pgpulse.Rca.Events.{AnomalyEvent, TimelineEvent, SettingChange}
use pgpulse.Rca.Evidence.{build_timeline_event, latest_change, latest_of}
use pgpulse.Rca.Evidence.Strongest.{Candidate, find_strongest_anomaly-Candidate}
use pgpulse.Rca.Engine.{
  Run, no_evidence, is_required, absent, lagged, persistent, changed, changes_of, setting_event,
  effective, search_from, search_to, evidence_at, evaluate_edge,
}
pub mod Chain

latest_change-In :
    (all : List SettingChange) (latest : SettingChange) (chs : List SettingChange)
    → Any (λ x. x ≡ latest) all
    → ((c : SettingChange) → Any (λ x. x ≡ c) chs → Any (λ x. x ≡ c) all)
    → Any (λ x. x ≡ latest_change latest chs) all
unfolding latest_change
latest_change-In all latest [] i h = i
latest_change-In all latest (c ∷ cs) i h = elim (Bool-cases (ltb latest.changed_at c.changed_at)) [
  | inl e ↦ rw e (latest_change-In all c cs (h c (here {x = c} refl)) (λ d j. h d (there j)))
  | inr e ↦ rw e (latest_change-In all latest cs i (λ d j. h d (there j)))
]

latest_of-In : (chs : List SettingChange) → OnSome (λ c. Any (λ x. x ≡ c) chs) (latest_of chs)
unfolding latest_of
latest_of-In [] = tt
latest_of-In (c ∷ cs) = latest_change-In (c ∷ cs) c cs (here {x = c} refl) (λ d j. there j)

module _ {F : Type 0} (run : Run F) where
  -- An anomaly of one of the node's metrics, in the window of the analysis.
  abbrev pub Measured : CausalNode → TimelineEvent F → Type 0
  Measured node ev =
      (a : AnomalyEvent F) × Candidate run.window.from run.window.to run.anomaly_map
        node.metric_keys a
      × (ev.timestamp ≡ a.timestamp)
      × (ev.value ≡ a.value)
      × (ev.strength ≡ a.strength)

  -- A change of settings that the provider answers for the window.
  abbrev pub Configured : TimelineEvent F → Type 0
  Configured ev =
      (get_changes : ℕ → ℕ → Option (List SettingChange)) × (c : SettingChange)
      × (run.settings_provider ≡ some get_changes)
      × Any (λ x. x ≡ c) (changes_of (get_changes run.window.from run.window.to))
      × (ev.timestamp ≡ c.changed_at)

  -- The event stands at a node of the graph, and reports an anomaly there or a change of settings.
  abbrev pub Explained : TimelineEvent F → Type 0
  Explained ev =
      (key : Text) × (node : CausalNode) × (lookup key run.graph.nodes ≡ some node)
      × (ev.node_id ≡ node.id)
      × (Measured node ev ⊎ Configured ev)

  search_from-low :
      (edge : CausalEdge F) (node : CausalNode) → run.window.from ≤ search_from run edge node
  unfolding search_from
  search_from-low edge node = ground arith

  search_to-high :
      (edge : CausalEdge F) (node : CausalNode) → search_to run edge node ≤ run.window.to
  unfolding search_to
  search_to-high edge node = ground arith

module _ {F : Type 0} ⦃f : Float F⦄ (exp : F → F) (fixed2 : F → Text) (run : Run F) where
  absent-OnSome :
      (P : TimelineEvent F → Type 0) (edge : CausalEdge F) → OnSome P (absent edge).event
  unfolding absent
  absent-OnSome P edge = elim (Bool-cases (is_required edge.evidence)) [
    | inl g ↦ rw g tt
    | inr g ↦ rw g tt
  ]

  module _ (edge : CausalEdge F) (key : Text) (node : CausalNode)
      (is : lookup key run.graph.nodes ≡ some node) where
    lagged-Explained :
        (found : Option (AnomalyEvent F))
        → OnSome (Candidate run.window.from run.window.to run.anomaly_map node.metric_keys) found
        → OnSome (Explained run) (lagged exp fixed2 run edge node found).event
    unfolding lagged build_timeline_event
    lagged-Explained none c = absent-OnSome (Explained run) edge
    lagged-Explained (some a) c = (key, node, is, refl, inl (a, c, refl, refl, refl))

    persistent-Explained :
        (found : Option (AnomalyEvent F))
        → OnSome (Candidate run.window.from run.window.to run.anomaly_map node.metric_keys) found
        → OnSome (Explained run) (persistent exp fixed2 edge node found).event
    unfolding persistent build_timeline_event
    persistent-Explained none c = absent-OnSome (Explained run) edge
    persistent-Explained (some a) c = (key, node, is, refl, inl (a, c, refl, refl, refl))

    changed-Explained :
        (get_changes : ℕ → ℕ → Option (List SettingChange)) (latest : Option SettingChange)
        → run.settings_provider ≡ some get_changes
        → OnSome
            (λ c. Any (λ x. x ≡ c) (changes_of (get_changes run.window.from run.window.to)))
            latest
        → OnSome (Explained run) (changed edge node latest).event
    unfolding changed setting_event
    changed-Explained get_changes none on c = absent-OnSome (Explained run) edge
    changed-Explained get_changes (some c) on i =
        (key, node, is, refl, inr (get_changes, c, on, i, refl))

    effective-Explained :
        (provider : Option (ℕ → ℕ → Option (List SettingChange)))
        → run.settings_provider ≡ provider
        → OnSome (Explained run) (effective run edge node provider).event
    unfolding effective no_evidence
    effective-Explained none on = tt
    effective-Explained (some get_changes) on =
        changed-Explained get_changes _ on
          (latest_of-In (changes_of (get_changes run.window.from run.window.to)))

    narrowed :
        (found : Option (AnomalyEvent F))
        → OnSome
            (Candidate
              (search_from run edge node)
              (search_to run edge node)
              run.anomaly_map
              node.metric_keys)
            found
        → OnSome (Candidate run.window.from run.window.to run.anomaly_map node.metric_keys) found
    narrowed none c = tt
    narrowed (some a) (i, (low, high)) = (
      i,
      (
        omega (arith, low, search_from-low run edge node),
        omega (arith, high, search_to-high run edge node),
      ),
    )

    evidence_at-Explained :
        (t : TemporalSemantics)
        → edge.temporal ≡ t
        → OnSome (Explained run) (evidence_at exp fixed2 run edge (some node)).event
    unfolding evidence_at build_timeline_event
    evidence_at-Explained bounded_lag at = rw at (
        lagged-Explained _ (
          narrowed _ (
            find_strongest_anomaly-Candidate (search_from run edge node) (search_to run edge node)
              run.anomaly_map node.metric_keys)))
    evidence_at-Explained persistent_state at = rw at (
        persistent-Explained _ (
          find_strongest_anomaly-Candidate run.window.from run.window.to run.anomaly_map
            node.metric_keys))
    evidence_at-Explained while_effective at =
        rw at (effective-Explained run.settings_provider refl)

  pub evaluate_edge-Explained :
      (edge : CausalEdge F) → OnSome (Explained run) (evaluate_edge exp fixed2 run edge).event
  unfolding evaluate_edge evidence_at no_evidence
  evaluate_edge-Explained edge = go (lookup edge.from_node run.graph.nodes) refl
    where
      go :
          (o : Option CausalNode)
          → lookup edge.from_node run.graph.nodes ≡ o
          → OnSome (Explained run) (evidence_at exp fixed2 run edge o).event
      go none is = tt
      go (some node) is = evidence_at-Explained edge edge.from_node node is edge.temporal refl
