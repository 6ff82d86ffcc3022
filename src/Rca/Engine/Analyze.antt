-- ===== src/Rca/Engine/Analyze.antt =====
-- internal/rca/engine.go: Analyze, with the interfaces that it calls as arguments.
use pgpulse.Common.{
  ℕ, suc, ◌+◌, ◌-◌, ◌*◌, Bool, true, false, ◌&&◌, Option, none, some, List, [], ◌∷◌, ◌++◌,
  if◌then◌else◌, ltb, ◌=?◌, length, take, ◌>>=◌,
}
use pgpulse.Common.Text.{Text, text, text_eq}
use pgpulse.Common.Map.{Map, lookup, insert, get_or}
use pgpulse.Common.Float.{Float}
use pgpulse.Common.Sorting.{Sorting}
use pgpulse.Rca.Durations.{second, minute}
use pgpulse.Rca.Graph.{
  CausalEdge, CausalGraph, chains_for_trigger, metric_keys_for_chains, edges_for_chain,
}
use pgpulse.Rca.Events.{
  AnomalyEvent, TimelineEvent, TimeWindow, SettingChange, CausalChainResult, Incident, RcaConfig,
  AnalyzeRequest,
}
use pgpulse.Rca.Incident.{Formats, build}
use pgpulse.Rca.Engine.{Run}
use pgpulse.Rca.Engine.Walk.{traverse_chain}

abbrev pub Anomalies : Type 0 → Type 0
Anomalies F = Map Text (List (AnomalyEvent F))

-- The fields of the engine; `none` stands for an error in an answer, and for nil in a field. The engine
-- only logs an error of the hooks' evaluator, so all that counts is whether there is one.
pub record Engine (F : Type 0) : Type 0 where
  pub graph : CausalGraph F
  pub anomaly_mode : Text
  pub get_anomalies : Text → List Text → ℕ → ℕ → ℕ → Option (Anomalies F)
  pub store : Option (Incident F → Option ℕ)
  pub query : Text → Text → ℕ → ℕ → ℕ → Option (List F)
  pub cfg : RcaConfig F
  pub settings_provider : Option (Text → ℕ → ℕ → Option (List SettingChange))
  pub stmt_diff_source : Option (Text → ℕ → ℕ → Option (Anomalies F))
  pub has_rem_engine : Bool

-- The arguments of EvaluateHook.
pub record HookCall (F : Type 0) : Type 0 where
  pub hook : Text
  pub instance_id : Text
  pub metric_key : Text
  pub value : F
  pub incident_id : ℕ
  pub urgency_delta : F

module _ {F : Type 0} where
  unfoldable pub analysis_window : Engine F → AnalyzeRequest F → TimeWindow
  analysis_window e req = record {
    from =
        req.trigger_time
        - (if ltb 0 req.window_minutes then req.window_minutes * minute else e.cfg.lookback_window);
    to =
        if req.trigger_kind =? text "alert"
        then req.trigger_time + e.cfg.deferred_forward_tail
        else req.trigger_time;
  }

  -- `anomalyMap[k] = append(anomalyMap[k], v...)` for all entries.
  unfoldable pub append_all : Anomalies F → Anomalies F → Anomalies F
  append_all m [] = m
  append_all m ((k, v) ∷ more) = append_all (insert k (get_or [] k m ++ v) m) more

  unfoldable pub entries_of : Option (Anomalies F) → Anomalies F
  entries_of none = []
  entries_of (some m) = m

  unfoldable pub statement_anomalies : Engine F → AnalyzeRequest F → Anomalies F
  unfolding entries_of
  statement_anomalies e req = elim e.stmt_diff_source [
    | none ↦ []
    | some get ↦ let w = analysis_window e req in entries_of (get req.instance_id w.from w.to)
  ]

  has_points : Option (List F) → Bool
  has_points none = false
  has_points (some []) = false
  has_points (some (_ ∷ _)) = true

  has_data : Engine F → AnalyzeRequest F → Anomalies F → Text → Bool
  unfolding has_points
  has_data e req m key = elim (lookup key m) [
    | some _ ↦ true
    | none ↦ let w = analysis_window e req in has_points (e.query req.instance_id key w.from w.to 1)
  ]

  unfoldable pub count_with_data : Engine F → AnalyzeRequest F → Anomalies F → List Text → ℕ
  unfolding has_data
  count_with_data e req m [] = 0
  count_with_data e req m (key ∷ keys) =
      let rest = count_with_data e req m keys in if has_data e req m key then suc rest else rest

  unfoldable pub candidate_chains : Engine F → AnalyzeRequest F → List Text
  candidate_chains e req =
      take e.cfg.max_candidate_chains (chains_for_trigger e.graph req.trigger_metric)

  unfoldable pub needed_metrics : Engine F → AnalyzeRequest F → List Text
  unfolding candidate_chains
  needed_metrics e req =
      take e.cfg.max_metrics_per_run (metric_keys_for_chains e.graph (candidate_chains e req))

  unfoldable pub run_of : Engine F → AnalyzeRequest F → Anomalies F → Run F
  unfolding analysis_window
  run_of e req m = record {
    graph = e.graph;
    settings_provider = elim e.settings_provider [
      | none ↦ none
      | some get ↦ some (get req.instance_id)
    ];
    trigger_time = req.trigger_time;
    window = analysis_window e req;
    anomaly_map = m;
  }

  unfoldable pub store_incident : Option (Incident F → Option ℕ) → Incident F → Incident F
  store_incident none incident = incident
  store_incident (some create) incident = elim (create incident) [
    | none ↦ incident
    | some id ↦ record incident { id = id }
  ]

  -- The metric and the value of the first event at the node.
  unfoldable pub event_at : Text → List (TimelineEvent F) → Option (TimelineEvent F)
  event_at node_id [] = none
  event_at node_id (ev ∷ evs) = if ev.node_id =? node_id then some ev else event_at node_id evs

  -- The anomalies of the source and those of the statements.
  unfoldable pub anomaly_map_of : Engine F → AnalyzeRequest F → Option (Anomalies F)
  unfolding append_all statement_anomalies needed_metrics
  anomaly_map_of e req =
      let w = analysis_window e req in
      do
        m ← e.get_anomalies req.instance_id (needed_metrics e req) w.from w.to (90 * second)
        some (append_all m (statement_anomalies e req))

module _ {F : Type 0} ⦃f : Float F⦄ where
  hook_call : Incident F → Text → Option (TimelineEvent F) → HookCall F
  hook_call incident hook found = record {
    hook = hook;
    instance_id = incident.instance_id;
    metric_key = elim found [ none ↦ [] | some ev ↦ ev.metric_key ];
    value = elim found [ none ↦ f.of_nat 0 | some ev ↦ ev.value ];
    incident_id = incident.id;
    urgency_delta = f.of_nat 1;
  }

  -- The loop over the edges of the chain.
  unfoldable pub hook_calls :
      Incident F → List (TimelineEvent F) → List (CausalEdge F) → List (HookCall F)
  unfolding hook_call event_at
  hook_calls incident events [] = []
  hook_calls incident events (edge ∷ edges) =
      let rest = hook_calls incident events edges in
      if edge.remediation_hook =? []
      then rest
      else hook_call incident edge.remediation_hook (event_at edge.from_node events) ∷ rest

  unfoldable pub fire_remediation_hooks : CausalGraph F → Incident F → List (HookCall F)
  unfolding hook_calls
  fire_remediation_hooks g incident = elim incident.primary_chain [
    | none ↦ []
    | some chain ↦ hook_calls incident chain.events (edges_for_chain g chain.chain_id)
  ]

  -- Step 9, behind its tests.
  unfoldable pub hooks_of : Engine F → Incident F → List (HookCall F)
  unfolding fire_remediation_hooks
  hooks_of e incident =
      if e.has_rem_engine && e.cfg.remediation_hooks_enabled && ltb 0 incident.id
      then fire_remediation_hooks e.graph incident
      else []

  -- The result behind the test on its score.
  unfoldable pub accepted : F → Option (CausalChainResult F) → List (CausalChainResult F)
  accepted min_score none = []
  accepted min_score (some r) = if f.le min_score r.score then r ∷ [] else []

module _ {F : Type 0} ⦃f : Float F⦄ (exp : F → F) (formats : Formats F) (sorting : Sorting) where
  -- The traversal of one candidate in a run.
  unfoldable pub candidate :
      Engine F → AnalyzeRequest F → Run F → Text → Option (CausalChainResult F)
  candidate e req run chain_id =
      traverse_chain exp formats.fixed2 sorting e.cfg.max_traversal_depth run chain_id
        req.trigger_metric

  -- The loop over the candidates.
  unfoldable pub collect_chains :
      Engine F → AnalyzeRequest F → Run F → List Text → List (CausalChainResult F)
  unfolding candidate accepted
  collect_chains e req run [] = []
  collect_chains e req run (c ∷ cs) =
      accepted e.cfg.min_chain_score (candidate e req run c) ++ collect_chains e req run cs

  unfoldable pub incident_of : Engine F → AnalyzeRequest F → ℕ → Anomalies F → Incident F
  unfolding run_of count_with_data collect_chains needed_metrics
  incident_of e req now m =
      let keys = needed_metrics e req in
      build formats sorting now (record {
        req = req;
        window = analysis_window e req;
        chains = collect_chains e req (run_of e req m) (candidate_chains e req);
        anomaly_mode = e.anomaly_mode;
        metrics_needed = length keys;
        metrics_with_data = count_with_data e req m keys;
      })

  -- The incident, and the calls of hooks it leads to.
  unfoldable pub analyze : Engine F → AnalyzeRequest F → ℕ → Option (Incident F × List (HookCall F))
  unfolding anomaly_map_of incident_of store_incident hooks_of
  analyze e req now = do
    m ← anomaly_map_of e req
    let incident = store_incident e.store (incident_of e req now m) in
        some (incident, hooks_of e incident)
