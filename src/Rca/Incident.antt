-- ===== src/Rca/Incident.antt =====
-- internal/rca/incident.go: the incident that a run builds. The formats of the time package and the
-- verb %.2f of fmt are parameters; `now` is what time.Now answers.
use pgpulse.Common.{
  ℕ, ◌&&◌, Option, none, some, List, [], ◌∷◌, ◌++◌, if◌then◌else◌, ltb, ◌=?◌, last_or, any,
}
use pgpulse.Common.Text.{Text, text, text_eq}
use pgpulse.Common.Float.{Float, decimal}
use pgpulse.Common.Sorting.{Sorting}
use pgpulse.Rca.Ontology.{knowledge_version}
use pgpulse.Rca.Events.{TimelineEvent, TimeWindow, CausalChainResult, Incident, AnalyzeRequest}

pub record IncidentBuilder (F : Type 0) : Type 0 where
  pub req : AnalyzeRequest F
  pub window : TimeWindow
  pub chains : List (CausalChainResult F)
  pub anomaly_mode : Text
  pub metrics_needed : ℕ
  pub metrics_with_data : ℕ

no_summary : Text
no_summary = text "No probable causal chain identified. Manual investigation recommended."

-- What the code formats with.
pub record Formats (F : Type 0) : Type 0 where
  pub fixed2 : F → Text
  pub rfc3339_nano : ℕ → Text
  pub clock : ℕ → Text

module _ {F : Type 0} where
  unfoldable pub first : List (CausalChainResult F) → Option (CausalChainResult F)
  first [] = none
  first (c ∷ cs) = some c

  -- The key under which an event counts as seen.
  unfoldable pub event_key : Formats F → TimelineEvent F → Text
  event_key formats e =
      e.node_id ++ text ":" ++ e.metric_key ++ text ":" ++ formats.rfc3339_nano e.timestamp

  unfoldable pub add_events :
      Formats F
      → List (TimelineEvent F)
      → List Text × List (TimelineEvent F)
      → List Text × List (TimelineEvent F)
  unfolding event_key
  add_events formats [] state = state
  add_events formats (e ∷ es) state = add_events formats es (
      if any (λ k. k =? event_key formats e) state.0
      then state
      else (event_key formats e ∷ state.0, state.1 ++ (e ∷ [])))

  unfoldable pub events_of_chain : Option (CausalChainResult F) → List (TimelineEvent F)
  events_of_chain none = []
  events_of_chain (some chain) = chain.events

  unfoldable pub build_timeline :
      Formats F
      → Sorting
      → Option (CausalChainResult F)
      → Option (CausalChainResult F)
      → List (TimelineEvent F)
  unfolding add_events events_of_chain
  build_timeline formats sorting primary alt =
      sorting.sort_slice (λ a b. ltb a.timestamp b.timestamp)
        (add_events formats (events_of_chain alt)
          (add_events formats (events_of_chain primary) ([], []))).1

module _ {F : Type 0} ⦃f : Float F⦄ where
  -- The second chain, where it scores within a fifth of the first.
  unfoldable pub second : List (CausalChainResult F) → Option (CausalChainResult F)
  second [] = none
  second (c ∷ []) = none
  second (c ∷ d ∷ cs) = if f.le (f.mul c.score (decimal 8 10)) d.score then some d else none

  unfoldable pub bucketize_confidence : F → Text
  bucketize_confidence confidence =
      if f.lt (decimal 7 10) confidence
      then text "high"
      else if f.le (decimal 4 10) confidence
      then text "medium"
      else text "low"

  qualifier : F → Text
  qualifier confidence =
      if f.lt confidence (decimal 4 10)
      then text "Possibly related to"
      else if f.lt (decimal 8 10) confidence
      then text "Strongly consistent with"
      else text "Likely caused by"

  summary_of : Formats F → F → TimelineEvent F → TimelineEvent F → Text
  unfolding qualifier
  summary_of formats confidence root symptom =
      qualifier confidence
      ++ text " "
      ++ root.description
      ++ text ". "
      ++ root.node_name
      ++ text " "
      ++ (if f.lt (f.of_nat 0) root.baseline_val && f.lt root.value root.baseline_val
          then text "dropped to"
          else text "spiked to")
      ++ text " "
      ++ formats.fixed2 root.value
      ++ text " (baseline: "
      ++ formats.fixed2 root.baseline_val
      ++ text ") at "
      ++ formats.clock root.timestamp
      ++ text ", leading to "
      ++ symptom.node_name
      ++ text " (value: "
      ++ formats.fixed2 symptom.value
      ++ text ") at "
      ++ formats.clock symptom.timestamp
      ++ text "."

  summary_of_events : Formats F → F → List (TimelineEvent F) → Text
  unfolding no_summary summary_of
  summary_of_events formats confidence [] = no_summary
  summary_of_events formats confidence (e ∷ es) = summary_of formats confidence e (last_or e es)

  unfoldable pub generate_summary : Formats F → Option (CausalChainResult F) → F → Text
  unfolding no_summary summary_of_events
  generate_summary formats none confidence = no_summary
  generate_summary formats (some chain) confidence =
      summary_of_events formats confidence chain.events

  unfoldable pub confidence_of : Option (CausalChainResult F) → F
  confidence_of none = f.of_nat 0
  confidence_of (some chain) = chain.score

  completeness : ℕ → ℕ → F
  completeness with_data needed =
      if ltb 0 needed then f.div (f.of_nat with_data) (f.of_nat needed) else f.of_nat 0

  unfoldable pub by_score : Sorting → List (CausalChainResult F) → List (CausalChainResult F)
  by_score sorting chains = sorting.sort_slice (λ a b. f.lt b.score a.score) chains

  unfoldable pub build : Formats F → Sorting → ℕ → IncidentBuilder F → Incident F
  unfolding first second completeness
  build formats sorting now b =
      let chains = by_score sorting b.chains in
      let primary = first chains in
      let alt = second chains in
      let confidence = confidence_of primary in
      record {
        id = 0;
        instance_id = b.req.instance_id;
        trigger_metric = b.req.trigger_metric;
        trigger_value = b.req.trigger_value;
        trigger_time = b.req.trigger_time;
        trigger_kind = b.req.trigger_kind;
        analysis_window = b.window;
        primary_chain = primary;
        alternative_chain = alt;
        timeline = build_timeline formats sorting primary alt;
        summary = generate_summary formats primary confidence;
        confidence = confidence;
        confidence_bucket = bucketize_confidence confidence;
        quality = record {
          telemetry_completeness = completeness b.metrics_with_data b.metrics_needed;
          anomaly_source_mode = b.anomaly_mode;
          scope_limitations = text "single-instance only" ∷ [];
          unavailable_deps = [];
        };
        remediation_hooks = [];
        auto_triggered = b.req.trigger_kind =? text "alert";
        chain_version = knowledge_version;
        anomaly_mode = b.anomaly_mode;
        created_at = now;
      }
