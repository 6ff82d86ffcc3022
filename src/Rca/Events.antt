-- ===== src/Rca/Events.antt =====
-- The data of internal/rca: anomaly.go, incident.go, settings.go and config.go. Instants and durations
-- are in nanoseconds; an instant lies further from 0 than the durations that are taken from it.
use pgpulse.Common.{ℕ, Bool, List, Option}
use pgpulse.Common.Text.{Text}

pub record AnomalyEvent (F : Type 0) : Type 0 where
  pub instance_id : Text
  pub metric_key : Text
  pub timestamp : ℕ
  pub value : F
  pub baseline_val : F
  pub z_score : F
  pub rate_change : F
  pub strength : F
  pub source : Text

pub record TimelineEvent (F : Type 0) : Type 0 where
  pub timestamp : ℕ
  pub node_id : Text
  pub node_name : Text
  pub metric_key : Text
  pub value : F
  pub baseline_val : F
  pub z_score : F
  pub strength : F
  pub layer : Text
  pub role : Text
  pub evidence : Text
  pub description : Text
  pub edge_desc : Text

pub record TimeWindow : Type 0 where
  pub from : ℕ
  pub to : ℕ

pub record CausalChainResult (F : Type 0) : Type 0 where
  pub chain_id : Text
  pub chain_name : Text
  pub score : F
  pub root_cause_key : Text
  pub events : List (TimelineEvent F)

pub record QualityStatus (F : Type 0) : Type 0 where
  pub telemetry_completeness : F
  pub anomaly_source_mode : Text
  pub scope_limitations : List Text
  pub unavailable_deps : List Text

-- The fields of the review, which nothing in internal/rca sets, are left out.
pub record Incident (F : Type 0) : Type 0 where
  pub id : ℕ
  pub instance_id : Text
  pub trigger_metric : Text
  pub trigger_value : F
  pub trigger_time : ℕ
  pub trigger_kind : Text
  pub analysis_window : TimeWindow
  pub primary_chain : Option (CausalChainResult F)
  pub alternative_chain : Option (CausalChainResult F)
  pub timeline : List (TimelineEvent F)
  pub summary : Text
  pub confidence : F
  pub confidence_bucket : Text
  pub quality : QualityStatus F
  pub remediation_hooks : List Text
  pub auto_triggered : Bool
  pub chain_version : Text
  pub anomaly_mode : Text
  pub created_at : ℕ

pub record SettingChange : Type 0 where
  pub name : Text
  pub old_value : Text
  pub new_value : Text
  pub changed_at : ℕ

-- The fields that the engine and its trigger read.
pub record RcaConfig (F : Type 0) : Type 0 where
  pub lookback_window : ℕ
  pub auto_trigger_severity : Text
  pub max_traversal_depth : ℕ
  pub max_candidate_chains : ℕ
  pub max_metrics_per_run : ℕ
  pub min_chain_score : F
  pub deferred_forward_tail : ℕ
  pub remediation_hooks_enabled : Bool

pub record AnalyzeRequest (F : Type 0) : Type 0 where
  pub instance_id : Text
  pub trigger_metric : Text
  pub trigger_value : F
  pub trigger_time : ℕ
  pub window_minutes : ℕ
  pub trigger_kind : Text
