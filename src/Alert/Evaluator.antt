-- ===== src/Alert/Evaluator.antt =====
-- internal/alert/evaluator.go. The mutex makes each access of the state one step; rules are loaded
-- and batches evaluated by one goroutine, so a batch is one function of the state. Whether the
-- history store accepts an event is a parameter, and the history is the list of what it accepted.
use pgpulse.Common.{
  ℕ, ◌+◌, ◌*◌, suc, Bool, true, false, not, ◌&&◌, Option, none, some, List, [], ◌∷◌, ◌++◌, map, leb,
  ltb, ◌==◌, if◌then◌else◌, ◌=?◌, keep, any,
}
use pgpulse.Common.Text.{Text, text, text_eq, sort_texts}
use pgpulse.Common.Map.{Map, lookup, insert, get_or}
use pgpulse.Common.Float.{Float}
use pgpulse.Alert.{
  AlertState, state_ok, state_pending, state_firing, Rule, AlertEvent, StateEntry, MetricPoint,
  compare, rule_type_forecast_threshold,
}
pub mod Matching
pub mod Transitions
pub mod Lifecycle
pub mod Forecast
pub mod Batches
pub mod Restart

unfoldable pub state_key : Text → Text → Text
state_key rule_id instance_id = rule_id ++ (b':' ∷ instance_id)

append_labels : Text → Map Text Text → List Text → Text
append_labels key labels [] = key
append_labels key labels (k ∷ ks) =
    append_labels (key ++ (b':' ∷ (k ++ (b'=' ∷ get_or [] k labels)))) labels ks

unfoldable pub state_key_with_labels : Text → Text → Map Text Text → Text
unfolding append_labels
state_key_with_labels rule_id instance_id labels =
    append_labels (rule_id ++ (b':' ∷ instance_id)) labels (sort_texts (map (λ l. l.0) labels))

unfoldable pub labels_match : Map Text Text → Map Text Text → Bool
labels_match [] actual = true
labels_match ((k, v) ∷ required) actual = get_or [] k actual =? v && labels_match required actual

abbrev pub fresh_entry : StateEntry
fresh_entry = record {
  state = state_ok;
  consecutive_count = 0;
  fired_at = 0;
  last_notified_at = 0;
  severity = [];
}

module _ {F : Type 0} where
  index_from :
      Map Text (List (MetricPoint F)) → List (MetricPoint F) → Map Text (List (MetricPoint F))
  index_from index [] = index
  index_from index (p ∷ ps) =
      index_from (insert p.metric (get_or [] p.metric index ++ (p ∷ [])) index) ps

  unfoldable pub index_points : List (MetricPoint F) → Map Text (List (MetricPoint F))
  unfolding index_from
  index_points points = index_from [] points

  unfoldable pub find_matching_points :
      Map Text (List (MetricPoint F)) → Rule F → List (MetricPoint F)
  find_matching_points index rule = elim (lookup rule.metric index) [
    | none ↦ []
    | some candidates ↦ elim rule.labels [
      | [] ↦ candidates
      | l ∷ ls ↦ keep (λ p. labels_match (l ∷ ls) p.labels) candidates
    ]
  ]

  unfoldable pub fire_alert :
      Rule F → MetricPoint F → StateEntry → ℕ → StateEntry × Option (AlertEvent F)
  fire_alert rule pt entry now = (
    record entry { state = state_firing; fired_at = now; last_notified_at = now },
    some record {
      rule_id = rule.id;
      rule_name = rule.name;
      instance_id = pt.instance_id;
      severity = rule.severity;
      value = pt.value;
      threshold = rule.threshold;
      operator = rule.operator;
      metric = rule.metric;
      labels = pt.labels;
      channels = rule.channels;
      fired_at = now;
      resolved_at = none;
      is_resolution = false;
    },
  )

  unfoldable pub resolve_alert :
      Rule F → MetricPoint F → StateEntry → ℕ → StateEntry × Option (AlertEvent F)
  resolve_alert rule pt entry now = (
    record entry { state = state_ok; consecutive_count = 0 },
    some record {
      rule_id = rule.id;
      rule_name = rule.name;
      instance_id = pt.instance_id;
      severity = rule.severity;
      value = pt.value;
      threshold = rule.threshold;
      operator = rule.operator;
      metric = rule.metric;
      labels = pt.labels;
      channels = rule.channels;
      fired_at = entry.fired_at;
      resolved_at = some now;
      is_resolution = true;
    },
  )

  -- The entry after the transition, and the event if there is one.
  unfoldable pub process_transition :
      Rule F → MetricPoint F → StateEntry → Bool → ℕ → StateEntry × Option (AlertEvent F)
  unfolding fire_alert resolve_alert
  process_transition rule pt entry breached now = elim entry.state [
    | state_ok ↦
        if not breached
        then (entry, none)
        else let pending = record entry {
          state = state_pending;
          consecutive_count = 1;
          severity = rule.severity;
        } in
          if leb rule.consecutive_count 1 then fire_alert rule pt pending now else (pending, none)
    | state_pending ↦
        if breached
        then (let counted = record entry { consecutive_count = suc entry.consecutive_count } in
            if leb rule.consecutive_count counted.consecutive_count
            then fire_alert rule pt counted now
            else (counted, none))
        else (record entry { state = state_ok; consecutive_count = 0 }, none)
    | state_firing ↦ if not breached then resolve_alert rule pt entry now else (entry, none)
  ]
