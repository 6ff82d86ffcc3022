-- ===== src/Alert/Samples.antt =====
-- Tests of internal/alert, and the theorems at concrete inputs. A value is a natural number.
use pgpulse.Common.{
  ℕ, suc, ◌≤◌, ◌≡◌, refl, Bool, true, false, none, some, List, [], ◌∷◌, ◌++◌, arith, if◌then◌else◌,
  any, length, ◌==◌,
}
use pgpulse.Common.Text.{Text, text, text_eq, text_beq}
use pgpulse.Common.Map.{get_or, lookup, insert}
use pgpulse.Common.Float.{Sample, sample_float}
use pgpulse.Alert.{Rule, AlertEvent, MetricPoint, op_greater, severity_warning}
use pgpulse.Alert.Evaluator.{
  find_matching_points, index_points, labels_match, state_key_with_labels, fresh_entry, state_key,
}
use pgpulse.Alert.Evaluator.Matching.{find_matching_points-index_points, Selects, Concerns}
use pgpulse.Alert.Evaluator.Transitions.{
  Reading, reached_at, after, event, spec_state, spec_event, transitions_correct,
}
use pgpulse.Alert.Evaluator.Lifecycle.{Evaluator, restore_state}
use pgpulse.Alert.Evaluator.Restart.{latest, firing_since, restore_state_lem}
use pgpulse.Alert.Dispatcher.{
  Dispatcher, process_event, is_cooling_down, resolve_channels, send_with_retry, max_attempts,
  default_buffer_size,
}
use pgpulse.Alert.Dispatcher.Delivery.{from, send_with_retry_lem, process_event_cools}
use pgpulse.Alert.Dispatcher.Queue.{Step, dispatched, ran, traces, traces-Ordered}

abbrev metric : Text
metric = text "m"

abbrev busy : Rule Sample
busy = record {
  id = text "r";
  name = text "busy";
  metric = metric;
  operator = op_greater;
  threshold = some 5;
  severity = severity_warning;
  labels = [];
  consecutive_count = 2;
  cooldown_minutes = 0;
  channels = [];
  rule_type = [];
  use_lower_bound = false;
  consecutive_points_required = 0;
}

abbrev labelled : Rule Sample
labelled = record busy { labels = (text "db", text "a") ∷ [] }

abbrev point : ℕ → MetricPoint Sample
point v = record { instance_id = text "i"; metric = metric; value = some v; labels = [] }

abbrev reading : ℕ → Bool → ℕ → Reading Sample
reading v breached now = record { point = point v; breached = breached; now = now }

abbrev tagged : Text → MetricPoint Sample
tagged db = record (point 9) { labels = (text "db", db) ∷ [] }

abbrev batch : List (MetricPoint Sample)
batch = point 9 ∷ tagged (text "a") ∷ tagged (text "b") ∷ tagged (text "a") ∷ []

finds_tagged :
    find_matching_points (index_points batch) labelled ≡ tagged (text "a") ∷ tagged (text "a") ∷ []
unfolding find_matching_points index_points labels_match get_or lookup insert text text_beq
finds_tagged = refl

find_matching_points-index_points_example :
    Selects (Concerns labelled) batch (find_matching_points (index_points batch) labelled)
find_matching_points-index_points_example = find_matching_points-index_points batch labelled

abbrev before : List (Reading Sample)
before = reading 8 true 20 ∷ reading 7 true 10 ∷ reading 1 false 5 ∷ []

fires_at_second : reached_at 2 before ≡ 20
fires_at_second = refl

transitions_correct_example :
    ((after busy (reading 2 false 30 ∷ before)).state ≡ spec_state busy 0)
    × (event busy (reading 2 false 30) before ≡ spec_event busy (reading 2 false 30) before)
transitions_correct_example = transitions_correct busy (reading 2 false 30) before

abbrev accept_all : AlertEvent Sample → Bool
accept_all v = true

abbrev loaded : Evaluator Sample
loaded = record {
  rules = busy ∷ [];
  state = [];
  history = [];
  forecast_provider = none;
  forecast_min_consecutive = 0;
  forecast_cooldown = [];
}

abbrev key : Text
key = text "r:i"

abbrev fired : AlertEvent Sample
fired = record {
  rule_id = text "r";
  rule_name = text "busy";
  instance_id = text "i";
  severity = severity_warning;
  value = some 9;
  threshold = some 5;
  operator = op_greater;
  metric = metric;
  labels = [];
  channels = text "email" ∷ [];
  fired_at = 20;
  resolved_at = none;
  is_resolution = false;
}

abbrev elsewhere : AlertEvent Sample
elsewhere = record fired { instance_id = text "j"; fired_at = 77 }

abbrev unresolved : List (AlertEvent Sample)
unresolved = fired ∷ elsewhere ∷ []

-- A restart brings the rule back on the event's own instance.
brings_back :
    get_or fresh_entry (text "r:i") (restore_state unresolved loaded).state ≡ firing_since fired
unfolding restore_state state_key get_or lookup insert text text_beq
brings_back = refl

restore_state_lem_example :
    let at = state_key_with_labels busy.id (text "i") busy.labels in
    let old = get_or fresh_entry at loaded.state in
    get_or fresh_entry at (restore_state unresolved loaded).state
    ≡ (if length busy.labels == 0 then latest busy.id (text "i") old unresolved else old)
unfolding text
restore_state_lem_example =
    restore_state_lem busy (text "i") unresolved loaded (λ e. ground (arith, e), tt)
      (λ e. ground (arith, e), tt)
      (
        ((λ e. ground (arith, e), tt), (λ e. ground (arith, e), tt)),
        (((λ e. ground (arith, e), tt), (λ e. ground (arith, e), tt)), tt),
      )

abbrev second_works : ℕ → Bool
second_works attempt = attempt == 1

send_with_retry_lem_example :
    let a = send_with_retry second_works (text "email") 3 in
    (a.sent ≡ any second_works (from 0 (max_attempts 3)))
    × (failed : ℕ) × (a.attempts ≡ suc failed)
    × (suc failed ≤ max_attempts 3)
    × (any second_works (from 0 failed) ≡ false)
    × (second_works failed ≡ a.sent)
send_with_retry_lem_example = send_with_retry_lem second_works (text "email") 3

abbrev idle : Dispatcher Sample
idle = record {
  notifiers = text "email" ∷ [];
  default_channels = [];
  cooldown_minutes = 15;
  retries = 3;
  events = [];
  cooldowns = [];
}

process_event_cools_example :
    let d = (process_event (λ c. second_works) 100 200 fired idle).0 in
    process_event (λ c. second_works) 300 400 fired d
    ≡ (d, record { attempted = []; hooked = false })
unfolding is_cooling_down resolve_channels lookup
process_event_cools_example =
    process_event_cools (λ c. second_works) (λ c. second_works) 100 200 300 400 fired fired idle
      refl refl refl (λ e. ground (arith, e)) refl (omega arith) (omega arith)

abbrev steps : List (Step Sample)
steps = dispatched fired ∷ ran (λ c. second_works) 1 2 ∷ dispatched fired ∷ []

traces-Ordered_example :
    let t = traces steps (record { dispatcher = idle; accepted = []; taken = [] }) in
    (t.accepted ≡ t.taken ++ t.dispatcher.events)
    × (length t.dispatcher.events ≤ default_buffer_size)
traces-Ordered_example = traces-Ordered steps idle refl
