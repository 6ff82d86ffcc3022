-- ===== src/Alert/Evaluator/Batches.antt =====
-- Evaluate of internal/alert/evaluator.go. The logger, the contexts and the periodic cleanup are left
-- out.
use pgpulse.Common.{
  ℕ, Option, none, some, List, [], ◌∷◌, ◌++◌, leb, Bool, true, if◌then◌else◌, false, ◌||◌,
}
use pgpulse.Common.Text.{Text, text_eq}
use pgpulse.Common.Map.{Map}
use pgpulse.Alert.{state_firing, Rule, AlertEvent, StateEntry, MetricPoint, compare}
use pgpulse.Common.Float.{Float}
use pgpulse.Alert.Evaluator.{
  state_key_with_labels, fresh_entry, index_points, find_matching_points, process_transition,
  get_or, insert,
}
use pgpulse.Alert.Evaluator.Lifecycle.{Evaluator, unique_instances}
use pgpulse.Alert.Evaluator.Forecast.{run_forecast_alerts}
pub mod Visits

is_empty : {A : Type 0} → List A → Bool
is_empty [] = true
is_empty (_ ∷ _) = false

module _ {F : Type 0} ⦃f : Float F⦄ (accepts : AlertEvent F → Bool) where
  -- What becomes of a transition's event. One that the store refuses is dropped.
  unfoldable pub record_event :
      Option (AlertEvent F) → Evaluator F × List (AlertEvent F) → Evaluator F × List (AlertEvent F)
  record_event none r = r
  record_event (some event) (e, events) =
      if accepts event
      then (record e { history = e.history ++ (event ∷ []) }, events ++ (event ∷ []))
      else (e, events)

  unfoldable pub evaluate_point :
      Rule F
      → ℕ
      → MetricPoint F
      → Evaluator F × List (AlertEvent F)
      → Evaluator F × List (AlertEvent F)
  unfolding record_event
  evaluate_point rule now pt (e, events) =
      let key = state_key_with_labels rule.id pt.instance_id rule.labels in
      let breached = compare rule.operator pt.value rule.threshold in
      let moved = process_transition rule pt (get_or fresh_entry key e.state) breached now in
      record_event moved.1 (record e { state = insert key moved.0 e.state }, events)

  unfoldable pub evaluate_points :
      Rule F
      → ℕ
      → List (MetricPoint F)
      → Evaluator F × List (AlertEvent F)
      → Evaluator F × List (AlertEvent F)
  unfolding evaluate_point
  evaluate_points rule now [] r = r
  evaluate_points rule now (p ∷ ps) r = evaluate_points rule now ps (evaluate_point rule now p r)

  unfoldable pub evaluate_rules :
      List (Rule F)
      → Map Text (List (MetricPoint F))
      → ℕ
      → Evaluator F × List (AlertEvent F)
      → Evaluator F × List (AlertEvent F)
  evaluate_rules [] index now r = r
  evaluate_rules (rule ∷ rules) index now r =
      evaluate_rules rules index now (evaluate_points rule now (find_matching_points index rule) r)

  run_forecasts : (Text → ℕ) → List Text → Evaluator F → Evaluator F
  run_forecasts forecast_now [] e = e
  run_forecasts forecast_now (i ∷ is) e =
      run_forecasts forecast_now is (run_forecast_alerts accepts i (forecast_now i) e)

  -- The state afterwards and the events answered. `forecast_now` is the time at which the forecasts
  -- of an instance are looked at.
  unfoldable pub evaluate :
      ℕ → (Text → ℕ) → List (MetricPoint F) → Evaluator F → Evaluator F × List (AlertEvent F)
  unfolding run_forecasts is_empty
  evaluate now forecast_now points e =
      if is_empty e.rules || is_empty points
      then (e, [])
      else let done = evaluate_rules e.rules (index_points points) now (e, []) in
        (run_forecasts forecast_now (unique_instances points) done.0, done.1)
