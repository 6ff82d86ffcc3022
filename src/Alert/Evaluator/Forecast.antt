-- ===== src/Alert/Evaluator/Forecast.antt =====
-- runForecastAlerts of internal/alert/evaluator.go, for one instance. The clock is read once.
use pgpulse.Common.{
  ℕ, Option, none, some, List, [], ◌∷◌, ◌++◌, Bool, false, ◌+◌, if◌then◌else◌, suc, ◌==◌, ltb, ◌=?◌,
  ◌&&◌, ◌*◌, leb,
}
use pgpulse.Common.Text.{Text, text_eq}
use pgpulse.Common.Map.{Map, lookup, insert}
use pgpulse.Alert.{
  state_firing, Rule, AlertEvent, StateEntry, MetricPoint, compare, text,
  rule_type_forecast_threshold,
}
use pgpulse.Common.Float.{Float}
use pgpulse.Alert.Evaluator.Lifecycle.{Evaluator, ForecastPoint, minute}
pub mod Frame
pub mod Cooldown

module _ {F : Type 0} ⦃f : Float F⦄ where
  forecast_value : Rule F → ForecastPoint F → F
  forecast_value rule pt = if rule.use_lower_bound then pt.lower else pt.value

  -- The value at which the run of breaching forecasts is long enough.
  unfoldable pub forecast_run : Rule F → ℕ → ℕ → List (ForecastPoint F) → Option F
  unfolding forecast_value
  forecast_run rule required consecutive [] = none
  forecast_run rule required consecutive (pt ∷ pts) =
      let breached = compare rule.operator (forecast_value rule pt) rule.threshold in
      let next = if breached then suc consecutive else 0 in
      let rest = forecast_run rule required next pts in
      if breached && leb required next then some (forecast_value rule pt) else rest

module _ {F : Type 0} where
  unfoldable pub forecast_event : Rule F → Text → F → ℕ → AlertEvent F
  forecast_event rule instance_id value now = record {
    rule_id = rule.id;
    rule_name = rule.name;
    instance_id = instance_id;
    severity = rule.severity;
    value = value;
    threshold = rule.threshold;
    operator = rule.operator;
    metric = rule.metric;
    labels = [];
    channels = rule.channels;
    fired_at = now;
    resolved_at = none;
    is_resolution = false;
  }

  unfoldable pub cooldown_key : Text → Rule F → Text
  cooldown_key instance_id rule =
      text "forecast:" ++ (instance_id ++ (b':' ∷ (rule.metric ++ (b':' ∷ rule.id))))

  abbrev pub cooldown_length : Rule F → ℕ
  cooldown_length rule =
      if rule.cooldown_minutes == 0 then 15 * minute else rule.cooldown_minutes * minute

  abbrev pub required_points : Rule F → Evaluator F → ℕ
  required_points rule e =
      if rule.consecutive_points_required == 0
      then e.forecast_min_consecutive
      else rule.consecutive_points_required

  -- `if expiry, ok := e.forecastCooldown[cooldownKey]; ok && now.Before(expiry)`
  unfoldable pub cooling_down : Text → Rule F → ℕ → Evaluator F → Bool
  cooling_down instance_id rule now e =
      elim (lookup (cooldown_key instance_id rule) e.forecast_cooldown) [
        | none ↦ false
        | some expiry ↦ ltb now expiry
      ]

module _ {F : Type 0} ⦃f : Float F⦄ (accepts : AlertEvent F → Bool) where
  -- Fires, whatever the history store answers, and starts the cooldown.
  unfoldable pub raise_forecast : Rule F → Text → ℕ → Option F → Evaluator F → Evaluator F
  raise_forecast rule instance_id now none e = e
  raise_forecast rule instance_id now (some value) e =
      let event = forecast_event rule instance_id value now in
      record e {
        history = e.history ++ (if accepts event then event ∷ [] else []);
        forecast_cooldown =
            insert (cooldown_key instance_id rule) (now + cooldown_length rule) e.forecast_cooldown;
      }

  -- The second argument is what the provider answers.
  unfoldable pub look_ahead :
      Rule F → Option (List (ForecastPoint F)) → Text → ℕ → Evaluator F → Evaluator F
  unfolding raise_forecast
  look_ahead rule none instance_id now e = e
  look_ahead rule (some points) instance_id now e =
      if cooling_down instance_id rule now e
      then e
      else raise_forecast rule instance_id now (forecast_run rule (required_points rule e) 0 points)
          e

  unfoldable pub run_forecast_rule :
      (Text → Text → ℕ → Option (List (ForecastPoint F)))
      → Text
      → ℕ
      → Rule F
      → Evaluator F
      → Evaluator F
  unfolding look_ahead
  run_forecast_rule provider instance_id now rule e =
      if rule.rule_type =? rule_type_forecast_threshold
      then look_ahead rule (provider instance_id rule.metric (required_points rule e + 4))
          instance_id now e
      else e

  run_forecast_rules :
      (Text → Text → ℕ → Option (List (ForecastPoint F)))
      → Text
      → ℕ
      → List (Rule F)
      → Evaluator F
      → Evaluator F
  run_forecast_rules provider instance_id now [] e = e
  run_forecast_rules provider instance_id now (rule ∷ rules) e =
      run_forecast_rules provider instance_id now rules
        (run_forecast_rule provider instance_id now rule e)

  unfoldable pub run_forecast_alerts : Text → ℕ → Evaluator F → Evaluator F
  unfolding run_forecast_rules
  run_forecast_alerts instance_id now e = elim e.forecast_provider [
    | none ↦ e
    | some provider ↦ run_forecast_rules provider instance_id now e.rules e
  ]
