-- ===== src/Alert/Evaluator/Lifecycle.antt =====
-- The evaluator's state, and the operations of internal/alert/evaluator.go outside a batch.
use pgpulse.Common.{ℕ, Option, none, some, List, [], ◌∷◌, if◌then◌else◌, ◌=?◌}
use pgpulse.Common.Text.{Text, text_eq}
use pgpulse.Common.Map.{Map}
use pgpulse.Alert.{state_firing, Rule, AlertEvent, StateEntry, MetricPoint}
use pgpulse.Alert.Evaluator.{state_key, insert, any}

pub record ForecastPoint (F : Type 0) : Type 0 where
  pub value : F
  pub lower : F

-- `none` for no provider; a provider that answers `none` reports an error.
abbrev pub ForecastProvider : Type 0 → Type 0
ForecastProvider F = Option (Text → Text → ℕ → Option (List (ForecastPoint F)))

-- `history` holds the events that the store accepted.
pub record Evaluator (F : Type 0) : Type 0 where
  pub rules : List (Rule F)
  pub state : Map Text StateEntry
  pub history : List (AlertEvent F)
  pub forecast_provider : ForecastProvider F
  pub forecast_min_consecutive : ℕ
  pub forecast_cooldown : Map Text ℕ

abbrev pub minute : ℕ
minute = 60_000_000_000

module _ {F : Type 0} where
  unfoldable pub new_evaluator : Evaluator F
  new_evaluator = record {
    rules = [];
    state = [];
    history = [];
    forecast_provider = none;
    forecast_min_consecutive = 0;
    forecast_cooldown = [];
  }

  -- `none` where the store fails.
  unfoldable pub load_rules : Option (List (Rule F)) → Evaluator F → Evaluator F
  load_rules none e = e
  load_rules (some rules) e = record e { rules = rules }

  unfoldable pub set_forecast_provider : ForecastProvider F → ℕ → Evaluator F → Evaluator F
  set_forecast_provider provider min_consecutive e = record e {
    forecast_provider = provider;
    forecast_min_consecutive = min_consecutive;
  }

  unfoldable pub restored_entry : AlertEvent F → StateEntry
  restored_entry event = record {
    state = state_firing;
    consecutive_count = 0;
    fired_at = event.fired_at;
    last_notified_at = event.fired_at;
    severity = event.severity;
  }

  -- The argument is what `ListUnresolved` answers.
  unfoldable pub restore_state : List (AlertEvent F) → Evaluator F → Evaluator F
  unfolding restored_entry
  restore_state [] e = e
  restore_state (event ∷ events) e = restore_state events (record e {
    state = insert (state_key event.rule_id event.instance_id) (restored_entry event) e.state;
  })

  unique_from : List Text → List (MetricPoint F) → List Text
  unique_from seen [] = []
  unique_from seen (p ∷ ps) =
      if any (λ s. s =? p.instance_id) seen
      then unique_from seen ps
      else p.instance_id ∷ unique_from (p.instance_id ∷ seen) ps

  unfoldable pub unique_instances : List (MetricPoint F) → List Text
  unfolding unique_from
  unique_instances points = unique_from [] points
