-- ===== src/Alert.antt =====
-- internal/alert: the rules and events of alert.go; in the children, the evaluator and the
-- dispatcher. Severities, operators and rule types are strings in the source and here. A time is a
-- number of nanoseconds, with 0 for the zero time, and counts that the source compares with 0 or 1
-- as signed integers are natural numbers. Of rules and events, the fields that no modelled code reads
-- are left out (a rule's description, source and flag, an event's number).
use pgpulse.Common.{ℕ, Bool, false, not, Option, List, if◌then◌else◌, ◌=?◌}
use pgpulse.Common.Text.{Text, text, text_eq}
use pgpulse.Common.Map.{Map}
use pgpulse.Common.Float.{Float}
pub mod Evaluator
pub mod Dispatcher
mod Samples

abbrev pub severity_info : Text
severity_info = text "info"

abbrev pub severity_warning : Text
severity_warning = text "warning"

abbrev pub severity_critical : Text
severity_critical = text "critical"

unfoldable pub severity_level : Text → ℕ
severity_level s =
    if s =? severity_info
    then 1
    else if s =? severity_warning
    then 2
    else if s =? severity_critical
    then 3
    else 0

abbrev pub op_greater : Text
op_greater = text ">"

abbrev pub op_greater_equal : Text
op_greater_equal = text ">="

abbrev pub op_less : Text
op_less = text "<"

abbrev pub op_less_equal : Text
op_less_equal = text "<="

abbrev pub op_equal : Text
op_equal = text "=="

abbrev pub op_not_equal : Text
op_not_equal = text "!="

unfoldable pub compare : {F : Type 0} ⦃f : Float F⦄ → Text → F → F → Bool
compare ⦃f⦄ op value threshold =
    if op =? op_greater
    then f.lt threshold value
    else if op =? op_greater_equal
    then f.le threshold value
    else if op =? op_less
    then f.lt value threshold
    else if op =? op_less_equal
    then f.le value threshold
    else if op =? op_equal
    then f.eq value threshold
    else if op =? op_not_equal
    then not (f.eq value threshold)
    else false

pub data AlertState : Type 0 where
  state_ok : AlertState
  state_pending : AlertState
  state_firing : AlertState

abbrev pub rule_type_forecast_threshold : Text
rule_type_forecast_threshold = text "forecast_threshold"

pub record Rule (F : Type 0) : Type 0 where
  pub id : Text
  pub name : Text
  pub metric : Text
  pub operator : Text
  pub threshold : F
  pub severity : Text
  pub labels : Map Text Text
  pub consecutive_count : ℕ
  pub cooldown_minutes : ℕ
  pub channels : List Text
  pub rule_type : Text
  pub use_lower_bound : Bool
  pub consecutive_points_required : ℕ

-- The recommendations are the dispatcher's and stand beside the event there.
pub record AlertEvent (F : Type 0) : Type 0 where
  pub rule_id : Text
  pub rule_name : Text
  pub instance_id : Text
  pub severity : Text
  pub value : F
  pub threshold : F
  pub operator : Text
  pub metric : Text
  pub labels : Map Text Text
  pub channels : List Text
  pub fired_at : ℕ
  pub resolved_at : Option ℕ
  pub is_resolution : Bool

pub record StateEntry : Type 0 where
  pub state : AlertState
  pub consecutive_count : ℕ
  pub fired_at : ℕ
  pub last_notified_at : ℕ
  pub severity : Text

-- collector.MetricPoint
pub record MetricPoint (F : Type 0) : Type 0 where
  pub instance_id : Text
  pub metric : Text
  pub value : F
  pub labels : Map Text Text
