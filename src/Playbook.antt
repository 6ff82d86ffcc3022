-- ===== src/Playbook.antt =====
-- internal/playbook and the run endpoints of internal/api/playbooks.go. A value of a result's column
-- is null, a number or a text, and one of another kind is the text that it prints as; Go's parser of
-- numbers is a parameter where a text is read as one. Fields that no modelled code reads are left out.
use pgpulse.Common.{ℕ, Bool, Option, List}
use pgpulse.Common.Text.{Text, text}
use pgpulse.Common.Map.{Map}
pub mod Interpreter
pub mod Resolver
pub mod Executor
pub mod Runs
mod Samples

abbrev pub tier_diagnostic : Text
tier_diagnostic = text "diagnostic"

abbrev pub tier_remediate : Text
tier_remediate = text "remediate"

abbrev pub tier_dangerous : Text
tier_dangerous = text "dangerous"

abbrev pub tier_external : Text
tier_external = text "external"

pub data Value (F : Type 0) : Type 0 where
  null : Value F
  number : F → Value F
  string : Text → Value F

abbrev pub Row : Type 0 → Type 0
Row F = List (Value F)

pub record InterpretationRule (F : Type 0) : Type 0 where
  pub column : Text
  pub operator : Text
  pub value : Value F
  pub verdict : Text
  pub message : Text

pub record RowCountRule (F : Type 0) : Type 0 where
  pub operator : Text
  pub value : Value F
  pub verdict : Text
  pub message : Text

pub record InterpretationSpec (F : Type 0) : Type 0 where
  pub rules : List (InterpretationRule F)
  pub row_count_rules : List (RowCountRule F)
  pub default_verdict : Text
  pub default_message : Text

pub record BranchCondition (F : Type 0) : Type 0 where
  pub column : Text
  pub operator : Text
  pub value : Value F
  pub verdict : Text

pub record BranchRule (F : Type 0) : Type 0 where
  pub condition : BranchCondition F
  pub goto_step : ℕ

pub record Step (F : Type 0) : Type 0 where
  pub step_order : ℕ
  pub sql_template : Text
  pub safety_tier : Text
  pub timeout_seconds : ℕ
  pub result_interpretation : InterpretationSpec F
  pub branch_rules : List (BranchRule F)
  pub next_step_default : Option ℕ

-- The fields of a run that its life changes.
pub record Run : Type 0 where
  pub status : Text
  pub current_step_order : ℕ
  pub trigger_source : Text
  pub trigger_id : Text
  pub completed_at : Option ℕ
  pub feedback_useful : Option Bool
  pub feedback_resolved : Option Bool
  pub feedback_notes : Text

pub record RunStep : Type 0 where
  pub step_order : ℕ
  pub status : Text
  pub sql_executed : Text
  pub result_verdict : Text
  pub error : Text
  pub executed_at : Option ℕ
  pub confirmed_by : Text
