-- ===== src/Playbook/Runs.antt =====
-- The rows of a run and its steps, and the statements of internal/playbook/pgstore.go that change them,
-- each of which is atomic. A statement that fails leaves the rows as they are.
use pgpulse.Common.{
  ℕ, Bool, true, false, not, ◌&&◌, ◌||◌, Option, none, some, List, [], ◌∷◌, ◌==◌, if◌then◌else◌,
  ◌=?◌, any, map,
}
use pgpulse.Common.Text.{Text, text, text_eq}
use pgpulse.Common.Float.{Float}
use pgpulse.Auth.Rbac.{has_permission, instance_management}
use pgpulse.Auth.Tokens.{Claims}
use pgpulse.Playbook.{
  Step, Run, RunStep, Row, tier_diagnostic, tier_remediate, tier_dangerous, tier_external,
}
use pgpulse.Playbook.Interpreter.{interpret, evaluate_branch}
use pgpulse.Playbook.Executor.{ExecutionResult}
pub mod Handlers
pub mod Rows
pub mod Locking
pub mod Execution

abbrev pub pending : Text
pending = text "pending"

abbrev pub running : Text
running = text "running"

abbrev pub completed : Text
completed = text "completed"

abbrev pub failed : Text
failed = text "failed"

abbrev pub skipped : Text
skipped = text "skipped"

abbrev pub abandoned : Text
abandoned = text "abandoned"

abbrev pub in_progress : Text
in_progress = text "in_progress"

abbrev pub awaiting_confirmation : Text
awaiting_confirmation = text "awaiting_confirmation"

abbrev pub pending_approval : Text
pending_approval = text "pending_approval"

pub record Store : Type 0 where
  pub run : Run
  pub steps : List RunStep

-- `status IN ('pending', 'awaiting_confirmation', 'pending_approval')`
unfoldable pub executable : Text → Bool
executable status =
    status =? pending || status =? awaiting_confirmation || status =? pending_approval

unfoldable pub update_rows : (RunStep → RunStep) → ℕ → List RunStep → List RunStep
update_rows change step_order [] = []
update_rows change step_order (s ∷ ss) =
    (if s.step_order == step_order then change s else s) ∷ update_rows change step_order ss

unfoldable pub update_run_step : RunStep → Store → Store
unfolding update_rows
update_run_step step s = record s { steps = update_rows (λ old. step) step.step_order s.steps }

-- The columns that the statement sets; the feedback stays.
unfoldable pub update_run : Run → Store → Store
update_run run s = record s {
  run = record s.run {
    status = run.status;
    current_step_order = run.current_step_order;
    completed_at = run.completed_at;
  };
}

-- The store afterwards, and whether a row was locked.
unfoldable pub lock_step_for_execution : ℕ → Store → Store × Bool
unfolding update_rows
lock_step_for_execution step_order s = (
  record s {
    steps =
        update_rows (λ r. if executable r.status then record r { status = running } else r)
          step_order s.steps;
  },
  any (λ r. r.step_order == step_order && executable r.status) s.steps,
)

unfoldable pub reset_step_for_retry : ℕ → Store → Store
unfolding update_rows
reset_step_for_retry step_order s = record s {
  steps =
      update_rows (λ r. if r.status =? failed then record r { status = pending; error = [] } else r)
        step_order s.steps;
}

unfoldable pub request_step_approval : ℕ → Store → Store
unfolding update_rows
request_step_approval step_order s = record s {
  steps =
      update_rows
        (λ r.
          if r.status =? pending || r.status =? awaiting_confirmation
          then record r { status = pending_approval }
          else r)
        step_order s.steps;
}

unfoldable pub update_feedback : Option Bool → Option Bool → Text → Store → Store
update_feedback useful resolved notes s = record s {
  run = record s.run {
    feedback_useful = useful;
    feedback_resolved = resolved;
    feedback_notes = notes;
  };
}

unfoldable pub blank_step : ℕ → Text → Option ℕ → RunStep
blank_step step_order status executed_at = record {
  step_order = step_order;
  status = status;
  sql_executed = [];
  result_verdict = [];
  error = [];
  executed_at = executed_at;
  confirmed_by = [];
}
