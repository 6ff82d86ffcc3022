-- ===== src/Playbook/Runs/Handlers.antt =====
-- The endpoints of internal/api/playbooks.go that read or change a run. Executing a step takes two
-- steps of the model, up to the lock and from the answer of the database on, so that other requests
-- can come between; the second goes on with the run as the first read it. What the first reads before
-- the lock it reads at the instant of the lock. Which writes of the second half fail is an argument,
-- since the source goes on after them. The other handlers here write with one statement, and where it
-- fails they do nothing, as if they were not called; only `handle_abandon_run` has two, which are
-- taken to work.
use pgpulse.Common.{
  ℕ, Bool, false, Option, none, some, List, [], ◌∷◌, ◌==◌, if◌then◌else◌, ◌=?◌, map,
}
use pgpulse.Common.Text.{Text, text, text_eq}
use pgpulse.Common.Float.{Float}
use pgpulse.Auth.Rbac.{has_permission, instance_management}
use pgpulse.Auth.Tokens.{Claims}
use pgpulse.Playbook.{
  Step, Run, RunStep, tier_diagnostic, tier_remediate, tier_dangerous, tier_external,
}
use pgpulse.Playbook.Interpreter.{interpret, evaluate_branch}
use pgpulse.Playbook.Executor.{ExecutionResult}
use pgpulse.Playbook.Runs.{
  Store, pending, completed, failed, skipped, abandoned, in_progress, update_run_step, update_run,
  lock_step_for_execution, reset_step_for_retry, request_step_approval, update_feedback, blank_step,
}

-- What a request to execute a step is answered, or that the step is locked and its SQL is sent.
pub data Begun (F : Type 0) : Type 0 where
  step_not_found : Begun F
  asks_confirmation : Begun F
  asks_approval : Begun F
  manual_action : Begun F
  conflict : Begun F
  executing : Step F → Run → Begun F

-- The writes after an execution: of the step's row, and of the run's.
pub data Write : Type 0 where
  step_row : Write
  run_row : Write

-- What a write makes of the store, if it works; its error is ignored.
abbrev pub try_save : (Write → Bool) → Write → (Store → Store) → Store → Store
try_save saves w change s = if saves w then change s else s

unfoldable pub may_manage : Option Claims → Bool
may_manage none = false
may_manage (some c) = has_permission c.role instance_management

unfoldable pub username : Option Claims → Text
username none = text "anonymous"
username (some c) = c.username

module _ {F : Type 0} where
  unfoldable pub handle_start_run : List (Step F) → Text → Text → Store
  unfolding blank_step
  handle_start_run steps trigger_source trigger_id = record {
    run = record {
      status = in_progress;
      current_step_order = 1;
      trigger_source = trigger_source;
      trigger_id = trigger_id;
      completed_at = none;
      feedback_useful = none;
      feedback_resolved = none;
      feedback_notes = [];
    };
    steps = map (λ step. blank_step step.step_order pending none) steps;
  }

  unfoldable pub find_step : ℕ → List (Step F) → Option (Step F)
  find_step step_order [] = none
  find_step step_order (s ∷ ss) =
      if s.step_order == step_order then some s else find_step step_order ss

  unfoldable pub lock : Step F → Store → Store × Begun F
  lock step s =
      let (s', locked) = lock_step_for_execution step.step_order s in
      (s', if locked then executing step s.run else conflict)

  unfoldable pub begin_step : Option Claims → Bool → ℕ → Step F → Store → Store × Begun F
  unfolding lock blank_step may_manage
  begin_step claims confirmed now step s =
      if step.safety_tier =? tier_diagnostic
      then lock step s
      else if step.safety_tier =? tier_remediate
      then (if confirmed then lock step s else (s, asks_confirmation))
      else if step.safety_tier =? tier_dangerous
      then (if may_manage claims then lock step s else (s, asks_approval))
      else if step.safety_tier =? tier_external
      then (update_run_step (blank_step step.step_order completed (some now)) s, manual_action)
      else lock step s

  unfoldable pub begin_found : Option Claims → Bool → ℕ → Option (Step F) → Store → Store × Begun F
  unfolding begin_step
  begin_found claims confirmed now none s = (s, step_not_found)
  begin_found claims confirmed now (some step) s = begin_step claims confirmed now step s

  -- handleExecuteStep up to the lock. The playbook's steps are what the store has of it.
  unfoldable pub begin_execute_step :
      List (Step F) → Option Claims → Bool → ℕ → ℕ → Store → Store × Begun F
  unfolding find_step begin_found
  begin_execute_step steps claims confirmed now step_order s =
      begin_found claims confirmed now (find_step step_order steps) s

module _ {F : Type 0} ⦃f : Float F⦄ (parse_float : Text → F) where
  unfoldable pub executed_step : Option Claims → ℕ → Step F → Text → RunStep
  executed_step claims now step verdict = record {
    step_order = step.step_order;
    status = completed;
    sql_executed = step.sql_template;
    result_verdict = verdict;
    error = [];
    executed_at = some now;
    confirmed_by = username claims;
  }

  unfoldable pub failed_step : ℕ → Step F → Text → RunStep
  failed_step now step message = record {
    step_order = step.step_order;
    status = failed;
    sql_executed = step.sql_template;
    result_verdict = [];
    error = message;
    executed_at = some now;
    confirmed_by = [];
  }

  unfoldable pub advance : ℕ → ℕ → Run → Run
  advance now next run =
      let moved = record run { current_step_order = next } in
      if next == 0 then record moved { status = completed; completed_at = some now } else moved

  -- The rest of handleExecuteStep, with the run as `begin_execute_step` read it. The answer of the
  -- executor is `none` with an error's message.
  unfoldable pub finish_execute_step :
      (Write → Bool)
      → Option Claims
      → ℕ
      → Text
      → Step F
      → Run
      → Option (ExecutionResult F)
      → Store
      → Store
  unfolding executed_step failed_step advance username
  finish_execute_step saves claims now message step run none s =
      try_save saves step_row (update_run_step (failed_step now step message)) s
  finish_execute_step saves claims now message step run (some result) s =
      let verdict =
        (interpret parse_float step.result_interpretation result.columns result.rows
          result.row_count).0 in
      let next = evaluate_branch parse_float step verdict result.columns result.rows in
      try_save saves run_row (update_run (advance now next run))
        (try_save saves step_row (update_run_step (executed_step claims now step verdict)) s)

unfoldable pub handle_approve_step : ℕ → Store → Store
unfolding reset_step_for_retry
handle_approve_step step_order s = reset_step_for_retry step_order s

unfoldable pub handle_request_approval : ℕ → Store → Store
unfolding request_step_approval
handle_request_approval step_order s = request_step_approval step_order s

unfoldable pub handle_retry_step : ℕ → Store → Store
unfolding reset_step_for_retry
handle_retry_step step_order s = reset_step_for_retry step_order s

unfoldable pub handle_skip_step : ℕ → ℕ → Store → Store
unfolding blank_step update_run_step
handle_skip_step now step_order s = update_run_step (blank_step step_order skipped (some now)) s

unfoldable pub handle_abandon_run : ℕ → Store → Store
unfolding update_run update_feedback
handle_abandon_run now s =
    update_feedback none (some false) (text "run abandoned")
      (update_run (record s.run { status = abandoned; completed_at = some now }) s)

unfoldable pub handle_submit_feedback : Option Bool → Option Bool → Text → Store → Store
unfolding update_feedback
handle_submit_feedback useful resolved notes s = update_feedback useful resolved notes s
