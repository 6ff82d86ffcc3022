-- ===== src/Playbook/Samples.antt =====
-- Tests of internal/playbook and of the run endpoints, and the theorems at concrete inputs. A number
-- is a natural number, and no text reads as one.
use pgpulse.Common.{
  ℕ, suc, ◌≤◌, ◌≡◌, refl, ◌≢◌, true, false, not, ◌&&◌, Option, none, some, List, [], ◌∷◌, ◌==◌,
  arith, ◌=?◌, any, length, Bool, if◌then◌else◌, ◌++◌, All, Bool-cases, inl, inr, take, ltb, ap,
}
use pgpulse.Common.Text.{Text, text, text_eq, text_beq}
use pgpulse.Common.Float.{Sample, sample_float}
use pgpulse.Auth.Rbac.{dba, has_permission}
use pgpulse.Auth.Tokens.{Claims, access}
use pgpulse.Playbook.{Step, Row, tier_dangerous, tier_remediate, tier_external, null}
use pgpulse.Playbook.Executor.{
  execute_step_lem, ExecutionResult, Statement, execute_step, TrimLaws, IsSingle, IsSetting, query,
}
use pgpulse.Playbook.Resolver.{ResolverContext}
use pgpulse.Playbook.Interpreter.{evaluate_branch}
use pgpulse.Playbook.Interpreter.Order.{evaluate_branch_target, IsFirst}
use pgpulse.Playbook.Runs.{Store, executable, abandoned, lock_step_for_execution, update_rows}
use pgpulse.Playbook.Runs.Handlers.{
  begin_execute_step, find_step, may_manage, handle_start_run, finish_execute_step,
  handle_retry_step, handle_abandon_run, Write,
}
use pgpulse.Playbook.Runs.Locking.{
  Request, begin, finish, retry, all_sends, all_resets, sends_bounded,
}
use pgpulse.Playbook.Runs.Execution.{
  begin_execute_step_permitted, finish-failed_retry, finish-revives_abandoned,
}

abbrev no_number : Text → Sample
no_number s = none

abbrev kill : Step Sample
kill = record {
  step_order = 1;
  sql_template = text "SELECT 1;";
  safety_tier = tier_dangerous;
  timeout_seconds = 0;
  result_interpretation = record {
    rules = [];
    row_count_rules = [];
    default_verdict = text "green";
    default_message = [];
  };
  branch_rules = [];
  next_step_default = some 2;
}

abbrev started : Store
started = handle_start_run (kill ∷ []) [] []

abbrev operator : Claims
operator = record {
  user_id = 1;
  username = text "a";
  role = dba;
  token_type = access;
  permissions = [];
  issued_at = 0;
  expires_at = 10;
}

abbrev requests : List (Request Sample)
requests =
    begin (kill ∷ []) (some operator) false 5 1
    ∷ begin (kill ∷ []) (some operator) false 6 1
    ∷ finish (λ w. true) (some operator) 7 (text "timeout") kill started.run none
    ∷ retry 1
    ∷ begin (kill ∷ []) (some operator) false 8 1
    ∷ []

sends_bounded_example :
    all_sends no_number 1 requests started ≤ suc (all_resets no_number 1 requests started)
sends_bounded_example = sends_bounded no_number 1 requests started

begin_execute_step_permitted_example :
    (find_step 1 (kill ∷ []) ≡ some kill)
    × (started.run ≡ started.run)
    × (any (λ r. r.step_order == 1 && executable r.status) started.steps ≡ true)
    × ((kill.safety_tier =? tier_external) ≡ false)
    × ((kill.safety_tier =? tier_remediate && not false) ≡ false)
    × ((kill.safety_tier =? tier_dangerous && not (may_manage (some operator))) ≡ false)
unfolding begin_execute_step text text_beq has_permission lock_step_for_execution handle_start_run
    executable
begin_execute_step_permitted_example =
    begin_execute_step_permitted (kill ∷ []) (some operator) false 5 1 kill started.run started refl

abbrev held : Store
held = (lock_step_for_execution 1 started).0

abbrev saves_all : Write → Bool
saves_all w = true

finish-failed_retry_example :
    let s = handle_retry_step 1 (
      finish_execute_step no_number saves_all none 9 (text "timeout") kill started.run none held) in
    (s.run ≡ held.run)
    × (any (λ r. r.step_order == 1 && executable r.status) s.steps
        ≡ (true && any (λ r. r.step_order == 1) held.steps))
unfolding lock_step_for_execution handle_start_run executable update_rows text text_beq
finish-failed_retry_example =
    finish-failed_retry no_number saves_all none 9 (text "timeout") kill started.run held refl

abbrev no_rows : ExecutionResult Sample
no_rows = record { columns = []; rows = []; row_count = 0; total_rows = 0; truncated = false }

finish-revives_abandoned_example :
    (finish_execute_step no_number saves_all none 9 [] kill started.run
      (some no_rows)
      (handle_abandon_run 8 started)).run.status
    ≢ abandoned
unfolding handle_start_run text
finish-revives_abandoned_example =
    finish-revives_abandoned no_number saves_all none 8 9 [] kill started.run no_rows started
      (λ e. ground (arith, e)) refl

abbrev answer : List Statement → Option (List Text × List (Row Sample))
answer sent = some ([], [])

abbrev is_blank : ℕ → Bool
is_blank c = c == b' '

-- White space taken off the front.
abbrev trim_front : Text → Text
trim_front [] = []
trim_front (c ∷ s) = let rest = trim_front s in if is_blank c then rest else c ∷ s

append_nil : (s : Text) → s ++ [] ≡ s
append_nil [] = refl
append_nil (c ∷ s) = ap (λ t. c ∷ t) (append_nil s)

trim_front-laws : TrimLaws is_blank trim_front
trim_front-laws = record { trims = cut }
  where
    cut :
        (s : Text)
        → (left : Text) × (right : Text) × (s ≡ left ++ (trim_front s ++ right))
          × All (λ c. is_blank c ≡ true) left
          × All (λ c. is_blank c ≡ true) right
    cut [] = ([], [], refl, tt, tt)
    cut (c ∷ s) =
        let (left, right, same, all, all') = cut s in
        elim (Bool-cases (is_blank c)) [
          | inl e ↦ (c ∷ left, right, ground (arith, e, same), (e, all), all')
          | inr e ↦ ([], [], ground (arith, e, append_nil s), tt, tt)
        ]

execute_step_lem_example :
    (kill.safety_tier ≢ tier_external)
    × IsSingle is_blank kill.sql_template
    × ((settings : List Statement) × (rows : List (Row Sample)) × All IsSetting settings
        × (answer (settings ++ (query kill.sql_template ∷ [])) ≡ some (no_rows.columns, rows))
        × (no_rows.rows ≡ take 100 rows)
        × (no_rows.row_count ≡ length no_rows.rows)
        × (no_rows.row_count ≤ 100)
        × (no_rows.total_rows ≡ length rows)
        × (no_rows.truncated ≡ ltb 100 (length rows)))
unfolding execute_step text text_beq
execute_step_lem_example =
    execute_step_lem is_blank trim_front answer trim_front-laws 100 kill no_rows refl

abbrev store : Text → Text → Option ℕ
store kind key = some 3

abbrev context : ResolverContext
context = record {
  hook_id = [];
  root_cause_key = text "k";
  metric_key = text "m";
  adviser_rule = [];
}

-- A rule on a column, which the verdict does not decide, before one on the verdict.
abbrev branching : Step Sample
branching = record kill {
  branch_rules =
      record {
        condition = record {
          column = text "n";
          operator = text "is_null";
          value = null;
          verdict = [];
        };
        goto_step = 5;
      }
      ∷ record {
        condition = record { column = []; operator = []; value = null; verdict = text "green" };
        goto_step = 6;
      }
      ∷ [];
}

goes_on : evaluate_branch no_number branching (text "green") [] [] ≡ 6
unfolding evaluate_branch text text_beq
goes_on = refl

evaluate_branch_target_example :
    IsFirst no_number 2
      (text "green")
      none
      branching.branch_rules
      (evaluate_branch no_number branching (text "green") [] [])
evaluate_branch_target_example = evaluate_branch_target no_number branching (text "green") [] []
