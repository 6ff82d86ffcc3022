-- ===== src/Playbook/Runs/Locking.antt =====
-- How often a step's SQL is sent.
use pgpulse.Common.{
  ℕ, suc, ◌+◌, ◌≤◌, Bool, false, ◌||◌, Option, none, some, List, [], ◌∷◌, ◌==◌, arith,
  if◌then◌else◌, ◌=?◌, any, Bool-cases, Option-cases, inl, inr, ==_iff,
}
use pgpulse.Common.Text.{Text, text_eq}
use pgpulse.Common.Float.{Float}
use pgpulse.Auth.Tokens.{Claims}
use pgpulse.Playbook.{Step, Run, RunStep}
use pgpulse.Playbook.Executor.{ExecutionResult}
use pgpulse.Playbook.Runs.{
  Store, pending, running, completed, failed, skipped, awaiting_confirmation, pending_approval,
  executable, update_rows, update_run, lock_step_for_execution, reset_step_for_retry,
  request_step_approval, update_feedback, blank_step, interpret, evaluate_branch,
}
use pgpulse.Playbook.Runs.Handlers.{
  Begun, executing, find_step, begin_found, lock, begin_step, begin_execute_step, failed_step,
  executed_step, finish_execute_step, handle_approve_step, handle_request_approval,
  handle_retry_step, handle_skip_step, handle_abandon_run, Write, step_row,
}
use pgpulse.Playbook.Runs.Rows.{
  statuses, update_rows_other, asked, update_rows_locks, update_rows_resets, count_or, shrink,
  update_run_step-shrinks, is_ready, has_failed, count,
}

-- A request, or the second half of one.
pub data Request (F : Type 0) : Type 0 where
  begin : List (Step F) → Option Claims → Bool → ℕ → ℕ → Request F
  finish :
      (Write → Bool)
      → Option Claims
      → ℕ
      → Text
      → Step F
      → Run
      → Option (ExecutionResult F)
      → Request F
  approve : ℕ → Request F
  ask : ℕ → Request F
  retry : ℕ → Request F
  skip : ℕ → ℕ → Request F
  abandon : ℕ → Request F

-- Whether the step's SQL is sent.
abbrev pub is_sent : {F : Type 0} → ℕ → Begun F → Bool
is_sent k (executing step run) = step.step_order == k
is_sent k _ = false

module _ {F : Type 0} ⦃f : Float F⦄ (parse_float : Text → F) where
  unfoldable pub handle : Request F → Store → Store
  handle (begin steps claims confirmed now k) s =
      (begin_execute_step steps claims confirmed now k s).0
  handle (finish saves claims now message step run result) s =
      finish_execute_step parse_float saves claims now message step run result s
  handle (approve k) s = handle_approve_step k s
  handle (ask k) s = handle_request_approval k s
  handle (retry k) s = handle_retry_step k s
  handle (skip now k) s = handle_skip_step now k s
  handle (abandon now) s = handle_abandon_run now s

  -- How often a request sends the SQL of a step.
  sends : ℕ → Request F → Store → ℕ
  sends k (begin steps claims confirmed now j) s =
      count (is_sent k (begin_execute_step steps claims confirmed now j s).1)
  sends k _ s = 0

  -- How often a request sets a failed step back.
  resets : ℕ → Request F → Store → ℕ
  resets k (approve j) s = if j == k then count (any (has_failed k) s.steps) else 0
  resets k (retry j) s = if j == k then count (any (has_failed k) s.steps) else 0
  resets k _ s = 0

  unfoldable pub all_sends : ℕ → List (Request F) → Store → ℕ
  unfolding sends handle
  all_sends k [] s = 0
  all_sends k (r ∷ rs) s = sends k r s + all_sends k rs (handle r s)

  unfoldable pub all_resets : ℕ → List (Request F) → Store → ℕ
  unfolding resets handle
  all_resets k [] s = 0
  all_resets k (r ∷ rs) s = resets k r s + all_resets k rs (handle r s)

module _ {F : Type 0} where
  lock-shrinks :
      (k : ℕ) (step : Step F) (s : Store)
      → count (is_sent k (lock step s).1) + count (any (is_ready k) (lock step s).0.steps)
        ≤ count (any (is_ready k) s.steps)
  unfolding lock lock_step_for_execution
  lock-shrinks k step s = elim (Bool-cases (step.step_order == k)) [
    | inl e ↦
        let same = (==_iff step.step_order k).0 e in
        rw same (ground (arith, update_rows_locks k s.steps))
    | inr e ↦ ground (
      arith,
      e,
      shrink (λ r. if executable r.status then record r { status = running } else r) step.step_order
          k s.steps (λ r h. ground arith) (λ r h. ground (arith, statuses)),
    )
  ]

  begin_step-shrinks :
      (claims : Option Claims) (confirmed : Bool) (now k : ℕ) (step : Step F) (s : Store)
      → let r = begin_step claims confirmed now step s in
        count (is_sent k r.1) + count (any (is_ready k) r.0.steps)
        ≤ count (any (is_ready k) s.steps)
  unfolding begin_step blank_step
  begin_step-shrinks claims confirmed now k step s = ground (
    arith,
    lock-shrinks k step s,
    statuses,
    update_run_step-shrinks (blank_step step.step_order completed (some now)) k s,
  )

module _ {F : Type 0} ⦃f : Float F⦄ (parse_float : Text → F) where
  finish-shrinks :
      (saves : Write → Bool) (claims : Option Claims) (now : ℕ) (message : Text) (step : Step F)
      (run : Run) (result : Option (ExecutionResult F)) (k : ℕ) (s : Store)
      → count (
          any
            (is_ready k)
            (finish_execute_step parse_float saves claims now message step run result s).steps)
        ≤ count (any (is_ready k) s.steps)
  unfolding finish_execute_step update_run failed_step executed_step
  finish-shrinks saves claims now message step run none k s = elim (Bool-cases (saves step_row)) [
    | inl e ↦ rw e (update_run_step-shrinks _ k s statuses.2)
    | inr e ↦ rw e (omega arith)
  ]
  finish-shrinks saves claims now message step run (some result) k s =
      let verdict =
        (interpret parse_float step.result_interpretation result.columns result.rows
          result.row_count).0 in
      let next = evaluate_branch parse_float step verdict result.columns result.rows in
      let saved =
        update_run_step-shrinks (executed_step parse_float claims now step verdict) k s
          statuses.1 in
      elim (Bool-cases (saves step_row)) [
        | inl e ↦ ground (arith, e, saved)
        | inr e ↦ ground (arith, e)
      ]

  abbrev set_back : RunStep → RunStep
  set_back r = if r.status =? failed then record r { status = pending; error = [] } else r

  reset-counts :
      (j k : ℕ) (s : Store)
      → count (any (is_ready k) (reset_step_for_retry j s).steps)
        ≤ count (any (is_ready k) s.steps)
          + (if j == k then count (any (has_failed k) s.steps) else 0)
  unfolding reset_step_for_retry
  reset-counts j k s = elim (Bool-cases (j == k)) [
    | inl e ↦
        let same = (==_iff j k).0 e in
        rw same (
          ground (
            arith,
            count_or (any (is_ready k) (update_rows set_back k s.steps)) (any (is_ready k) s.steps)
                (any (has_failed k) s.steps) (update_rows_resets k s.steps),
          ))
    | inr e ↦ ground (arith, e, update_rows_other set_back j k s.steps e λ r h. ground arith)
  ]

  handle-counts :
      (k : ℕ) (r : Request F) (s : Store)
      → sends parse_float k r s + count (any (is_ready k) (handle parse_float r s).steps)
        ≤ count (any (is_ready k) s.steps) + resets parse_float k r s
  unfolding sends handle resets begin_execute_step begin_found handle_approve_step
      handle_request_approval request_step_approval handle_retry_step handle_skip_step
      handle_abandon_run update_run update_feedback blank_step
  handle-counts k (begin steps claims confirmed now j) s = elim (Option-cases (find_step j steps)) [
    | inl e ↦ ground (arith, e)
    | inr (step, e) ↦ ground (arith, e, begin_step-shrinks claims confirmed now k step s)
  ]
  handle-counts k (finish saves claims now message step run result) s =
      omega (arith, finish-shrinks saves claims now message step run result k s)
  handle-counts k (approve j) s = omega (arith, reset-counts j k s)
  handle-counts k (ask j) s = omega (
    arith,
    shrink
        (λ r.
          if r.status =? pending || r.status =? awaiting_confirmation
          then record r { status = pending_approval }
          else r)
        j k s.steps (λ r h. ground arith) (λ r h. asked r h),
  )
  handle-counts k (retry j) s = omega (arith, reset-counts j k s)
  handle-counts k (skip now j) s =
      omega (arith, update_run_step-shrinks (blank_step j skipped (some now)) k s statuses.3)
  handle-counts k (abandon now) s = omega arith

  -- In any sequence of requests on a run, the halves of executions interleaved in any way, the SQL of
  -- a step is sent at most once, and once more for each time that the step is set back after it
  -- failed.
  pub sends_bounded :
      (k : ℕ) (rs : List (Request F)) (s : Store)
      → all_sends parse_float k rs s ≤ suc (all_resets parse_float k rs s)
  unfolding all_sends all_resets
  sends_bounded k rs s = omega (arith, counted rs s, count_one (any (is_ready k) s.steps))
    where
      count_one : (b : Bool) → count b ≤ 1
      count_one b = ground arith

      counted :
          (rest : List (Request F)) (t : Store)
          → all_sends parse_float k rest t
            ≤ count (any (is_ready k) t.steps) + all_resets parse_float k rest t
      counted [] t = omega arith
      counted (r ∷ rest) t =
          omega (arith, handle-counts k r t, counted rest (handle parse_float r t))
