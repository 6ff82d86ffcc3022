-- ===== src/Playbook/Runs/Execution.antt =====
-- Who can have a step's SQL sent, and what its outcome makes of the run.
use pgpulse.Common.{
  ℕ, ◌≡◌, ◌≢◌, refl, Bool, true, false, not, ◌&&◌, Option, none, some, List, ◌==◌, arith, ◌=?◌, any,
  if◌then◌else◌, [], ◌∷◌, Bool-cases, inl, inr,
}
use pgpulse.Common.Text.{Text, text, text_eq, text_beq, text_beq_iff}
use pgpulse.Common.Float.{Float}
use pgpulse.Auth.Tokens.{Claims}
use pgpulse.Playbook.{
  Step, Run, tier_diagnostic, tier_remediate, tier_dangerous, tier_external, RunStep,
}
use pgpulse.Playbook.Executor.{ExecutionResult}
use pgpulse.Playbook.Runs.{
  Store, completed, abandoned, executable, update_run, lock_step_for_execution, update_rows,
  reset_step_for_retry, failed, update_run_step, pending, running, awaiting_confirmation,
  pending_approval,
}
use pgpulse.Playbook.Runs.Handlers.{
  executing, find_step, lock, begin_step, begin_execute_step, may_manage, advance,
  finish_execute_step, handle_abandon_run, begin_found, handle_retry_step, failed_step, Write,
  run_row, step_row,
}

tiers :
    (text_beq tier_external tier_diagnostic ≡ false)
    × (text_beq tier_external tier_remediate ≡ false)
    × (text_beq tier_external tier_dangerous ≡ false)
    × (text_beq tier_dangerous tier_diagnostic ≡ false)
    × (text_beq tier_dangerous tier_remediate ≡ false)
    × (text_beq tier_remediate tier_diagnostic ≡ false)
unfolding text text_beq
tiers = (refl, refl, refl, refl, refl, refl)

module _ {F : Type 0} where
  begin_step_permitted :
      (claims : Option Claims) (confirmed : Bool) (now : ℕ) (step step' : Step F) (run : Run)
      (s : Store)
      → (begin_step claims confirmed now step s).1 ≡ executing step' run
      → (step ≡ step')
        × (run ≡ s.run)
        × (any (λ r. r.step_order == step.step_order && executable r.status) s.steps ≡ true)
        × ((step.safety_tier =? tier_external) ≡ false)
        × ((step.safety_tier =? tier_remediate && not confirmed) ≡ false)
        × ((step.safety_tier =? tier_dangerous && not (may_manage claims)) ≡ false)
  unfolding begin_step lock lock_step_for_execution
  begin_step_permitted claims confirmed now step step' run s h =
      let t = step.safety_tier in
      (
        ground (arith, h),
        ground (arith, h),
        ground (arith, h),
        ground (arith, h, tiers, text_beq_iff t tier_external),
        ground (arith, h, tiers, text_beq_iff t tier_remediate),
        ground (arith, h, tiers, text_beq_iff t tier_dangerous),
      )

  -- A request has the SQL of a step sent only if the step is the one that the playbook has under
  -- that order, some row of it can be executed, it is not external, it is confirmed if it is to
  -- remediate, and the user has the permission to manage instances if it is dangerous. It goes on
  -- with the run as it stands.
  pub begin_execute_step_permitted :
      (steps : List (Step F)) (claims : Option Claims) (confirmed : Bool) (now k : ℕ)
      (step : Step F) (run : Run) (s : Store)
      → (begin_execute_step steps claims confirmed now k s).1 ≡ executing step run
      → (find_step k steps ≡ some step)
        × (run ≡ s.run)
        × (any (λ r. r.step_order == step.step_order && executable r.status) s.steps ≡ true)
        × ((step.safety_tier =? tier_external) ≡ false)
        × ((step.safety_tier =? tier_remediate && not confirmed) ≡ false)
        × ((step.safety_tier =? tier_dangerous && not (may_manage claims)) ≡ false)
  unfolding begin_execute_step begin_found
  begin_execute_step_permitted steps claims confirmed now k step run s h = go (find_step k steps) h
    where
      go :
          (found : Option (Step F))
          → (begin_found claims confirmed now found s).1 ≡ executing step run
          → (found ≡ some step)
            × (run ≡ s.run)
            × (any (λ r. r.step_order == step.step_order && executable r.status) s.steps ≡ true)
            × ((step.safety_tier =? tier_external) ≡ false)
            × ((step.safety_tier =? tier_remediate && not confirmed) ≡ false)
            × ((step.safety_tier =? tier_dangerous && not (may_manage claims)) ≡ false)
      go none h = absurd cc
      go (some found) h =
          let ps = begin_step_permitted claims confirmed now found step run s h in
          rw (← ps.0) (refl, ps.1, ps.2, ps.3, ps.4, ps.5)

finished : text_beq completed abandoned ≡ false
unfolding text text_beq
finished = refl

locked :
    (text_beq running failed ≡ false)
    × (text_beq running pending ≡ false)
    × (text_beq running awaiting_confirmation ≡ false)
    × (text_beq running pending_approval ≡ false)
unfolding text text_beq
locked = (refl, refl, refl, refl)

module _ {F : Type 0} ⦃f : Float F⦄ (parse_float : Text → F) where
  -- An execution that works and writes its run back, with a run that was not abandoned when it was
  -- read, leaves the run in a state that is not abandoned even if it was abandoned meanwhile.
  pub finish-revives_abandoned :
      (saves : Write → Bool) (claims : Option Claims) (now later : ℕ) (message : Text)
      (step : Step F) (run : Run) (result : ExecutionResult F) (s : Store)
      → run.status ≢ abandoned
      → saves run_row ≡ true
      → (finish_execute_step parse_float saves claims later message step run
          (some result)
          (handle_abandon_run now s)).run.status
        ≢ abandoned
  unfolding finish_execute_step update_run advance
  finish-revives_abandoned saves claims now later message step run result s was wrote h =
      ground (arith, was, wrote, h, finished, text_beq_iff completed abandoned)

  failed_then_ready :
      (step : RunStep) (rows : List RunStep)
      → step.status ≡ failed
      → any
          (λ r. r.step_order == step.step_order && executable r.status)
          (update_rows
            (λ r. if r.status =? failed then record r { status = pending; error = [] } else r)
            step.step_order
            (update_rows (λ old. step) step.step_order rows))
        ≡ any (λ r. r.step_order == step.step_order) rows
  unfolding update_rows executable
  failed_then_ready step [] h = refl
  failed_then_ready step (r ∷ rs) h = ground (
    arith,
    h,
    failed_then_ready step rs h,
    text_beq_iff failed failed,
    text_beq_iff pending pending,
  )

  running_stay :
      (k : ℕ) (rows : List RunStep)
      → any (λ r. r.step_order == k && not (r.status =? running)) rows ≡ false
      → any
          (λ r. r.step_order == k && executable r.status)
          (update_rows
            (λ r. if r.status =? failed then record r { status = pending; error = [] } else r)
            k
            rows)
        ≡ false
  unfolding update_rows executable
  running_stay k [] h = refl
  running_stay k (r ∷ rs) h =
      ground
        (arith, h, locked, running_stay k rs (ground (arith, h)), text_beq_iff r.status running)

  -- Where every row of a step is locked and its SQL fails, the run stays as it is. A retry then
  -- makes the step ready to be executed again exactly when it has a row and the write of the failure
  -- worked: where that write failed too, the row stays running and a retry does nothing to it.
  pub finish-failed_retry :
      (saves : Write → Bool) (claims : Option Claims) (now : ℕ) (message : Text) (step : Step F)
      (run : Run) (s : Store)
      → any (λ r. r.step_order == step.step_order && not (r.status =? running)) s.steps ≡ false
      → let s' =
          handle_retry_step step.step_order
            (finish_execute_step parse_float saves claims now message step run none s) in
        (s'.run ≡ s.run)
        × (any (λ r. r.step_order == step.step_order && executable r.status) s'.steps
            ≡ (saves step_row && any (λ r. r.step_order == step.step_order) s.steps))
  unfolding finish_execute_step handle_retry_step reset_step_for_retry update_run_step failed_step
  finish-failed_retry saves claims now message step run s held =
      elim (Bool-cases (saves step_row)) [
        | inl e ↦
            rw e (refl, failed_then_ready (failed_step parse_float now step message) s.steps refl)
        | inr e ↦ rw e (refl, running_stay step.step_order s.steps held)
      ]
