-- ===== src/Playbook/Runs/Rows.antt =====
-- What the statements on the rows of a run's steps do to the rows that can be executed.
use pgpulse.Common.{
  ℕ, ◌+◌, ◌≤◌, ◌≡◌, refl, Bool, true, false, ◌&&◌, ◌||◌, List, [], ◌∷◌, ◌==◌, arith, if◌then◌else◌,
  ◌=?◌, any,
}
use pgpulse.Common.Text.{text, text_eq, text_beq}
use pgpulse.Playbook.{RunStep}
use pgpulse.Playbook.Runs.{
  Store, pending, running, completed, failed, skipped, awaiting_confirmation, pending_approval,
  executable, update_rows, update_run_step,
}

-- Whether some row of the step can be executed, or has failed.
abbrev pub is_ready : ℕ → RunStep → Bool
is_ready k r = r.step_order == k && executable r.status

abbrev pub has_failed : ℕ → RunStep → Bool
has_failed k r = r.step_order == k && (r.status =? failed)

abbrev pub count : Bool → ℕ
count b = if b then 1 else 0

pub statuses :
    (executable running ≡ false)
    × (executable completed ≡ false)
    × (executable failed ≡ false)
    × (executable skipped ≡ false)
unfolding executable text text_beq
statuses = (refl, refl, refl, refl)

-- A change that readies no row readies no step.
pub update_rows_shrinks :
    (change : RunStep → RunStep) (j k : ℕ) (rows : List RunStep)
    → ((r : RunStep) → r.step_order ≡ j → (change r).step_order ≡ j)
    → ((r : RunStep) → executable (change r).status ≡ true → executable r.status ≡ true)
    → any (is_ready k) (update_rows change j rows) ≡ true
    → any (is_ready k) rows ≡ true
unfolding update_rows
update_rows_shrinks change j k [] keeps quiet h = h
update_rows_shrinks change j k (r ∷ rs) keeps quiet h =
    ground (arith, update_rows_shrinks change j k rs keeps quiet, keeps r, quiet r)

pub update_rows_other :
    (change : RunStep → RunStep) (j k : ℕ) (rows : List RunStep)
    → (j == k) ≡ false
    → ((r : RunStep) → r.step_order ≡ j → (change r).step_order ≡ j)
    → any (is_ready k) (update_rows change j rows) ≡ any (is_ready k) rows
unfolding update_rows
update_rows_other change j k [] other keeps = refl
update_rows_other change j k (r ∷ rs) other keeps =
    ground (arith, other, update_rows_other change j k rs other keeps, keeps r)

pub asked :
    (r : RunStep)
    → executable
        (if r.status =? pending || r.status =? awaiting_confirmation
          then record r { status = pending_approval }
          else r).status
      ≡ true
    → executable r.status ≡ true
unfolding executable
asked r h = ground arith

-- A locked step is not ready.
pub update_rows_locks :
    (k : ℕ) (rows : List RunStep)
    → any
        (is_ready k)
        (update_rows (λ r. if executable r.status then record r { status = running } else r) k rows)
      ≡ false
unfolding update_rows
update_rows_locks k [] = refl
update_rows_locks k (r ∷ rs) = ground (arith, update_rows_locks k rs, statuses)

pub update_rows_resets :
    (k : ℕ) (rows : List RunStep)
    → any (is_ready k) (
        update_rows
          (λ r. if r.status =? failed then record r { status = pending; error = [] } else r)
          k
          rows)
      ≡ true
    → (any (is_ready k) rows || any (has_failed k) rows) ≡ true
unfolding update_rows
update_rows_resets k [] h = h
update_rows_resets k (r ∷ rs) h = ground (arith, update_rows_resets k rs)

pub count_le : (a b : Bool) → (a ≡ true → b ≡ true) → count a ≤ count b
count_le true b h = ground (arith, h refl)
count_le false b h = ground arith

pub count_or : (a b c : Bool) → (a ≡ true → (b || c) ≡ true) → count a ≤ count b + count c
count_or true b c h = ground (arith, h refl)
count_or false b c h = ground arith

-- A statement that readies no row, by count.
pub shrink :
    (change : RunStep → RunStep) (j k : ℕ) (rows : List RunStep)
    → ((r : RunStep) → r.step_order ≡ j → (change r).step_order ≡ j)
    → ((r : RunStep) → executable (change r).status ≡ true → executable r.status ≡ true)
    → count (any (is_ready k) (update_rows change j rows)) ≤ count (any (is_ready k) rows)
shrink change j k rows keeps quiet = count_le _ _ (update_rows_shrinks change j k rows keeps quiet)

pub update_run_step-shrinks :
    (step : RunStep) (k : ℕ) (s : Store)
    → executable step.status ≡ false
    → count (any (is_ready k) (update_run_step step s).steps) ≤ count (any (is_ready k) s.steps)
unfolding update_run_step
update_run_step-shrinks step k s quiet =
    shrink (λ old. step) step.step_order k s.steps (λ r e. refl)
      (λ r e. absurd (ground (arith, e, quiet)))
