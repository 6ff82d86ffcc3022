-- ===== src/Playbook/Interpreter/Order.antt =====
-- Where a playbook goes after a step.
use pgpulse.Common.{
  ℕ, ◌≡◌, ◌≢◌, ◌⊎◌, refl, true, Option, none, some, List, [], ◌∷◌, arith, Option-cases, inl, inr,
  Bool-cases, ◌=?◌,
}
use pgpulse.Common.Text.{Text, text_eq, text_beq_iff}
use pgpulse.Common.Map.{Map, lookup}
use pgpulse.Common.Float.{Float}
use pgpulse.Playbook.{Value, Row, Step, BranchRule, BranchCondition}
use pgpulse.Playbook.Interpreter.{
  branch_to, first_row, evaluate_branch, match_branch_condition, column_meets, evaluate_condition,
  zip_columns_and_row,
}

module _ {F : Type 0} ⦃f : Float F⦄ (parse_float : Text → F) where
  -- A condition on the verdict is met by that verdict; one on a column, which names no verdict, by a
  -- first row that has the column with a value that meets it.
  abbrev pub Meets : BranchCondition F → Text → Option (Map Text (Value F)) → Type 0
  Meets cond verdict row =
      ((cond.verdict ≢ []) × (cond.verdict ≡ verdict))
      ⊎ ((cond.verdict ≡ [])
          × (cond.column ≢ [])
          × ((m : Map Text (Value F)) × (v : Value F) × (row ≡ some m)
              × (lookup cond.column m ≡ some v)
              × (evaluate_condition parse_float v cond.operator cond.value ≡ true)))

  -- The step of the first rule whose condition is met, or the fallback if none is.
  abbrev pub IsFirst : ℕ → Text → Option (Map Text (Value F)) → List (BranchRule F) → ℕ → Type 0
  IsFirst fallback verdict row [] next = next ≡ fallback
  IsFirst fallback verdict row (rule ∷ rules) next =
      (Meets rule.condition verdict row × (next ≡ rule.goto_step))
      ⊎ ((¬ Meets rule.condition verdict row) × IsFirst fallback verdict row rules next)

  column_meets_iff :
      (m : Map Text (Value F)) (column operator : Text) (value : Value F)
      → column_meets parse_float m column operator value ≡ true
      → (v : Value F) × (lookup column m ≡ some v)
        × (evaluate_condition parse_float v operator value ≡ true)
  unfolding column_meets
  column_meets_iff m column operator value h = elim (Option-cases (lookup column m)) [
    | inl e ↦ absurd (ground (arith, e, h))
    | inr (v, e) ↦ (v, e, ground (arith, e, h))
  ]

  match_branch_condition_sound :
      (cond : BranchCondition F) (verdict : Text) (row : Option (Map Text (Value F)))
      → match_branch_condition parse_float cond verdict row ≡ true
      → Meets cond verdict row
  unfolding match_branch_condition
  match_branch_condition_sound cond verdict none h = inl (
    (λ e. ground (arith, e, h, text_beq_iff cond.verdict [])),
    ground (arith, h, text_beq_iff cond.verdict verdict),
  )
  match_branch_condition_sound cond verdict (some m) h = elim (Bool-cases (cond.verdict =? [])) [
    | inl e ↦ inr (
      (text_beq_iff cond.verdict []).0 e,
      (λ g. ground (arith, e, g, h, text_beq_iff cond.column [])),
      (let (v, there, met) =
            column_meets_iff m cond.column cond.operator cond.value (ground (arith, e, h)) in
          (m, v, refl, there, met)),
    )
    | inr e ↦ inl (
      (λ g. ground (arith, e, g, text_beq_iff cond.verdict [])),
      ground (arith, e, h, text_beq_iff cond.verdict verdict),
    )
  ]

  match_branch_condition_complete :
      (cond : BranchCondition F) (verdict : Text) (row : Option (Map Text (Value F)))
      → Meets cond verdict row
      → match_branch_condition parse_float cond verdict row ≡ true
  unfolding match_branch_condition column_meets
  match_branch_condition_complete cond verdict row (inl (named, same)) =
      ground (arith, named, same, text_beq_iff cond.verdict [], text_beq_iff cond.verdict verdict)
  match_branch_condition_complete cond verdict row
        (inr (unnamed, column, (m, v, there, has, met))) =
      ground (
        arith,
        unnamed,
        column,
        there,
        has,
        met,
        text_beq_iff cond.verdict [],
        text_beq_iff cond.column [],
      )

  branch_to-IsFirst :
      (fallback : ℕ) (rules : List (BranchRule F)) (verdict : Text)
      (row : Option (Map Text (Value F)))
      → IsFirst fallback verdict row rules
          (elim (branch_to parse_float rules verdict row) [ some k ↦ k | none ↦ fallback ])
  unfolding branch_to
  branch_to-IsFirst fallback [] verdict row = refl
  branch_to-IsFirst fallback (rule ∷ rules) verdict row =
      elim (Bool-cases (match_branch_condition parse_float rule.condition verdict row)) [
        | inl e ↦ inl (match_branch_condition_sound rule.condition verdict row e, rw e refl)
        | inr e ↦ inr (
          (λ m. ground (arith, e, match_branch_condition_complete rule.condition verdict row m)),
          rw e (branch_to-IsFirst fallback rules verdict row),
        )
      ]

  -- After a step a playbook goes on with the step of its first branch rule whose condition the
  -- verdict, or the first row, meets; if there is none, with the step's default; and if it has none,
  -- the playbook ends, which is 0.
  pub evaluate_branch_target :
      (step : Step F) (verdict : Text) (columns : List Text) (rows : List (Row F))
      → IsFirst
          (elim step.next_step_default [ none ↦ 0 | some k ↦ k ])
          verdict
          (elim rows [ [] ↦ none | row ∷ rest ↦ some (zip_columns_and_row columns row) ])
          step.branch_rules
          (evaluate_branch parse_float step verdict columns rows)
  unfolding evaluate_branch first_row
  evaluate_branch_target step verdict columns [] =
      branch_to-IsFirst (elim step.next_step_default [ none ↦ 0 | some k ↦ k ]) step.branch_rules
        verdict none
  evaluate_branch_target step verdict columns (row ∷ rows) =
      branch_to-IsFirst (elim step.next_step_default [ none ↦ 0 | some k ↦ k ]) step.branch_rules
        verdict (some (zip_columns_and_row columns row))
