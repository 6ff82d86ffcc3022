-- ===== src/Playbook/Interpreter.antt =====
-- internal/playbook/interpreter.go. The expansion of a message's template is left out: a message is
-- the template with the values that would be filled in.
use pgpulse.Common.{
  ℕ, Bool, true, false, not, Option, none, some, List, [], ◌∷◌, if◌then◌else◌, ◌=?◌, length,
}
use pgpulse.Common.Text.{Text, text, text_eq}
use pgpulse.Common.Map.{Map, lookup, insert}
use pgpulse.Common.Float.{Float}
use pgpulse.Playbook.{
  Value, null, number, string, Row, InterpretationRule, RowCountRule, InterpretationSpec,
  BranchCondition, BranchRule, Step,
}
pub mod Order

-- A template and the values for it.
pub record Message (F : Type 0) : Type 0 where
  pub template : Text
  pub values : Map Text (Value F)

zip_from : {F : Type 0} → Map Text (Value F) → List Text → Row F → Map Text (Value F)
zip_from m [] row = m
zip_from m (c ∷ cs) [] = m
zip_from m (c ∷ cs) (v ∷ vs) = zip_from (insert c v m) cs vs

-- A name that two columns have reads as the last of them.
unfoldable pub zip_columns_and_row : {F : Type 0} → List Text → Row F → Map Text (Value F)
unfolding zip_from
zip_columns_and_row columns row = zip_from [] columns row

abbrev is_null : {F : Type 0} → Value F → Bool
is_null null = true
is_null _ = false

-- `parse_float` is strconv.ParseFloat, with 0 for an error.
module _ {F : Type 0} ⦃f : Float F⦄ (parse_float : Text → F) where
  -- The source prints a nil and parses that, which is an error.
  to_float64 : Value F → F
  to_float64 null = parse_float (text "<nil>")
  to_float64 (number x) = x
  to_float64 (string s) = parse_float s

  unfoldable pub evaluate_numeric : F → Text → Value F → Bool
  unfolding to_float64
  evaluate_numeric actual operator expected =
      let exp = to_float64 expected in
      if operator =? text ">"
      then f.lt exp actual
      else if operator =? text "<"
      then f.lt actual exp
      else if operator =? text ">="
      then f.le exp actual
      else if operator =? text "<="
      then f.le actual exp
      else if operator =? text "=="
      then f.eq actual exp
      else if operator =? text "!="
      then not (f.eq actual exp)
      else false

  unfoldable pub evaluate_condition : Value F → Text → Value F → Bool
  unfolding to_float64
  evaluate_condition actual operator expected =
      if operator =? text "is_null"
      then is_null actual
      else if operator =? text "is_not_null"
      then not (is_null actual)
      else if is_null actual
      then false
      else evaluate_numeric (to_float64 actual) operator expected

  row_count_rules : List (RowCountRule F) → ℕ → Option (Text × Message F)
  row_count_rules [] row_count = none
  row_count_rules (rule ∷ rules) row_count =
      let rest = row_count_rules rules row_count in
      if evaluate_numeric (f.of_nat row_count) rule.operator rule.value
      then some (
        rule.verdict,
        record {
          template = rule.message;
          values = (text "row_count", number (f.of_nat row_count)) ∷ [];
        },
      )
      else rest

  -- Whether the row has the column and its value meets the condition.
  column_meets : Map Text (Value F) → Text → Text → Value F → Bool
  column_meets row_map column operator value = elim (lookup column row_map) [
    | none ↦ false
    | some v ↦ evaluate_condition v operator value
  ]

  column_rules : List (InterpretationRule F) → Map Text (Value F) → Option (Text × Message F)
  unfolding column_meets
  column_rules [] row_map = none
  column_rules (rule ∷ rules) row_map =
      let rest = column_rules rules row_map in
      if column_meets row_map rule.column rule.operator rule.value
      then some (rule.verdict, record { template = rule.message; values = row_map })
      else rest

  default_verdict : InterpretationSpec F → Text × Message F
  default_verdict spec =
      (spec.default_verdict, record { template = spec.default_message; values = [] })

  -- The rules on the columns look at the first row only, whatever their scope.
  first_row_rules : InterpretationSpec F → List Text → List (Row F) → Option (Text × Message F)
  unfolding column_rules
  first_row_rules spec columns [] = none
  first_row_rules spec columns (row ∷ rows) =
      column_rules spec.rules (zip_columns_and_row columns row)

  unfoldable pub interpret : InterpretationSpec F → List Text → List (Row F) → ℕ → Text × Message F
  unfolding row_count_rules first_row_rules default_verdict
  interpret spec columns rows row_count = elim (row_count_rules spec.row_count_rules row_count) [
    | some result ↦ result
    | none ↦ elim (first_row_rules spec columns rows) [
      | some result ↦ result
      | none ↦ default_verdict spec
    ]
  ]

  -- Without rows there is no row map.
  match_branch_condition : BranchCondition F → Text → Option (Map Text (Value F)) → Bool
  unfolding column_meets
  match_branch_condition cond verdict row_map =
      if not (cond.verdict =? [])
      then cond.verdict =? verdict
      else if cond.column =? []
      then false
      else elim row_map [
        | none ↦ false
        | some m ↦ column_meets m cond.column cond.operator cond.value
      ]

  branch_to : List (BranchRule F) → Text → Option (Map Text (Value F)) → Option ℕ
  unfolding match_branch_condition
  branch_to [] verdict row_map = none
  branch_to (rule ∷ rules) verdict row_map =
      let rest = branch_to rules verdict row_map in
      if match_branch_condition rule.condition verdict row_map then some rule.goto_step else rest

  first_row : List Text → List (Row F) → Option (Map Text (Value F))
  first_row columns [] = none
  first_row columns (row ∷ rows) = some (zip_columns_and_row columns row)

  -- 0 stands for the end of the playbook.
  unfoldable pub evaluate_branch : Step F → Text → List Text → List (Row F) → ℕ
  unfolding branch_to first_row
  evaluate_branch step verdict columns rows =
      elim (branch_to step.branch_rules verdict (first_row columns rows)) [
        | some goto_step ↦ goto_step
        | none ↦ elim step.next_step_default [ none ↦ 0 | some next ↦ next ]
      ]
