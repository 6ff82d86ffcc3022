-- ===== src/Playbook/Executor.antt =====
-- internal/playbook/executor.go: what is refused, the statements sent to the database, and the limit
-- on the rows. The database and the trimming of white space (strings.TrimSpace) are parameters. The
-- statements of a transaction stand in the order in which they are sent.
use pgpulse.Common.{
  ℕ, Bool, Option, none, some, List, [], ◌∷◌, ◌++◌, ◌==◌, ltb, if◌then◌else◌, ◌=?◌, any, take,
  length, ◌≤◌, ◌≡◌, refl, ap, sym, ◌∙◌, Bool-cases, All, ==_iff, arith, false, suc, ◌≢◌,
  Option-cases, zero, inl, inr, All, ◌∙◌, true, Bool-cases, ==_iff, ap, sym,
}
use pgpulse.Common.Text.{Text, text_eq, text_beq_iff}
use pgpulse.Playbook.{Step, Row, tier_external, tier_diagnostic}

-- strings.TrimRight(s, ";")
abbrev trim_semicolons : Text → Text
trim_semicolons [] = []
trim_semicolons (c ∷ s) =
    let rest = trim_semicolons s in
    if rest =? [] then (if c == b';' then [] else c ∷ []) else c ∷ rest

pub record ExecutionResult (F : Type 0) : Type 0 where
  pub columns : List Text
  pub rows : List (Row F)
  pub row_count : ℕ
  pub total_rows : ℕ
  pub truncated : Bool

-- What the executor sends: a setting of the transaction, or the step's own SQL.
pub data Statement : Type 0 where
  set_statement_timeout : ℕ → Statement
  set_lock_timeout : ℕ → Statement
  set_read_only : Statement
  query : Text → Statement

unfoldable pub new_row_limit : ℕ → ℕ
new_row_limit result_row_limit = if result_row_limit == 0 then 100 else result_row_limit

-- `rows` is what the database answers to the statements, or `none` for an error. Every row scans.
module _ {F : Type 0} (trim_space : Text → Text)
    (run : List Statement → Option (List Text × List (Row F))) where
  unfoldable pub has_several_statements : Text → Bool
  has_several_statements sql = any (λ c. c == b';') (trim_semicolons (trim_space sql))

  unfoldable pub statements : Step F → List Statement
  statements step =
      set_statement_timeout (if step.timeout_seconds == 0 then 5 else step.timeout_seconds)
        ∷ set_lock_timeout 5
        ∷ (if step.safety_tier =? tier_diagnostic then set_read_only ∷ [] else [])
      ++ (query step.sql_template ∷ [])

  collect : ℕ → List Text → List (Row F) → ExecutionResult F
  collect row_limit columns rows = record {
    columns = columns;
    rows = take row_limit rows;
    row_count = length (take row_limit rows);
    total_rows = length rows;
    truncated = ltb row_limit (length rows);
  }

  unfoldable pub execute_step : ℕ → Step F → Option (ExecutionResult F)
  unfolding statements collect has_several_statements
  execute_step row_limit step =
      if step.safety_tier =? tier_external
      then none
      else if has_several_statements step.sql_template
      then none
      else elim (run (statements step)) [
        | none ↦ none
        | some (columns, rows) ↦ some (collect row_limit columns rows)
      ]

  length-take : (n : ℕ) (rows : List (Row F)) → length (take n rows) ≤ n
  length-take zero rows = omega arith
  length-take (suc n) [] = omega arith
  length-take (suc n) (r ∷ rs) = omega (arith, length-take n rs)

-- strings.TrimSpace: what it takes off either end is white space.
pub record TrimLaws (is_space : ℕ → Bool) (trim_space : Text → Text) : Type 0 where
  pub trims :
      (s : Text)
      → (left : Text) × (right : Text) × (s ≡ left ++ (trim_space s ++ right))
        × All (λ c. is_space c ≡ true) left
        × All (λ c. is_space c ≡ true) right

-- A text without a semicolon but at its end, after which, as before it, there may be white space.
abbrev pub IsSingle : (ℕ → Bool) → Text → Type 0
IsSingle is_space sql =
    (left : Text) × (body : Text) × (ends : Text) × (right : Text) × (sql
      ≡ left ++ ((body ++ ends) ++ right))
    × All (λ c. is_space c ≡ true) left
    × All (λ c. c ≢ b';') body
    × All (λ c. c ≡ b';') ends
    × All (λ c. is_space c ≡ true) right

trim_semicolons-ends :
    (s : Text) → (ends : Text) × (s ≡ trim_semicolons s ++ ends) × All (λ c. c ≡ b';') ends
trim_semicolons-ends [] = ([], refl, tt)
trim_semicolons-ends (c ∷ s) =
    let (ends, same, all) = trim_semicolons-ends s in
    elim (Bool-cases (trim_semicolons s =? [])) [
      | inl e ↦ elim (Bool-cases (c == b';')) [
        | inl g ↦ (
          c ∷ ends,
          ground (arith, e, g, same, text_beq_iff (trim_semicolons s) []),
          ((==_iff c b';').0 g, all),
        )
        | inr g ↦ (ends, ground (arith, e, g, same, text_beq_iff (trim_semicolons s) []), all)
      ]
      | inr e ↦ (ends, ground (arith, e, same), all)
    ]

any-All-ne : (s : Text) → any (λ c. c == b';') s ≡ false → All (λ c. c ≢ b';') s
any-All-ne [] h = tt
any-All-ne (c ∷ s) h =
    ((λ e. ground (arith, h, (==_iff c b';').1 e)), any-All-ne s (ground (arith, h)))

-- The settings of the transaction, which are no SQL of a step.
abbrev pub IsSetting : Statement → Type 0
IsSetting (query sql) = ⊥
IsSetting _ = Unit {0}

module _ {F : Type 0} (is_space : ℕ → Bool) (trim_space : Text → Text)
    (run : List Statement → Option (List Text × List (Row F))) where
  has_several_statements-IsSingle :
      TrimLaws is_space trim_space
      → (sql : Text) → has_several_statements trim_space run sql ≡ false
      → IsSingle is_space sql
  unfolding has_several_statements
  has_several_statements-IsSingle laws sql h =
      let (left, right, same, spaces, spaces') = laws.trims sql in
      let (ends, cut, all) = trim_semicolons-ends (trim_space sql) in
      (
        left,
        trim_semicolons (trim_space sql),
        ends,
        right,
        same ∙ ap (λ t. left ++ (t ++ right)) cut,
        spaces,
        any-All-ne (trim_semicolons (trim_space sql)) h,
        all,
        spaces',
      )

  statements-IsSetting :
      (step : Step F)
      → (settings : List Statement) × (statements trim_space run step
          ≡ settings ++ (query step.sql_template ∷ []))
        × All IsSetting settings
  unfolding statements
  statements-IsSetting step = elim (Bool-cases (step.safety_tier =? tier_diagnostic)) [
    | inl e ↦ (
      set_statement_timeout (if step.timeout_seconds == 0 then 5 else step.timeout_seconds)
          ∷ set_lock_timeout 5
          ∷ set_read_only
          ∷ [],
      rw e refl,
      (tt, (tt, (tt, tt))),
    )
    | inr e ↦ (
      set_statement_timeout (if step.timeout_seconds == 0 then 5 else step.timeout_seconds)
          ∷ set_lock_timeout 5
          ∷ [],
      rw e refl,
      (tt, (tt, tt)),
    )
  ]

  -- A step that executes is not external, and its SQL has no semicolon but at its end, white space
  -- around it put aside. It is sent once, after nothing but settings of the transaction. The answer
  -- has the columns that the database gave and the first of its rows, up to the limit, counts both
  -- these and all, and says truncated exactly if there were more.
  pub execute_step_lem :
      TrimLaws is_space trim_space
      → (row_limit : ℕ) (step : Step F) (result : ExecutionResult F)
      → execute_step trim_space run row_limit step ≡ some result
      → (step.safety_tier ≢ tier_external)
        × IsSingle is_space step.sql_template
        × ((settings : List Statement) × (rows : List (Row F)) × All IsSetting settings
            × (run (settings ++ (query step.sql_template ∷ [])) ≡ some (result.columns, rows))
            × (result.rows ≡ take row_limit rows)
            × (result.row_count ≡ length result.rows)
            × (result.row_count ≤ row_limit)
            × (result.total_rows ≡ length rows)
            × (result.truncated ≡ ltb row_limit (length rows)))
  unfolding execute_step collect
  execute_step_lem laws row_limit step result h =
      let (settings, sent, all) = statements-IsSetting step in
      elim (Option-cases (run (statements trim_space run step))) [
        | inl e ↦ absurd (ground (arith, e, h))
        | inr ((columns, rows), e) ↦
            let named : columns ≡ result.columns = ground (arith, e, h) in
            (
              (λ g. ground (arith, h, text_beq_iff step.safety_tier tier_external, g)),
              has_several_statements-IsSingle laws step.sql_template (ground (arith, h)),
              (
                settings,
                rows,
                all,
                ap run (sym sent) ∙ e ∙ ap (λ cs. some (cs, rows)) named,
                ground (arith, e, h),
                ground (arith, e, h),
                ground (arith, e, h, length-take trim_space run row_limit rows),
                ground (arith, e, h),
                ground (arith, e, h),
              ),
            )
      ]
