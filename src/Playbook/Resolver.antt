-- ===== src/Playbook/Resolver.antt =====
-- internal/playbook/resolver.go. The store's lookup of a playbook by a trigger is a parameter, with
-- `none` where it finds nothing or fails: the source logs a failure and goes on.
use pgpulse.Common.{not, Option, none, some, [], if◌then◌else◌, ◌=?◌, List, ◌≡◌, ◌∷◌, arith}
use pgpulse.Common.Text.{Text, text, text_eq}

pub record ResolverContext : Type 0 where
  pub hook_id : Text
  pub root_cause_key : Text
  pub metric_key : Text
  pub adviser_rule : Text

module _ {P : Type 0} (find_by_trigger_binding : Text → Text → Option P) where
  -- One priority: the lookup, unless the key is empty.
  binding : Text → Text → Option P
  binding kind key = if not (key =? []) then find_by_trigger_binding kind key else none

  unfoldable pub resolve : ResolverContext → Option (P × Text)
  unfolding binding
  resolve rc = elim (binding (text "hooks") rc.hook_id) [
    | some p ↦ some (p, text "rca_hook")
    | none ↦ elim (binding (text "root_causes") rc.root_cause_key) [
      | some p ↦ some (p, text "root_cause")
      | none ↦ elim (binding (text "metrics") rc.metric_key) [
        | some p ↦ some (p, text "metric")
        | none ↦ elim (binding (text "adviser_rules") rc.adviser_rule) [
          | some p ↦ some (p, text "adviser_rule")
          | none ↦ none
        ]
      ]
    ]
  ]

  -- The four priorities: what the store is asked, with which key, and the reason that is given.
  abbrev pub priorities : ResolverContext → List (Text × Text × Text)
  priorities rc =
      (text "hooks", rc.hook_id, text "rca_hook")
      ∷ (text "root_causes", rc.root_cause_key, text "root_cause")
      ∷ (text "metrics", rc.metric_key, text "metric")
      ∷ (text "adviser_rules", rc.adviser_rule, text "adviser_rule")
      ∷ []

  -- The first of some priorities that has a key with a playbook.
  abbrev pub first_found : List (Text × Text × Text) → Option (P × Text)
  first_found [] = none
  first_found ((kind, key, reason) ∷ ps) = elim (find_by_trigger_binding kind key) [
    | none ↦ first_found ps
    | some p ↦ if key =? [] then first_found ps else some (p, reason)
  ]

  -- The playbook that is resolved is the one of the first priority, among the hook, the root cause, the
  -- metric and the adviser rule, whose key is not empty and has a playbook; without any, there is none.
  pub resolve-first_found : (rc : ResolverContext) → resolve rc ≡ first_found (priorities rc)
  unfolding resolve binding
  resolve-first_found rc = ground arith
