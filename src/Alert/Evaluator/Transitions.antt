-- ===== src/Alert/Evaluator/Transitions.antt =====
-- The state machine of one rule on one instance, against what the breaches alone say.
use pgpulse.Common.{
  ℕ, suc, ◌≡◌, refl, Bool, true, not, ◌&&◌, Option, none, List, [], ◌∷◌, arith, leb, ltb, ◌==◌,
  if◌then◌else◌, some, false,
}
use pgpulse.Alert.{
  AlertState, state_ok, state_pending, state_firing, Rule, AlertEvent, StateEntry, MetricPoint,
}
use pgpulse.Alert.Evaluator.{fresh_entry, process_transition, fire_alert, resolve_alert}

-- One evaluation of a rule: the point, whether it breaches, and the time.
pub record Reading (F : Type 0) : Type 0 where
  pub point : MetricPoint F
  pub breached : Bool
  pub now : ℕ

-- How many of the latest readings breach without a gap. The latest reading stands first.
abbrev pub trailing : {F : Type 0} → List (Reading F) → ℕ
trailing [] = 0
trailing (r ∷ rs) = if r.breached then suc (trailing rs) else 0

-- How many breaches in a row a rule asks for.
abbrev pub required : {F : Type 0} → Rule F → ℕ
required rule = if leb rule.consecutive_count 1 then 1 else rule.consecutive_count

-- When the present run of breaches reached the number asked for.
abbrev pub reached_at : {F : Type 0} → ℕ → List (Reading F) → ℕ
reached_at n [] = 0
reached_at n (r ∷ rs) = if trailing (r ∷ rs) == n then r.now else reached_at n rs

module _ {F : Type 0} (rule : Rule F) where
  unfoldable pub after : List (Reading F) → StateEntry
  after [] = fresh_entry
  after (r ∷ rs) = (process_transition rule r.point (after rs) r.breached r.now).0

  unfoldable pub event : Reading F → List (Reading F) → Option (AlertEvent F)
  unfolding after
  event r rs = (process_transition rule r.point (after rs) r.breached r.now).1

  -- The state that the breaches say.
  abbrev pub spec_state : ℕ → AlertState
  spec_state n =
      if n == 0 then state_ok else if leb (required rule) n then state_firing else state_pending

  -- What the rule tells of a reading: when it fired and, if it tells of the end, when it ended.
  abbrev pub notice : Reading F → ℕ → Option ℕ → Bool → AlertEvent F
  notice r fired resolved ends = record {
    rule_id = rule.id;
    rule_name = rule.name;
    instance_id = r.point.instance_id;
    severity = rule.severity;
    value = r.point.value;
    threshold = rule.threshold;
    operator = rule.operator;
    metric = rule.metric;
    labels = r.point.labels;
    channels = rule.channels;
    fired_at = fired;
    resolved_at = resolved;
    is_resolution = ends;
  }

  -- The event that the breaches say.
  abbrev pub spec_event : Reading F → List (Reading F) → Option (AlertEvent F)
  spec_event r rs =
      if trailing (r ∷ rs) == required rule
      then some (notice r r.now none false)
      else if not r.breached && leb (required rule) (trailing rs)
      then some (notice r (reached_at (required rule) rs) (some r.now) true)
      else none

  -- What an entry holds after the readings.
  Agrees : StateEntry → List (Reading F) → Type 0
  Agrees e rs =
      (e.state ≡ spec_state (trailing rs))
      × (ltb (trailing rs) (required rule) ≡ true → e.consecutive_count ≡ trailing rs)
      × (leb (required rule) (trailing rs) ≡ true → e.fired_at ≡ reached_at (required rule) rs)

  step-Agrees :
      (e : StateEntry) (s : AlertState) (r : Reading F) (rs : List (Reading F))
      → e.state ≡ s
      → Agrees e rs
      → let moved = process_transition rule r.point e r.breached r.now in
        Agrees moved.0 (r ∷ rs) × (moved.1 ≡ spec_event r rs)
  unfolding Agrees process_transition fire_alert resolve_alert
  step-Agrees e state_ok r rs is h = rw is (ground arith)
  step-Agrees e state_pending r rs is h = rw is (ground arith)
  step-Agrees e state_firing r rs is h = rw is (ground arith)

  after-Agrees : (rs : List (Reading F)) → Agrees (after rs) rs
  unfolding Agrees after
  after-Agrees [] = ground arith
  after-Agrees (r ∷ rs) = (step-Agrees (after rs) (after rs).state r rs refl (after-Agrees rs)).0

  -- After any sequence of readings, a rule is firing on an instance exactly when the latest breaches
  -- without a gap are as many as it asks for, or more, and pending when they are fewer but some. It
  -- answers an event that it fires at the reading that makes the number full and at no other, and one
  -- that it is resolved at the first reading without a breach after that, with the time at which it
  -- had fired and the time of that reading; it answers no other event. Each event names the rule with
  -- its threshold and channels, and the instance, value and labels of the reading's point.
  pub transitions_correct :
      (r : Reading F) (rs : List (Reading F))
      → ((after (r ∷ rs)).state ≡ spec_state (trailing (r ∷ rs))) × (event r rs ≡ spec_event r rs)
  unfolding Agrees after event
  transitions_correct r rs =
      let (agrees, same) = step-Agrees (after rs) (after rs).state r rs refl (after-Agrees rs) in
      (agrees.0, same)
