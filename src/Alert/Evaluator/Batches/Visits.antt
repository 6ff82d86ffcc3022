-- ===== src/Alert/Evaluator/Batches/Visits.antt =====
-- What a batch does to the state of one key, to the history and to the answer.
use pgpulse.Common.{ℕ, ◌≡◌, Bool, ◌&&◌, List, [], ◌∷◌, ◌++◌, if◌then◌else◌, ◌=?◌, keep}
use pgpulse.Common.Text.{Text, text_eq}
use pgpulse.Common.Map.{Map, get_or}
use pgpulse.Common.Float.{Float}
use pgpulse.Alert.{Rule, AlertEvent, StateEntry, MetricPoint, compare}
use pgpulse.Alert.Evaluator.{state_key_with_labels, fresh_entry, process_transition, labels_match}
use pgpulse.Alert.Evaluator.Lifecycle.{Evaluator}

module _ {F : Type 0} ⦃f : Float F⦄ where
  -- What a reading of a rule makes of the entry under a key: it moves on if the key is the rule's on
  -- the point's instance.
  abbrev pub follow_point : Text → ℕ → Rule F → MetricPoint F → StateEntry → StateEntry
  follow_point key now rule pt entry =
      if state_key_with_labels rule.id pt.instance_id rule.labels =? key
      then (process_transition rule pt entry (compare rule.operator pt.value rule.threshold) now).0
      else entry

  abbrev pub follow_points : Text → ℕ → Rule F → List (MetricPoint F) → StateEntry → StateEntry
  follow_points key now rule [] entry = entry
  follow_points key now rule (p ∷ ps) entry =
      follow_points key now rule ps (follow_point key now rule p entry)

  -- The rules in order, each on the points of the batch with its metric and labels.
  abbrev pub follow : Text → ℕ → List (Rule F) → List (MetricPoint F) → StateEntry → StateEntry
  follow key now [] points entry = entry
  follow key now (rule ∷ rules) points entry = follow key now rules points (
      follow_points key now rule
        (keep (λ p. p.metric =? rule.metric && labels_match rule.labels p.labels) points) entry)

module _ {F : Type 0} ⦃f : Float F⦄ (accepts : AlertEvent F → Bool) where
  abbrev Batch : Type 0
  Batch = Evaluator F × List (AlertEvent F)

  abbrev entry : Text → Batch → StateEntry
  entry key r = get_or fresh_entry key r.0.state

  -- The history grows by what is answered.
  Recorded : List (AlertEvent F) → Batch → Type 0
  Recorded history r = r.0.history ≡ history ++ r.1

  -- What the theorem below states of a batch's outcome.
  Done : Text → ℕ → List (MetricPoint F) → Evaluator F → Batch → Type 0
  Done key now points e r =
      (entry key r ≡ follow key now e.rules points (get_or fresh_entry key e.state))
      × (added : List (AlertEvent F)) × (r.0.history ≡ (e.history ++ r.1) ++ added)
