-- ===== src/Alert/Dispatcher.antt =====
-- internal/alert/dispatcher.go. The channel of events is a queue of at most 100; closing it is left
-- out. A notifier is its name, and whether its n-th attempt to send an event works is a parameter.
-- Remediation and the hooks run after the decisions made here and are left out, but for whether the
-- hooks are called. The clock is monotonic, as Go's is: a cooldown never starts after its test.
use pgpulse.Common.{
  ℕ, ◌+◌, ◌-◌, ◌*◌, zero, suc, Bool, true, false, not, ◌&&◌, Option, none, some, List, [], ◌∷◌,
  ◌++◌, ltb, ◌==◌, if◌then◌else◌, ◌=?◌, length, any,
}
use pgpulse.Common.Text.{Text, text_eq}
use pgpulse.Common.Map.{Map, lookup, insert}
use pgpulse.Alert.{AlertEvent}
pub mod Delivery
pub mod Queue

abbrev pub default_buffer_size : ℕ
default_buffer_size = 100

-- `retries` is the length of `retryDelays`; `notifiers` are the names that are registered.
pub record Dispatcher (F : Type 0) : Type 0 where
  pub notifiers : List Text
  pub default_channels : List Text
  pub cooldown_minutes : ℕ
  pub retries : ℕ
  pub events : List (AlertEvent F)
  pub cooldowns : Map Text ℕ

-- How often a channel was tried, and whether it took the event.
pub record Attempted : Type 0 where
  pub channel : Text
  pub attempts : ℕ
  pub sent : Bool

-- What became of an event: what was tried, and whether the hooks were called.
pub record Processed : Type 0 where
  pub attempted : List Attempted
  pub hooked : Bool

unfoldable pub cooldown_key : Text → Text → Text → Text
cooldown_key rule_id instance_id severity = rule_id ++ (b':' ∷ (instance_id ++ (b':' ∷ severity)))

-- `for attempt := 0; attempt < maxAttempts; attempt++`, with what is left of the loop.
send_from : (ℕ → Bool) → Text → ℕ → ℕ → Attempted
send_from works channel attempt zero = record {
  channel = channel;
  attempts = attempt;
  sent = false;
}
send_from works channel attempt (suc left) =
    let rest = send_from works channel (suc attempt) left in
    if works attempt
    then record { channel = channel; attempts = suc attempt; sent = true }
    else rest

abbrev pub max_attempts : ℕ → ℕ
max_attempts retries = if retries == 0 then 1 else retries

unfoldable pub send_with_retry : (ℕ → Bool) → Text → ℕ → Attempted
unfolding send_from
send_with_retry works channel retries = send_from works channel 0 (max_attempts retries)

module _ {F : Type 0} where
  unfoldable pub new_dispatcher : List Text → List Text → ℕ → Dispatcher F
  new_dispatcher notifiers default_channels default_cooldown_minutes = record {
    notifiers = notifiers;
    default_channels = default_channels;
    cooldown_minutes = default_cooldown_minutes;
    retries = 3;
    events = [];
    cooldowns = [];
  }

  unfoldable pub dispatch : AlertEvent F → Dispatcher F → Dispatcher F × Bool
  dispatch event d =
      if ltb (length d.events) default_buffer_size
      then (record d { events = d.events ++ (event ∷ []) }, true)
      else (d, false)

  unfoldable pub event_key : AlertEvent F → Text
  event_key event = cooldown_key event.rule_id event.instance_id event.severity

  unfoldable pub is_cooling_down : AlertEvent F → ℕ → Dispatcher F → Bool
  unfolding event_key
  is_cooling_down event now d = elim (lookup (event_key event) d.cooldowns) [
    | none ↦ false
    | some last ↦ ltb (now - last) (d.cooldown_minutes * 60_000_000_000)
  ]

  unfoldable pub record_cooldown : AlertEvent F → ℕ → Dispatcher F → Dispatcher F
  unfolding event_key
  record_cooldown event now d = record d { cooldowns = insert (event_key event) now d.cooldowns }

  unfoldable pub resolve_channels : AlertEvent F → Dispatcher F → List Text
  resolve_channels event d = elim event.channels [ [] ↦ d.default_channels | c ∷ cs ↦ c ∷ cs ]

  -- The registered ones of the channels, in turn.
  unfoldable pub send_all : (Text → ℕ → Bool) → List Text → Dispatcher F → List Attempted
  send_all works [] d = []
  send_all works (c ∷ cs) d =
      let rest = send_all works cs d in
      if any (λ n. n =? c) d.notifiers then send_with_retry (works c) c d.retries ∷ rest else rest

  -- What is done with an event that is not suppressed, on its channels.
  unfoldable pub notify :
      (Text → ℕ → Bool) → ℕ → AlertEvent F → List Text → Dispatcher F → Dispatcher F × Processed
  notify works sent_at event [] d = (d, record { attempted = []; hooked = false })
  notify works sent_at event (c ∷ cs) d = (
    if event.is_resolution then d else record_cooldown event sent_at d,
    record { attempted = send_all works (c ∷ cs) d; hooked = true },
  )

  -- `now` is the time of the test of the cooldown, and `sent_at` the time after the notifications.
  unfoldable pub process_event :
      (Text → ℕ → Bool) → ℕ → ℕ → AlertEvent F → Dispatcher F → Dispatcher F × Processed
  unfolding notify
  process_event works now sent_at event d =
      if not event.is_resolution && is_cooling_down event now d
      then (d, record { attempted = []; hooked = false })
      else notify works sent_at event (resolve_channels event d) d

  -- The loop's next turn, which takes the oldest event off the channel; the argument is what the
  -- channel holds.
  unfoldable pub run_once :
      (Text → ℕ → Bool)
      → ℕ
      → ℕ
      → List (AlertEvent F)
      → Dispatcher F
      → Dispatcher F × List (AlertEvent F)
  unfolding process_event
  run_once works now sent_at [] d = (d, [])
  run_once works now sent_at (event ∷ events) d =
      ((process_event works now sent_at event (record d { events = events })).0, event ∷ [])
