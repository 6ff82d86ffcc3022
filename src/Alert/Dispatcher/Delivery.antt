-- ===== src/Alert/Dispatcher/Delivery.antt =====
-- What is sent, how often, and what the cooldown holds back.
use pgpulse.Common.{
  ℕ, zero, suc, ◌+◌, ◌*◌, ◌≤◌, ◌<◌, ◌≡◌, refl, ◌∙◌, ap, Bool, true, false, List, [], ◌∷◌, arith,
  Bool-cases, inl, inr, ◌≢◌, any, ◌-◌,
}
use pgpulse.Common.Text.{Text, text_eq, text_beq_iff}
use pgpulse.Common.Map.{lookup-insert}
use pgpulse.Alert.{AlertEvent}
use pgpulse.Alert.Dispatcher.{
  Dispatcher, send_from, send_with_retry, max_attempts, event_key, is_cooling_down, record_cooldown,
  resolve_channels, process_event, any, notify,
}

-- `start`, `start + 1` and so on, `n` of them.
abbrev pub from : ℕ → ℕ → List ℕ
from start zero = []
from start (suc n) = start ∷ from (suc start) n

send_from_lem :
    (works : ℕ → Bool) (channel : Text) (attempt left : ℕ)
    → let a = send_from works channel attempt (suc left) in
      (a.sent ≡ any works (from attempt (suc left)))
      × (failed : ℕ) × (a.attempts ≡ suc (attempt + failed))
      × (failed ≤ left)
      × (any works (from attempt failed) ≡ false)
      × (works (attempt + failed) ≡ a.sent)
unfolding send_from
send_from_lem works channel attempt zero = elim (Bool-cases (works attempt)) [
  | inl e ↦ rw e (refl, 0, omega arith, omega arith, refl, ap works (omega arith) ∙ e)
  | inr e ↦ rw e (refl, 0, omega arith, omega arith, refl, ap works (omega arith) ∙ e)
]
send_from_lem works channel attempt (suc left) =
    let (sent, failed, count, few, none_worked, last) =
      send_from_lem works channel (suc attempt) left in
    elim (Bool-cases (works attempt)) [
      | inl e ↦ rw e (refl, 0, omega arith, omega arith, refl, ap works (omega arith) ∙ e)
      | inr e ↦ rw e (
        sent,
        suc failed,
        omega (arith, count),
        omega (arith, few),
        ground (arith, e, none_worked),
        ap works (omega arith) ∙ last,
      )
    ]

-- A notifier is tried at least once and at most as often as there are delays, up to the first attempt
-- that works and never after it; the event counts as sent exactly if one of the possible attempts
-- works.
pub send_with_retry_lem :
    (works : ℕ → Bool) (channel : Text) (retries : ℕ)
    → let a = send_with_retry works channel retries in
      (a.sent ≡ any works (from 0 (max_attempts retries)))
      × (failed : ℕ) × (a.attempts ≡ suc failed)
      × (suc failed ≤ max_attempts retries)
      × (any works (from 0 failed) ≡ false)
      × (works failed ≡ a.sent)
unfolding send_with_retry
send_with_retry_lem works channel retries =
    go (max_attempts retries) (max_attempts retries - 1) (ground arith)
  where
    go :
        (m left : ℕ)
        → m ≡ suc left
        → let a = send_from works channel 0 m in
          (a.sent ≡ any works (from 0 m))
          × (failed : ℕ) × (a.attempts ≡ suc failed)
          × (suc failed ≤ m)
          × (any works (from 0 failed) ≡ false)
          × (works failed ≡ a.sent)
    go m left e =
        let (sent, failed, count, few, none_worked, last) = send_from_lem works channel 0 left in
        rw e (
          sent,
          failed,
          omega (arith, count),
          omega (arith, few),
          none_worked,
          ap works (omega arith) ∙ last,
        )

module _ {F : Type 0} where
  recorded_cooling :
      (event event' : AlertEvent F) (sent_at later : ℕ) (d : Dispatcher F)
      → event_key event ≡ event_key event'
      → sent_at ≤ later
      → later < sent_at + d.cooldown_minutes * 60_000_000_000
      → is_cooling_down event' later (record_cooldown event sent_at d) ≡ true
  unfolding is_cooling_down record_cooldown
  recorded_cooling event event' sent_at later d same le lt = ground (
    arith,
    lookup-insert (event_key event) (event_key event') sent_at d.cooldowns,
    text_beq_iff (event_key event) (event_key event'),
  )

  notify-record_cooldown :
      (works : Text → ℕ → Bool) (sent_at : ℕ) (event : AlertEvent F) (cs : List Text)
      (d : Dispatcher F)
      → event.is_resolution ≡ false
      → cs ≢ []
      → (notify works sent_at event cs d).0 ≡ record_cooldown event sent_at d
  unfolding notify
  notify-record_cooldown works sent_at event [] d r ne = absurd (ne refl)
  notify-record_cooldown works sent_at event (c ∷ cs) d r ne = ground arith

  -- Once an event that is no resolution and is not held back itself has been sent, with some
  -- channel to send it on, an event of the same rule, instance and severity that is no resolution
  -- is not sent and changes nothing until the dispatcher's cooldown is over, which is one for all
  -- rules.
  pub process_event_cools :
      (works works' : Text → ℕ → Bool) (now sent_at later later' : ℕ) (event event' : AlertEvent F)
      (d : Dispatcher F)
      → event.is_resolution ≡ false
      → event'.is_resolution ≡ false
      → is_cooling_down event now d ≡ false
      → resolve_channels event d ≢ []
      → event_key event ≡ event_key event'
      → sent_at ≤ later
      → later < sent_at + d.cooldown_minutes * 60_000_000_000
      → let d' = (process_event works now sent_at event d).0 in
        process_event works' later later' event' d'
        ≡ (d', record { attempted = []; hooked = false })
  unfolding process_event
  process_event_cools works works' now sent_at later later' event event' d r r' c ch same le lt =
      let noted = notify-record_cooldown works sent_at event (resolve_channels event d) d r ch in
      let cooling = recorded_cooling event event' sent_at later d same le lt in
      ground (arith, noted, cooling)
