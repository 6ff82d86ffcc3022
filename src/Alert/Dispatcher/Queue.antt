-- ===== src/Alert/Dispatcher/Queue.antt =====
-- What becomes of the events that the dispatcher accepts.
use pgpulse.Common.{
  ℕ, ◌≤◌, ◌≡◌, refl, sym, ap, ◌∙◌, Bool, List, [], ◌∷◌, ◌++◌, arith, if◌then◌else◌, length,
  length-append, ltb, Bool-cases, inl, inr,
}
use pgpulse.Common.Text.{Text}
use pgpulse.Alert.{AlertEvent}
use pgpulse.Alert.Dispatcher.{
  Dispatcher, default_buffer_size, dispatch, run_once, process_event, notify, record_cooldown,
  resolve_channels,
}

pub data Step (F : Type 0) : Type 0 where
  dispatched : AlertEvent F → Step F
  ran : (Text → ℕ → Bool) → ℕ → ℕ → Step F

-- The dispatcher, with the events that it accepted and those that it took off the channel.
pub record Traced (F : Type 0) : Type 0 where
  pub dispatcher : Dispatcher F
  pub accepted : List (AlertEvent F)
  pub taken : List (AlertEvent F)

module _ {F : Type 0} where
  append_assoc : (xs ys zs : List (AlertEvent F)) → (xs ++ ys) ++ zs ≡ xs ++ (ys ++ zs)
  append_assoc [] ys zs = refl
  append_assoc (x ∷ xs) ys zs = ap (λ l. x ∷ l) (append_assoc xs ys zs)

  unfoldable pub trace : Step F → Traced F → Traced F
  trace (dispatched event) t =
      let (d, took) = dispatch event t.dispatcher in
      record {
        dispatcher = d;
        accepted = t.accepted ++ (if took then event ∷ [] else []);
        taken = t.taken;
      }
  trace (ran works now sent_at) t =
      let (d, done) = run_once works now sent_at t.dispatcher.events t.dispatcher in
      record { dispatcher = d; accepted = t.accepted; taken = t.taken ++ done }

  unfoldable pub traces : List (Step F) → Traced F → Traced F
  unfolding trace
  traces [] t = t
  traces (s ∷ ss) t = traces ss (trace s t)

  Ordered : Traced F → Type 0
  Ordered t =
      (t.accepted ≡ t.taken ++ t.dispatcher.events)
      × (length t.dispatcher.events ≤ default_buffer_size)

  append_nil : (xs : List (AlertEvent F)) → xs ++ [] ≡ xs
  append_nil [] = refl
  append_nil (x ∷ xs) = ap (λ l. x ∷ l) (append_nil xs)

  notify-events :
      (works : Text → ℕ → Bool) (sent_at : ℕ) (event : AlertEvent F) (cs : List Text)
      (d : Dispatcher F)
      → (notify works sent_at event cs d).0.events ≡ d.events
  unfolding notify record_cooldown
  notify-events works sent_at event [] d = refl
  notify-events works sent_at event (c ∷ cs) d = ground arith

  process_event-events :
      (works : Text → ℕ → Bool) (now sent_at : ℕ) (event : AlertEvent F) (d : Dispatcher F)
      → (process_event works now sent_at event d).0.events ≡ d.events
  unfolding process_event
  process_event-events works now sent_at event d =
      ground (arith, notify-events works sent_at event (resolve_channels event d) d)

  trace-Ordered : (s : Step F) (t : Traced F) → Ordered t → Ordered (trace s t)
  unfolding trace Ordered dispatch run_once
  trace-Ordered (dispatched event) t (same, short) =
      elim (Bool-cases (ltb (length t.dispatcher.events) default_buffer_size)) [
        | inl e ↦ rw e (
          ap (λ l. l ++ (event ∷ [])) same ∙ append_assoc t.taken t.dispatcher.events (event ∷ []),
          ground (arith, e, length-append t.dispatcher.events (event ∷ [])),
        )
        | inr e ↦ rw e (append_nil t.accepted ∙ same, short)
      ]
  trace-Ordered (ran works now sent_at) t (same, short) = go t.dispatcher.events refl same short
    where
      go :
          (events : List (AlertEvent F))
          → t.dispatcher.events ≡ events
          → t.accepted ≡ t.taken ++ events
          → length events ≤ default_buffer_size
          → let r = run_once works now sent_at events t.dispatcher in
            (t.accepted ≡ (t.taken ++ r.1) ++ r.0.events)
            × (length r.0.events ≤ default_buffer_size)
      go [] e same short = rw e (same ∙ sym (append_nil (t.taken ++ [])), short)
      go (event ∷ events) e same short =
          let left =
            process_event-events works now sent_at event
              (record t.dispatcher { events = events }) in
          rw left (same ∙ sym (append_assoc t.taken (event ∷ []) events), omega (arith, short))

  -- In any sequence of dispatches and turns of the loop, from a dispatcher with an empty channel
  -- on, the events that were accepted are those that were taken off the channel and after them
  -- those that wait in it, in the same order, and no more than 100 wait.
  pub traces-Ordered :
      (ss : List (Step F)) (d : Dispatcher F)
      → d.events ≡ []
      → let t = traces ss (record { dispatcher = d; accepted = []; taken = [] }) in
        (t.accepted ≡ t.taken ++ t.dispatcher.events)
        × (length t.dispatcher.events ≤ default_buffer_size)
  unfolding Ordered traces
  traces-Ordered ss d empty =
      all ss (record { dispatcher = d; accepted = []; taken = [] })
        (sym empty, ground (arith, empty))
    where
      all : (rest : List (Step F)) (t : Traced F) → Ordered t → Ordered (traces rest t)
      all [] t h = h
      all (s ∷ rest) t h = all rest (trace s t) (trace-Ordered s t h)
