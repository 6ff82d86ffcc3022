-- ===== src/Alert/Evaluator/Restart.antt =====
-- What a restart makes of the alerts that were firing.
use pgpulse.Common.{
  suc, ◌≡◌, refl, ap, ◌∙◌, false, List, [], ◌∷◌, ◌++◌, map, arith, if◌then◌else◌, ◌=?◌, All, length,
  Bool-cases, inl, inr, ◌==◌, ◌≢◌, ◌&&◌,
}
use pgpulse.Common.Text.{Text, text_eq, text_beq_iff, sort_texts, insert_text}
use pgpulse.Common.Map.{Map, get_or, get_or-insert}
use pgpulse.Alert.{Rule, AlertEvent, StateEntry, state_firing}
use pgpulse.Alert.Evaluator.{state_key, state_key_with_labels, append_labels, fresh_entry}
use pgpulse.Alert.Evaluator.Lifecycle.{Evaluator, restore_state, restored_entry}

length-insert_text : (s : Text) (ss : List Text) → length (insert_text s ss) ≡ suc (length ss)
length-insert_text s [] = refl
length-insert_text s (t ∷ ts) = ground (arith, length-insert_text s ts)

length-sort_texts : (ss : List Text) → length (sort_texts ss) ≡ length ss
length-sort_texts [] = refl
length-sort_texts (s ∷ ss) =
    length-insert_text s (sort_texts ss) ∙ ap (λ n. suc n) (length-sort_texts ss)

length-map : {A B : Type 0} (g : A → B) (xs : List A) → length (map g xs) ≡ length xs
length-map g [] = refl
length-map g (x ∷ xs) = ap (λ n. suc n) (length-map g xs)

append_assoc : (xs ys zs : Text) → (xs ++ ys) ++ zs ≡ xs ++ (ys ++ zs)
append_assoc [] ys zs = refl
append_assoc (x ∷ xs) ys zs = ap (λ l. x ∷ l) (append_assoc xs ys zs)

-- A text without a colon, which parts the ids in a key.
abbrev pub Plain : Text → Type 0
Plain s = All (λ c. c ≢ b':') s

-- Two texts that go on with their first colon there are the same up to it and after it.
Plain-split :
    (a b x y : Text) → Plain a → Plain b → a ++ (b':' ∷ x) ≡ b ++ (b':' ∷ y) → (a ≡ b) × (x ≡ y)
Plain-split [] [] x y p q e = (refl, cc)
Plain-split [] (d ∷ b) x y p (ne, q) e = absurd (ne cc)
Plain-split (c ∷ a) [] x y (ne, p) q e = absurd (ne cc)
Plain-split (c ∷ a) (d ∷ b) x y (n, p) (m, q) e =
    let (same, rest) = Plain-split a b x y p q cc in (cc, rest)

-- A key with labels goes on with a colon.
append_labels_colon :
    (key : Text) (labels : Map Text Text) (k : Text) (ks : List Text)
    → (rest : Text) × (append_labels key labels (k ∷ ks) ≡ key ++ (b':' ∷ rest))
unfolding append_labels
append_labels_colon key labels k ks = go key (k ++ (b'=' ∷ get_or [] k labels)) ks
  where
    go :
        (start own : Text) (ks : List Text)
        → (rest : Text) × (append_labels (start ++ (b':' ∷ own)) labels ks ≡ start ++ (b':' ∷ rest))
    go start own [] = (own, refl)
    go start own (j ∷ js) =
        let more = b':' ∷ (j ++ (b'=' ∷ get_or [] j labels)) in
        let (rest, same) = go start (own ++ more) js in
        (rest, ap (λ s. append_labels s labels js) (append_assoc start (b':' ∷ own) more) ∙ same)

-- Keys of plain rule ids are the same exactly when both their ids are.
state_key_iff :
    (r i r' i' : Text)
    → Plain r
    → Plain r'
    → (state_key r i =? state_key r' i') ≡ (r =? r' && i =? i')
unfolding state_key
state_key_iff r i r' i' p p' = elim (Bool-cases (state_key r i =? state_key r' i')) [
  | inl e ↦
      let (same, also) =
        Plain-split r r' i i' p p' ((text_beq_iff (state_key r i) (state_key r' i')).0 e) in
      ground (arith, e, (text_beq_iff r r').1 same, (text_beq_iff i i').1 also)
  | inr e ↦ ground (
    arith,
    e,
    text_beq_iff r r',
    text_beq_iff i i',
    text_beq_iff (state_key r i) (state_key r' i'),
    both,
  )
]
  where
    both : (r ≡ r') → (i ≡ i') → (r ++ (b':' ∷ i)) ≡ (r' ++ (b':' ∷ i'))
    both e f = cc

Plain-no_colon : (s t rest : Text) → Plain s → s ≢ t ++ (b':' ∷ rest)
Plain-no_colon [] [] rest p e = cc
Plain-no_colon [] (d ∷ t) rest p e = cc
Plain-no_colon (c ∷ s) [] rest (n, p) e = n cc
Plain-no_colon (c ∷ s) (d ∷ t) rest (n, p) e = Plain-no_colon s t rest p cc

-- A key of plain ids is none that goes on with a colon.
state_key_colon :
    (r i r' i' rest : Text)
    → Plain r
    → Plain i
    → Plain r'
    → (state_key r i =? (state_key r' i' ++ (b':' ∷ rest))) ≡ false
unfolding state_key
state_key_colon r i r' i' rest p q p' =
    let long = state_key r' i' ++ (b':' ∷ rest) in
    elim (Bool-cases (state_key r i =? long)) [
      | inl e ↦
          let equal = (text_beq_iff (state_key r i) long).0 e in
          let split =
            Plain-split r r' i (i' ++ (b':' ∷ rest)) p p'
              (equal ∙ append_assoc r' (b':' ∷ i') (b':' ∷ rest)) in
          absurd (Plain-no_colon i i' rest q split.1)
      | inr e ↦ e
    ]

module _ {F : Type 0} where
  -- The entry of a rule on an instance that fires since an event.
  abbrev pub firing_since : AlertEvent F → StateEntry
  firing_since v = record {
    state = state_firing;
    consecutive_count = 0;
    fired_at = v.fired_at;
    last_notified_at = v.fired_at;
    severity = v.severity;
  }

  -- The entry that the last of the events of a rule on an instance stands for.
  abbrev pub latest : Text → Text → StateEntry → List (AlertEvent F) → StateEntry
  latest rule_id instance_id d [] = d
  latest rule_id instance_id d (v ∷ vs) =
      latest rule_id instance_id
        (if v.rule_id =? rule_id && v.instance_id =? instance_id then firing_since v else d) vs

  -- The ids of the events have no colon.
  abbrev pub PlainIds : List (AlertEvent F) → Type 0
  PlainIds = All (λ v. Plain v.rule_id × Plain v.instance_id)

  restore_state-latest :
      (rule_id instance_id key : Text) (events : List (AlertEvent F)) (e : Evaluator F)
      → All
          (λ v.
            (state_key v.rule_id v.instance_id =? key)
            ≡ (v.rule_id =? rule_id && v.instance_id =? instance_id))
          events
      → get_or fresh_entry key (restore_state events e).state
        ≡ latest rule_id instance_id (get_or fresh_entry key e.state) events
  unfolding restore_state
  restore_state-latest rule_id instance_id key [] e h = refl
  restore_state-latest rule_id instance_id key (v ∷ vs) e (h, hs) =
      restore_state-latest rule_id instance_id key vs _ hs
      ∙ ap (λ s. latest rule_id instance_id s vs)
          (get_or-insert fresh_entry (state_key v.rule_id v.instance_id) key (restored_entry v)
              e.state
            ∙ ap (λ b. if b then restored_entry v else get_or fresh_entry key e.state) h)

  restore_state-misses :
      (key : Text) (events : List (AlertEvent F)) (e : Evaluator F)
      → All (λ v. (state_key v.rule_id v.instance_id =? key) ≡ false) events
      → get_or fresh_entry key (restore_state events e).state ≡ get_or fresh_entry key e.state
  unfolding restore_state
  restore_state-misses key [] e h = refl
  restore_state-misses key (v ∷ vs) e (h, hs) =
      restore_state-misses key vs _ hs
      ∙ get_or-insert fresh_entry (state_key v.rule_id v.instance_id) key (restored_entry v) e.state
      ∙ ap (λ b. if b then restored_entry v else get_or fresh_entry key e.state) h

  same_keys :
      (rule_id instance_id : Text) (events : List (AlertEvent F))
      → Plain rule_id
      → PlainIds events
      → All
          (λ v.
            (state_key v.rule_id v.instance_id =? state_key rule_id instance_id)
            ≡ (v.rule_id =? rule_id && v.instance_id =? instance_id))
          events
  same_keys rule_id instance_id [] p h = tt
  same_keys rule_id instance_id (v ∷ vs) p ((q, r), hs) = (
    state_key_iff v.rule_id v.instance_id rule_id instance_id q p,
    same_keys rule_id instance_id vs p hs,
  )

  other_keys :
      (rule_id instance_id rest : Text) (events : List (AlertEvent F))
      → Plain rule_id
      → Plain instance_id
      → PlainIds events
      → All
          (λ v.
            (state_key v.rule_id v.instance_id =? (state_key rule_id instance_id ++ (b':' ∷ rest)))
            ≡ false)
          events
  other_keys rule_id instance_id rest [] p i h = tt
  other_keys rule_id instance_id rest (v ∷ vs) p i ((q, r), hs) = (
    state_key_colon v.rule_id v.instance_id rule_id instance_id rest q r p,
    other_keys rule_id instance_id rest vs p i hs,
  )

  -- After a restart with any unresolved events, in whose ids there is no colon, the evaluator goes on
  -- for a rule on an instance, whose ids have none either, with the following entry. If the rule has
  -- no labels, it is the firing state that the last of the events of this rule on this instance
  -- stands for, with its time and severity, or as before if there is no such event. If the rule has
  -- labels it is as before: nothing is restored.
  pub restore_state_lem :
      (rule : Rule F) (instance_id : Text) (events : List (AlertEvent F)) (e : Evaluator F)
      → Plain rule.id
      → Plain instance_id
      → PlainIds events
      → let key = state_key_with_labels rule.id instance_id rule.labels in
        let before = get_or fresh_entry key e.state in
        get_or fresh_entry key (restore_state events e).state
        ≡ (if length rule.labels == 0 then latest rule.id instance_id before events else before)
  unfolding state_key_with_labels append_labels state_key
  restore_state_lem rule instance_id events e p i h =
      go rule.labels (sort_texts (map (λ l. l.0) rule.labels)) refl
        (length-sort_texts (map (λ l. l.0) rule.labels) ∙ length-map (λ l. l.0) rule.labels)
    where
      go :
          (labels : Map Text Text) (names : List Text)
          → labels ≡ rule.labels
          → length names ≡ length labels
          → let key = append_labels (state_key rule.id instance_id) labels names in
            let before = get_or fresh_entry key e.state in
            get_or fresh_entry key (restore_state events e).state
            ≡ (if length labels == 0 then latest rule.id instance_id before events else before)
      go [] [] same n =
          restore_state-latest rule.id instance_id (state_key rule.id instance_id) events e
            (same_keys rule.id instance_id events p h)
      go [] (k ∷ ks) same n = absurd (omega arith)
      go (l ∷ ls) [] same n = absurd (omega arith)
      go (l ∷ ls) (k ∷ ks) same n =
          let (rest, colon) = append_labels_colon (state_key rule.id instance_id) (l ∷ ls) k ks in
          rw colon (
            restore_state-misses (state_key rule.id instance_id ++ (b':' ∷ rest)) events e
              (other_keys rule.id instance_id rest events p i h)
            ∙ ground arith)
