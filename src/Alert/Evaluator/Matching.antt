-- ===== src/Alert/Evaluator/Matching.antt =====
-- The index of a batch by metric.
use pgpulse.Common.{
  Option, none, some, ◌≡◌, refl, ◌∙◌, sym, ap, Bool, true, ◌&&◌, List, [], ◌∷◌, ◌++◌, arith, ◌=?◌,
  keep, Bool-cases, inl, inr, ◌↔◌,
}
use pgpulse.Common.Text.{Text, text_eq, text_beq_iff}
use pgpulse.Common.Map.{Map, lookup, insert, get_or, get_or-insert}
use pgpulse.Alert.{Rule, MetricPoint}
use pgpulse.Alert.Evaluator.{index_from, index_points, find_matching_points, labels_match}

-- Every label that is asked for is among the actual ones with that value; a missing one reads as the
-- empty text.
abbrev pub HasLabels : Map Text Text → Map Text Text → Type 0
HasLabels [] actual = Unit {0}
HasLabels ((k, v) ∷ asked) actual = (get_or [] k actual ≡ v) × HasLabels asked actual

labels_match-HasLabels :
    (asked actual : Map Text Text) → (labels_match asked actual ≡ true) ↔ HasLabels asked actual
unfolding labels_match
labels_match-HasLabels [] actual = ((λ h. tt), (λ h. refl))
labels_match-HasLabels ((k, v) ∷ asked) actual =
    let (sound, complete) = labels_match-HasLabels asked actual in
    let (same, spelled) = text_beq_iff (get_or [] k actual) v in
    (
      (λ h. (same (ground (arith, h)), sound (ground (arith, h)))),
      (λ h. ground (arith, spelled h.0, complete h.1)),
    )

module _ {F : Type 0} where
  has_metric : Text → MetricPoint F → Bool
  has_metric m p = p.metric =? m

  append_assoc : (xs ys zs : List (MetricPoint F)) → (xs ++ ys) ++ zs ≡ xs ++ (ys ++ zs)
  append_assoc [] ys zs = refl
  append_assoc (x ∷ xs) ys zs = ap (λ l. x ∷ l) (append_assoc xs ys zs)

  append_nil : (xs : List (MetricPoint F)) → xs ++ [] ≡ xs
  append_nil [] = refl
  append_nil (x ∷ xs) = ap (λ l. x ∷ l) (append_nil xs)

  get_or-index_from :
      (m : Text) (index : Map Text (List (MetricPoint F))) (points : List (MetricPoint F))
      → get_or [] m (index_from index points) ≡ get_or [] m index ++ keep (has_metric m) points
  unfolding index_from has_metric
  get_or-index_from m index [] = sym (append_nil _)
  get_or-index_from m index (p ∷ ps) =
      let grown = get_or [] p.metric index ++ (p ∷ []) in
      let ih = get_or-index_from m (insert p.metric grown index) ps in
      let read = get_or-insert [] p.metric m grown index in
      elim (Bool-cases (p.metric =? m)) [
        | inl e ↦ ground (
          arith,
          ih,
          read,
          e,
          text_beq_iff p.metric m,
          append_assoc (get_or [] m index) (p ∷ []) (keep (has_metric m) ps),
        )
        | inr e ↦ ground (arith, ih, read, e)
      ]

  keep-true : (points : List (MetricPoint F)) → keep (λ p. true) points ≡ points
  keep-true [] = refl
  keep-true (p ∷ ps) = ap (λ l. p ∷ l) (keep-true ps)

  keep-keep :
      (p q : MetricPoint F → Bool) (points : List (MetricPoint F))
      → keep q (keep p points) ≡ keep (λ x. p x && q x) points
  keep-keep p q [] = refl
  keep-keep p q (x ∷ xs) = ground (arith, keep-keep p q xs)

  -- Without labels a rule takes every candidate, which its label test does too.
  find_matching_points-get_or :
      (index : Map Text (List (MetricPoint F))) (rule : Rule F)
      → find_matching_points index rule
        ≡ keep (λ p. labels_match rule.labels p.labels) (get_or [] rule.metric index)
  unfolding find_matching_points get_or labels_match
  find_matching_points-get_or index rule = go rule.labels (lookup rule.metric index)
    where
      go :
          (labels : Map Text Text) (found : Option (List (MetricPoint F)))
          → elim found [
            | none ↦ []
            | some ps ↦ elim labels [
              | [] ↦ ps
              | l ∷ ls ↦ keep (λ p. labels_match (l ∷ ls) p.labels) ps
            ]
          ]
            ≡ keep (λ p. labels_match labels p.labels) (elim found [ none ↦ [] | some ps ↦ ps ])
      go labels none = refl
      go [] (some ps) = sym (keep-true ps)
      go (l ∷ ls) (some ps) = refl

  -- A point that a rule is to see.
  abbrev pub Concerns : Rule F → MetricPoint F → Type 0
  Concerns rule p = (p.metric ≡ rule.metric) × HasLabels rule.labels p.labels

  -- The selection of a list by a predicate: what it has is kept in order, the rest is left out.
  pub data Selects (P : MetricPoint F → Type 0)
      : List (MetricPoint F) → List (MetricPoint F) → Type 0 where
    ended : Selects P [] []
    taken :
        (p : MetricPoint F) (ps qs : List (MetricPoint F))
        → P p
        → Selects P ps qs
        → Selects P (p ∷ ps) (p ∷ qs)
    left :
        (p : MetricPoint F) (ps qs : List (MetricPoint F))
        → ¬ P p
        → Selects P ps qs
        → Selects P (p ∷ ps) qs

  pub find_matching_points-keep :
      (points : List (MetricPoint F)) (rule : Rule F)
      → find_matching_points (index_points points) rule
        ≡ keep (λ p. p.metric =? rule.metric && labels_match rule.labels p.labels) points
  unfolding index_points has_metric get_or lookup
  find_matching_points-keep points rule =
      find_matching_points-get_or (index_points points) rule
      ∙ ap (keep (λ p. labels_match rule.labels p.labels)) (get_or-index_from rule.metric [] points)
      ∙ keep-keep (has_metric rule.metric) (λ p. labels_match rule.labels p.labels) points

  keep-Selects :
      (p : MetricPoint F → Bool) (P : MetricPoint F → Type 0)
      → ((x : MetricPoint F) → (p x ≡ true) ↔ P x)
      → (xs : List (MetricPoint F)) → Selects P xs (keep p xs)
  keep-Selects p P iff [] = ended
  keep-Selects p P iff (x ∷ xs) = elim (Bool-cases (p x)) [
    | inl e ↦ rw e (taken x xs (keep p xs) ((iff x).0 e) (keep-Selects p P iff xs))
    | inr e ↦
        rw e (left x xs (keep p xs) (λ h. ground (arith, e, (iff x).1 h)) (keep-Selects p P iff xs))
  ]

  -- The points that a rule sees by the index of a batch are those of the batch that have its metric
  -- and every label of the rule with the rule's value, a missing label read as the empty text; they
  -- stand in the batch's order, as often as there.
  pub find_matching_points-index_points :
      (points : List (MetricPoint F)) (rule : Rule F)
      → Selects (Concerns rule) points (find_matching_points (index_points points) rule)
  find_matching_points-index_points points rule =
      rw (find_matching_points-keep points rule) (keep-Selects _ (Concerns rule) concerned points)
    where
      concerned :
          (p : MetricPoint F)
          → ((p.metric =? rule.metric && labels_match rule.labels p.labels) ≡ true)
            ↔ Concerns rule p
      concerned p =
          let (same, spelled) = text_beq_iff p.metric rule.metric in
          let (sound, complete) = labels_match-HasLabels rule.labels p.labels in
          (
            (λ h. (same (ground (arith, h)), sound (ground (arith, h)))),
            (λ h. ground (arith, spelled h.0, complete h.1)),
          )
