-- ===== src/Alert/Evaluator/Forecast/Frame.antt =====
-- What looking at forecasts leaves alone.
use pgpulse.Common.{
  ℕ, ◌≡◌, refl, ap, ◌∙◌, Bool, true, false, Option, none, some, List, [], ◌∷◌, ◌++◌, if◌then◌else◌,
  ◌=?◌,
}
use pgpulse.Common.Text.{Text, text_eq}
use pgpulse.Common.Float.{Float}
use pgpulse.Alert.{Rule, AlertEvent, rule_type_forecast_threshold}
use pgpulse.Alert.Evaluator.Lifecycle.{Evaluator, ForecastPoint, ForecastProvider}
use pgpulse.Alert.Evaluator.Forecast.{
  run_forecast_alerts, run_forecast_rules, run_forecast_rule, raise_forecast, look_ahead,
  cooling_down,
}

module _ {F : Type 0} where
  -- The history grew at its end, and the states of the rules stayed.
  abbrev pub Extends : Evaluator F → Evaluator F → Type 0
  Extends e e' =
      (e'.state ≡ e.state) × (added : List (AlertEvent F)) × (e'.history ≡ e.history ++ added)

  pub append_nil : (xs : List (AlertEvent F)) → xs ≡ xs ++ []
  append_nil [] = refl
  append_nil (x ∷ xs) = ap (λ l. x ∷ l) (append_nil xs)

  pub append_assoc : (xs ys zs : List (AlertEvent F)) → (xs ++ ys) ++ zs ≡ xs ++ (ys ++ zs)
  append_assoc [] ys zs = refl
  append_assoc (x ∷ xs) ys zs = ap (λ l. x ∷ l) (append_assoc xs ys zs)

  pub Extends-refl : (e : Evaluator F) → Extends e e
  Extends-refl e = (refl, [], append_nil e.history)

  pub Extends-trans : (a b c : Evaluator F) → Extends a b → Extends b c → Extends a c
  Extends-trans a b c (s, xs, h) (t, ys, k) =
      (t ∙ s, xs ++ ys, k ∙ ap (λ l. l ++ ys) h ∙ append_assoc a.history xs ys)

  Extends-if :
      (e : Evaluator F) (b : Bool) (x y : Evaluator F)
      → Extends e x
      → Extends e y
      → Extends e (if b then x else y)
  Extends-if e true x y p q = p
  Extends-if e false x y p q = q

module _ {F : Type 0} ⦃f : Float F⦄ (accepts : AlertEvent F → Bool) where
  raise_forecast-Extends :
      (rule : Rule F) (instance_id : Text) (now : ℕ) (value : Option F) (e : Evaluator F)
      → Extends e (raise_forecast accepts rule instance_id now value e)
  unfolding raise_forecast
  raise_forecast-Extends rule instance_id now none e = Extends-refl e
  raise_forecast-Extends rule instance_id now (some value) e = (refl, _, refl)

  look_ahead-Extends :
      (rule : Rule F) (answer : Option (List (ForecastPoint F))) (instance_id : Text) (now : ℕ)
      (e : Evaluator F)
      → Extends e (look_ahead accepts rule answer instance_id now e)
  unfolding look_ahead
  look_ahead-Extends rule none instance_id now e = Extends-refl e
  look_ahead-Extends rule (some points) instance_id now e =
      Extends-if e (cooling_down instance_id rule now e) e _ (Extends-refl e)
        (raise_forecast-Extends rule instance_id now _ e)

  run_forecast_rules-Extends :
      (provider : Text → Text → ℕ → Option (List (ForecastPoint F))) (instance_id : Text) (now : ℕ)
      (rules : List (Rule F)) (e : Evaluator F)
      → Extends e (run_forecast_rules accepts provider instance_id now rules e)
  unfolding run_forecast_rules run_forecast_rule
  run_forecast_rules-Extends provider instance_id now [] e = Extends-refl e
  run_forecast_rules-Extends provider instance_id now (rule ∷ rules) e =
      let e' = run_forecast_rule accepts provider instance_id now rule e in
      Extends-trans e e' (run_forecast_rules accepts provider instance_id now rules e')
        (Extends-if e (rule.rule_type =? rule_type_forecast_threshold) _ e
          (look_ahead-Extends rule _ instance_id now e) (Extends-refl e))
        (run_forecast_rules-Extends provider instance_id now rules e')

  pub run_forecast_alerts-Extends :
      (instance_id : Text) (now : ℕ) (e : Evaluator F)
      → Extends e (run_forecast_alerts accepts instance_id now e)
  unfolding run_forecast_alerts
  run_forecast_alerts-Extends instance_id now e = go e.forecast_provider
    where
      go :
          (p : ForecastProvider F)
          → Extends e (elim p [
            | none ↦ e
            | some provider ↦ run_forecast_rules accepts provider instance_id now e.rules e
          ])
      go none = Extends-refl e
      go (some provider) = run_forecast_rules-Extends provider instance_id now e.rules e
