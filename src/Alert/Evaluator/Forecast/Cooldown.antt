-- ===== src/Alert/Evaluator/Forecast/Cooldown.antt =====
-- How often a forecast can fire.
use pgpulse.Common.Text.{Text, text_eq}
use pgpulse.Common.Float.{Float}
use pgpulse.Alert.Evaluator.Lifecycle.{Evaluator}
