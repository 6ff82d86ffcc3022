-- ===== src/Settings/Samples.antt =====
-- A test of internal/settings/diff.go, and the theorem at concrete inputs.
use mathlib.Core.Option
use pgpulse.Common.{◌≡◌, refl, true, [], ◌∷◌, map, arith}
use pgpulse.Common.Text.{Text, text, text_beq, text_eq}
use pgpulse.Common.Map.{lookup}
use pgpulse.Settings.{SettingValue, Snapshot, diff_snapshots}
use pgpulse.Settings.Patch.{patched, setting_of, patched-diff_snapshots}

abbrev value : Text → SettingValue
value v = record { setting = v; unit = []; source = []; pending_restart = true }

abbrev old : Snapshot
old = (text "b", value (text "1")) ∷ (text "a", value (text "2")) ∷ []

abbrev young : Snapshot
young = (text "c", value (text "3")) ∷ (text "b", value (text "4")) ∷ []

lists :
    (map (λ c. c.name) (diff_snapshots old young).changed ≡ text "b" ∷ [])
    × (map (λ c. c.name) (diff_snapshots old young).added ≡ text "c" ∷ [])
    × (map (λ c. c.name) (diff_snapshots old young).removed ≡ text "a" ∷ [])
    × ((diff_snapshots old young).pending_restart ≡ text "b" ∷ text "c" ∷ [])
unfolding diff_snapshots lookup text text_beq
lists = (refl, refl, refl, refl)

patched-diff_snapshots_example :
    patched old (diff_snapshots old young) (text "b")
    ≡ Option.map setting_of (lookup (text "b") young)
unfolding text
patched-diff_snapshots_example =
    patched-diff_snapshots old young (((λ e. ground (arith, e)), tt), (tt, tt))
      (((λ e. ground (arith, e)), tt), (tt, tt)) (text "b")
