-- ===== src/Settings.antt =====
-- internal/settings/diff.go: what changed between two captures of a server's settings. Each of the two
-- loops is one function for each list that it fills; a nil slice and an empty one are the empty list.
use pgpulse.Common.{Bool, true, false, not, Option, none, some, List, [], ◌∷◌, if◌then◌else◌, ◌=?◌}
use pgpulse.Common.Text.{Text, text_eq, text_ltb, sort_texts}
use pgpulse.Common.Map.{Map, lookup}
pub mod Patch
mod Samples

pub record SettingValue : Type 0 where
  pub setting : Text
  pub unit : Text
  pub source : Text
  pub pending_restart : Bool

pub record SettingChange : Type 0 where
  pub name : Text
  pub old_value : Text
  pub new_value : Text
  pub unit : Text
  pub source : Text

pub record SettingsDiff : Type 0 where
  pub changed : List SettingChange
  pub added : List SettingChange
  pub removed : List SettingChange
  pub pending_restart : List Text

abbrev pub Snapshot : Type 0
Snapshot = Map Text SettingValue

-- What a loop appends for an entry, if it does.
append_some : Option SettingChange → List SettingChange → List SettingChange
append_some none cs = cs
append_some (some c) cs = c ∷ cs

collect : (Text → SettingValue → Option SettingChange) → Snapshot → List SettingChange
unfolding append_some
collect entry [] = []
collect entry ((name, v) ∷ m) = append_some (entry name v) (collect entry m)

added_entry : Snapshot → Text → SettingValue → Option SettingChange
added_entry older name v = elim (lookup name older) [
  | none ↦ some (record {
    name = name;
    old_value = [];
    new_value = v.setting;
    unit = v.unit;
    source = v.source;
  })
  | some old ↦ none
]

changed_entry : Snapshot → Text → SettingValue → Option SettingChange
changed_entry older name v = elim (lookup name older) [
  | none ↦ none
  | some old ↦
      if old.setting =? v.setting
      then none
      else some (record {
        name = name;
        old_value = old.setting;
        new_value = v.setting;
        unit = v.unit;
        source = v.source;
      })
]

removed_entry : Snapshot → Text → SettingValue → Option SettingChange
removed_entry newer name v = elim (lookup name newer) [
  | none ↦
      some (record { name = name; old_value = v.setting; new_value = []; unit = []; source = [] })
  | some new ↦ none
]

pending_of : Snapshot → List Text
pending_of [] = []
pending_of ((name, v) ∷ m) = if v.pending_restart then name ∷ pending_of m else pending_of m

-- sort.Slice by name.
insert_change : SettingChange → List SettingChange → List SettingChange
insert_change c [] = c ∷ []
insert_change c (d ∷ ds) = if text_ltb d.name c.name then d ∷ insert_change c ds else c ∷ d ∷ ds

sort_changes : List SettingChange → List SettingChange
unfolding insert_change
sort_changes [] = []
sort_changes (c ∷ cs) = insert_change c (sort_changes cs)

unfoldable pub diff_snapshots : Snapshot → Snapshot → SettingsDiff
unfolding collect added_entry changed_entry removed_entry pending_of sort_changes
diff_snapshots older newer = record {
  changed = sort_changes (collect (changed_entry older) newer);
  added = sort_changes (collect (added_entry older) newer);
  removed = sort_changes (collect (removed_entry newer) older);
  pending_restart = sort_texts (pending_of newer);
}
