-- ===== src/Settings/Patch.antt =====
-- A difference takes the older capture to the newer one.
use mathlib.Core.Option
use pgpulse.Common.{
  ◌≡◌, ◌≢◌, refl, ◌∙◌, ap, false, Option, none, some, List, [], ◌∷◌, arith, if◌then◌else◌, ◌=?◌,
  All, Bool-cases, inl, inr,
}
use pgpulse.Common.Text.{Text, text_eq, text_beq_iff, text_ltb}
use pgpulse.Common.Map.{lookup}
use pgpulse.Settings.{
  SettingValue, SettingChange, SettingsDiff, Snapshot, append_some, collect, added_entry,
  changed_entry, removed_entry, insert_change, sort_changes, diff_snapshots,
}

-- No name stands twice, as in a map.
abbrev pub Distinct : Snapshot → Type 0
Distinct [] = Unit
Distinct ((name, v) ∷ m) = All (λ e. e.0 ≢ name) m × Distinct m

abbrev pub find : Text → List SettingChange → Option SettingChange
find name [] = none
find name (c ∷ cs) = if c.name =? name then some c else find name cs

abbrev pub setting_of : SettingValue → Text
setting_of v = v.setting

-- The value of a setting that the older capture and the difference give.
abbrev pub patched : Snapshot → SettingsDiff → Text → Option Text
patched older d name = elim (find name d.removed) [
  | some c ↦ none
  | none ↦ elim (find name d.changed) [
    | some c ↦ some c.new_value
    | none ↦ elim (find name d.added) [
      | some c ↦ some c.new_value
      | none ↦ Option.map setting_of (lookup name older)
    ]
  ]
]

text_ltb_irrefl : (s : Text) → text_ltb s s ≡ false
text_ltb_irrefl [] = refl
text_ltb_irrefl (a ∷ s) = ground (arith, text_ltb_irrefl s)

find-insert_change :
    (name : Text) (c : SettingChange) (cs : List SettingChange)
    → find name (insert_change c cs) ≡ find name (c ∷ cs)
unfolding insert_change
find-insert_change name c [] = refl
find-insert_change name c (d ∷ ds) = ground (
  arith,
  find-insert_change name c ds,
  text_beq_iff d.name name,
  text_beq_iff c.name name,
  text_ltb_irrefl name,
)

find-sort_changes :
    (name : Text) (cs : List SettingChange) → find name (sort_changes cs) ≡ find name cs
unfolding sort_changes
find-sort_changes name [] = refl
find-sort_changes name (c ∷ cs) =
    find-insert_change name c (sort_changes cs) ∙ ground (arith, find-sort_changes name cs)

lookup_absent : (name : Text) (m : Snapshot) → All (λ e. e.0 ≢ name) m → lookup name m ≡ none
unfolding lookup
lookup_absent name [] h = refl
lookup_absent name ((j, v) ∷ m) (h, hs) =
    ground (arith, text_beq_iff j name, h, lookup_absent name m hs)

Names : (Text → SettingValue → Option SettingChange) → Type 0
Names entry = (k : Text) (v : SettingValue) (c : SettingChange) → entry k v ≡ some c → c.name ≡ k

-- What the entry of a name gives, if the capture has it.
entry_of :
    (Text → SettingValue → Option SettingChange) → Text → Option SettingValue → Option SettingChange
entry_of entry name none = none
entry_of entry name (some v) = entry name v

find-collect :
    (entry : Text → SettingValue → Option SettingChange)
    → Names entry
    → (name : Text) (m : Snapshot) → Distinct m
    → find name (collect entry m) ≡ entry_of entry name (lookup name m)
unfolding collect append_some lookup entry_of Names
find-collect entry names name [] d = refl
find-collect entry names name ((k, v) ∷ m) (absent, d) = elim (Bool-cases (k =? name)) [
  | inl e ↦
      let same = (text_beq_iff k name).0 e in
      rw e (
        hit same (find-collect entry names name m d) (entry k v) (λ c p. names k v c p)
        ∙ ap (λ n. entry n v) same)
  | inr e ↦ rw e (miss e (entry k v) (λ c p. names k v c p) ∙ find-collect entry names name m d)
]
  where
    hit :
        k ≡ name
        → find name (collect entry m) ≡ entry_of entry name (lookup name m)
        → (found : Option SettingChange) → ((c : SettingChange) → found ≡ some c → c.name ≡ k)
        → find name (append_some found (collect entry m)) ≡ found
    hit same rest none named =
        rest ∙ ap (entry_of entry name) (lookup_absent name m (rw (← same) absent))
    hit same rest (some c) named = ground (arith, named c refl, same, text_beq_iff c.name name)

    miss :
        (k =? name) ≡ false
        → (found : Option SettingChange) → ((c : SettingChange) → found ≡ some c → c.name ≡ k)
        → find name (append_some found (collect entry m)) ≡ find name (collect entry m)
    miss other none named = refl
    miss other (some c) named =
        ground (arith, named c refl, other, text_beq_iff c.name name, text_beq_iff k name)

added_entry-Names : (older : Snapshot) → Names (added_entry older)
unfolding Names added_entry
added_entry-Names older k v c h = ground (arith, h)

changed_entry-Names : (older : Snapshot) → Names (changed_entry older)
unfolding Names changed_entry
changed_entry-Names older k v c h = ground (arith, h)

removed_entry-Names : (newer : Snapshot) → Names (removed_entry newer)
unfolding Names removed_entry
removed_entry-Names newer k v c h = ground (arith, h)

patched-values :
    (older newer : Snapshot) (d : SettingsDiff) (name : Text) (o n : Option SettingValue)
    → lookup name older ≡ o
    → lookup name newer ≡ n
    → find name d.removed ≡ entry_of (removed_entry newer) name o
    → find name d.changed ≡ entry_of (changed_entry older) name n
    → find name d.added ≡ entry_of (added_entry older) name n
    → patched older d name ≡ Option.map setting_of n
unfolding entry_of added_entry changed_entry removed_entry
patched-values older newer d name none none p q r c a = ground (arith, p, q, r, c, a)
patched-values older newer d name none (some w) p q r c a = ground (arith, p, q, r, c, a)
patched-values older newer d name (some v) none p q r c a = ground (arith, p, q, r, c, a)
patched-values older newer d name (some v) (some w) p q r c a =
    ground (arith, p, q, r, c, a, text_beq_iff v.setting w.setting)

-- The older capture with the difference of two captures, in which no name stands twice, gives for
-- every name the value that the newer one has for it, or none if that has none.
pub patched-diff_snapshots :
    (older newer : Snapshot)
    → Distinct older
    → Distinct newer
    → (name : Text)
    → patched older (diff_snapshots older newer) name ≡ Option.map setting_of (lookup name newer)
unfolding diff_snapshots
patched-diff_snapshots older newer d d' name =
    patched-values older newer (diff_snapshots older newer) name (lookup name older)
      (lookup name newer) refl refl
      (find-sort_changes name _
        ∙ find-collect (removed_entry newer) (removed_entry-Names newer) name older d)
      (find-sort_changes name _
        ∙ find-collect (changed_entry older) (changed_entry-Names older) name newer d')
      (find-sort_changes name _
        ∙ find-collect (added_entry older) (added_entry-Names older) name newer d')
