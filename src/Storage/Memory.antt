-- ===== src/Storage/Memory.antt =====
-- internal/storage/memory.go: the store in memory. An instant of 0 is the zero time. sort.Search is a
-- parameter; where the source ranges over a map, the order is that of the list.
use pgpulse.Common.{
  ℕ, zero, suc, ◌+◌, ◌-◌, ◌≤◌, ◌<◌, ◌≡◌, Bool, true, false, not, ◌&&◌, ◌||◌, Option, none, some,
  List, [], ◌∷◌, ◌++◌, if◌then◌else◌, ltb, leb, ◌==◌, ◌=?◌, length, drop, keep, map,
}
use pgpulse.Common.Text.{Text, text, text_eq, has_prefix, sort_texts}
use pgpulse.Common.Map.{Map, lookup, insert, delete, get_or}
use pgpulse.Common.Sorting.{Sorting}
pub mod Search
pub mod Expiry

pub record MetricPoint (F : Type 0) : Type 0 where
  pub instance_id : Text
  pub metric : Text
  pub value : F
  pub labels : Map Text Text
  pub timestamp : ℕ

pub record MetricQuery : Type 0 where
  pub instance_id : Text
  pub metric : Text
  pub labels : Map Text Text
  pub start : ℕ
  pub end : ℕ
  pub limit : ℕ

-- `series` is the map `data`.
pub record MemoryStore (F : Type 0) : Type 0 where
  pub retention : ℕ
  pub series : Map Text (List (MetricPoint F))

label_texts : Map Text Text → List Text → Text
label_texts labels [] = []
label_texts labels (k ∷ []) = k ++ text "=" ++ get_or [] k labels
label_texts labels (k ∷ j ∷ ks) =
    k ++ text "=" ++ get_or [] k labels ++ text "," ++ label_texts labels (j ∷ ks)

unfoldable pub storage_key : Text → Text → Map Text Text → Text
unfolding label_texts
storage_key instance_id metric labels =
    instance_id ++ (0 ∷ metric) ++ (0 ∷ label_texts labels (sort_texts (map (λ l. l.0) labels)))

unfoldable pub match_labels : Map Text Text → Map Text Text → Bool
match_labels point_labels [] = true
match_labels point_labels ((k, v) ∷ query_labels) =
    get_or [] k point_labels =? v && match_labels point_labels query_labels

-- What stands before the next zero byte.
until_nul : Text → Text
until_nul [] = []
until_nul (c ∷ cs) = if c == 0 then [] else c ∷ until_nul cs

-- The second part of `strings.SplitN(key, "\x00", 3)`, where there is one.
unfoldable pub second_part : Text → Option Text
unfolding until_nul
second_part [] = none
second_part (c ∷ cs) = if c == 0 then some (until_nul cs) else second_part cs

unfoldable pub key_matches : MetricQuery → Text → Bool
unfolding second_part
key_matches query key =
    (query.instance_id =? [] || has_prefix key (query.instance_id ++ (0 ∷ [])))
    && (query.metric =? []
        || (elim (second_part key) [ none ↦ false | some metric ↦ metric =? query.metric ]))

module _ {F : Type 0} where
  unfoldable pub write_points :
      List (MetricPoint F) → Map Text (List (MetricPoint F)) → Map Text (List (MetricPoint F))
  unfolding storage_key
  write_points [] series = series
  write_points (p ∷ ps) series =
      let key = storage_key p.instance_id p.metric p.labels in
      write_points ps (insert key (get_or [] key series ++ (p ∷ [])) series)

  unfoldable pub write : List (MetricPoint F) → MemoryStore F → MemoryStore F
  unfolding write_points
  write points m = record m { series = write_points points m.series }

  unfoldable pub point_matches : MetricQuery → MetricPoint F → Bool
  unfolding match_labels
  point_matches query p =
      not (ltb 0 query.start && ltb p.timestamp query.start)
      && (not (ltb 0 query.end && ltb query.end p.timestamp)
          && (ltb (length query.labels) 1 || match_labels p.labels query.labels))

  unfoldable pub collect_points :
      MetricQuery → Map Text (List (MetricPoint F)) → List (MetricPoint F)
  unfolding key_matches point_matches
  collect_points query [] = []
  collect_points query ((key, points) ∷ series) =
      let rest = collect_points query series in
      if key_matches query key then keep (point_matches query) points ++ rest else rest

  -- The last ones, as many as the limit.
  unfoldable pub limited : ℕ → List (MetricPoint F) → List (MetricPoint F)
  limited limit results =
      if ltb 0 limit && ltb limit (length results)
      then drop (length results - limit) results
      else results

  unfoldable pub query : Sorting → MetricQuery → MemoryStore F → List (MetricPoint F)
  unfolding collect_points limited
  query sorting q m =
      limited q.limit
        (sorting.sort_slice (λ a b. ltb a.timestamp b.timestamp) (collect_points q m.series))

  -- `points[i].Timestamp`, which sort.Search asks for within the slice only.
  unfoldable pub timestamp_at : ℕ → List (MetricPoint F) → ℕ
  timestamp_at i [] = 0
  timestamp_at zero (p ∷ ps) = p.timestamp
  timestamp_at (suc i) (p ∷ ps) = timestamp_at i ps

  unfoldable pub expire_points :
      (ℕ → (ℕ → Bool) → ℕ) → ℕ → List (MetricPoint F) → List (MetricPoint F)
  unfolding timestamp_at
  expire_points search cutoff points =
      drop (search (length points) (λ i. not (ltb (timestamp_at i points) cutoff))) points

  -- The loop over the keys: a key without points left is deleted.
  unfoldable pub expire_data :
      (ℕ → (ℕ → Bool) → ℕ) → ℕ → Map Text (List (MetricPoint F)) → Map Text (List (MetricPoint F))
  unfolding timestamp_at expire_points
  expire_data search cutoff [] = []
  expire_data search cutoff ((key, points) ∷ series) =
      let rest = expire_data search cutoff series in
      if leb (length points)
        (search (length points) (λ i. not (ltb (timestamp_at i points) cutoff)))
      then rest
      else (key, expire_points search cutoff points) ∷ rest

  unfoldable pub expire : (ℕ → (ℕ → Bool) → ℕ) → ℕ → MemoryStore F → MemoryStore F
  unfolding expire_data
  expire search now m = record m { series = expire_data search (now - m.retention) m.series }
