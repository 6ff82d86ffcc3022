-- ===== src/Rca/Evidence.antt =====
-- internal/rca/engine.go: the evidence for one edge. math.Exp and the verb %.2f of fmt are parameters;
-- fmt.Sprintf of strings is their concatenation.
use pgpulse.Common.{
  ℕ, ◌+◌, ◌-◌, ◌*◌, ◌/◌, ◌&&◌, ◌||◌, Option, none, some, List, [], ◌∷◌, ◌++◌, if◌then◌else◌, ltb,
  leb, ◌=?◌, any,
}
use pgpulse.Common.Text.{Text, text, text_eq, has_prefix}
use pgpulse.Common.Map.{Map, lookup}
use pgpulse.Common.Float.{Float, decimal}
use pgpulse.Rca.Graph.{CausalNode, CausalEdge, evidence_required, evidence_supporting}
use pgpulse.Rca.Ontology.Keys.{
  rc_bulk_workload, rc_inactive_slot, rc_long_transaction, rc_long_tx_blocking, rc_missing_index,
  rc_wraparound_risk, rc_connection_spike, rc_os_memory_pressure, rc_buffer_eviction,
  rc_dead_tuples, rc_pgss_fill, rc_network_issue, rc_query_regression, rc_new_query,
  rc_config_change,
}
use pgpulse.Rca.Durations.{second}
use pgpulse.Rca.Events.{AnomalyEvent, TimelineEvent, SettingChange}
-- mk[:len(p)] == p behind the test on the length.
pub mod Strongest
pub mod Maximum

abbrev high_prefixes : List Text
high_prefixes =
    text "pg.connections."
    ∷ text "pg.locks."
    ∷ text "pg.wait_events."
    ∷ text "pg.long_transactions."
    ∷ []

abbrev low_prefixes : List Text
low_prefixes = text "pg.server." ∷ text "pg.extensions." ∷ []

group_of_keys : List Text → Text
group_of_keys [] = text "medium"
group_of_keys (mk ∷ mks) =
    let rest = group_of_keys mks in
    if any (λ p. has_prefix mk p) high_prefixes
    then text "high"
    else if any (λ p. has_prefix mk p) low_prefixes
    then text "low"
    else rest

unfoldable pub node_collection_group : CausalNode → Text
unfolding group_of_keys
node_collection_group node = group_of_keys node.metric_keys

unfoldable pub collection_jitter : CausalNode → ℕ
unfolding node_collection_group
collection_jitter node =
    let group = node_collection_group node in
    if group =? text "high"
    then 15 * second
    else if group =? text "medium"
    then 90 * second
    else if group =? text "low"
    then 450 * second
    else 90 * second

unfoldable pub node_role : CausalNode → Text
node_role node =
    if node.symptom_key =? []
    then if node.mechanism_key =? [] then text "root_cause" else text "intermediate"
    else text "symptom"

abbrev root_cause_keys : Map Text Text
root_cause_keys =
    (text "bulk_workload", rc_bulk_workload)
    ∷ (text "inactive_slot", rc_inactive_slot)
    ∷ (text "long_tx_primary", rc_long_transaction)
    ∷ (text "long_tx", rc_long_transaction)
    ∷ (text "long_tx_blocking", rc_long_tx_blocking)
    ∷ (text "missing_index", rc_missing_index)
    ∷ (text "wraparound_risk", rc_wraparound_risk)
    ∷ (text "connection_spike", rc_connection_spike)
    ∷ (text "os_memory_pressure", rc_os_memory_pressure)
    ∷ (text "buffer_eviction", rc_buffer_eviction)
    ∷ (text "lock_contention", rc_long_transaction)
    ∷ (text "autovacuum_storm", rc_dead_tuples)
    ∷ (text "temp_file_spike", rc_bulk_workload)
    ∷ (text "dead_tuples", rc_dead_tuples)
    ∷ (text "pgss_fill", rc_pgss_fill)
    ∷ (text "wal_generation", rc_bulk_workload)
    ∷ (text "network_issue", rc_network_issue)
    ∷ (text "query_regression", rc_query_regression)
    ∷ (text "new_query", rc_new_query)
    ∷ (text "settings_change", rc_config_change)
    ∷ []

unfoldable pub node_root_cause_key : Text → Text
node_root_cause_key node_id = elim (lookup node_id root_cause_keys) [ none ↦ [] | some key ↦ key ]

-- The change that the loop holds as the latest.
unfoldable pub latest_change : SettingChange → List SettingChange → SettingChange
latest_change latest [] = latest
latest_change latest (ch ∷ chs) =
    latest_change (if ltb latest.changed_at ch.changed_at then ch else latest) chs

-- `changes[0]` and the loop over `changes[1:]`.
unfoldable pub latest_of : List SettingChange → Option SettingChange
unfolding latest_change
latest_of [] = none
latest_of (ch ∷ chs) = some (latest_change ch chs)

module _ {F : Type 0} where
  -- A key that the map lacks is passed over.
  unfoldable pub events_of : Option (List (AnomalyEvent F)) → List (AnomalyEvent F)
  events_of none = []
  events_of (some evs) = evs

module _ {F : Type 0} ⦃f : Float F⦄ where
  unfoldable pub better : Option (AnomalyEvent F) → AnomalyEvent F → Option (AnomalyEvent F)
  better none ev = some ev
  better (some b) ev = if f.lt b.strength ev.strength then some ev else some b

  -- The loop body, on the strongest anomaly so far.
  unfoldable pub stronger :
      ℕ → ℕ → Option (AnomalyEvent F) → AnomalyEvent F → Option (AnomalyEvent F)
  unfolding better
  stronger start end best ev =
      if ltb ev.timestamp start || ltb end ev.timestamp then best else better best ev

  unfoldable pub strongest_in :
      ℕ → ℕ → Option (AnomalyEvent F) → List (AnomalyEvent F) → Option (AnomalyEvent F)
  unfolding stronger
  strongest_in start end best [] = best
  strongest_in start end best (ev ∷ evs) = strongest_in start end (stronger start end best ev) evs

  unfoldable pub strongest_of :
      Map Text (List (AnomalyEvent F))
      → List Text
      → ℕ
      → ℕ
      → Option (AnomalyEvent F)
      → Option (AnomalyEvent F)
  unfolding strongest_in events_of
  strongest_of anomaly_map [] start end best = best
  strongest_of anomaly_map (key ∷ keys) start end best =
      strongest_of anomaly_map keys start end
        (strongest_in start end best (events_of (lookup key anomaly_map)))

  unfoldable pub find_strongest_anomaly :
      Map Text (List (AnomalyEvent F)) → List Text → ℕ → ℕ → Option (AnomalyEvent F)
  unfolding strongest_of
  find_strongest_anomaly anomaly_map metric_keys start end =
      strongest_of anomaly_map metric_keys start end none

  -- float64(a - b), on a difference of either sign.
  float_difference : ℕ → ℕ → F
  float_difference a b = if leb b a then f.of_nat (a - b) else f.sub (f.of_nat 0) (f.of_nat (b - a))

  -- The two tests at the end of the proximity.
  unfoldable pub clamp_proximity : F → F
  clamp_proximity p =
      let low = if f.lt p (decimal 2 10) then decimal 2 10 else p in
      if f.lt (decimal 10 10) low then decimal 10 10 else low

  -- The lag is the time from the anomaly to the trigger, which is negative for an anomaly after it.
  unfoldable pub temporal_proximity : (F → F) → ℕ → ℕ → ℕ → ℕ → F
  unfolding float_difference clamp_proximity
  temporal_proximity exp anomaly_time trigger_time min_lag max_lag =
      let expected_center = (min_lag + max_lag) / 2 in
      let centered = anomaly_time + expected_center in
      let deviation = f.of_nat ((trigger_time - centered) + (centered - trigger_time)) in
      let half = f.div (float_difference max_lag min_lag) (f.of_nat 2) in
      let half_width = if f.eq half (f.of_nat 0) then f.of_nat (30 * second) else half in
      let sigma = f.mul half_width (decimal 15 10) in
      let q = f.div deviation sigma in
      let proximity = exp (f.mul (f.mul (f.sub (f.of_nat 0) (decimal 5 10)) q) q) in
      clamp_proximity (
        if leb (anomaly_time + min_lag) trigger_time && leb trigger_time (anomaly_time + max_lag)
        then f.mul proximity (decimal 12 10)
        else proximity)

  evidence_text : Option (CausalEdge F) → Text
  evidence_text none = text "required"
  evidence_text (some edge) = elim edge.evidence [
    | evidence_required ↦ text "required"
    | evidence_supporting ↦ text "supporting"
  ]

  edge_text : Option (CausalEdge F) → Text
  edge_text none = []
  edge_text (some edge) = edge.description

  unfoldable pub build_timeline_event :
      (F → Text) → CausalNode → AnomalyEvent F → Option (CausalEdge F) → Text → TimelineEvent F
  unfolding evidence_text edge_text
  build_timeline_event fixed2 node anomaly edge role = record {
    timestamp = anomaly.timestamp;
    node_id = node.id;
    node_name = node.name;
    metric_key = anomaly.metric_key;
    value = anomaly.value;
    baseline_val = anomaly.baseline_val;
    z_score = anomaly.z_score;
    strength = anomaly.strength;
    layer = node.layer;
    role = role;
    evidence = evidence_text edge;
    description =
        node.name
        ++ text " anomaly detected (value="
        ++ fixed2 anomaly.value
        ++ text ", baseline="
        ++ fixed2 anomaly.baseline_val
        ++ text ")";
    edge_desc = edge_text edge;
  }
