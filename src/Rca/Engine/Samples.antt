-- ===== src/Rca/Engine/Samples.antt =====
-- Tests of internal/rca/engine.go, and the theorems at concrete inputs. Numbers stand for floats.
use pgpulse.Common.{
  ℕ, ◌+◌, ◌-◌, ◌*◌, ◌/◌, ◌≡◌, refl, true, false, none, some, [], ◌∷◌, ltb, leb, ◌==◌, arith, OnSome,
  Option, List, map, option_list,
}
use pgpulse.Common.Text.{Text, text, text_eq, text_beq}
use pgpulse.Common.Map.{lookup}
use pgpulse.Common.Float.{Float}
use pgpulse.Common.Sorting.{IsWeakOrder, sample_sorting, sample_sorting-IsSorting}
use pgpulse.Rca.Graph.{contains, chains_for_trigger, CausalGraph}
use pgpulse.Rca.Samples.{detour}
use pgpulse.Rca.Ontology.{chain_settings_change_behavior, chain_bulk_wal_checkpoint_io_repl_lag}
use pgpulse.Rca.Defaults.{new_default_graph}
use pgpulse.Rca.Events.{Incident, AnomalyEvent, AnalyzeRequest}
use pgpulse.Rca.Incident.{Formats}
use pgpulse.Rca.Evidence.{find_strongest_anomaly}
use pgpulse.Rca.Evidence.Strongest.{Number, Candidate}
use pgpulse.Rca.Evidence.Maximum.{Beats, find_strongest_anomaly_lem}
use pgpulse.Rca.Engine.{Run}
use pgpulse.Rca.Engine.Walk.{walk_backward, traverse_chain, start_trail}
use pgpulse.Rca.Engine.Branches.{Verdict, Reached, walk_backward-Verdict}
use pgpulse.Rca.Engine.BuiltIn.{traverse_chain-default_depth, chains_for_trigger-settings}
use pgpulse.Rca.Engine.Provenance.Chain.{Reports, traverse_chain-Reports}
use pgpulse.Rca.Engine.Analyze.{HookCall, Engine, Anomalies, anomaly_map_of, analyze}
use pgpulse.Rca.Engine.Best.{Reported, analyze-Names}

instance abbrev number_float : Float ℕ
number_float = record {
  lt = ltb;
  le = leb;
  eq = λ a b. a == b;
  add = λ a b. a + b;
  sub = λ a b. a - b;
  mul = λ a b. a * b;
  div = λ a b. a / b;
  of_nat = λ n. n;
}

ℕ-IsWeakOrder : IsWeakOrder ltb (Number {F = ℕ})
ℕ-IsWeakOrder = record {
  asymm = λ x y p q h. ground (arith, h);
  not_less_trans = λ x y z p q r h g. ground (arith, h, g);
}

numbers_equal : (x : ℕ) → Number x
numbers_equal x = ground arith

abbrev exp : ℕ → ℕ
exp x = 1

abbrev fixed2 : ℕ → Text
fixed2 x = x ∷ []

abbrev seen : Text → ℕ → ℕ → AnomalyEvent ℕ
seen key at strength = record {
  instance_id = text "i";
  metric_key = key;
  timestamp = at;
  value = 7;
  baseline_val = 1;
  z_score = 3;
  rate_change = 7;
  strength = strength;
  source = text "threshold";
}

abbrev spikes : Anomalies ℕ
spikes =
    (text "s", seen (text "s") 99 2 ∷ [])
    ∷ (text "x", seen (text "x") 96 3 ∷ seen (text "x") 97 4 ∷ seen (text "x") 9 8 ∷ [])
    ∷ (text "p", seen (text "p") 95 5 ∷ [])
    ∷ (text "q", seen (text "q") 94 6 ∷ [])
    ∷ []

abbrev run_on : CausalGraph ℕ → Run ℕ
run_on g = record {
  graph = g;
  settings_provider = none;
  trigger_time = 100;
  window = record { from = 50; to = 110 };
  anomaly_map = spikes;
}

-- The anomaly at 9 is out of the window.
strongest : find_strongest_anomaly spikes (text "x" ∷ []) 50 110 ≡ some (seen (text "x") 97 4)
unfolding find_strongest_anomaly lookup text text_beq
strongest = refl

find_strongest_anomaly_lem_example :
    OnSome
      (Candidate 50 110 spikes (text "x" ∷ []))
      (find_strongest_anomaly spikes (text "x" ∷ []) 50 110)
    × ((b : AnomalyEvent ℕ)
        → Candidate 50 110 spikes (text "x" ∷ []) b
        → Beats 50 110 (find_strongest_anomaly spikes (text "x" ∷ []) 50 110) b)
find_strongest_anomaly_lem_example =
    find_strongest_anomaly_lem 50 110 ℕ-IsWeakOrder spikes (λ key a i. numbers_equal a.strength)
      (text "x" ∷ [])

traverse_chain-default_depth_example :
    traverse_chain exp fixed2 sample_sorting 9
      (run_on new_default_graph)
      chain_bulk_wal_checkpoint_io_repl_lag
      (text "s")
    ≡ traverse_chain exp fixed2 sample_sorting 5
        (run_on new_default_graph)
        chain_bulk_wal_checkpoint_io_repl_lag
        (text "s")
traverse_chain-default_depth_example =
    traverse_chain-default_depth exp fixed2 (run_on new_default_graph) sample_sorting 9
      chain_bulk_wal_checkpoint_io_repl_lag (text "s") refl (omega arith)

chains_for_trigger-settings_example :
    contains chain_settings_change_behavior
      (chains_for_trigger (new_default_graph {F = ℕ}) (text "pg.settings.work_mem"))
    ≡ false
chains_for_trigger-settings_example = chains_for_trigger-settings ℕ (text "pg.settings.work_mem")

walk_backward-Verdict_example :
    Verdict exp fixed2
      (run_on detour)
      (Reached (run_on detour) (text "c") 5 (text "s"))
      (walk_backward exp fixed2 5 (run_on detour) (text "c") (text "s") start_trail)
walk_backward-Verdict_example =
    walk_backward-Verdict exp fixed2 (run_on detour) 5 (text "c") (text "s") start_trail

traverse_chain-Reports_example :
    OnSome
      (Reports (run_on detour))
      (traverse_chain exp fixed2 sample_sorting 5 (run_on detour) (text "c") (text "s"))
traverse_chain-Reports_example =
    traverse_chain-Reports exp fixed2 (run_on detour) sample_sorting sample_sorting-IsSorting 5
      (text "c") (text "s")

abbrev engine : Engine ℕ
engine = record {
  graph = detour;
  anomaly_mode = text "threshold";
  get_anomalies = λ instance_id keys start end jitter. some spikes;
  store = some (λ incident. some 7);
  query = λ instance_id key start end limit. none;
  cfg = record {
    lookback_window = 50;
    auto_trigger_severity = text "critical";
    max_traversal_depth = 5;
    max_candidate_chains = 5;
    max_metrics_per_run = 50;
    min_chain_score = 1;
    deferred_forward_tail = 10;
    remediation_hooks_enabled = true;
  };
  settings_provider = none;
  stmt_diff_source = none;
  has_rem_engine = true;
}

abbrev request : AnalyzeRequest ℕ
request = record {
  instance_id = text "i";
  trigger_metric = text "s";
  trigger_value = 7;
  trigger_time = 100;
  window_minutes = 0;
  trigger_kind = text "alert";
}

abbrev formats : Formats ℕ
formats = record { fixed2 = fixed2; rfc3339_nano = λ t. t ∷ []; clock = λ t. t ∷ [] }

analyze-Names_example :
    Reported exp formats sample_sorting engine request spikes
      (analyze exp formats sample_sorting engine request 200)
unfolding anomaly_map_of
analyze-Names_example =
    analyze-Names exp formats sample_sorting engine request sample_sorting-IsSorting ℕ-IsWeakOrder
      200 spikes refl (λ r a. numbers_equal r.score)

-- The one chain is the primary one; its edges name no hook.

abbrev primary_of : Option (Incident ℕ × List (HookCall ℕ)) → List Text
primary_of none = []
primary_of (some out) = map (λ c. c.chain_id) (option_list out.0.primary_chain)

analyzed : primary_of (analyze exp formats sample_sorting engine request 200) ≡ text "c" ∷ []
unfolding analyze pgpulse.Rca.Incident.build pgpulse.Rca.Incident.by_score sample_sorting
    chains_for_trigger text_beq text traverse_chain pgpulse.Rca.Graph.edges_for_chain
    pgpulse.Rca.Graph.terminal_nodes lookup pgpulse.Rca.Engine.evaluate_edge find_strongest_anomaly
    pgpulse.Rca.Evidence.collection_jitter pgpulse.Rca.Evidence.temporal_proximity
analyzed = refl
