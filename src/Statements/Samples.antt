-- ===== src/Statements/Samples.antt =====
-- Tests of internal/statements/diff.go, and the theorems at concrete inputs.
use pgpulse.Common.{ℕ, ◌≡◌, refl, some, none, not, ◌&&◌, List, [], ◌∷◌, length, ◌*◌}
use pgpulse.Common.Text.{text, text_beq, text_eq}
use pgpulse.Common.Float.{Sample, sample_float}
use pgpulse.Common.Sorting.{sample_sorting, sample_sorting-IsSorting}
use pgpulse.Common.Integers.{pos, negsuc}
use pgpulse.Statements.Types.{Snapshot, SnapshotEntry, DiffOptions}
use pgpulse.Statements.Duration.{format_duration}
use pgpulse.Statements.Diff.{compute_diff}
use pgpulse.Statements.Diff.Keyed.{has_key}
use pgpulse.Statements.Diff.Partition.{has_delta, unpaged, compute_diff-Partition}
use pgpulse.Statements.Diff.Paging.{window, compute_diff-window}

durations :
    (format_duration (pos 15_840_000_000_000) ≡ text "4h 24m")
    × (format_duration (negsuc 7_199_999_999_999) ≡ text "2h")
    × (format_duration (pos 59_000_000_000) ≡ text "< 1m")
unfolding format_duration text text_beq
durations = (refl, refl, refl)

abbrev capture : ℕ → Snapshot
capture at = record { id = at; instance_id = []; captured_at = at; stats_reset = some 1 }

abbrev counted : ℕ → ℕ → SnapshotEntry Sample
counted id calls = record {
  query_id = id;
  user_id = 10;
  db_id = 5;
  database_name = [];
  user_name = [];
  query = [];
  calls = calls;
  total_exec_time = some (2 * calls);
  total_plan_time = none;
  rows = calls;
  shared_blks_hit = 1;
  shared_blks_read = 1;
  temp_blks_read = 0;
  temp_blks_written = 0;
  blk_read_time = some 1;
  blk_write_time = some 1;
  wal_bytes = none;
}

abbrev older : List (SnapshotEntry Sample)
older = counted 1 4 ∷ counted 2 5 ∷ counted 3 6 ∷ []

abbrev newer : List (SnapshotEntry Sample)
newer = counted 3 9 ∷ counted 4 1 ∷ counted 1 8 ∷ []

compute_diff-Partition_example :
    (has_delta
        (2, 5, 10)
        (compute_diff sample_sorting
          (capture 1)
          (capture 2)
          older
          newer
          (unpaged (text "calls"))).entries
      ≡ (has_key (2, 5, 10) newer && has_key (2, 5, 10) older))
    × (has_delta
          (2, 5, 10)
          (compute_diff sample_sorting
            (capture 1)
            (capture 2)
            older
            newer
            (unpaged (text "calls"))).new_queries
        ≡ (has_key (2, 5, 10) newer && not (has_key (2, 5, 10) older)))
    × (has_delta
          (2, 5, 10)
          (compute_diff sample_sorting
            (capture 1)
            (capture 2)
            older
            newer
            (unpaged (text "calls"))).evicted_queries
        ≡ (has_key (2, 5, 10) older && not (has_key (2, 5, 10) newer)))
compute_diff-Partition_example =
    compute_diff-Partition sample_sorting sample_sorting-IsSorting (capture 1) (capture 2) older
      newer (text "calls") (2, 5, 10) (refl, (refl, (refl, tt)))

abbrev second_page : DiffOptions
second_page = record { sort_by = text "calls"; limit = 1; offset = 1 }

compute_diff-window_example :
    ((compute_diff sample_sorting (capture 1) (capture 2) older newer second_page).entries
      ≡ window second_page
          (compute_diff sample_sorting
            (capture 1)
            (capture 2)
            older
            newer
            (unpaged (text "calls"))).entries)
    × ((compute_diff sample_sorting (capture 1) (capture 2) older newer second_page).total_entries
        ≡ length
            (compute_diff sample_sorting
              (capture 1)
              (capture 2)
              older
              newer
              (unpaged (text "calls"))).entries)
compute_diff-window_example =
    compute_diff-window sample_sorting (capture 1) (capture 2) older newer second_page
