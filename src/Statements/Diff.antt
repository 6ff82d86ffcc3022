-- ===== src/Statements/Diff.antt =====
-- internal/statements/diff.go: ComputeDiff. A nil slice and an empty one are
-- the empty list; where the source ranges over a map, the order is that of the list.
use pgpulse.Common.{
  ℕ, zero, suc, ◌+◌, ◌-◌, ◌/◌, ◌%◌, ◌≡◌, ◌↔◌, Bool, true, false, not, ◌&&◌, Option, none, some,
  List, [], ◌∷◌, ◌++◌, if◌then◌else◌, ltb, leb, ◌==◌, Eq, ◌=?◌, length, take, drop, map, arith,
}
use pgpulse.Common.Text.{Text, text, text_eq}
use pgpulse.Common.Map.{Map, lookup, insert, delete}
use pgpulse.Common.Float.{Float}
use pgpulse.Common.Sorting.{Sorting}
use pgpulse.Common.Integers.{ℤ, pos, negsuc, difference, ◌+ℤ◌, lt_int, float_of_int}
use pgpulse.Statements.Types.{Snapshot, SnapshotEntry, DiffEntry, DiffOptions, DiffResult}
use pgpulse.Statements.Duration.{format_duration}
pub mod Keyed
pub mod Partition
pub mod Paging

-- queryID, dbID and userID.
abbrev pub EntryKey : Type 0
EntryKey = ℕ × ℕ × ℕ

abbrev pub key_beq : EntryKey → EntryKey → Bool
key_beq (q, d, u) (r, e, v) = q == r && d == e && u == v

pub key_beq_iff : (a b : EntryKey) → (key_beq a b ≡ true) ↔ (a ≡ b)
key_beq_iff (q, d, u) (r, e, v) = ground arith

instance abbrev pub key_eq : Eq EntryKey
key_eq = record { beq = key_beq; beq_iff = key_beq_iff }

-- The two differ, or only one is set.
unfoldable pub stats_reset_detected : Option ℕ → Option ℕ → Bool
stats_reset_detected none none = false
stats_reset_detected none (some b) = true
stats_reset_detected (some a) none = true
stats_reset_detected (some a) (some b) = not (a == b)

module _ {F : Type 0} where
  abbrev pub entry_key : SnapshotEntry F → EntryKey
  entry_key e = (e.query_id, e.db_id, e.user_id)

  unfoldable pub index_from :
      List (SnapshotEntry F) → Map EntryKey (SnapshotEntry F) → Map EntryKey (SnapshotEntry F)
  index_from [] m = m
  index_from (e ∷ es) m = index_from es (insert (entry_key e) e m)

-- `fromMap`, and the entries and new queries of the result.
pub record Progress (F : Type 0) : Type 0 where
  pub left : Map EntryKey (SnapshotEntry F)
  pub continuing : List (DiffEntry F)
  pub new_entries : List (DiffEntry F)

module _ {F : Type 0} where
  -- opts.Offset and opts.Limit.
  unfoldable pub page : DiffOptions → List (DiffEntry F) → List (DiffEntry F)
  page opts entries =
      let moved =
        if ltb 0 opts.offset && ltb opts.offset (length entries)
        then drop opts.offset entries
        else if leb (length entries) opts.offset
        then []
        else entries in
      if ltb 0 opts.limit && ltb opts.limit (length moved) then take opts.limit moved else moved

  unfoldable pub total_calls : ℤ → List (DiffEntry F) → ℤ
  total_calls sum [] = sum
  total_calls sum (d ∷ ds) = total_calls (sum +ℤ d.calls_delta) ds

module _ {F : Type 0} ⦃f : Float F⦄ where
  unfoldable pub safe_div_float : F → F → F
  safe_div_float num denom = if f.eq denom (f.of_nat 0) then f.of_nat 0 else f.div num denom

  -- `cpuDelta`, no less than 0.
  cpu_delta : F → F → F
  cpu_delta exec io = let cpu = f.sub exec io in if f.lt cpu (f.of_nat 0) then f.of_nat 0 else cpu

  option_sub : Option F → Option F → Option F
  option_sub (some a) (some b) = some (f.sub b a)
  option_sub _ _ = none

  unfoldable pub compute_entry_delta : SnapshotEntry F → SnapshotEntry F → DiffEntry F
  unfolding safe_div_float cpu_delta option_sub
  compute_entry_delta start end =
      let calls = difference end.calls start.calls in
      let exec = f.sub end.total_exec_time start.total_exec_time in
      let blk_read = difference end.shared_blks_read start.shared_blks_read in
      let blk_hit = difference end.shared_blks_hit start.shared_blks_hit in
      let read_time = f.sub end.blk_read_time start.blk_read_time in
      let write_time = f.sub end.blk_write_time start.blk_write_time in
      let io_time = f.add read_time write_time in
      record {
        query_id = end.query_id;
        user_id = end.user_id;
        db_id = end.db_id;
        query = end.query;
        database_name = end.database_name;
        user_name = end.user_name;
        calls_delta = calls;
        exec_time_delta = exec;
        plan_time_delta = option_sub start.total_plan_time end.total_plan_time;
        rows_delta = difference end.rows start.rows;
        shared_blks_read_delta = blk_read;
        shared_blks_hit_delta = blk_hit;
        temp_blks_read_delta = difference end.temp_blks_read start.temp_blks_read;
        temp_blks_written_delta = difference end.temp_blks_written start.temp_blks_written;
        blk_read_time_delta = read_time;
        blk_write_time_delta = write_time;
        wal_bytes_delta = option_sub start.wal_bytes end.wal_bytes;
        avg_exec_time_per_call = safe_div_float exec (float_of_int calls);
        io_time_pct = safe_div_float (f.mul io_time (f.of_nat 100)) exec;
        cpu_time_delta = cpu_delta exec io_time;
        shared_hit_ratio =
            safe_div_float (f.mul (float_of_int blk_hit) (f.of_nat 100))
              (float_of_int (blk_hit +ℤ blk_read));
      }

  unfoldable pub entry_as_delta : SnapshotEntry F → DiffEntry F
  unfolding safe_div_float cpu_delta
  entry_as_delta e =
      let io_time = f.add e.blk_read_time e.blk_write_time in
      record {
        query_id = e.query_id;
        user_id = e.user_id;
        db_id = e.db_id;
        query = e.query;
        database_name = e.database_name;
        user_name = e.user_name;
        calls_delta = pos e.calls;
        exec_time_delta = e.total_exec_time;
        plan_time_delta = e.total_plan_time;
        rows_delta = pos e.rows;
        shared_blks_read_delta = pos e.shared_blks_read;
        shared_blks_hit_delta = pos e.shared_blks_hit;
        temp_blks_read_delta = pos e.temp_blks_read;
        temp_blks_written_delta = pos e.temp_blks_written;
        blk_read_time_delta = e.blk_read_time;
        blk_write_time_delta = e.blk_write_time;
        wal_bytes_delta = e.wal_bytes;
        avg_exec_time_per_call = safe_div_float e.total_exec_time (f.of_nat e.calls);
        io_time_pct = safe_div_float (f.mul io_time (f.of_nat 100)) e.total_exec_time;
        cpu_time_delta = cpu_delta e.total_exec_time io_time;
        shared_hit_ratio =
            safe_div_float (f.mul (f.of_nat e.shared_blks_hit) (f.of_nat 100))
              (f.of_nat (e.shared_blks_hit + e.shared_blks_read));
      }

  -- One turn of the loop over the newer entries, on what the map holds under the key.
  unfoldable pub match_entry : SnapshotEntry F → Option (SnapshotEntry F) → Progress F → Progress F
  unfolding compute_entry_delta entry_as_delta
  match_entry te none s = record s { new_entries = s.new_entries ++ (entry_as_delta te ∷ []) }
  match_entry te (some fe) s = record s {
    left = delete (entry_key te) s.left;
    continuing = s.continuing ++ (compute_entry_delta fe te ∷ []);
  }

  unfoldable pub match_entries : List (SnapshotEntry F) → Progress F → Progress F
  unfolding match_entry
  match_entries [] s = s
  match_entries (te ∷ tes) s = match_entries tes (match_entry te (lookup (entry_key te) s.left) s)

  unfoldable pub matched : List (SnapshotEntry F) → List (SnapshotEntry F) → Progress F
  unfolding index_from match_entries
  matched from_entries to_entries =
      match_entries to_entries
        (record { left = index_from from_entries []; continuing = []; new_entries = [] })

  unfoldable pub evicted : Map EntryKey (SnapshotEntry F) → List (DiffEntry F)
  evicted left = map (λ p. entry_as_delta p.1) left

  unfoldable pub total_exec_time_of : F → List (DiffEntry F) → F
  total_exec_time_of sum [] = sum
  total_exec_time_of sum (d ∷ ds) = total_exec_time_of (f.add sum d.exec_time_delta) ds

  -- The comparison that sortEntries makes.
  unfoldable pub before : Text → DiffEntry F → DiffEntry F → Bool
  before sort_by a b =
      if sort_by =? text "calls"
      then lt_int b.calls_delta a.calls_delta
      else if sort_by =? text "rows"
      then lt_int b.rows_delta a.rows_delta
      else if sort_by =? text "shared_blks_read"
      then lt_int b.shared_blks_read_delta a.shared_blks_read_delta
      else if sort_by =? text "avg_exec_time"
      then f.lt b.avg_exec_time_per_call a.avg_exec_time_per_call
      else f.lt b.exec_time_delta a.exec_time_delta

  unfoldable pub sort_entries : Sorting → Text → List (DiffEntry F) → List (DiffEntry F)
  unfolding before
  sort_entries sorting sort_by entries =
      sorting.sort_slice (before (if sort_by =? [] then text "total_exec_time" else sort_by))
        entries

  unfoldable pub compute_diff :
      Sorting
      → Snapshot
      → Snapshot
      → List (SnapshotEntry F)
      → List (SnapshotEntry F)
      → DiffOptions
      → DiffResult F
  unfolding stats_reset_detected format_duration matched evicted total_calls total_exec_time_of
      sort_entries page
  compute_diff sorting start end from_entries to_entries opts =
      let duration = difference end.captured_at start.captured_at in
      let s = matched from_entries to_entries in
      let sorted = sort_entries sorting opts.sort_by s.continuing in
      record {
        from_snapshot = start;
        to_snapshot = end;
        stats_reset_warning = stats_reset_detected start.stats_reset end.stats_reset;
        duration = duration;
        duration_str = format_duration duration;
        total_calls_delta = total_calls (total_calls (pos 0) s.continuing) s.new_entries;
        total_exec_time_delta =
            total_exec_time_of (total_exec_time_of (f.of_nat 0) s.continuing) s.new_entries;
        entries = page opts sorted;
        new_queries = s.new_entries;
        evicted_queries = evicted s.left;
        total_entries = length sorted;
      }
