-- ===== src/Collector/Samples.antt =====
-- Tests of internal/collector/lock_tree.go, and the theorems at concrete inputs.
use pgpulse.Common.{ℕ, ◌≡◌, refl, some, List, [], ◌∷◌}
use pgpulse.Collector.LockTree.{LockEdge, LockStats, lock_sets, compute_lock_stats}
use pgpulse.Collector.LockTree.Stats.{Describes, compute_lock_stats-Describes}
use pgpulse.Common.Map.{get_or, lookup, insert}

abbrev waits : ℕ → ℕ → LockEdge
waits blocked blocker = record { blocked_pid = blocked; blocker_pid = blocker }

-- 11 blocks 12 and 13, 12 blocks 13 too, and 14 and 15 block each other.
abbrev blocking : List LockEdge
blocking = waits 12 11 ∷ waits 13 12 ∷ waits 13 11 ∷ waits 14 15 ∷ waits 15 14 ∷ []

-- The longest chain has two edges, but 13 stands right behind 11 as well.
shortest :
    compute_lock_stats blocking
    ≡ some (record { blocker_count = 1; blocked_count = 4; max_chain_depth = 1 })
unfolding compute_lock_stats lock_sets get_or lookup insert
shortest = refl

compute_lock_stats-Describes_example :
    (stats : LockStats) × (compute_lock_stats blocking ≡ some stats) × Describes blocking stats
compute_lock_stats-Describes_example = compute_lock_stats-Describes blocking
