-- ===== src/Collector/LockTree.antt =====
-- internal/collector/lock_tree.go: the statistics of blocking. Maps from process ids to `true` are the
-- lists of their keys; where the source ranges over a map, the order is that of the list.
use pgpulse.Common.{
  ℕ, zero, suc, Bool, true, false, not, Option, none, some, List, [], ◌∷◌, ◌++◌, if◌then◌else◌, ltb,
  ◌==◌, any, keep, length, ◌>>=◌, ◌+◌, nat_eq,
}
use pgpulse.Common.Map.{Map, insert, get_or}
pub mod Search
pub mod Pushing
pub mod Sets
pub mod Deepest
pub mod Stats
pub mod Depth

pub record LockEdge : Type 0 where
  pub blocked_pid : ℕ
  pub blocker_pid : ℕ

pub record LockStats : Type 0 where
  pub blocker_count : ℕ
  pub blocked_count : ℕ
  pub max_chain_depth : ℕ

-- `m[pid]`
abbrev pub member : ℕ → List ℕ → Bool
member pid pids = any (λ j. j == pid) pids

-- `m[pid] = true`
unfoldable pub add_pid : ℕ → List ℕ → List ℕ
add_pid pid pids = if member pid pids then pids else pids ++ (pid ∷ [])

pub record LockSets : Type 0 where
  pub blocked_set : List ℕ
  pub blocker_set : List ℕ
  pub blocks : Map ℕ (List ℕ)

unfoldable pub add_lock_edge : LockSets → LockEdge → LockSets
unfolding add_pid
add_lock_edge s e = record {
  blocked_set = add_pid e.blocked_pid s.blocked_set;
  blocker_set = add_pid e.blocker_pid s.blocker_set;
  blocks = insert e.blocker_pid (add_pid e.blocked_pid (get_or [] e.blocker_pid s.blocks)) s.blocks;
}

unfoldable pub add_lock_edges : LockSets → List LockEdge → LockSets
unfolding add_lock_edge
add_lock_edges s [] = s
add_lock_edges s (e ∷ es) = add_lock_edges (add_lock_edge s e) es

unfoldable pub lock_sets : List LockEdge → LockSets
unfolding add_lock_edges
lock_sets edges = add_lock_edges (record { blocked_set = []; blocker_set = []; blocks = [] }) edges

-- A process id and its depth.
abbrev pub Item : Type 0
Item = ℕ × ℕ

-- The loop over the children, on `visited` and `queue`.
unfoldable pub push_children : ℕ → List ℕ → List ℕ × List Item → List ℕ × List Item
push_children depth [] s = s
push_children depth (child ∷ children) s =
    push_children depth children
      (if member child s.0 then s else (child ∷ s.0, s.1 ++ ((child, suc depth) ∷ [])))

-- The loop over the queue. It has as many turns as the first argument, and answers `none` beyond.
unfoldable pub search : ℕ → Map ℕ (List ℕ) → List Item → List ℕ → ℕ → Option ℕ
unfolding push_children
search turns blocks [] visited max_depth = some max_depth
search zero blocks (item ∷ queue) visited max_depth = none
search (suc turns) blocks (item ∷ queue) visited max_depth =
    let pushed = push_children item.1 (get_or [] item.0 blocks) (visited, queue) in
    search turns blocks pushed.1 pushed.0 (if ltb max_depth item.1 then item.1 else max_depth)

unfoldable pub all_children : Map ℕ (List ℕ) → List ℕ
all_children [] = []
all_children ((pid, children) ∷ blocks) = children ++ all_children blocks

-- No process is queued twice, so one turn for each child and one for the start are enough.
unfoldable pub bfs_max_depth : ℕ → Map ℕ (List ℕ) → Option ℕ
unfolding search all_children
bfs_max_depth start blocks =
    search (suc (length (all_children blocks))) blocks ((start, 0) ∷ []) (start ∷ []) 0

-- The loop over the blockers that are not blocked themselves.
unfoldable pub deepest : LockSets → List ℕ → ℕ → Option ℕ
unfolding bfs_max_depth
deepest s [] max_depth = some max_depth
deepest s (pid ∷ pids) max_depth = elim (member pid s.blocked_set) [
  | true ↦ deepest s pids max_depth
  | false ↦
      bfs_max_depth pid s.blocks >>= λ d. deepest s pids (if ltb max_depth d then d else max_depth)
]

unfoldable pub root_blockers : LockSets → List ℕ
root_blockers s = keep (λ pid. not (member pid s.blocked_set)) s.blocker_set

unfoldable pub compute_lock_stats : List LockEdge → Option LockStats
unfolding deepest root_blockers
compute_lock_stats [] = some (record { blocker_count = 0; blocked_count = 0; max_chain_depth = 0 })
compute_lock_stats (e ∷ es) =
    let s = lock_sets (e ∷ es) in
    deepest s s.blocker_set 0 >>= λ max_depth. some (record {
      blocker_count = length (root_blockers s);
      blocked_count = length s.blocked_set;
      max_chain_depth = max_depth;
    })
