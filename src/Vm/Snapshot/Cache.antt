-- ===== src/Vm/Snapshot/Cache.antt =====
-- The cache of snapshots of pkg/vm/snapshot.go: look-ups, deletion, the clean-up and the statistics.
pub mod Laws
use firecracker_shim.Base.{
  ℕ, ◌+◌, Bool, true, false, Option, none, some, String, List, [], ◌∷◌, length, ltb, leb,
  if◌then◌else◌, string_eq, lookup, delete, map,
}
use firecracker_shim.Base.Int.{ℤ, pos, leb_ℤ, ◌+ℤ◌, wrap64}
use firecracker_shim.Domain.{FilePath, parent}
use firecracker_shim.Vm.Snapshot.{Snapshot, SnapshotManager, State}
use firecracker_shim.Vm.World.{
  removed_dir, World, golden_protected, remove_files_failed, Outcome, ok, err, log,
}

unfoldable pub get_snapshot : String → SnapshotManager → Option Snapshot
get_snapshot name sm = lookup name sm.snapshots

unfoldable pub list_snapshots : SnapshotManager → List Snapshot
list_snapshots sm = map (λ e. e.1) sm.snapshots

abbrev pub has_golden : Option Snapshot → Bool
has_golden none = false
has_golden (some snap) = true

unfoldable pub has_golden_snapshot : SnapshotManager → Bool
has_golden_snapshot sm = has_golden sm.golden

-- `DeleteSnapshot` of the entry that was found; the flag says whether `RemoveAll` succeeds.
unfoldable pub delete_found : Bool → String → Option Snapshot → State → State × Outcome (Unit {0})
delete_found removed name none st = (st, ok tt)
delete_found removed name (some snap) (sm, w) =
    if snap.is_golden
    then ((sm, w), err golden_protected)
    else if removed
    then (
      (
        record sm { snapshots = delete name sm.snapshots },
        log (removed_dir (parent snap.memory_path)) w,
      ),
      ok tt,
    )
    else ((sm, w), err remove_files_failed)

unfoldable pub delete_snapshot : Bool → String → State → State × Outcome (Unit {0})
unfolding delete_found
delete_snapshot removed name (sm, w) = delete_found removed name (lookup name sm.snapshots) (sm, w)

-- The loop of `Cleanup`: the first of the oldest snapshots that are not golden.
abbrev older : Snapshot → Option Snapshot → Option Snapshot
older snap none = some snap
older snap (some best) = if ltb snap.created_at best.created_at then some snap else some best

unfoldable pub find_oldest : List (String × Snapshot) → Option Snapshot → Option Snapshot
find_oldest [] best = best
find_oldest ((key, snap) ∷ m) best =
    find_oldest m (if snap.is_golden then best else older snap best)

unfoldable pub evict : Option Snapshot → State → State
evict none st = st
evict (some snap) (sm, w) = (
  record sm { snapshots = delete snap.name sm.snapshots },
  log (removed_dir (parent snap.memory_path)) w,
)

-- It always returns nil.
unfoldable pub cleanup : State → State
unfolding find_oldest evict
cleanup (sm, w) =
    if leb_ℤ (pos (length sm.snapshots)) sm.config.max_cached
    then (sm, w)
    else evict (find_oldest sm.snapshots none) (sm, w)

pub record SnapshotStats : Type 0 where
  pub snapshots_available : ℕ
  pub has_golden_snapshot : Bool
  pub total_size_bytes : ℤ

unfoldable pub total_size : ℤ → List (String × Snapshot) → ℤ
total_size sum [] = sum
total_size sum ((key, snap) ∷ m) = total_size (wrap64 (sum +ℤ snap.size_bytes)) m

unfoldable pub snapshot_stats : SnapshotManager → SnapshotStats
unfolding total_size
snapshot_stats sm = record {
  snapshots_available = length sm.snapshots;
  has_golden_snapshot = has_golden sm.golden;
  total_size_bytes = total_size (pos 0) sm.snapshots;
}
