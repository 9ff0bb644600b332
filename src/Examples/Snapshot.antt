-- ===== src/Examples/Snapshot.antt =====
-- Runs of the snapshot manager and of its pool, pkg/vm/snapshot.go.
use firecracker_shim.Vm.Manager.{default_manager_config, track}
use firecracker_shim.Vm.Manager.CidInv.{cid_of}
use firecracker_shim.Vm.Manager.Cid.{here, next, creates, restores, reachable_cids_distinct}
use firecracker_shim.Base.{
  arith, ◌≤◌, insert, ◌≢◌, ℕ, ◌≡◌, ◌⊎◌, refl, Bool, true, false, none, some, [], ◌∷◌, String,
  length, lookup, delete, string_eq,
}
use firecracker_shim.Base.Int.{pos, ◌<ℤ◌}
use firecracker_shim.Domain.{
  new_sandbox, SandboxRef, fc, fc_snap, VmConfig, parent, snapshot_file, default_vm_config,
}
use firecracker_shim.Examples.Manager.{one, at_time, broken, booted, slow_stop}
use firecracker_shim.Examples.Pool.{fresh}
use firecracker_shim.Vm.Manager.{create_vm, new_manager, get_sandbox}
use firecracker_shim.Vm.Pool.{new_pool, deref}
use firecracker_shim.Vm.Snapshot.{
  restore_from_snapshot, default_snapshot_config, Snapshot, SnapshotManager,
}
use firecracker_shim.Vm.Snapshot.Cache.{get_snapshot, delete_snapshot, cleanup}
use firecracker_shim.Vm.Snapshot.Cache.Laws.{Victim, cleanup_evicts, Spared, golden_survives}
use firecracker_shim.Vm.Snapshot.Pooled.{PooledEnv, acquire_pooled}
use firecracker_shim.Vm.Snapshot.Pooled.Restores.{restored_ref, acquire_restores}
use firecracker_shim.Vm.World.{World, ok, removed_dir, start_machine_failed}

abbrev snap : String → ℕ → Bool → Snapshot
snap name created golden = record {
  name = name;
  memory_path = snapshot_file "/cache" name "memory";
  state_path = snapshot_file "/cache" name "state";
  vm_config = default_vm_config;
  version = "1.0";
  created_at = created;
  size_bytes = pos 100;
  source_sandbox = none;
  is_golden = golden;
}

-- Room for two, with three.
abbrev crowded : SnapshotManager
crowded = record {
  config = record default_snapshot_config { enabled = true; max_cached = pos 2 };
  snapshots =
      ("golden-base", snap "golden-base" 1 true)
      ∷ ("late", snap "late" 9 false)
      ∷ ("early", snap "early" 4 false)
      ∷ [];
  golden = some (snap "golden-base" 1 true);
}

cleanup_evicts_example :
    (Spared crowded × (cleanup (crowded, booted) ≡ (crowded, booted)))
    ⊎ ((best : Snapshot) × (pos 2 <ℤ pos (length crowded.snapshots))
        × Victim crowded.snapshots best
        × (cleanup (crowded, booted) ≡ (
          record crowded { snapshots = delete best.name crowded.snapshots },
          record booted { effects = removed_dir (parent best.memory_path) ∷ booted.effects },
        )))
unfolding default_snapshot_config lookup
cleanup_evicts_example = cleanup_evicts crowded booted (refl, (refl, (refl, tt)))

golden_survives_example :
    (get_snapshot "golden-base" (delete_snapshot true "late" (crowded, booted)).0.0
      ≡ some (snap "golden-base" 1 true))
    × (get_snapshot "golden-base" (cleanup (crowded, booted)).0 ≡ some (snap "golden-base" 1 true))
unfolding lookup get_snapshot
golden_survives_example =
    golden_survives true "late" "golden-base" (snap "golden-base" 1 true) crowded booted
      (refl, (refl, (refl, tt))) refl refl

-- The machine does not start, but the golden snapshot can be restored.
abbrev no_start : PooledEnv
no_start = record {
  first = record { create = broken; stop = slow_stop };
  restore = at_time 30;
  last = broken;
}

abbrev workload : VmConfig
workload = record default_vm_config { memory_mb = 512 }

acquire_restores_example :
    let (q, o) =
      acquire_pooled no_start workload (record { pool = fresh; manager = some crowded }) in
    let r = restored_ref (at_time 30) (create_vm broken workload fresh.world).0 in
    (o ≡ ok r)
    × (q.in_use ≡ fresh.in_use)
    × (get_sandbox r.id q.world ≡ some r)
    × ((deref q r).vm_config ≡ workload)
unfolding create_vm new_manager new_pool
acquire_restores_example =
    acquire_restores no_start workload fresh crowded (snap "golden-base" 1 true) 7
      start_machine_failed refl refl refl refl refl
      (record { mkdir = refl; machine = refl; start = refl })

-- One sandbox is created, and one restored.
abbrev with_restored : World
with_restored = (restore_from_snapshot (at_time 30) (snap "golden-base" 1 true) crowded one).0

abbrev created : SandboxRef
created = record { addr = 0; id = fc 10 }

abbrev revived : SandboxRef
revived = record { addr = 1; id = fc_snap 30 }

reachable_cids_distinct_example :
    (cid_of with_restored.heap revived ≢ cid_of with_restored.heap created)
    × (3 ≤ cid_of with_restored.heap revived)
unfolding create_vm new_manager get_sandbox lookup insert restore_from_snapshot track
reachable_cids_distinct_example =
    reachable_cids_distinct default_manager_config (λ a. new_sandbox 0) (fc_snap 30) (fc 10) revived
      created
      (next (next here (creates (at_time 10) default_vm_config booted (omega arith)))
        (restores (at_time 30) (snap "golden-base" 1 true) crowded one (omega arith)))
      refl refl (λ e. ground (arith, e))
