-- ===== src/Vm/Manager/Cid.antt =====
-- The vsock CIDs that the manager of pkg/vm/manager.go hands out.
use firecracker_shim.Base.{
  ℕ, ◌+◌, ◌^◌, ◌≤◌, ◌<◌, ◌≡◌, ◌≢◌, some, List, [], ◌∷◌, arith, Bool, lookup,
}
use firecracker_shim.Domain.{SandboxId, id_eq, id_beq_iff, Sandbox, SandboxRef, VmConfig}
use firecracker_shim.Vm.World.{World, ManagerConfig}
use firecracker_shim.Vm.Manager.CidInv.{
  cid_of, Falling, CidInv, new_manager-CidInv, machine_call_keeps, stop_vm-CidInv,
  destroy_vm-CidInv, create_vm-CidInv,
}
use firecracker_shim.Vm.Manager.CidRestore.{restore_from_snapshot-CidInv}
use firecracker_shim.Vm.Snapshot.{Snapshot, SnapshotManager, restore_from_snapshot}
use firecracker_shim.Vm.Manager.{
  CreateEnv, StopEnv, create_vm, destroy_vm, stop_vm, pause_vm, resume_vm, new_manager, get_sandbox,
}

-- Calls of the manager and restores of snapshots in any order, as long as the counter of CIDs does not wrap.
pub data Step : World → World → Type 0 where
  creates :
      (env : CreateEnv) (c : VmConfig) (w : World)
      → w.cid_counter + 1 < 2 ^ 32
      → Step w (create_vm env c w).0
  restores :
      (env : CreateEnv) (snap : Snapshot) (sm : SnapshotManager) (w : World)
      → w.cid_counter + 1 < 2 ^ 32
      → Step w (restore_from_snapshot env snap sm w).0
  destroys : (env : StopEnv) (r : SandboxRef) (w : World) → Step w (destroy_vm env r w)
  stops : (env : StopEnv) (r : SandboxRef) (w : World) → Step w (stop_vm env r w).0
  pauses : (answer : Bool) (r : SandboxRef) (w : World) → Step w (pause_vm answer r w).0
  resumes : (answer : Bool) (r : SandboxRef) (w : World) → Step w (resume_vm answer r w).0

pub data Reach (w : World) : World → Type 0 where
  here : Reach w w
  next : {u v : World} → Reach w u → Step u v → Reach w v

Step-CidInv : {v w : World} → Step v w → CidInv v → CidInv w
Step-CidInv (creates env c w small) v = create_vm-CidInv env c small v
Step-CidInv (restores env snap sm w small) v = restore_from_snapshot-CidInv env snap sm small v
Step-CidInv (destroys env r w) v = destroy_vm-CidInv env r v
Step-CidInv (stops env r w) v = stop_vm-CidInv env r v
Step-CidInv (pauses answer r w) v = (machine_call_keeps answer r w).0 v
Step-CidInv (resumes answer r w) v = (machine_call_keeps answer r w).1 v

Reach-CidInv : {v w : World} → Reach v w → CidInv v → CidInv w
Reach-CidInv here v = v
Reach-CidInv (next r s) v = Step-CidInv s (Reach-CidInv r v)

-- A tracked sandbox has its CID between 3 and the bound.
lookup-Falling :
    (k : SandboxId) (r : SandboxRef) (n a : ℕ) (heap : ℕ → Sandbox)
    (m : List (SandboxId × SandboxRef))
    → Falling n a heap m
    → lookup k m ≡ some r
    → (cid_of heap r < n) × (3 ≤ cid_of heap r)
unfolding lookup
lookup-Falling k r n a heap [] f h = cc
lookup-Falling k r n a heap ((i, s) ∷ m) f h =
    ground (arith, lookup-Falling k r (cid_of heap s) a heap m f.3)

Falling-distinct :
    (j k : SandboxId) (r s : SandboxRef) (n a : ℕ) (heap : ℕ → Sandbox)
    (m : List (SandboxId × SandboxRef))
    → Falling n a heap m
    → lookup j m ≡ some r
    → lookup k m ≡ some s
    → j ≢ k
    → cid_of heap r ≢ cid_of heap s
unfolding lookup
Falling-distinct j k r s n a heap [] f hj hk ne = cc
Falling-distinct j k r s n a heap ((i, t) ∷ m) f hj hk ne = ground (
  arith,
  id_beq_iff i j,
  id_beq_iff i k,
  lookup-Falling j r (cid_of heap t) a heap m f.3,
  lookup-Falling k s (cid_of heap t) a heap m f.3,
  Falling-distinct j k r s (cid_of heap t) a heap m f.3,
)

-- From a new manager, calls of `CreateVM`, `DestroyVM`, `StopVM`, `PauseVM` and `ResumeVM`, and
-- restores of snapshots, in any order, whatever the calls outside answer, keep this: as long as the 32-bit counter does not wrap,
-- two sandboxes that are tracked under different IDs have different CIDs, and none has one of the
-- reserved CIDs 0, 1 and 2.
pub reachable_cids_distinct :
    (c : ManagerConfig) (heap : ℕ → Sandbox) {w : World} (j k : SandboxId) (r s : SandboxRef)
    → Reach (new_manager c heap) w
    → get_sandbox j w ≡ some r
    → get_sandbox k w ≡ some s
    → j ≢ k
    → (cid_of w.heap r ≢ cid_of w.heap s) × (3 ≤ cid_of w.heap r)
unfolding get_sandbox
reachable_cids_distinct c heap {w} j k r s reach hj hk ne =
    let f = (Reach-CidInv reach (new_manager-CidInv c heap)).falling in
    (
      Falling-distinct j k r s _ _ w.heap w.sandboxes f hj hk ne,
      (lookup-Falling j r _ _ w.heap w.sandboxes f hj).1,
    )
