-- ===== src/Vm/Manager/CidRestore.antt =====
-- The vsock CIDs through `RestoreFromSnapshot` of pkg/vm/snapshot.go, which takes them from the
-- counter of the manager.
use firecracker_shim.Base.{
  choose, refl, if◌then◌else◌, ℕ, suc, ◌+◌, ◌^◌, ◌<◌, ◌≡◌, not, Option, none, some, List, ◌∷◌,
  subst, sym, arith, insert, delete, ◌==◌,
}
use firecracker_shim.Domain.{new_sandbox, fc_snap, SandboxId, id_eq, Sandbox, SandboxRef, Machine}
use firecracker_shim.Vm.Manager.CidInv.{
  cid_of, Falling, CidInv, Falling-mono, Falling-delete, Falling-write,
}
use firecracker_shim.Vm.Manager.{CreateEnv, next_cid, track}
use firecracker_shim.Vm.Snapshot.{
  Snapshot, SnapshotManager, restore_from_snapshot, restore_machine, restored_sandbox,
}
use firecracker_shim.Vm.World.{World, Effect, started, Outcome}

-- The counter moves on, and nothing else that counts changes.
advanced-CidInv :
    (fx : List Effect) (w : World)
    → w.cid_counter + 1 < 2 ^ 32
    → CidInv w
    → CidInv (record (next_cid w) { effects = fx })
advanced-CidInv fx w small v =
    let c : (next_cid w).cid_counter ≡ suc w.cid_counter = omega (arith, small) in
    record {
      falling = rw c (Falling-mono w.heap w.sandboxes (omega arith) (omega arith) v.falling);
      low = omega (arith, c, v.low);
    }

-- A sandbox with the CID from before the advance gets its entry in front.
tracked-CidInv :
    (fx : List Effect) (id : SandboxId) (s : Sandbox) (w : World)
    → w.cid_counter + 1 < 2 ^ 32
    → s.vsock_cid ≡ w.cid_counter
    → CidInv w
    → CidInv (track id s (record (next_cid w) { effects = fx })).0
unfolding track insert
tracked-CidInv fx id s w small e v =
    let c : (next_cid w).cid_counter ≡ suc w.cid_counter = omega (arith, small) in
    let r : SandboxRef = record { addr = w.next_addr; id = id } in
    let heap' : ℕ → Sandbox = λ a. if w.next_addr == a then s else w.heap a in
    let new : cid_of heap' r ≡ w.cid_counter = ground (arith, e) in
    let old : Falling w.cid_counter (suc w.next_addr) heap' (delete id w.sandboxes) =
      Falling-mono heap' _ (omega arith) (omega arith) (
        Falling-write _ w.next_addr w.heap heap' _ (λ b h. ground (arith, h))
          (Falling-delete id _ _ w.heap w.sandboxes v.falling)) in
    let front : Falling (suc w.cid_counter) (suc w.next_addr) heap' (insert id r w.sandboxes) = (
      omega (arith, new),
      omega (arith, new, v.low),
      omega arith,
      subst (λ n. Falling n (suc w.next_addr) heap' (delete id w.sandboxes)) (sym new) old,
    ) in
    record { falling = rw c front; low = omega (arith, c, v.low) }

restore_machine-CidInv :
    (env : CreateEnv) (made : Effect) (fx : List Effect) (id : SandboxId) (snap : Snapshot)
    (o : Option Machine) (w : World)
    → w.cid_counter + 1 < 2 ^ 32
    → CidInv w
    → CidInv
        (restore_machine env made id w.cid_counter snap o (record (next_cid w) { effects = fx })).0
unfolding restore_machine restored_sandbox new_sandbox
restore_machine-CidInv env made fx id snap none w small v = advanced-CidInv (made ∷ fx) w small v
restore_machine-CidInv env made fx id snap (some m) w small v =
    choose (λ (x : World × Outcome SandboxRef). CidInv x.0) env.start_ok _ _
      (tracked-CidInv (started m ∷ made ∷ fx) id _ w small refl v)
      (advanced-CidInv (made ∷ fx) w small v)

pub restore_from_snapshot-CidInv :
    (env : CreateEnv) (snap : Snapshot) (sm : SnapshotManager) {w : World}
    → w.cid_counter + 1 < 2 ^ 32
    → CidInv w
    → CidInv (restore_from_snapshot env snap sm w).0
unfolding restore_from_snapshot
restore_from_snapshot-CidInv env snap sm {w} small v =
    choose (λ (x : World × Outcome SandboxRef). CidInv x.0) (not sm.config.enabled) _ _ v
      (choose (λ (x : World × Outcome SandboxRef). CidInv x.0) env.mkdir_ok _ _
        (restore_machine-CidInv env _ _ (fc_snap env.unix_nano) snap env.machine w small v) v)
