-- ===== src/Vm/Snapshot/Pooled/Restores.antt =====
-- When the `SnapshotPool` of pkg/vm/snapshot.go restores a snapshot, and what becomes of the VM.
use firecracker_shim.Base.{
  ◌≡◌, ◌≢◌, nat_eq, sym, ◌∙◌, ap, inl, inr, true, false, not, some, [], if_then, if_else,
  lookup-insert, =?-refl, ◌=?◌, arith, string_eq,
}
use firecracker_shim.Domain.{Sandbox, SandboxRef, id_eq, Machine, VmConfig, fc_snap, sandbox_dir}
use firecracker_shim.Vm.Manager.{CreateEnv, create_vm, get_sandbox, track, next_cid}
use firecracker_shim.Vm.Pool.{Pool, deref, acquire, create_fresh}
use firecracker_shim.Vm.Pool.Acquire.{acquire_miss}
use firecracker_shim.Vm.Snapshot.{
  Snapshot, SnapshotManager, restore_config, restored_sandbox, restore_golden, restore_machine,
  restore_from_snapshot, restore_from_golden,
}
use firecracker_shim.Vm.Snapshot.Cache.{has_golden_snapshot, has_golden}
use firecracker_shim.Vm.Snapshot.Pooled.{PooledEnv, acquire_pooled, after_acquire, restored}
use firecracker_shim.Vm.World.{World, Error, ok, err, log, made_dir, started, new_restored_machine}

-- Every call outside succeeds in a restore.
pub record RestoreSucceeds (env : CreateEnv) (m : Machine) : Type 0 where
  pub mkdir : env.mkdir_ok ≡ true
  pub machine : env.machine ≡ some m
  pub start : env.start_ok ≡ true

abbrev pub restored_ref : CreateEnv → World → SandboxRef
restored_ref env w = record { addr = w.next_addr; id = fc_snap env.unix_nano }

-- The world in which the restored sandbox is tracked.
abbrev before_track : CreateEnv → Snapshot → SnapshotManager → Machine → World → World
before_track env snap sm m w =
    let id = fc_snap env.unix_nano in
    let dir = w.config.runtime_dir in
    let made =
      new_restored_machine (restore_config dir id w.cid_counter snap) snap.memory_path
        snap.state_path (sm.config.snapshot_type =? "Diff") in
    log (started m) (log made (next_cid (log (made_dir (sandbox_dir dir id)) w)))

abbrev the_sandbox : CreateEnv → Snapshot → Machine → World → Sandbox
the_sandbox env snap m w =
    restored_sandbox env w.config.runtime_dir (fc_snap env.unix_nano) w.cid_counter m snap

restore_ok :
    (env : CreateEnv) (snap : Snapshot) (sm : SnapshotManager) (m : Machine) (w : World)
    → sm.config.enabled ≡ true
    → RestoreSucceeds env m
    → restore_from_snapshot env snap sm w
      ≡ track (fc_snap env.unix_nano) (the_sandbox env snap m w) (before_track env snap sm m w)
unfolding restore_from_snapshot
restore_ok env snap sm m w on good =
    let id = fc_snap env.unix_nano in
    let dir = w.config.runtime_dir in
    let made =
      new_restored_machine (restore_config dir id w.cid_counter snap) snap.memory_path
        snap.state_path (sm.config.snapshot_type =? "Diff") in
    let w1 = next_cid (log (made_dir (sandbox_dir dir id)) w) in
    if_else _ _ (ap not on)
    ∙ if_then _ _ good.mkdir
    ∙ ap (λ o. restore_machine env made id w.cid_counter snap o w1) good.machine
    ∙ if_then _ _ good.start

ok-ne-err : (r : SandboxRef) (x : Error) → ok r ≢ err x
ok-ne-err r x h = ground arith

-- In an open pool in which no VM waits, when the creation of a VM fails and the golden snapshot can
-- be restored, `Acquire` of the snapshot pool returns the restored VM with the workload's
-- configuration. The manager tracks it, but the pool does not note it as in use.
pub acquire_restores :
    (env : PooledEnv) (c : VmConfig) (p : Pool) (sm : SnapshotManager) (snap : Snapshot)
    (m : Machine) (x : Error)
    → p.available ≡ []
    → p.channel_closed ≡ false
    → (create_vm env.first.create c p.world).1 ≡ err x
    → sm.golden ≡ some snap
    → sm.config.enabled ≡ true
    → RestoreSucceeds env.restore m
    → let (q, o) = acquire_pooled env c (record { pool = p; manager = some sm }) in
      let r = restored_ref env.restore (create_vm env.first.create c p.world).0 in
      (o ≡ ok r)
      × (q.in_use ≡ p.in_use)
      × (get_sandbox r.id q.world ≡ some r)
      × ((deref q r).vm_config ≡ c)
unfolding acquire_pooled get_sandbox restore_from_golden has_golden_snapshot track
acquire_restores env c p sm snap m x none_waits is_open fails golden on good =
    let q1 = (acquire env.first c p).0 in
    let w = (create_vm env.first.create c p.world).0 in
    let r = restored_ref env.restore w in
    let miss = acquire_miss env.first c p none_waits is_open in
    let kept : q1.in_use ≡ p.in_use = elim miss.5 [
      | inl (r', e, named, there) ↦ absurd (ok-ne-err r' x (sym e ∙ miss.1 ∙ fails))
      | inr (y, e, same) ↦ same
    ] in
    let whole : acquire_pooled env c (record { pool = p; manager = some sm })
        ≡ restored env.last c
            (track r.id (the_sandbox env.restore snap m w) (before_track env.restore snap sm m w))
            q1 =
      ap (λ o. after_acquire env c (some sm) (q1, o)) (miss.1 ∙ fails)
      ∙ if_then (restored env.last c (restore_from_golden env.restore sm q1.world) q1)
          (create_fresh env.last c q1) (ap has_golden golden)
      ∙ ap (λ g. restored env.last c (restore_golden env.restore g sm q1.world) q1) golden
      ∙ ap (λ v. restored env.last c (restore_from_snapshot env.restore snap sm v) q1) miss.0
      ∙ ap (λ v. restored env.last c v q1) (restore_ok env.restore snap sm m w on good) in
    (
      ap (λ q. q.1) whole,
      ap (λ q. q.0.in_use) whole ∙ kept,
      ap (λ q. get_sandbox r.id q.0.world) whole
          ∙ lookup-insert r.id r.id r (before_track env.restore snap sm m w).sandboxes
          ∙ if_then _ _ (=?-refl r.id),
      ap (λ q. (deref q.0 r).vm_config) whole
          ∙ ap (λ (s : Sandbox). s.vm_config) (if_then _ _ (=?-refl r.addr)),
    )
