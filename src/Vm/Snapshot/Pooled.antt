-- ===== src/Vm/Snapshot/Pooled.antt =====
-- The `SnapshotPool` of pkg/vm/snapshot.go: a pool with a snapshot manager over the same memory.
pub mod Restores
use firecracker_shim.Base.{
  ℕ, zero, suc, ◌≡◌, refl, sym, ◌∙◌, ap, subst, Bool, true, false, Option, none, some, List, [],
  ◌∷◌, length, if◌then◌else◌, if_then, if_else,
}
use firecracker_shim.Domain.{Sandbox, SandboxRef, VmConfig, fc_snap}
use firecracker_shim.Vm.Manager.{CreateEnv, StopEnv, create_vm}
use firecracker_shim.Vm.Pool.{
  Pool, deref, set_sandbox, destroy, Sent, sent, full, on_closed, try_send, AcquireEnv, acquire,
  create_fresh, customize_vm, WarmEnv, warm, receive,
}
use firecracker_shim.Vm.Pool.Acquire.{acquire_miss}
use firecracker_shim.Vm.Snapshot.{Snapshot, SnapshotManager, restore_from_golden}
use firecracker_shim.Vm.Snapshot.Cache.{has_golden_snapshot}
use firecracker_shim.Vm.World.{
  World, Error, Outcome, ok, err, nil_dereference, send_on_closed_channel,
}

pub record SnapshotPool : Type 0 where
  pub pool : Pool
  pub manager : Option SnapshotManager

-- What `Acquire` meets: the pool's call, the restore, and the last creation.
pub record PooledEnv : Type 0 where
  pub first : AcquireEnv
  pub restore : CreateEnv
  pub last : CreateEnv

abbrev pub golden_ready : Option SnapshotManager → Bool
golden_ready none = false
golden_ready (some sm) = has_golden_snapshot sm

-- A restored VM is customised, where the answer of `customizeVM` is only logged; a failed restore
-- gives way to a creation.
unfoldable pub restored :
    CreateEnv → VmConfig → World × Outcome SandboxRef → Pool → Pool × Outcome SandboxRef
unfolding create_fresh customize_vm
restored env c (w, ok r) p = ((customize_vm r c (record p { world = w })).0, ok r)
restored env c (w, err e) p = create_fresh env c (record p { world = w })
restored env c (w, nil_dereference) p = (record p { world = w }, nil_dereference)
restored env c (w, send_on_closed_channel) p = (record p { world = w }, send_on_closed_channel)

unfoldable pub fall_back :
    PooledEnv → VmConfig → Option SnapshotManager → Pool → Pool × Outcome SandboxRef
unfolding restored
fall_back env c none p = create_fresh env.last c p
fall_back env c (some sm) p =
    if has_golden_snapshot sm
    then restored env.last c (restore_from_golden env.restore sm p.world) p
    else create_fresh env.last c p

unfoldable pub after_acquire :
    PooledEnv
    → VmConfig
    → Option SnapshotManager
    → Pool × Outcome SandboxRef
    → Pool × Outcome SandboxRef
unfolding fall_back
after_acquire env c sm (p, ok r) = (p, ok r)
after_acquire env c sm (p, err e) = fall_back env c sm p
after_acquire env c sm (p, nil_dereference) = (p, nil_dereference)
after_acquire env c sm (p, send_on_closed_channel) = (p, send_on_closed_channel)

unfoldable pub acquire_pooled : PooledEnv → VmConfig → SnapshotPool → Pool × Outcome SandboxRef
unfolding after_acquire
acquire_pooled env c sp = after_acquire env c sp.manager (acquire env.first c sp.pool)

-- One round of `WarmFromSnapshot`; the flag says that the send panicked.
unfoldable pub offered : StopEnv → SandboxRef → Sent → Pool → Pool × Bool
offered env r (sent p') p = (p', false)
offered env r full p = (destroy env r p, false)
offered env r on_closed p = (p, true)

unfoldable pub warm_restored : WarmEnv → World × Outcome SandboxRef → Pool → Pool × Bool
unfolding offered try_send
warm_restored env (w, ok r) p =
    let p1 = record p { world = w } in
    let p2 = set_sandbox r (record (deref p1 r) { pooled_at = env.pooled_time }) p1 in
    offered env.stop r (try_send r p2) p2
warm_restored env (w, err e) p = (record p { world = w }, false)
warm_restored env (w, nil_dereference) p = (record p { world = w }, true)
warm_restored env (w, send_on_closed_channel) p = (record p { world = w }, true)

unfoldable pub warm_rounds : (ℕ → WarmEnv) → SnapshotManager → ℕ → Pool → Pool × Outcome (Unit {0})
unfolding warm_restored
warm_rounds env sm zero p = (p, ok tt)
warm_rounds env sm (suc n) p =
    let (p', crash) = warm_restored (env n) (restore_from_golden (env n).create sm p.world) p in
    let rest = warm_rounds env sm n p' in if crash then (p', send_on_closed_channel) else rest

unfoldable pub warm_with :
    (ℕ → WarmEnv) → ℕ → Option SnapshotManager → Pool → Pool × Outcome (Unit {0})
unfolding warm_rounds
warm_with env count none p = warm env count p.config.default_vm_config p
warm_with env count (some sm) p =
    if has_golden_snapshot sm
    then warm_rounds env sm count p
    else warm env count p.config.default_vm_config p

unfoldable pub warm_from_snapshot : (ℕ → WarmEnv) → ℕ → SnapshotPool → Pool × Outcome (Unit {0})
unfolding warm_with
warm_from_snapshot env count sp = warm_with env count sp.manager sp.pool
