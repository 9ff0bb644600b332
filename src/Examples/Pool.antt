-- ===== src/Examples/Pool.antt =====
-- Runs of the pool of pkg/vm/pool.go.
use Prim.Native.Nat.{max}
use firecracker_shim.Base.{
  ℕ, ◌-◌, ◌≤◌, ◌<◌, ◌≡◌, refl, ◌⊎◌, true, none, some, [], ◌∷◌, ◌++◌, length, if◌then◌else◌, lookup,
  ◌==◌, arith, count, insert, delete,
}
use firecracker_shim.Domain.{fc, id_eq, SandboxRef, new_sandbox, VmConfig, default_vm_config}
use firecracker_shim.Vm.World.{ok, nil_dereference}
use firecracker_shim.Vm.Manager.{default_manager_config, new_manager, create_vm, get_sandbox}
use firecracker_shim.Vm.Pool.{
  PoolConfig, Pool, new_pool, add_one, deref, AcquireEnv, acquire, ReleaseEnv, release, WarmEnv,
  replenish, IdleEnv, close,
}
use firecracker_shim.Vm.Pool.Accounting.{Inv, tracked}
use firecracker_shim.Vm.Pool.Acquire.{acquire_hit, acquire-release}
use firecracker_shim.Vm.Pool.Release.{release_cases}
use firecracker_shim.Vm.Pool.Replenish.{Succeeds, replenish_reaches_min}
use firecracker_shim.Vm.Pool.Run.{new_pool-Inv, here, next, acquires, releases, reachable-Inv}
use firecracker_shim.Vm.Pool.Close.{close_destroys_all, acquire_after_close}
use firecracker_shim.Examples.Manager.{at_time, slow_stop}

abbrev small : PoolConfig
small = record {
  max_size = 2;
  min_size = 1;
  max_idle_time = 100;
  warm_concurrency = 1;
  default_vm_config = default_vm_config;
  replenish_interval = 10;
}

abbrev pub fresh : Pool
fresh = new_pool (new_manager default_manager_config (λ a. new_sandbox 0)) small

abbrev workload : VmConfig
workload = record default_vm_config { memory_mb = 512 }

abbrev pub call : ℕ → AcquireEnv
call t = record { create = at_time t; stop = slow_stop }

abbrev pub back : ReleaseEnv
back = record { now = 50; pooled_time = 51; stop = slow_stop }

abbrev late : ReleaseEnv
late = record back { now = 500 }

abbrev pub vm_10 : SandboxRef
vm_10 = record { addr = 0; id = fc 10 }

-- A VM was created for a workload, and then it came back.
abbrev pub busy : Pool
busy = (acquire (call 10) workload fresh).0

abbrev stocked : Pool
stocked = (release back vm_10 busy).0

abbrev warming : ℕ → WarmEnv
warming i = record { slot = true; create = at_time i; pooled_time = i; stop = slow_stop }

abbrev clockwork : IdleEnv
clockwork = record { clock = λ r. 400; stop = λ r. slow_stop }

reachable-Inv_example : Inv stocked
unfolding acquire release create_vm new_manager new_pool count delete insert
reachable-Inv_example =
    reachable-Inv default_manager_config (λ a. new_sandbox 0) small
      (next (next here (acquires (call 10) workload fresh refl)) (releases back vm_10 busy refl))

acquire_hit_example :
    let (q, o) = acquire (call 60) workload stocked in
    (o ≡ ok vm_10)
    × (q.available ≡ [])
    × (lookup (fc 10) q.in_use ≡ some vm_10)
    × (q.world.effects ≡ stocked.world.effects)
    × (q.world.sandboxes ≡ stocked.world.sandboxes)
    × (q.pool_hits ≡ add_one stocked.pool_hits)
    × (q.pool_misses ≡ stocked.pool_misses)
    × (q.world.heap 0 ≡ (
        if 0 == 0
        then record (deref stocked vm_10) { from_pool = true; vm_config = workload }
        else stocked.world.heap 0))
unfolding acquire release create_vm new_manager new_pool
acquire_hit_example = acquire_hit (call 60) workload stocked vm_10 [] 0 refl

acquire-release_example :
    let (q, o) = release back vm_10 (acquire (call 60) workload stocked).0 in
    (o ≡ ok tt)
    × (q.available ≡ vm_10 ∷ [])
    × (lookup (fc 10) q.in_use ≡ none)
    × ((deref q vm_10).containers ≡ [])
    × ((deref q vm_10).pooled_at ≡ 51)
    × (q.world.effects ≡ stocked.world.effects)
    × (q.world.sandboxes ≡ stocked.world.sandboxes)
unfolding acquire release create_vm new_manager new_pool
acquire-release_example =
    acquire-release (call 60) workload back stocked vm_10 [] refl refl (omega arith) (omega arith)

release_cases_example :
    let (q, o) = release late vm_10 busy in
    (o ≡ ok tt)
    × (lookup (fc 10) q.in_use ≡ none)
    × ((((2 ≤ length busy.available) ⊎ (100 < 500 - (deref busy vm_10).created_at))
          × (q.available ≡ busy.available)
          × (get_sandbox (fc 10) q.world ≡ none))
        ⊎ ((length busy.available < 2)
            × (500 - (deref busy vm_10).created_at ≤ 100)
            × (q.available ≡ busy.available ++ vm_10 ∷ [])
            × ((deref q vm_10).containers ≡ [])
            × ((deref q vm_10).pooled_at ≡ 51)
            × (q.world.sandboxes ≡ busy.world.sandboxes)
            × (q.world.effects ≡ busy.world.effects)))
unfolding acquire new_manager new_pool create_vm
release_cases_example = release_cases late vm_10 busy refl

abbrev fine : (i : ℕ) → Succeeds (warming i)
fine i = record { slot = refl; mkdir = refl; machine = (7, refl); start = refl }

replenish_reaches_min_example :
    let (q, o) = replenish warming fresh in
    (o ≡ ok tt) × (length q.available ≡ max (length fresh.available) 1)
unfolding new_pool
replenish_reaches_min_example =
    replenish_reaches_min warming fresh fine refl (omega arith) (omega arith)

close_destroys_all_example :
    let q = close (λ r. slow_stop) fresh in
    (tracked (fc 10) q ≡ 0)
    × (q.available ≡ [])
    × (q.channel_closed ≡ true)
    × (q.cancelled ≡ true)
    × (close (λ r. slow_stop) q ≡ q)
    × (q.in_use ≡ fresh.in_use)
unfolding new_pool
close_destroys_all_example =
    close_destroys_all (λ r. slow_stop) (λ r. slow_stop) fresh (fc 10) refl
      (new_pool-Inv default_manager_config (λ a. new_sandbox 0) small)

acquire_after_close_example :
    (acquire (call 60) workload (close (λ r. slow_stop) stocked)).1 ≡ nil_dereference
unfolding acquire release create_vm new_manager new_pool
acquire_after_close_example = acquire_after_close (λ r. slow_stop) (call 60) workload stocked refl
