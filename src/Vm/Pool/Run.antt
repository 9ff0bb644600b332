-- ===== src/Vm/Pool/Run.antt =====
-- A pool over its whole life, until `Close`.
use firecracker_shim.Base.{ℕ, ◌≡◌, refl, arith, count, length, ltb, Bool-cases, inl, inr, ◌-◌}
use firecracker_shim.Domain.{fc, id_eq, Sandbox, SandboxRef, VmConfig}
use firecracker_shim.Vm.World.{ManagerConfig}
use firecracker_shim.Vm.Manager.{new_manager}
use firecracker_shim.Vm.Pool.Accounting.{Inv, tracked, count_id}
use firecracker_shim.Vm.Pool.Preserve.{acquire-Inv, release-Inv, FreshIds, warm_loop-Inv}
use firecracker_shim.Vm.Pool.Idle.{cleanup_idle-Inv}
use firecracker_shim.Vm.Pool.{
  Pool, PoolConfig, new_pool, AcquireEnv, acquire, ReleaseEnv, release, WarmEnv, warm, replenish,
  IdleEnv, cleanup_idle,
}

pub new_pool-Inv :
    (m : ManagerConfig) (heap : ℕ → Sandbox) (c : PoolConfig)
    → Inv (new_pool (new_manager m heap) c)
unfolding new_pool new_manager count count_id
new_pool-Inv m heap c = record {
  is_open = refl;
  within = omega arith;
  balance = λ k. omega arith;
  single = λ k. omega arith;
  keyed = tt;
  served = refl;
}

warm-Inv :
    (env : ℕ → WarmEnv) (n : ℕ) (c : VmConfig) (p : Pool)
    → FreshIds env n p
    → Inv p
    → Inv (warm env n c p).0
unfolding warm
warm-Inv env n c p f v = warm_loop-Inv env c n p 0 f v

replenish-Inv :
    (env : ℕ → WarmEnv) (p : Pool)
    → FreshIds env (p.config.min_size - length p.available) p
    → Inv p
    → Inv (replenish env p).0
unfolding replenish
replenish-Inv env p f v = elim (Bool-cases (ltb (length p.available) p.config.min_size)) [
  | inl b ↦ rw b (warm-Inv env _ _ p f v)
  | inr b ↦ rw b v
]

-- One call on the pool. The clock gives IDs that are not tracked, and only a VM in use is released.
pub data Step : Pool → Pool → Type 0 where
  acquires :
      (env : AcquireEnv) (c : VmConfig) (p : Pool)
      → tracked (fc env.create.unix_nano) p ≡ 0
      → Step p (acquire env c p).0
  releases :
      (env : ReleaseEnv) (r : SandboxRef) (p : Pool)
      → count r.id p.in_use ≡ 1
      → Step p (release env r p).0
  warms :
      (env : ℕ → WarmEnv) (n : ℕ) (c : VmConfig) (p : Pool)
      → FreshIds env n p
      → Step p (warm env n c p).0
  replenishes :
      (env : ℕ → WarmEnv) (p : Pool)
      → FreshIds env (p.config.min_size - length p.available) p
      → Step p (replenish env p).0
  cleans : (env : IdleEnv) (p : Pool) → Step p (cleanup_idle env (λ q. q) p).0

pub data Reach (p : Pool) : Pool → Type 0 where
  here : Reach p p
  next : {q r : Pool} → Reach p q → Step q r → Reach p r

Step-Inv : {p q : Pool} → Step p q → Inv p → Inv q
Step-Inv (acquires env c p fresh) v = acquire-Inv env c p fresh v
Step-Inv (releases env r p used) v = release-Inv env r p used v
Step-Inv (warms env n c p f) v = warm-Inv env n c p f v
Step-Inv (replenishes env p f) v = replenish-Inv env p f v
Step-Inv (cleans env p) v = cleanup_idle-Inv env p v

pub Reach-Inv : {p q : Pool} → Reach p q → Inv p → Inv q
Reach-Inv here v = v
Reach-Inv (next r s) v = Step-Inv s (Reach-Inv r v)

-- From a new pool over a new manager, after calls of `Acquire`, `Release`, `Warm`, `replenish` and
-- `cleanupIdle` in any order, each as one step and whatever the calls outside answer, if new IDs are
-- not tracked yet and only VMs in use are released: the channel holds at most `MaxSize` VMs, every
-- VM that the manager tracks waits or is in use, exactly once, no other VM waits or is in use, and
-- the hits and misses add up to the VMs asked for (modulo 2^64).
pub reachable-Inv :
    (m : ManagerConfig) (heap : ℕ → Sandbox) (c : PoolConfig) {p : Pool}
    → Reach (new_pool (new_manager m heap) c) p
    → Inv p
reachable-Inv m heap c r = Reach-Inv r (new_pool-Inv m heap c)
