-- ===== src/Vm/Pool/Acquire.antt =====
-- `Acquire` of pkg/vm/pool.go on its branches, and a VM on its way through the pool.
use firecracker_shim.Base.{
  ℕ, ◌-◌, ◌≤◌, ◌≡◌, refl, ◌∙◌, ap, true, false, none, some, List, [], ◌∷◌, ◌++◌, arith, length,
  lookup, lookup-insert, lookup-delete, =?-refl, if_else, if_then, if◌then◌else◌, ◌==◌, ◌⊎◌, inl,
  inr,
}
use firecracker_shim.Domain.{fc, id_eq, id_beq_iff, SandboxRef, VmConfig}
use firecracker_shim.Vm.World.{World, Error, Outcome, ok, err}
use firecracker_shim.Vm.Manager.{CreateEnv, create_vm}
use firecracker_shim.Vm.Manager.Create.{CreateResult, create_vm-CreateResult}
use firecracker_shim.Vm.Pool.Release.{release_returns}
use firecracker_shim.Vm.Pool.{
  Pool, add_one, deref, AcquireEnv, acquire, keep_fresh, create_fresh, receive, ReleaseEnv, release,
  too_many_or_old,
}

-- When VMs wait, `Acquire` returns the one that has waited longest. It makes no call outside, counts
-- a hit, takes the VM out of the channel and notes it as in use; the VM gets the configuration of
-- the workload and the mark that it comes from the pool, and every other sandbox is as it was.
pub acquire_hit :
    (env : AcquireEnv) (c : VmConfig) (p : Pool) (r : SandboxRef) (rest : List SandboxRef) (a : ℕ)
    → p.available ≡ r ∷ rest
    → let (q, o) = acquire env c p in
      (o ≡ ok r)
      × (q.available ≡ rest)
      × (lookup r.id q.in_use ≡ some r)
      × (q.world.effects ≡ p.world.effects)
      × (q.world.sandboxes ≡ p.world.sandboxes)
      × (q.pool_hits ≡ add_one p.pool_hits)
      × (q.pool_misses ≡ p.pool_misses)
      × (q.world.heap a ≡ (
          if r.addr == a
          then record (deref p r) { from_pool = true; vm_config = c }
          else p.world.heap a))
unfolding acquire
acquire_hit env c p r rest a e = (
  ground arith,
  ground arith,
  ground (arith, lookup-insert r.id r.id r p.in_use, id_beq_iff r.id r.id),
  ground arith,
  ground arith,
  ground arith,
  ground arith,
  ground arith,
)

-- `createFresh` by the answer of `CreateVM`.
keep_fresh_lem :
    (env : CreateEnv) (p : Pool) (r : World × Outcome SandboxRef)
    → CreateResult env p.world r
    → let (q, o) = keep_fresh r p in
      (q.world ≡ r.0)
      × (o ≡ r.1)
      × (q.available ≡ p.available)
      × (q.pool_misses ≡ p.pool_misses)
      × (q.pool_hits ≡ p.pool_hits)
      × (((s : SandboxRef) × (o ≡ ok s)
            × (s.id ≡ fc env.unix_nano)
            × (lookup s.id q.in_use ≡ some s))
          ⊎ ((x : Error) × (o ≡ err x) × (q.in_use ≡ p.in_use)))
unfolding keep_fresh
keep_fresh_lem env p (w, o) (inr (x, refused, _)) =
    rw refused (refl, refl, refl, refl, refl, inr (x, refl, refl))
keep_fresh_lem env p (w, o) (inl (s, made, id, _)) =
    let found = lookup-insert s.id s.id s p.in_use ∙ if_then _ _ (=?-refl s.id) in
    rw made (refl, refl, refl, refl, refl, inl (s, refl, id, found))

acquire_empty :
    (env : AcquireEnv) (c : VmConfig) (p : Pool)
    → p.available ≡ []
    → p.channel_closed ≡ false
    → acquire env c p
      ≡ create_fresh env.create c
          (record p { total_served = add_one p.total_served; pool_misses = add_one p.pool_misses })
unfolding acquire receive
acquire_empty env c p e o =
    let q : Pool = record p { total_served = add_one p.total_served } in
    ap (λ rs. receive env c rs q) e ∙ if_else _ _ o

-- When no VM waits in an open pool, `Acquire` counts a miss and creates a VM with the workload's
-- configuration: either it returns the new VM, noted as in use under the ID that the clock gave, or
-- it returns the error of the manager, with the VMs in use as they were.
pub acquire_miss :
    (env : AcquireEnv) (c : VmConfig) (p : Pool)
    → p.available ≡ []
    → p.channel_closed ≡ false
    → let (q, o) = acquire env c p in
      (q.world ≡ (create_vm env.create c p.world).0)
      × (o ≡ (create_vm env.create c p.world).1)
      × (q.available ≡ [])
      × (q.pool_misses ≡ add_one p.pool_misses)
      × (q.pool_hits ≡ p.pool_hits)
      × (((r : SandboxRef) × (o ≡ ok r)
            × (r.id ≡ fc env.create.unix_nano)
            × (lookup r.id q.in_use ≡ some r))
          ⊎ ((x : Error) × (o ≡ err x) × (q.in_use ≡ p.in_use)))
unfolding create_fresh
acquire_miss env c p e o =
    let q : Pool = record p {
      total_served = add_one p.total_served;
      pool_misses = add_one p.pool_misses;
    } in
    let (a, b, c', d, f, g) =
      keep_fresh_lem env.create q _ (create_vm-CreateResult env.create c p.world) in
    rw (acquire_empty env c p e o) (a, b, c' ∙ e, d, f, g)

young_after_acquire :
    (env : AcquireEnv) (c : VmConfig) (back : ReleaseEnv) (p : Pool) (r : SandboxRef)
    (rest : List SandboxRef)
    → p.available ≡ r ∷ rest
    → length p.available ≤ p.config.max_size
    → back.now - (deref p r).created_at ≤ p.config.max_idle_time
    → too_many_or_old back r (acquire env c p).0 ≡ false
unfolding acquire receive too_many_or_old
young_after_acquire env c back p r rest e room young = ground (arith, ap length e)

acquired_frame :
    (env : AcquireEnv) (c : VmConfig) (p : Pool) (r : SandboxRef) (rest : List SandboxRef)
    → p.available ≡ r ∷ rest
    → let q = (acquire env c p).0 in
      (q.channel_closed ≡ p.channel_closed)
      × (q.available ≡ rest)
      × (q.world.effects ≡ p.world.effects)
      × (q.world.sandboxes ≡ p.world.sandboxes)
unfolding acquire receive
acquired_frame env c p r rest e = ground arith

-- A VM that `Acquire` took from a pool with room for it, and that is not too old, goes back by
-- `Release` to the end of the channel, with no container left in it and the time of its return;
-- it is no longer in use, and no call outside was made.
pub acquire-release :
    (env : AcquireEnv) (c : VmConfig) (back : ReleaseEnv) (p : Pool) (r : SandboxRef)
    (rest : List SandboxRef)
    → p.available ≡ r ∷ rest
    → p.channel_closed ≡ false
    → length p.available ≤ p.config.max_size
    → back.now - (deref p r).created_at ≤ p.config.max_idle_time
    → let (q, o) = release back r (acquire env c p).0 in
      (o ≡ ok tt)
      × (q.available ≡ rest ++ r ∷ [])
      × (lookup r.id q.in_use ≡ none)
      × ((deref q r).containers ≡ [])
      × ((deref q r).pooled_at ≡ back.pooled_time)
      × (q.world.effects ≡ p.world.effects)
      × (q.world.sandboxes ≡ p.world.sandboxes)
acquire-release env c back p r rest e o room young =
    let q = (acquire env c p).0 in
    let (open_still, waiting, effects, tracked) = acquired_frame env c p r rest e in
    rw
      (release_returns back r q (young_after_acquire env c back p r rest e room young)
        (open_still ∙ o))
      (
        refl,
        ap (λ rs. rs ++ r ∷ []) waiting,
        lookup-delete r.id r.id q.in_use ∙ if_then _ _ (=?-refl r.id),
        ground arith,
        ground arith,
        effects,
        tracked,
      )
