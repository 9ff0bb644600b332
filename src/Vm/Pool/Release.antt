-- ===== src/Vm/Pool/Release.antt =====
-- `Release` of pkg/vm/pool.go on its branches.
use firecracker_shim.Base.{
  ◌-◌, ◌≤◌, ◌<◌, ◌≡◌, refl, ◌∙◌, ap, ◌⊎◌, inl, inr, true, false, List, [], ◌∷◌, ◌++◌, arith, length,
  ltb, lt→ltb, if_then, if_else, delete, lookup, none, lookup-delete, =?-refl, Bool-cases,
}
use firecracker_shim.Domain.{SandboxId, id_eq, SandboxRef}
use firecracker_shim.Vm.World.{World, ok}
use firecracker_shim.Vm.Manager.{get_sandbox}
use firecracker_shim.Vm.Manager.Destroy.{sandboxes-destroy_vm}
use firecracker_shim.Vm.Pool.{
  Pool, deref, destroy, set_sandbox, sent, full, try_send, ReleaseEnv, too_many_or_old, returned,
  release,
}

pub try_send_open :
    (r : SandboxRef) (p : Pool)
    → p.channel_closed ≡ false
    → length p.available < p.config.max_size
    → try_send r p ≡ sent (record p { available = p.available ++ r ∷ [] })
unfolding try_send
try_send_open r p o room = if_else _ _ o ∙ if_then _ _ (lt→ltb _ _ room)

-- Memory after a VM was reset and stamped.
abbrev pub reset_world : ReleaseEnv → SandboxRef → Pool → World
reset_world env r p =
    let q = set_sandbox r (record (deref p r) { containers = [] }) p in
    (set_sandbox r (record (deref q r) { pooled_at = env.pooled_time }) q).world

pub room_of_not_too_many :
    (env : ReleaseEnv) (r : SandboxRef) (p : Pool)
    → too_many_or_old env r p ≡ false
    → length p.available < p.config.max_size
unfolding too_many_or_old
room_of_not_too_many env r p h = ground arith

pub release_destroys :
    (env : ReleaseEnv) (r : SandboxRef) (p : Pool)
    → too_many_or_old env r p ≡ true
    → release env r p ≡ (destroy env.stop r (record p { in_use = delete r.id p.in_use }), ok tt)
unfolding release
release_destroys env r p h = if_then _ _ h

pub release_returns :
    (env : ReleaseEnv) (r : SandboxRef) (p : Pool)
    → too_many_or_old env r p ≡ false
    → p.channel_closed ≡ false
    → release env r p ≡ (
      record p {
        in_use = delete r.id p.in_use;
        world = reset_world env r p;
        available = p.available ++ r ∷ [];
      },
      ok tt,
    )
unfolding release returned
release_returns env r p h o =
    let q : Pool = record p { in_use = delete r.id p.in_use; world = reset_world env r p } in
    if_else _ _ h
    ∙ ap (λ s. returned env r s q) (try_send_open r q o (room_of_not_too_many env r p h))

pub try_send_full :
    (r : SandboxRef) (p : Pool)
    → p.channel_closed ≡ false
    → ltb (length p.available) p.config.max_size ≡ false
    → try_send r p ≡ full
unfolding try_send
try_send_full r p o h = if_else _ _ o ∙ if_else _ _ h

-- `Release` on an open pool never fails, and the VM is no longer in use. When the channel is full or
-- the VM is older than the idle limit, the VM is destroyed: the manager does not track it, and the
-- channel is as it was. Otherwise it stands at the end of the channel, with no container left and
-- the time of its return, still tracked, and no call outside was made.
pub release_cases :
    (env : ReleaseEnv) (r : SandboxRef) (p : Pool)
    → p.channel_closed ≡ false
    → let (q, o) = release env r p in
      let age = env.now - (deref p r).created_at in
      (o ≡ ok tt)
      × (lookup r.id q.in_use ≡ none)
      × ((((p.config.max_size ≤ length p.available) ⊎ (p.config.max_idle_time < age))
            × (q.available ≡ p.available)
            × (get_sandbox r.id q.world ≡ none))
          ⊎ ((length p.available < p.config.max_size)
              × (age ≤ p.config.max_idle_time)
              × (q.available ≡ p.available ++ r ∷ [])
              × ((deref q r).containers ≡ [])
              × ((deref q r).pooled_at ≡ env.pooled_time)
              × (q.world.sandboxes ≡ p.world.sandboxes)
              × (q.world.effects ≡ p.world.effects)))
unfolding too_many_or_old get_sandbox
release_cases env r p o =
    let gone : (m : List (SandboxId × SandboxRef)) → lookup r.id (delete r.id m) ≡ none =
      λ m. lookup-delete r.id r.id m ∙ if_then _ _ (=?-refl r.id) in
    elim (Bool-cases (too_many_or_old env r p)) [
      | inl b ↦ rw (release_destroys env r p b) (
        refl,
        gone p.in_use,
        inl (
          ground arith,
          refl,
          ap (lookup r.id) (sandboxes-destroy_vm env.stop r p.world) ∙ gone p.world.sandboxes,
        ),
      )
      | inr b ↦ rw (release_returns env r p b o) (
        refl,
        gone p.in_use,
        inr (ground arith, ground arith, refl, ground arith, ground arith, refl, refl),
      )
    ]
