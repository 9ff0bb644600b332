-- ===== src/Vm/Pool/Preserve.antt =====
-- Every method of pkg/vm/pool.go keeps an open pool in order.
use firecracker_shim.Base.{
  ℕ, zero, suc, ◌≡◌, ◌≢◌, refl, ap, ◌∙◌, inl, inr, List, [], ◌∷◌, arith, length, insert, delete,
  if_else, count, count-insert, count-delete, Bool-cases, subst, sym, ltb, ltb→lt,
}
use firecracker_shim.Domain.{SandboxId, fc, id_eq, id_beq_iff, SandboxRef, VmConfig}
use firecracker_shim.Vm.World.{World, Outcome}
use firecracker_shim.Vm.Manager.{CreateEnv, create_vm}
use firecracker_shim.Vm.Manager.Create.{CreateResult, create_vm-CreateResult}
use firecracker_shim.Vm.Manager.Destroy.{sandboxes-destroy_vm}
use firecracker_shim.Vm.Pool.Accounting.{
  Inv, tracked, mark_fresh-Inv, same_sandboxes-Inv, take_first-Inv, leave_destroyed-Inv,
  leave_waiting-Inv, arrive_waiting-Inv, arrive_destroyed-Inv, counted_hit-Inv, counted_miss-Inv,
}
use firecracker_shim.Vm.Pool.Release.{
  release_destroys, release_returns, room_of_not_too_many, try_send_open, try_send_full,
}
use firecracker_shim.Vm.Pool.{
  Pool, deref, set_sandbox, try_send, keep_fresh, create_fresh, AcquireEnv, acquire, receive,
  ReleaseEnv, release, too_many_or_old, add_one, WarmEnv, warm_one, warm_created, warm_sent,
  warm_loop,
}

keep_fresh-Inv :
    (env : CreateEnv) (p : Pool) (r : World × Outcome SandboxRef)
    → CreateResult env p.world r
    → tracked (fc env.unix_nano) p ≡ 0
    → Inv p
    → Inv (keep_fresh r p).0
unfolding keep_fresh
keep_fresh-Inv env p (w, o) (inr (e, refused, same)) fresh v =
    rw refused (same_sandboxes-Inv p w same v)
keep_fresh-Inv env p (w, o) (inl (r, made, id, grown)) fresh v =
    rw made (mark_fresh-Inv p r w grown (rw id fresh) v)

create_fresh-Inv :
    (env : CreateEnv) (c : VmConfig) (p : Pool)
    → tracked (fc env.unix_nano) p ≡ 0
    → Inv p
    → Inv (create_fresh env c p).0
unfolding create_fresh
create_fresh-Inv env c p fresh v =
    keep_fresh-Inv env p _ (create_vm-CreateResult env c p.world) fresh v

receive-Inv :
    (env : AcquireEnv) (c : VmConfig) (p : Pool) (waiting : List SandboxRef)
    → p.available ≡ waiting
    → tracked (fc env.create.unix_nano) p ≡ 0
    → Inv p
    → Inv (receive env c waiting (record p { total_served = add_one p.total_served })).0
unfolding receive
receive-Inv env c p [] e fresh v =
    subst (λ (q : Pool × Outcome SandboxRef). Inv q.0) (sym (if_else _ _ v.is_open))
      (create_fresh-Inv env.create c _ fresh (counted_miss-Inv p v))
receive-Inv env c p (r ∷ rest) e fresh v = take_first-Inv _ r rest _ e refl (counted_hit-Inv p v)

-- `Acquire` keeps an open pool in order, whether it hits, misses or fails, when the clock gives a
-- sandbox ID that is not tracked yet.
pub acquire-Inv :
    (env : AcquireEnv) (c : VmConfig) (p : Pool)
    → tracked (fc env.create.unix_nano) p ≡ 0
    → Inv p
    → Inv (acquire env c p).0
unfolding acquire
acquire-Inv env c p fresh v = receive-Inv env c p p.available refl fresh v

-- `Release` of a VM that is in use keeps an open pool in order, whether the VM is put back or
-- destroyed.
pub release-Inv :
    (env : ReleaseEnv) (r : SandboxRef) (p : Pool)
    → count r.id p.in_use ≡ 1
    → Inv p
    → Inv (release env r p).0
release-Inv env r p used v = elim (Bool-cases (too_many_or_old env r p)) [
  | inl b ↦
      subst (λ (q : Pool × Outcome (Unit {0})). Inv q.0) (sym (release_destroys env r p b))
        (leave_destroyed-Inv p r _ (sandboxes-destroy_vm env.stop r p.world) used v)
  | inr b ↦
      subst (λ (q : Pool × Outcome (Unit {0})). Inv q.0) (sym (release_returns env r p b v.is_open))
        (leave_waiting-Inv p r _ refl used (room_of_not_too_many env r p b) v)
]

warm_sent-Inv :
    (env : WarmEnv) (p : Pool) (r : SandboxRef) (w : World)
    → w.sandboxes ≡ insert r.id r p.world.sandboxes
    → tracked r.id p ≡ 0
    → Inv p
    → let q : Pool = record p { world = w } in Inv (warm_sent env r (try_send r q) q).0
unfolding warm_sent
warm_sent-Inv env p r w grown fresh v =
    let q : Pool = record p { world = w } in
    let room = Bool-cases (ltb (length p.available) p.config.max_size) in
    elim room [
      | inl b ↦
          rw (try_send_open r q v.is_open (ltb→lt _ _ b))
            (arrive_waiting-Inv p r w grown fresh (ltb→lt _ _ b) v)
      | inr b ↦ rw (try_send_full r q v.is_open b) (
          arrive_destroyed-Inv p r _ (sandboxes-destroy_vm env.stop r w ∙ ap (delete r.id) grown)
            fresh v)
    ]

-- The answer of `CreateVM` in a goroutine of `Warm`.
warm_created-Inv :
    (env : WarmEnv) (p : Pool) (r : World × Outcome SandboxRef)
    → CreateResult env.create p.world r
    → tracked (fc env.create.unix_nano) p ≡ 0
    → Inv p
    → Inv (warm_created env r p).0
unfolding warm_created
warm_created-Inv env p (w, o) (inr (e, refused, same)) fresh v =
    rw refused (same_sandboxes-Inv p w same v)
warm_created-Inv env p (w, o) (inl (r, made, id, grown)) fresh v =
    rw made (warm_sent-Inv env p r _ grown (rw id fresh) v)

warm_one-Inv :
    (env : WarmEnv) (c : VmConfig) (p : Pool)
    → tracked (fc env.create.unix_nano) p ≡ 0
    → Inv p
    → Inv (warm_one env c p).0
unfolding warm_one
warm_one-Inv env c p fresh v = elim (Bool-cases env.slot) [
  | inl b ↦ rw b (warm_created-Inv env p _ (create_vm-CreateResult env.create c p.world) fresh v)
  | inr b ↦ rw b v
]

warm_sent-untracked :
    (env : WarmEnv) (r : SandboxRef) (p : Pool) (k : SandboxId)
    → tracked k p ≡ 0
    → tracked k (warm_sent env r (try_send r p) p).0 ≡ 0
unfolding warm_sent try_send
warm_sent-untracked env r p k none_yet =
    let gone = ap (count k) (sandboxes-destroy_vm env.stop r p.world) in
    ground (arith, gone, count-delete r.id k p.world.sandboxes)

-- A goroutine of `Warm` adds no ID but its own.
warm_one-untracked :
    (env : WarmEnv) (c : VmConfig) (p : Pool) (k : SandboxId)
    → k ≢ fc env.create.unix_nano
    → tracked k p ≡ 0
    → tracked k (warm_one env c p).0 ≡ 0
unfolding warm_one
warm_one-untracked env c p k ne none_yet = elim (Bool-cases env.slot) [
  | inl b ↦ rw b (go (create_vm env.create c p.world) (create_vm-CreateResult env.create c p.world))
  | inr b ↦ rw b none_yet
]
  where
    go :
        (r : World × Outcome SandboxRef)
        → CreateResult env.create p.world r
        → tracked k (warm_created env r p).0 ≡ 0
    go (w, o) (inr (e, refused, same)) = rw refused (ap (count k) same ∙ none_yet)
    go (w, o) (inl (r, made, id, grown)) =
        let before = count-insert r.id k r p.world.sandboxes in
        let new : count k w.sandboxes ≡ 0 =
          ground (arith, before, id_beq_iff r.id k, ap (count k) grown) in
        let p1 : Pool = record p { world = w } in
        let p2 = set_sandbox r (record (deref p1 r) { pooled_at = env.pooled_time }) p1 in
        rw made (warm_sent-untracked env r p2 k new)

-- The goroutines of `Warm` draw IDs that are not tracked, and all different.
abbrev pub Apart : (ℕ → WarmEnv) → ℕ → ℕ → Type 0
Apart env zero x = Unit
Apart env (suc n) x = ((env n).create.unix_nano ≢ x) × Apart env n x

abbrev pub FreshIds : (ℕ → WarmEnv) → ℕ → Pool → Type 0
FreshIds env zero p = Unit
FreshIds env (suc n) p =
    (tracked (fc (env n).create.unix_nano) p ≡ 0)
    × Apart env n (env n).create.unix_nano
    × FreshIds env n p

FreshIds-warm_one :
    (env : ℕ → WarmEnv) (c : VmConfig) (e : WarmEnv) (n : ℕ) (p : Pool)
    → Apart env n e.create.unix_nano
    → FreshIds env n p
    → FreshIds env n (warm_one e c p).0
FreshIds-warm_one env c e zero p a f = tt
FreshIds-warm_one env c e (suc n) p a f = (
  warm_one-untracked e c p _ (λ same. a.0 (ground arith)) f.0,
  f.1,
  FreshIds-warm_one env c e n p a.1 f.2,
)

pub warm_loop-Inv :
    (env : ℕ → WarmEnv) (c : VmConfig) (n : ℕ) (p : Pool) (errors : ℕ)
    → FreshIds env n p
    → Inv p
    → Inv (warm_loop env c n p errors).0
unfolding warm_loop
warm_loop-Inv env c zero p errors f v = v
warm_loop-Inv env c (suc n) p errors f v =
    let p' = (warm_one (env n) c p).0 in
    let v' = warm_one-Inv (env n) c p f.0 v in
    let f' = FreshIds-warm_one env c (env n) n p f.1 f.2 in
    ground (
      arith,
      v',
      warm_loop-Inv env c n p' errors f' v',
      warm_loop-Inv env c n p' (suc errors) f' v',
    )
