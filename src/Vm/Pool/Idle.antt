-- ===== src/Vm/Pool/Idle.antt =====
-- `cleanupIdle` of pkg/vm/pool.go.
use mathlib.Core.List.{append_assoc, append-nil}
use firecracker_shim.Base.{
  ◌+◌, ◌≤◌, ◌≡◌, sym, subst, ◌∙◌, ap, fun_ext, Bool, false, not, List, [], ◌∷◌, ◌++◌, arith, length,
  length-append, length-keep_if, keep_if, Bool-cases, inl, inr, count, ◌⊎◌, if_else, if◌then◌else◌,
}
use firecracker_shim.Domain.{SandboxRef, id_eq}
use firecracker_shim.Vm.World.{Outcome, ok, send_on_closed_channel}
use firecracker_shim.Vm.Pool.Accounting.{Inv}
use firecracker_shim.Vm.Pool.Release.{try_send_open}
use firecracker_shim.Vm.Pool.Bulk.{
  destroy_all_frame, sandboxes-destroy_all, pooled_at-destroy, count-delete_some,
  count-delete_some_le,
}
use firecracker_shim.Vm.Pool.{
  Pool, Sent, destroy, destroy_all, IdleEnv, expired, drain, refill, refilled, cleanup_idle,
}

abbrev pub in_time : IdleEnv → Pool → SandboxRef → Bool
in_time env p r = not (expired env p r)

expired-destroy :
    (env : IdleEnv) (r : SandboxRef) (p : Pool)
    → expired env (destroy (env.stop r) r p) ≡ expired env p
unfolding expired
expired-destroy env r p = fun_ext λ s. rw (pooled_at-destroy (env.stop r) r s p)

drain_lem :
    (env : IdleEnv) (rs : List SandboxRef) (p : Pool) (keep : List SandboxRef)
    → drain env rs p keep ≡ (
      record (destroy_all env.stop (keep_if (expired env p) rs) p) { available = [] },
      keep ++ keep_if (in_time env p) rs,
    )
unfolding drain destroy_all keep_if
drain_lem env [] p keep = rw append-nil
drain_lem env (r ∷ rs) p keep = elim (Bool-cases (expired env p r)) [
  | inl b ↦ rw b (
      drain_lem env rs (destroy (env.stop r) r p) keep
      ∙ ap
          (λ (f : SandboxRef → Bool). (
            record (destroy_all env.stop (keep_if f rs) (destroy (env.stop r) r p)) {
              available = [];
            },
            keep ++ keep_if (λ s. not (f s)) rs,
          ))
          (expired-destroy env r p))
  | inr b ↦ rw b (drain_lem env rs p (keep ++ r ∷ []) ∙ rw append_assoc)
]

refill_lem :
    (env : IdleEnv) (keep : List SandboxRef) (p : Pool)
    → p.channel_closed ≡ false
    → length p.available + length keep ≤ p.config.max_size
    → refill env keep p ≡ (record p { available = p.available ++ keep }, ok tt)
unfolding refill refilled
refill_lem env [] p o room = rw append-nil
refill_lem env (r ∷ keep) p o room =
    let q : Pool = record p { available = p.available ++ r ∷ [] } in
    rw (try_send_open r p o (omega arith)) (
      refill_lem env keep q o (omega (arith, length-append p.available (r ∷ []))) ∙ rw append_assoc)

-- What `cleanupIdle` leaves: the VMs that waited too long are destroyed, the others stand in the
-- channel in the order in which they stood, and nothing else of the pool changes.
abbrev pub cleaned : IdleEnv → Pool → Pool
cleaned env p = record (destroy_all env.stop (keep_if (expired env p) p.available) p) {
  available = keep_if (in_time env p) p.available;
}

-- The pool behind the first loop.
abbrev pub drained : IdleEnv → Pool → Pool
drained env p = record (destroy_all env.stop (keep_if (expired env p) p.available) p) {
  available = [];
}

-- The two loops, with the calls of others in between.
loops_lem :
    (env : IdleEnv) (others : Pool → Pool) (p : Pool)
    → p.channel_closed ≡ false
    → cleanup_idle env others p
      ≡ refill env (keep_if (in_time env p) p.available) (others (drained env p))
unfolding cleanup_idle
loops_lem env others p o =
    if_else _ _ o
    ∙ ap (λ (d : Pool × List SandboxRef). refill env d.1 (others d.0))
        (drain_lem env p.available p [])

-- With no other call in between, what is kept always fits.
cleanup_idle_alone :
    (env : IdleEnv) (p : Pool)
    → p.channel_closed ≡ false
    → length p.available ≤ p.config.max_size
    → cleanup_idle env (λ q. q) p ≡ (cleaned env p, ok tt)
cleanup_idle_alone env p o within =
    let gone = keep_if (expired env p) p.available in
    let stay = keep_if (in_time env p) p.available in
    let q : Pool = drained env p in
    let frame = destroy_all_frame env.stop gone p in
    let same_size : q.config.max_size ≡ p.config.max_size =
      ap (λ (x : Pool). x.config.max_size) frame in
    let still_open : q.channel_closed ≡ false = ap (λ (x : Pool). x.channel_closed) frame ∙ o in
    loops_lem env (λ q. q) p o
    ∙ refill_lem env stay q still_open (omega (arith, length-keep_if (in_time env p) p.available))

-- What the second loop does with the VMs that it has kept: the first of them, as many as there is room
-- for, go back into the channel in their order, and the rest are destroyed.
pub record PutBack (env : IdleEnv) (keep : List SandboxRef) (q : Pool)
    (x : Pool × Outcome (Unit {0})) : Type 0 where
  pub back : List SandboxRef
  pub gone : List SandboxRef
  pub parts : keep ≡ back ++ gone
  pub room : length q.available + length back ≤ q.config.max_size
  pub no_more : (gone ≡ []) ⊎ (length q.available + length back ≡ q.config.max_size)
  pub result : x ≡ (record (destroy_all env.stop gone q) { available = q.available ++ back }, ok tt)

abbrev after_send : IdleEnv → SandboxRef → List SandboxRef → Pool → Sent → Pool × Outcome (Unit {0})
unfolding refilled
after_send env r keep q t =
    let (p', fine) = refilled env r t q in
    let rest = refill env keep p' in if fine then rest else (p', send_on_closed_channel)

pub cleaned-Inv : (env : IdleEnv) (p : Pool) → Inv p → Inv (cleaned env p)
cleaned-Inv env p v =
    let test = expired env p in
    let frame = destroy_all_frame env.stop (keep_if test p.available) p in
    let books = sandboxes-destroy_all env.stop (keep_if test p.available) p in
    let w = (destroy_all env.stop (keep_if test p.available) p).world in
    let moved : Inv (record p { world = w; available = keep_if (in_time env p) p.available }) =
      record {
        is_open = v.is_open;
        within = omega (arith, length-keep_if (in_time env p) p.available, v.within);
        balance = λ k. rw books (
            count-delete_some test p.available p.world.sandboxes k (count k p.in_use) (v.balance k)
              (v.single k));
        single = λ k.
            rw books (
              omega (arith, count-delete_some_le test p.available p.world.sandboxes k, v.single k));
        keyed = v.keyed;
        served = v.served;
      } in
    subst (λ (x : Pool). Inv (record x { available = keep_if (in_time env p) p.available }))
      (sym frame) moved

-- `cleanupIdle` keeps an open pool in order.
pub cleanup_idle-Inv : (env : IdleEnv) (p : Pool) → Inv p → Inv (cleanup_idle env (λ q. q) p).0
cleanup_idle-Inv env p v =
    subst (λ (q : Pool × Outcome (Unit {0})). Inv q.0)
      (sym (cleanup_idle_alone env p v.is_open v.within)) (cleaned-Inv env p v)
