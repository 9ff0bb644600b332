-- ===== src/Vm/Pool/Close.antt =====
-- `Close` of pkg/vm/pool.go, and the pool behind it.
use firecracker_shim.Base.{
  ◌-◌, ◌≤◌, ◌<◌, ◌≡◌, refl, ◌∙◌, ap, true, false, [], arith, map, length, if_else, count,
}
use firecracker_shim.Domain.{SandboxId, id_eq, SandboxRef, VmConfig}
use firecracker_shim.Vm.World.{World, nil_dereference, send_on_closed_channel}
use firecracker_shim.Vm.Manager.{StopEnv}
use firecracker_shim.Vm.Pool.Accounting.{Inv, tracked}
use firecracker_shim.Vm.Pool.Bulk.{
  delete_all, destroy_all_frame, sandboxes-destroy_all, count-delete_all, count_id-values,
}
use firecracker_shim.Vm.Pool.{
  Pool, deref, destroy_all, close, AcquireEnv, acquire, ReleaseEnv, release, try_send,
}

-- The pool that `Close` makes of an open one, but for the memory and the manager.
abbrev pub shut : World → Pool → Pool
shut w p = record p {
  world = w;
  available = [];
  channel_closed = true;
  cancelled = true;
  closed = true;
}

abbrev pub closing : Pool → Pool
closing p = record p { available = []; channel_closed = true; cancelled = true; closed = true }

close_frame :
    (env : SandboxRef → StopEnv) (p : Pool)
    → p.closed ≡ false
    → let q = closing p in
      let q' = destroy_all env (map (λ e. e.1) p.in_use) (destroy_all env p.available q) in
      (close env p ≡ q') × (q' ≡ shut q'.world p)
unfolding close
close_frame env p o =
    let q = closing p in
    let q' = destroy_all env (map (λ e. e.1) p.in_use) (destroy_all env p.available q) in
    let first = destroy_all_frame env p.available q in
    let second = destroy_all_frame env (map (λ e. e.1) p.in_use) (destroy_all env p.available q) in
    (if_else _ _ o, second ∙ ap (λ (x : Pool). record x { world = q'.world }) first)

-- Memory and manager after `Close` of an open pool.
abbrev pub closed_world : (SandboxRef → StopEnv) → Pool → World
closed_world env p =
    (destroy_all env (map (λ e. e.1) p.in_use) (destroy_all env p.available (closing p))).world

pub close_lem :
    (env : SandboxRef → StopEnv) (p : Pool)
    → p.closed ≡ false
    → close env p ≡ shut (closed_world env p) p
close_lem env p o = let (first, second) = close_frame env p o in first ∙ second

close_untracks :
    (env : SandboxRef → StopEnv) (p : Pool) (k : SandboxId)
    → Inv p
    → count k (closed_world env p).sandboxes ≡ 0
close_untracks env p k v =
    let q = closing p in
    let ids = map (λ (e : SandboxId × SandboxRef). e.1) p.in_use in
    let waiting = sandboxes-destroy_all env p.available q in
    let used = sandboxes-destroy_all env ids (destroy_all env p.available q) in
    let books = used ∙ ap (delete_all ids) waiting in
    let rest =
      count-delete_all p.available p.world.sandboxes k (count k p.in_use)
        (omega (arith, v.balance k)) in
    let none_left =
      count-delete_all ids (delete_all p.available p.world.sandboxes) k 0
        (omega (arith, rest, count_id-values k p.in_use v.keyed)) in
    omega (arith, none_left, ap (count k) books)

-- `Close` on a pool in order destroys every VM: the manager tracks none of them any more. The
-- channel is closed and empty, the background loops are cancelled, and a second `Close` changes
-- nothing. The map of the VMs in use keeps its entries.
pub close_destroys_all :
    (env env' : SandboxRef → StopEnv) (p : Pool) (k : SandboxId)
    → p.closed ≡ false
    → Inv p
    → let q = close env p in
      (tracked k q ≡ 0)
      × (q.available ≡ [])
      × (q.channel_closed ≡ true)
      × (q.cancelled ≡ true)
      × (close env' q ≡ q)
      × (q.in_use ≡ p.in_use)
close_destroys_all env env' p k o v =
    rw (close_lem env p o) (close_untracks env p k v, refl, refl, refl, unfold close in refl, refl)

-- Behind `Close`, `Acquire` finds a closed channel and uses the nil sandbox that it receives:
-- it panics, whatever the configuration and the calls outside.
pub acquire_after_close :
    (env : SandboxRef → StopEnv) (call : AcquireEnv) (c : VmConfig) (p : Pool)
    → p.closed ≡ false
    → (acquire call c (close env p)).1 ≡ nil_dereference
unfolding acquire
acquire_after_close env call c p o = rw (close_lem env p o)

release_on_closed :
    (call : ReleaseEnv) (r : SandboxRef) (q : Pool)
    → q.channel_closed ≡ true
    → q.available ≡ []
    → 0 < q.config.max_size
    → call.now - (deref q r).created_at ≤ q.config.max_idle_time
    → (release call r q).1 ≡ send_on_closed_channel
unfolding release try_send
release_on_closed call r q shut_down empty size young = ground (arith, ap length empty)

-- Behind `Close`, `Release` of a VM that is young enough to be kept sends on the closed channel
-- and panics, if the pool's size is not 0.
pub release_after_close :
    (env : SandboxRef → StopEnv) (call : ReleaseEnv) (r : SandboxRef) (p : Pool)
    → p.closed ≡ false
    → 0 < p.config.max_size
    → call.now - (deref (close env p) r).created_at ≤ p.config.max_idle_time
    → (release call r (close env p)).1 ≡ send_on_closed_channel
release_after_close env call r p o size young =
    let e = close_lem env p o in
    let same : (close env p).config ≡ p.config = ap (λ (x : Pool). x.config) e in
    release_on_closed call r (close env p) (ap (λ (x : Pool). x.channel_closed) e)
      (ap (λ (x : Pool). x.available) e) (rw same size) (rw same young)
