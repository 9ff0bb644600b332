-- ===== src/Vm/Pool.antt =====
-- pkg/vm/pool.go. The buffered channel `available` is a list, oldest first, of at most `max_size`
-- sandboxes, and a flag that says that it is closed; a receive from a closed and drained channel
-- gives a nil pointer, and a send on a closed one panics. A method is one step: it takes what the
-- clock and the calls outside this code answer. The counters are an `int64` read as an unsigned word.
pub mod Accounting
pub mod Preserve
pub mod Acquire
pub mod Replenish
pub mod Run
pub mod Release
pub mod Bulk
pub mod Idle
pub mod Close
use firecracker_shim.Base.{
  ℕ, zero, suc, ◌+◌, ◌-◌, ◌%◌, ◌^◌, Bool, true, false, List, [], ◌∷◌, ◌++◌, length, ltb, leb, ◌||◌,
  if◌then◌else◌, insert, delete, map,
}
use firecracker_shim.Domain.{SandboxId, id_eq, SandboxRef, Sandbox, VmConfig}
use firecracker_shim.Vm.World.{
  World, Error, warm_failed, Outcome, ok, err, nil_dereference, send_on_closed_channel, write,
}
use firecracker_shim.Vm.Manager.{CreateEnv, StopEnv, create_vm, destroy_vm}

pub record PoolConfig : Type 0 where
  pub max_size : ℕ
  pub min_size : ℕ
  pub max_idle_time : ℕ
  pub warm_concurrency : ℕ
  pub default_vm_config : VmConfig
  pub replenish_interval : ℕ

pub record Pool : Type 0 where
  pub world : World  -- the memory, and the manager that the pool points to
  pub config : PoolConfig
  pub available : List SandboxRef
  pub channel_closed : Bool
  pub in_use : List (SandboxId × SandboxRef)
  pub total_served : ℕ
  pub pool_hits : ℕ
  pub pool_misses : ℕ
  pub cancelled : Bool
  pub closed : Bool

unfoldable pub new_pool : World → PoolConfig → Pool
new_pool w c = record {
  world = w;
  config = c;
  available = [];
  channel_closed = false;
  in_use = [];
  total_served = 0;
  pool_hits = 0;
  pool_misses = 0;
  cancelled = false;
  closed = false;
}

-- `atomic.AddInt64(&n, 1)`.
abbrev pub add_one : ℕ → ℕ
add_one n = (n + 1) % 2 ^ 64

abbrev pub deref : Pool → SandboxRef → Sandbox
deref p r = p.world.heap r.addr

abbrev pub set_sandbox : SandboxRef → Sandbox → Pool → Pool
set_sandbox r s p = record p { world = write r s p.world }

abbrev pub destroy : StopEnv → SandboxRef → Pool → Pool
destroy env r p = record p { world = destroy_vm env r p.world }

abbrev pub mark_in_use : SandboxRef → Pool → Pool
mark_in_use r p = record p { in_use = insert r.id r p.in_use }

-- `select { case p.available <- sandbox: … default: … }`.
pub data Sent : Type 0 where
  sent : Pool → Sent
  full on_closed : Sent

unfoldable pub try_send : SandboxRef → Pool → Sent
try_send r p =
    if p.channel_closed
    then on_closed
    else if ltb (length p.available) p.config.max_size
    then sent (record p { available = p.available ++ r ∷ [] })
    else full

-- The rest of `createFresh`, by the answer of `CreateVM`.
unfoldable pub keep_fresh : World × Outcome SandboxRef → Pool → Pool × Outcome SandboxRef
keep_fresh (w, ok r) p = (mark_in_use r (record p { world = w }), ok r)
keep_fresh (w, err e) p = (record p { world = w }, err e)
keep_fresh (w, nil_dereference) p = (record p { world = w }, nil_dereference)
keep_fresh (w, send_on_closed_channel) p = (record p { world = w }, send_on_closed_channel)

unfoldable pub create_fresh : CreateEnv → VmConfig → Pool → Pool × Outcome SandboxRef
unfolding keep_fresh
create_fresh env c p = keep_fresh (create_vm env c p.world) p

-- It only stores the configuration, and returns nil.
unfoldable pub customize_vm : SandboxRef → VmConfig → Pool → Pool × Bool
customize_vm r c p = (set_sandbox r (record (deref p r) { vm_config = c }) p, true)

-- It only empties the container map, and returns nil.
unfoldable pub reset_vm : SandboxRef → Pool → Pool × Bool
reset_vm r p = (set_sandbox r (record (deref p r) { containers = [] }) p, true)

pub record AcquireEnv : Type 0 where
  pub create : CreateEnv
  pub stop : StopEnv

-- The end of a pool hit, by the answer of `customizeVM`.
unfoldable pub customized :
    AcquireEnv → SandboxRef → VmConfig → Pool × Bool → Pool × Outcome SandboxRef
unfolding create_fresh
customized env r c (p, true) = (p, ok r)
customized env r c (p, false) = create_fresh env.create c (destroy env.stop r p)

-- `Acquire` from the `select` on, by what stands in the channel.
unfoldable pub receive : AcquireEnv → VmConfig → List SandboxRef → Pool → Pool × Outcome SandboxRef
unfolding create_fresh customize_vm customized
receive env c (r ∷ rest) p =
    let p1 = record p { available = rest; pool_hits = add_one p.pool_hits } in
    let p2 = mark_in_use r (set_sandbox r (record (deref p1 r) { from_pool = true }) p1) in
    customized env r c (customize_vm r c p2)
receive env c [] p =
    if p.channel_closed
    then (record p { pool_hits = add_one p.pool_hits }, nil_dereference)
    else create_fresh env.create c (record p { pool_misses = add_one p.pool_misses })

unfoldable pub acquire : AcquireEnv → VmConfig → Pool → Pool × Outcome SandboxRef
unfolding receive
acquire env c p = receive env c p.available (record p { total_served = add_one p.total_served })

pub record ReleaseEnv : Type 0 where
  pub now : ℕ
  pub pooled_time : ℕ
  pub stop : StopEnv

unfoldable pub returned : ReleaseEnv → SandboxRef → Sent → Pool → Pool × Outcome (Unit {0})
returned env r (sent p') p = (p', ok tt)
returned env r full p = (destroy env.stop r p, ok tt)
returned env r on_closed p = (p, send_on_closed_channel)

-- The end of `Release`, by the answer of `resetVM`.
unfoldable pub release_reset : ReleaseEnv → SandboxRef → Pool × Bool → Pool × Outcome (Unit {0})
unfolding returned try_send
release_reset env r (p, false) = (destroy env.stop r p, ok tt)
release_reset env r (p, true) =
    let p' = set_sandbox r (record (deref p r) { pooled_at = env.pooled_time }) p in
    returned env r (try_send r p') p'

-- The pool is full, or the sandbox is older than the idle limit.
unfoldable pub too_many_or_old : ReleaseEnv → SandboxRef → Pool → Bool
too_many_or_old env r p =
    leb p.config.max_size (length p.available)
    || ltb p.config.max_idle_time (env.now - (deref p r).created_at)

unfoldable pub release : ReleaseEnv → SandboxRef → Pool → Pool × Outcome (Unit {0})
unfolding release_reset reset_vm too_many_or_old
release env r p =
    let p' = record p { in_use = delete r.id p.in_use } in
    if too_many_or_old env r p
    then (destroy env.stop r p', ok tt)
    else release_reset env r (reset_vm r p')

-- What one goroutine of `Warm` meets: the semaphore may refuse it.
pub record WarmEnv : Type 0 where
  pub slot : Bool
  pub create : CreateEnv
  pub pooled_time : ℕ
  pub stop : StopEnv

pub data Warmed : Type 0 where
  warmed failed crashed : Warmed

unfoldable pub warm_sent : WarmEnv → SandboxRef → Sent → Pool → Pool × Warmed
warm_sent env r (sent p') p = (p', warmed)
warm_sent env r full p = (destroy env.stop r p, warmed)
warm_sent env r on_closed p = (p, crashed)

unfoldable pub warm_created : WarmEnv → World × Outcome SandboxRef → Pool → Pool × Warmed
unfolding warm_sent try_send
warm_created env (w, ok r) p =
    let p1 = record p { world = w } in
    let p2 = set_sandbox r (record (deref p1 r) { pooled_at = env.pooled_time }) p1 in
    warm_sent env r (try_send r p2) p2
warm_created env (w, err e) p = (record p { world = w }, failed)
warm_created env (w, nil_dereference) p = (record p { world = w }, crashed)
warm_created env (w, send_on_closed_channel) p = (record p { world = w }, crashed)

unfoldable pub warm_one : WarmEnv → VmConfig → Pool → Pool × Warmed
unfolding warm_created
warm_one env c p =
    if env.slot then warm_created env (create_vm env.create c p.world) p else (p, failed)

abbrev pub warm_result : ℕ → Outcome (Unit {0})
warm_result zero = ok tt
warm_result (suc errors) = err (warm_failed (suc errors))

-- The goroutines in the order in which they finish; the last argument counts the errors. A panic
-- in a goroutine ends the process.
unfoldable pub warm_loop : (ℕ → WarmEnv) → VmConfig → ℕ → Pool → ℕ → Pool × Outcome (Unit {0})
unfolding warm_one
warm_loop env c zero p errors = (p, warm_result errors)
warm_loop env c (suc n) p errors =
    let (p', result) = warm_one (env n) c p in
    elim result [
      | warmed ↦ warm_loop env c n p' errors
      | failed ↦ warm_loop env c n p' (suc errors)
      | crashed ↦ (p', send_on_closed_channel)
    ]

unfoldable pub warm : (ℕ → WarmEnv) → ℕ → VmConfig → Pool → Pool × Outcome (Unit {0})
unfolding warm_loop
warm env count c p = warm_loop env c count p 0

-- The error of `Warm` is dropped; a panic is not.
unfoldable pub replenish : (ℕ → WarmEnv) → Pool → Pool × Outcome (Unit {0})
unfolding warm
replenish env p =
    let current = length p.available in
    if ltb current p.config.min_size
    then warm env (p.config.min_size - current) p.config.default_vm_config p
    else (p, ok tt)

-- What `cleanupIdle` meets at a sandbox: the clock, and the calls of a `DestroyVM`.
pub record IdleEnv : Type 0 where
  pub clock : SandboxRef → ℕ
  pub stop : SandboxRef → StopEnv

unfoldable pub expired : IdleEnv → Pool → SandboxRef → Bool
expired env p r = ltb p.config.max_idle_time (env.clock r - (deref p r).pooled_at)

-- The first loop of `cleanupIdle`, over what stands in the channel; the last argument is `keep`.
unfoldable pub drain : IdleEnv → List SandboxRef → Pool → List SandboxRef → Pool × List SandboxRef
unfolding expired
drain env [] p keep = (record p { available = [] }, keep)
drain env (r ∷ rest) p keep =
    let old = expired env p r in
    drain env rest (if old then destroy (env.stop r) r p else p)
      (if old then keep else keep ++ r ∷ [])

unfoldable pub refilled : IdleEnv → SandboxRef → Sent → Pool → Pool × Bool
refilled env r (sent p') p = (p', true)
refilled env r full p = (destroy (env.stop r) r p, true)
refilled env r on_closed p = (p, false)

-- The loop behind `refill`.
unfoldable pub refill : IdleEnv → List SandboxRef → Pool → Pool × Outcome (Unit {0})
unfolding try_send refilled
refill env [] p = (p, ok tt)
refill env (r ∷ keep) p =
    let (p', fine) = refilled env r (try_send r p) p in
    let rest = refill env keep p' in if fine then rest else (p', send_on_closed_channel)

-- No lock is held: `others` is what other calls make of the pool between the two loops. Each loop is
-- one step.
unfoldable pub cleanup_idle : IdleEnv → (Pool → Pool) → Pool → Pool × Outcome (Unit {0})
unfolding drain refill
cleanup_idle env others p =
    let (p', keep) = drain env p.available p [] in
    if p.channel_closed then (p', nil_dereference) else refill env keep (others p')

pub record PoolStats : Type 0 where
  pub available : ℕ
  pub in_use : ℕ
  pub max_size : ℕ
  pub total_served : ℕ
  pub pool_hits : ℕ
  pub pool_misses : ℕ

unfoldable pub stats : Pool → PoolStats
stats p = record {
  available = length p.available;
  in_use = length p.in_use;
  max_size = p.config.max_size;
  total_served = p.total_served;
  pool_hits = p.pool_hits;
  pool_misses = p.pool_misses;
}

unfoldable pub destroy_all : (SandboxRef → StopEnv) → List SandboxRef → Pool → Pool
destroy_all env [] p = p
destroy_all env (r ∷ rs) p = destroy_all env rs (destroy (env r) r p)

-- The channel is closed, then drained. `in_use` keeps its entries.
unfoldable pub close : (SandboxRef → StopEnv) → Pool → Pool
unfolding destroy_all
close env p =
    if p.closed
    then p
    else let p1 = record p { closed = true; cancelled = true; channel_closed = true } in
      let p2 = destroy_all env p.available (record p1 { available = [] }) in
      destroy_all env (map (λ e. e.1) p.in_use) p2
