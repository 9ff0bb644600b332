-- ===== src/Vm/Pool/Replenish.antt =====
-- `Warm` and `replenish` of pkg/vm/pool.go when the calls outside succeed.
use Prim.Native.Nat.{min, max}
use firecracker_shim.Base.{
  ℕ, zero, suc, ◌+◌, ◌-◌, ◌≤◌, ◌≡◌, refl, ◌∙◌, ap, true, false, some, [], ◌∷◌, arith, length,
  length-append, ltb, ltb→lt, Bool-cases, inl, inr,
}
use firecracker_shim.Domain.{Machine, SandboxRef, VmConfig}
use firecracker_shim.Vm.World.{ok}
use firecracker_shim.Vm.Manager.{create_vm}
use firecracker_shim.Vm.Manager.Create.{create_vm_lem, created_ref}
use firecracker_shim.Vm.Pool.Release.{try_send_open, try_send_full}
use firecracker_shim.Vm.Pool.{
  Pool, PoolConfig, WarmEnv, warmed, try_send, warm_sent, warm_created, warm_one, warm_loop, warm,
  replenish, deref, set_sandbox,
}

-- Every call outside succeeds in this goroutine.
pub record Succeeds (env : WarmEnv) : Type 0 where
  pub slot : env.slot ≡ true
  pub mkdir : env.create.mkdir_ok ≡ true
  pub machine : (m : Machine) × (env.create.machine ≡ some m)
  pub start : env.create.start_ok ≡ true

-- What `Warm` keeps, and how the channel grows.
record Grows (p q : Pool) (n : ℕ) : Type 0 where
  size : length q.available ≡ n
  config : q.config ≡ p.config
  channel : q.channel_closed ≡ p.channel_closed

warm_sent-Grows :
    (env : WarmEnv) (r : SandboxRef) (p : Pool)
    → p.channel_closed ≡ false
    → length p.available ≤ p.config.max_size
    → let (q, x) = warm_sent env r (try_send r p) p in
      Grows p q (min (suc (length p.available)) p.config.max_size) × (x ≡ warmed)
unfolding warm_sent
warm_sent-Grows env r p o within = elim (Bool-cases (ltb (length p.available) p.config.max_size)) [
  | inl b ↦ rw (try_send_open r p o (ltb→lt _ _ b)) (
    record {
      size = ground (arith, length-append p.available (r ∷ []));
      config = refl;
      channel = refl;
    },
    refl,
  )
  | inr b ↦
      rw (try_send_full r p o b)
        (record { size = ground arith; config = refl; channel = refl }, refl)
]

warm_one-Grows :
    (env : WarmEnv) (c : VmConfig) (p : Pool)
    → Succeeds env
    → p.channel_closed ≡ false
    → length p.available ≤ p.config.max_size
    → let (q, x) = warm_one env c p in
      Grows p q (min (suc (length p.available)) p.config.max_size) × (x ≡ warmed)
unfolding warm_one warm_created
warm_one-Grows env c p s o within =
    let w = (create_vm env.create c p.world).0 in
    let r = created_ref env.create p.world in
    let (m, built) = s.machine in
    let made = (create_vm_lem env.create c p.world m 0 s.mkdir built s.start).0 in
    let p1 : Pool = record p { world = w } in
    let p2 = set_sandbox r (record (deref p1 r) { pooled_at = env.pooled_time }) p1 in
    let (g, x) = warm_sent-Grows env r p2 o within in
    rw (s.slot, made) (record { size = g.size; config = g.config; channel = g.channel }, x)

warm_loop-Grows :
    (env : ℕ → WarmEnv) (c : VmConfig) (n : ℕ) (p : Pool)
    → ((i : ℕ) → Succeeds (env i))
    → p.channel_closed ≡ false
    → length p.available ≤ p.config.max_size
    → let (q, o) = warm_loop env c n p 0 in
      Grows p q (min (n + length p.available) p.config.max_size) × (o ≡ ok tt)
unfolding warm_loop
warm_loop-Grows env c zero p s o within =
    (record { size = omega arith; config = refl; channel = refl }, refl)
warm_loop-Grows env c (suc n) p s o within =
    let q = (warm_one (env n) c p).0 in
    let (g, x) = warm_one-Grows (env n) c p (s n) o within in
    let room : length q.available ≤ q.config.max_size = rw g.config (omega (arith, g.size)) in
    let (h, y) = warm_loop-Grows env c n q s (g.channel ∙ o) room in
    rw (x, warm_loop)
      (
        record {
          size = omega (arith, h.size, g.size, ap (λ (c : PoolConfig). c.max_size) g.config);
          config = h.config ∙ g.config;
          channel = h.channel ∙ g.channel;
        },
        y,
      )

-- `Warm(count)` on an open pool, when every call outside succeeds, reports no error and adds as
-- many VMs as asked for, up to the size of the pool.
pub warm_fills :
    (env : ℕ → WarmEnv) (c : VmConfig) (n : ℕ) (p : Pool)
    → ((i : ℕ) → Succeeds (env i))
    → p.channel_closed ≡ false
    → length p.available ≤ p.config.max_size
    → let (q, o) = warm env n c p in
      (o ≡ ok tt) × (length q.available ≡ min (n + length p.available) p.config.max_size)
unfolding warm
warm_fills env c n p s o within = let (g, x) = warm_loop-Grows env c n p s o within in (x, g.size)

-- A round of the replenish loop on an open pool whose minimum fits its size, when every call
-- outside succeeds: afterwards exactly the minimum waits, or what waited before if that was more.
pub replenish_reaches_min :
    (env : ℕ → WarmEnv) (p : Pool)
    → ((i : ℕ) → Succeeds (env i))
    → p.channel_closed ≡ false
    → length p.available ≤ p.config.max_size
    → p.config.min_size ≤ p.config.max_size
    → let (q, o) = replenish env p in
      (o ≡ ok tt) × (length q.available ≡ max (length p.available) p.config.min_size)
unfolding replenish
replenish_reaches_min env p s o within fits =
    let needed = p.config.min_size - length p.available in
    let (x, size) = warm_fills env p.config.default_vm_config needed p s o within in
    elim (Bool-cases (ltb (length p.available) p.config.min_size)) [
      | inl b ↦ rw b (x, omega (arith, size, ltb→lt _ _ b))
      | inr b ↦ rw b (refl, ground arith)
    ]
