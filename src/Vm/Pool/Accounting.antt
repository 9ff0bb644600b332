-- ===== src/Vm/Pool/Accounting.antt =====
-- Where the VMs of pkg/vm/pool.go are: every VM that the manager tracks waits in the channel or is
-- in use, once, and nothing else is there.
use firecracker_shim.Base.{
  ℕ, ◌+◌, ◌%◌, ◌^◌, ◌≤◌, ◌<◌, ◌≡◌, refl, false, List, [], ◌∷◌, ◌++◌, arith, All, length,
  length-append, insert, delete, ◌=?◌, if◌then◌else◌, count, count-insert, count-delete,
}
use firecracker_shim.Domain.{SandboxId, id_eq, id_beq_iff, SandboxRef}
use firecracker_shim.Vm.World.{World}
use firecracker_shim.Vm.Pool.{Pool, mark_in_use, add_one}

unfoldable pub count_id : SandboxId → List SandboxRef → ℕ
count_id k [] = 0
count_id k (r ∷ rs) = (if r.id =? k then 1 else 0) + count_id k rs

pub count_id-append :
    (k : SandboxId) (rs ss : List SandboxRef)
    → count_id k (rs ++ ss) ≡ count_id k rs + count_id k ss
unfolding count_id
count_id-append k [] ss = omega arith
count_id-append k (r ∷ rs) ss = omega (arith, count_id-append k rs ss)

abbrev pub Keyed : List (SandboxId × SandboxRef) → Type 0
Keyed = All (λ e. e.0 ≡ e.1.id)

pub Keyed-delete :
    (k : SandboxId) (m : List (SandboxId × SandboxRef)) → Keyed m → Keyed (delete k m)
unfolding delete
Keyed-delete k [] h = tt
Keyed-delete k ((i, r) ∷ m) h = ground (arith, Keyed-delete k m h.1)

-- How often a VM waits or is in use, and how often the manager tracks it.
abbrev pub placed : SandboxId → Pool → ℕ
placed k p = count_id k p.available + count k p.in_use

abbrev pub tracked : SandboxId → Pool → ℕ
tracked k p = count k p.world.sandboxes

-- An open pool in order.
pub record Inv (p : Pool) : Type 0 where
  pub is_open : p.channel_closed ≡ false
  pub within : length p.available ≤ p.config.max_size
  pub balance : (k : SandboxId) → placed k p ≡ tracked k p
  pub single : (k : SandboxId) → tracked k p ≤ 1
  pub keyed : Keyed p.in_use
  pub served : (p.pool_hits + p.pool_misses) % 2 ^ 64 ≡ p.total_served

-- A new VM that goes straight into use.
pub mark_fresh-Inv :
    (p : Pool) (r : SandboxRef) (w : World)
    → w.sandboxes ≡ insert r.id r p.world.sandboxes
    → tracked r.id p ≡ 0
    → Inv p
    → Inv (mark_in_use r (record p { world = w }))
unfolding insert
mark_fresh-Inv p r w grown fresh v =
    let m = p.world.sandboxes in
    record {
      is_open = v.is_open;
      within = v.within;
      balance = λ k.
          rw (grown, count-insert r.id k r m, count-insert r.id k r p.in_use)
            (ground (arith, id_beq_iff r.id k, v.balance k));
      single = λ k. rw (grown, count-insert r.id k r m) (ground (arith, v.single k));
      keyed = (refl, Keyed-delete r.id p.in_use v.keyed);
      served = v.served;
    }

pub same_sandboxes-Inv :
    (p : Pool) (w : World) → w.sandboxes ≡ p.world.sandboxes → Inv p → Inv (record p { world = w })
same_sandboxes-Inv p w same v = record {
  is_open = v.is_open;
  within = v.within;
  balance = λ k. rw same (v.balance k);
  single = λ k. rw same (v.single k);
  keyed = v.keyed;
  served = v.served;
}

-- The first VM of the channel goes into use.
pub take_first-Inv :
    (p : Pool) (r : SandboxRef) (rest : List SandboxRef) (w : World)
    → p.available ≡ r ∷ rest
    → w.sandboxes ≡ p.world.sandboxes
    → Inv p
    → Inv (mark_in_use r (record p { available = rest; world = w }))
unfolding count_id insert
take_first-Inv p r rest w e same v = record {
  is_open = v.is_open;
  within = ground (arith, v.within);
  balance = λ k.
      rw (same, count-insert r.id k r p.in_use)
        (ground (arith, id_beq_iff r.id k, v.balance k, v.single k));
  single = λ k. rw same (v.single k);
  keyed = (refl, Keyed-delete r.id p.in_use v.keyed);
  served = v.served;
}

-- A VM that was in use is destroyed.
pub leave_destroyed-Inv :
    (p : Pool) (r : SandboxRef) (w : World)
    → w.sandboxes ≡ delete r.id p.world.sandboxes
    → count r.id p.in_use ≡ 1
    → Inv p
    → Inv (record p { in_use = delete r.id p.in_use; world = w })
leave_destroyed-Inv p r w gone used v =
    let m = p.world.sandboxes in
    record {
      is_open = v.is_open;
      within = v.within;
      balance = λ k.
          rw (gone, count-delete r.id k m, count-delete r.id k p.in_use)
            (ground (arith, id_beq_iff r.id k, v.balance k, v.single k));
      single = λ k. rw (gone, count-delete r.id k m) (ground (arith, v.single k));
      keyed = Keyed-delete r.id p.in_use v.keyed;
      served = v.served;
    }

-- A VM that was in use goes back into the channel.
pub leave_waiting-Inv :
    (p : Pool) (r : SandboxRef) (w : World)
    → w.sandboxes ≡ p.world.sandboxes
    → count r.id p.in_use ≡ 1
    → length p.available < p.config.max_size
    → Inv p
    → Inv (record p { in_use = delete r.id p.in_use; world = w; available = p.available ++ r ∷ [] })
unfolding count_id
leave_waiting-Inv p r w same used room v = record {
  is_open = v.is_open;
  within = omega (arith, length-append p.available (r ∷ []));
  balance = λ k.
      rw (same, count-delete r.id k p.in_use, count_id-append k p.available (r ∷ []))
        (ground (arith, id_beq_iff r.id k, v.balance k, v.single k));
  single = λ k. rw same (v.single k);
  keyed = Keyed-delete r.id p.in_use v.keyed;
  served = v.served;
}

-- A new VM goes into the channel.
pub arrive_waiting-Inv :
    (p : Pool) (r : SandboxRef) (w : World)
    → w.sandboxes ≡ insert r.id r p.world.sandboxes
    → tracked r.id p ≡ 0
    → length p.available < p.config.max_size
    → Inv p
    → Inv (record p { world = w; available = p.available ++ r ∷ [] })
unfolding count_id
arrive_waiting-Inv p r w grown fresh room v =
    let m = p.world.sandboxes in
    record {
      is_open = v.is_open;
      within = omega (arith, length-append p.available (r ∷ []));
      balance = λ k.
          rw (grown, count-insert r.id k r m, count_id-append k p.available (r ∷ []))
            (ground (arith, id_beq_iff r.id k, v.balance k));
      single = λ k. rw (grown, count-insert r.id k r m) (ground (arith, v.single k));
      keyed = v.keyed;
      served = v.served;
    }

-- A new VM for which the channel has no room is destroyed at once.
pub arrive_destroyed-Inv :
    (p : Pool) (r : SandboxRef) (w : World)
    → w.sandboxes ≡ delete r.id (insert r.id r p.world.sandboxes)
    → tracked r.id p ≡ 0
    → Inv p
    → Inv (record p { world = w })
arrive_destroyed-Inv p r w gone fresh v =
    let m = p.world.sandboxes in
    let kept = λ (k : SandboxId). count-delete r.id k (insert r.id r m) in
    record {
      is_open = v.is_open;
      within = v.within;
      balance = λ k.
          rw (gone, kept k, count-insert r.id k r m)
            (ground (arith, id_beq_iff r.id k, v.balance k));
      single = λ k. rw (gone, kept k, count-insert r.id k r m) (ground (arith, v.single k));
      keyed = v.keyed;
      served = v.served;
    }

pub counted_hit-Inv :
    (p : Pool)
    → Inv p
    → Inv (record p { total_served = add_one p.total_served; pool_hits = add_one p.pool_hits })
counted_hit-Inv p v = record {
  is_open = v.is_open;
  within = v.within;
  balance = v.balance;
  single = v.single;
  keyed = v.keyed;
  served = omega (arith, v.served);
}

pub counted_miss-Inv :
    (p : Pool)
    → Inv p
    → Inv (record p { total_served = add_one p.total_served; pool_misses = add_one p.pool_misses })
counted_miss-Inv p v = record {
  is_open = v.is_open;
  within = v.within;
  balance = v.balance;
  single = v.single;
  keyed = v.keyed;
  served = omega (arith, v.served);
}
