-- ===== src/Vm/Pool/Bulk.antt =====
-- Runs of `DestroyVM` over a list of VMs, as `cleanupIdle` and `Close` of pkg/vm/pool.go make them.
use firecracker_shim.Base.{
  ℕ, ◌+◌, ◌≤◌, ◌≡◌, refl, ◌∙◌, ap, Bool, not, List, [], ◌∷◌, arith, keep_if, map, delete, ◌=?◌,
  if◌then◌else◌, count, count-delete,
}
use firecracker_shim.Domain.{SandboxId, id_eq, id_beq_iff, SandboxRef}
use firecracker_shim.Vm.Manager.{StopEnv, destroy_vm}
use firecracker_shim.Vm.Manager.Destroy.{sandboxes-destroy_vm}
use firecracker_shim.Vm.Pool.Accounting.{count_id, Keyed}
use firecracker_shim.Vm.Pool.{Pool, deref, destroy, destroy_all}

abbrev pub delete_all :
    List SandboxRef → List (SandboxId × SandboxRef) → List (SandboxId × SandboxRef)
delete_all [] m = m
delete_all (r ∷ rs) m = delete_all rs (delete r.id m)

-- Nothing but the memory and the manager changes.
pub destroy_all_frame :
    (env : SandboxRef → StopEnv) (rs : List SandboxRef) (p : Pool)
    → destroy_all env rs p ≡ record p { world = (destroy_all env rs p).world }
unfolding destroy_all
destroy_all_frame env [] p = refl
destroy_all_frame env (r ∷ rs) p = destroy_all_frame env rs (destroy (env r) r p)

pub sandboxes-destroy_all :
    (env : SandboxRef → StopEnv) (rs : List SandboxRef) (p : Pool)
    → (destroy_all env rs p).world.sandboxes ≡ delete_all rs p.world.sandboxes
unfolding destroy_all
sandboxes-destroy_all env [] p = refl
sandboxes-destroy_all env (r ∷ rs) p =
    sandboxes-destroy_all env rs (destroy (env r) r p)
    ∙ ap (delete_all rs) (sandboxes-destroy_vm (env r) r p.world)

pub pooled_at-destroy :
    (env : StopEnv) (r s : SandboxRef) (p : Pool)
    → (deref (destroy env r p) s).pooled_at ≡ (deref p s).pooled_at
unfolding destroy_vm
pooled_at-destroy env r s p = ground arith

-- Destroying the VMs that pass a test, out of those that stand in `rs`, keeps the books.
pub count-delete_some :
    (test : SandboxRef → Bool) (rs : List SandboxRef) (m : List (SandboxId × SandboxRef))
    (k : SandboxId) (c : ℕ)
    → count_id k rs + c ≡ count k m
    → count k m ≤ 1
    → count_id k (keep_if (λ r. not (test r)) rs) + c ≡ count k (delete_all (keep_if test rs) m)
unfolding count_id keep_if
count-delete_some test [] m k c h le = h
count-delete_some test (r ∷ rs) m k c h le =
    let d : ℕ = if r.id =? k then 1 else 0 in
    ground (
      arith,
      id_beq_iff r.id k,
      count-delete r.id k m,
      count-delete_some test rs (delete r.id m) k c,
      count-delete_some test rs m k (c + d),
    )

pub count-delete_some_le :
    (test : SandboxRef → Bool) (rs : List SandboxRef) (m : List (SandboxId × SandboxRef))
    (k : SandboxId)
    → count k (delete_all (keep_if test rs) m) ≤ count k m
unfolding keep_if
count-delete_some_le test [] m k = omega arith
count-delete_some_le test (r ∷ rs) m k = ground (
  arith,
  count-delete r.id k m,
  count-delete_some_le test rs (delete r.id m) k,
  count-delete_some_le test rs m k,
)

-- Destroying the whole list leaves at most what the rest accounts for.
pub count-delete_all :
    (rs : List SandboxRef) (m : List (SandboxId × SandboxRef)) (k : SandboxId) (c : ℕ)
    → count k m ≤ count_id k rs + c
    → count k (delete_all rs m) ≤ c
unfolding count_id
count-delete_all [] m k c h = omega arith
count-delete_all (r ∷ rs) m k c h =
    ground (arith, count-delete r.id k m, count-delete_all rs (delete r.id m) k c)

pub count_id-values :
    (k : SandboxId) (m : List (SandboxId × SandboxRef))
    → Keyed m
    → count_id k (map (λ e. e.1) m) ≡ count k m
unfolding count_id count
count_id-values k [] h = refl
count_id-values k ((i, r) ∷ m) h = ground (arith, count_id-values k m h.1, h.0)
