-- ===== src/Vm/Manager/Destroy.antt =====
-- What `DestroyVM` of pkg/vm/manager.go does.
use firecracker_shim.Base.{
  ℕ, ◌≡◌, Bool, true, false, Option, none, some, List, ◌∷◌, arith, delete, lookup-delete,
  if◌then◌else◌, ◌=?◌,
}
use firecracker_shim.Domain.{
  SandboxId, id_eq, sandbox_ready, sandbox_stopped, sandbox_dir, Machine, SandboxRef,
}
use firecracker_shim.Vm.World.{
  Effect, removed_dir, shut_down, stopped_vmm, waited, closed_conn, World,
}
use firecracker_shim.Vm.Manager.{StopEnv, destroy_vm, get_sandbox}

pub sandboxes-destroy_vm :
    (env : StopEnv) (r : SandboxRef) (w : World)
    → (destroy_vm env r w).sandboxes ≡ delete r.id w.sandboxes
unfolding destroy_vm
sandboxes-destroy_vm env r w = ground arith

abbrev pub closing : Option ℕ → List Effect → List Effect
closing none es = es
closing (some c) es = closed_conn c ∷ es

abbrev pub stopping : Bool → Machine → List Effect → List Effect
stopping true m es = waited m ∷ shut_down m ∷ es
stopping false m es = waited m ∷ stopped_vmm m ∷ shut_down m ∷ es

-- Destroying a ready sandbox shuts its machine down, stops the VMM as well exactly when the
-- graceful shutdown fails, waits, closes the agent connection if there is one and removes the
-- directory, in this order. Then the sandbox is stopped, the manager does not track its ID, and it
-- tracks every other ID as before.
pub destroy_vm_ready :
    (env : StopEnv) (r : SandboxRef) (m : Machine) (w : World) (k : SandboxId)
    → (w.heap r.addr).state ≡ sandbox_ready
    → (w.heap r.addr).vm ≡ some m
    → let w' = destroy_vm env r w in
      (w'.effects
        ≡ removed_dir (sandbox_dir w.config.runtime_dir r.id)
          ∷ closing (w.heap r.addr).agent_conn (stopping env.shutdown_ok m w.effects))
      × ((w'.heap r.addr).state ≡ sandbox_stopped)
      × (get_sandbox k w' ≡ (if r.id =? k then none else get_sandbox k w))
unfolding destroy_vm get_sandbox
destroy_vm_ready env r m w k s v =
    (ground arith, ground arith, ground (arith, lookup-delete r.id k w.sandboxes))

-- A second `DestroyVM` of the sandbox makes no call on the machine: it only closes the agent
-- connection, if there is one, and removes the directory once more.
pub destroy_vm_twice :
    (env env' : StopEnv) (r : SandboxRef) (m : Machine) (w : World)
    → (w.heap r.addr).state ≡ sandbox_ready
    → (w.heap r.addr).vm ≡ some m
    → let w' = destroy_vm env r w in
      (destroy_vm env' r w').effects
      ≡ removed_dir (sandbox_dir w.config.runtime_dir r.id)
        ∷ closing (w.heap r.addr).agent_conn w'.effects
unfolding destroy_vm
destroy_vm_twice env env' r m w s v = ground arith
