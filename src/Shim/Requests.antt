-- ===== src/Shim/Requests.antt =====
-- The requests of pkg/shim/service.go that do not change a task: Pids, Wait, Pause, Resume, Connect,
-- Shutdown, and the Cleanup of the shim.
use firecracker_shim.Base.{
  ℕ, String, Bool, Option, none, some, List, [], ◌∷◌, if◌then◌else◌, ◌=?◌, string_eq, lookup, ◌==◌,
}
use firecracker_shim.Domain.{SandboxRef}
use firecracker_shim.Vm.Manager.{StopEnv, destroy_vm, pause_vm, resume_vm}
use firecracker_shim.Vm.Pool.{deref, close}
use firecracker_shim.Vm.World.{World, Outcome, ok, err, nil_dereference, send_on_closed_channel}
use firecracker_shim.Shim.{
  Process, Service, Reply, response, failure, panic, TaskId, process_not_found, no_sandbox,
  context_done, vm_failed, process_id, uint32,
}

unfoldable pub pids_of : String → List (String × Process) → List ℕ
pids_of id [] = []
pids_of id ((key, p) ∷ m) =
    let rest = pids_of id m in if p.container_id =? id then uint32 p.pid ∷ rest else rest

-- A process that has not exited is waited for until the context is done.
unfoldable pub wait_for : String → Option Process → Reply (ℕ × ℕ)
wait_for key none = failure (process_not_found key)
wait_for key (some p) =
    if p.exited_at == 0 then failure context_done else response (uint32 p.exit_status, p.exited_at)

abbrev vm_reply : Outcome (Unit {0}) → Reply (Unit {0})
vm_reply (ok _) = response tt
vm_reply (err e) = failure (vm_failed e)
vm_reply nil_dereference = panic
vm_reply send_on_closed_channel = panic

-- The PID of the shim and, if there is a sandbox, of its VM.
pub record ShimInfo : Type 0 where
  pub shim_pid : ℕ
  pub task_pid : ℕ

module _ {ℓ} {S : Type ℓ} where
  unfoldable pub pids : String → Service S → List ℕ
  unfolding pids_of
  pids id s = pids_of id s.processes

  unfoldable pub wait : TaskId → Service S → Reply (ℕ × ℕ)
  unfolding wait_for process_id
  wait r s = wait_for (process_id r) (lookup (process_id r) s.processes)

  abbrev pub set_world : World → Service S → Service S
  set_world w s = record s { pool = record s.pool { world = w } }

  abbrev with_vm : World × Outcome (Unit {0}) → Service S → Service S × Reply (Unit {0})
  with_vm (w, o) s = (set_world w s, vm_reply o)

  -- The flag of `pause` and `resume` is the answer of the machine.
  unfoldable pub pause_box : Bool → Option SandboxRef → Service S → Service S × Reply (Unit {0})
  pause_box answer none s = (s, failure no_sandbox)
  pause_box answer (some box) s = with_vm (pause_vm answer box s.pool.world) s

  unfoldable pub pause : Bool → Service S → Service S × Reply (Unit {0})
  unfolding pause_box
  pause answer s = pause_box answer s.sandbox s

  unfoldable pub resume_box : Bool → Option SandboxRef → Service S → Service S × Reply (Unit {0})
  resume_box answer none s = (s, failure no_sandbox)
  resume_box answer (some box) s = with_vm (resume_vm answer box s.pool.world) s

  unfoldable pub resume : Bool → Service S → Service S × Reply (Unit {0})
  unfolding resume_box
  resume answer s = resume_box answer s.sandbox s

  abbrev box_pid : Option SandboxRef → Service S → ℕ
  box_pid none s = 0
  box_pid (some box) s = uint32 (deref s.pool box).pid

  unfoldable pub shim_info : ℕ → Service S → ShimInfo
  shim_info own s = record { shim_pid = uint32 own; task_pid = box_pid s.sandbox s }

  unfoldable pub shutdown : (SandboxRef → StopEnv) → Service S → Service S
  shutdown env s = record s { pool = close env s.pool }

  unfoldable pub cleanup_box : StopEnv → Option SandboxRef → Service S → Service S
  cleanup_box env none s = s
  cleanup_box env (some box) s = set_world (destroy_vm env box s.pool.world) s

  -- An error of `DestroyVM` is only logged.
  unfoldable pub cleanup_shim : StopEnv → Service S → Service S
  unfolding cleanup_box
  cleanup_shim env s = cleanup_box env s.sandbox s
