-- ===== src/Vm/Manager.antt =====
-- pkg/vm/manager.go. Each operation takes what the calls outside this code answer.
-- `sandboxLocks` only serialises calls on one sandbox, which the model makes one at a time.
pub mod Create
pub mod Destroy
pub mod CidInv
pub mod CidRestore
pub mod Cid
use firecracker_shim.Base.{
  ℕ, suc, ◌+◌, ◌%◌, ◌^◌, Bool, false, Option, none, some, String, List, [], ◌∷◌, if◌then◌else◌,
  ◌=?◌, string_eq, lookup, insert, delete, map,
}
use firecracker_shim.Domain.{
  SandboxId, fc, id_eq, sandbox_ready, sandbox_stopped, is_ready, sandbox_dir, sandbox_file,
  DriveConfig, VmConfig, Machine, Sandbox, SandboxRef, new_sandbox,
}
use firecracker_shim.Vm.World.{
  ManagerConfig, MachineConfig, Effect, made_dir, removed_dir, new_machine, started, shut_down,
  stopped_vmm, waited, paused, resumed, closed_conn, World, create_dir_failed,
  create_machine_failed, start_machine_failed, no_vm, sdk_failed, Outcome, ok, err, log, write,
}

unfoldable pub default_manager_config : ManagerConfig
default_manager_config = record {
  firecracker_binary = "/usr/bin/firecracker";
  runtime_dir = "/run/fc-cri";
  default_kernel_path = "/var/lib/fc-cri/vmlinux";
  default_kernel_args = "console=ttyS0 reboot=k panic=1 pci=off quiet";
  jailer_binary = "/usr/bin/jailer";
  enable_jailer = false;
}

-- The state that `NewManager` returns, over any memory.
unfoldable pub new_manager : ManagerConfig → (ℕ → Sandbox) → World
new_manager c heap = record {
  heap = heap;
  next_addr = 0;
  config = c;
  sandboxes = [];
  cid_counter = 3;
  effects = [];
}

-- What the calls of one `CreateVM` answer: the clock, `MkdirAll`, `NewMachine`, `Start`, `PID`.
pub record CreateEnv : Type 0 where
  pub unix_nano : ℕ
  pub created : ℕ
  pub mkdir_ok : Bool
  pub machine : Option Machine
  pub start_ok : Bool
  pub machine_pid : ℕ
  pub start_time : ℕ

unfoldable pub with_defaults : ManagerConfig → VmConfig → VmConfig
with_defaults m c = record c {
  kernel_path = if c.kernel_path =? "" then m.default_kernel_path else c.kernel_path;
  kernel_args = if c.kernel_args =? "" then m.default_kernel_args else c.kernel_args;
}

unfoldable pub root_drives : DriveConfig → List (String × String × Bool × Bool)
root_drives d =
    if d.path_on_host =? ""
    then []
    else (d.drive_id, d.path_on_host, d.is_root, d.is_read_only) ∷ []

-- `fcConfig` of `CreateVM`.
unfoldable pub machine_config : String → SandboxId → ℕ → VmConfig → MachineConfig
unfolding root_drives
machine_config dir id cid c = record {
  socket_path = sandbox_file dir id "firecracker.sock";
  kernel_image_path = c.kernel_path;
  kernel_args = c.kernel_args;
  vcpu_count = c.vcpu_count;
  mem_size_mib = c.memory_mb;
  smt = c.smt_enabled;
  vsock_path = sandbox_file dir id "vsock.sock";
  vsock_cid = cid;
  drives = root_drives c.root_drive;
}

-- The sandbox that a successful `CreateVM` stores and returns.
unfoldable pub ready_sandbox : CreateEnv → String → SandboxId → ℕ → Machine → VmConfig → Sandbox
unfolding new_sandbox
ready_sandbox env dir id cid m c = record (new_sandbox env.created) {
  vsock_cid = cid;
  vsock_path = sandbox_file dir id "vsock.sock";
  vm = some m;
  vm_config = c;
  pid = env.machine_pid;
  state = sandbox_ready;
  started_at = env.start_time;
}

-- `m.cidCounter++` on a uint32.
abbrev pub next_cid : World → World
next_cid w = record w { cid_counter = (w.cid_counter + 1) % 2 ^ 32 }

-- The end of `CreateVM` and of `RestoreFromSnapshot`: the sandbox gets its place in memory, and its
-- entry in the manager's map.
unfoldable pub track : SandboxId → Sandbox → World → World × Outcome SandboxRef
track id s w =
    let r : SandboxRef = record { addr = w.next_addr; id = id } in
    (
      record (write r s w) { next_addr = suc w.next_addr; sandboxes = insert id r w.sandboxes },
      ok r,
    )

-- `CreateVM` from `firecracker.NewMachine` on, for the ID, the CID and the completed configuration.
unfoldable pub launch :
    CreateEnv → SandboxId → ℕ → VmConfig → Option Machine → World → World × Outcome SandboxRef
unfolding machine_config ready_sandbox track
launch env id cid c none w =
    (log (new_machine (machine_config w.config.runtime_dir id cid c)) w, err create_machine_failed)
launch env id cid c (some m) w =
    let w' = log (new_machine (machine_config w.config.runtime_dir id cid c)) w in
    if env.start_ok
    then track id (ready_sandbox env w.config.runtime_dir id cid m c) (log (started m) w')
    else (w', err start_machine_failed)

unfoldable pub create_vm : CreateEnv → VmConfig → World → World × Outcome SandboxRef
unfolding launch with_defaults
create_vm env c w =
    let id = fc env.unix_nano in
    let w' = next_cid w in
    if env.mkdir_ok
    then launch env id w.cid_counter (with_defaults w.config c) env.machine
        (log (made_dir (sandbox_dir w.config.runtime_dir id)) w')
    else (w', err create_dir_failed)

-- What the calls of one `stopVM` or `DestroyVM` answer. Failures of `Wait` and of `RemoveAll` are
-- only logged by the code.
pub record StopEnv : Type 0 where
  pub shutdown_ok : Bool
  pub finish_time : ℕ

-- `stopVM` on a sandbox with the machine `m`.
unfoldable pub stop_machine : StopEnv → SandboxRef → Machine → World → World
stop_machine env r m w =
    let s = w.heap r.addr in
    let w' = log (shut_down m) w in
    let w'' = if env.shutdown_ok then w' else log (stopped_vmm m) w' in
    write r (record s { state = sandbox_stopped; finished_at = env.finish_time })
      (log (waited m) w'')

unfoldable pub stop_vm_of :
    StopEnv → SandboxRef → Option Machine → World → World × Outcome (Unit {0})
unfolding stop_machine
stop_vm_of env r none w = (w, err no_vm)
stop_vm_of env r (some m) w = (stop_machine env r m w, ok tt)

unfoldable pub stop_vm : StopEnv → SandboxRef → World → World × Outcome (Unit {0})
unfolding stop_vm_of
stop_vm env r w = stop_vm_of env r (w.heap r.addr).vm w

unfoldable pub close_conn : Option ℕ → World → World
close_conn none w = w
close_conn (some c) w = log (closed_conn c) w

-- It never returns an error.
unfoldable pub destroy_vm : StopEnv → SandboxRef → World → World
unfolding stop_vm close_conn
destroy_vm env r w =
    let s = w.heap r.addr in
    let w' = if is_ready s.state then (stop_vm env r w).0 else w in
    let w'' =
      log (removed_dir (sandbox_dir w.config.runtime_dir r.id)) (close_conn s.agent_conn w') in
    record w'' { sandboxes = delete r.id w''.sandboxes }

unfoldable pub machine_call :
    (Machine → Effect) → Bool → Option Machine → World → World × Outcome (Unit {0})
machine_call effect answer none w = (w, err no_vm)
machine_call effect answer (some m) w = (log (effect m) w, if answer then ok tt else err sdk_failed)

unfoldable pub pause_vm : Bool → SandboxRef → World → World × Outcome (Unit {0})
unfolding machine_call
pause_vm answer r w = machine_call paused answer (w.heap r.addr).vm w

unfoldable pub resume_vm : Bool → SandboxRef → World → World × Outcome (Unit {0})
unfolding machine_call
resume_vm answer r w = machine_call resumed answer (w.heap r.addr).vm w

unfoldable pub get_sandbox : SandboxId → World → Option SandboxRef
get_sandbox id w = lookup id w.sandboxes

unfoldable pub list_sandboxes : World → List SandboxRef
list_sandboxes w = map (λ e. e.1) w.sandboxes
