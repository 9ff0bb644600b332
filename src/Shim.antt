-- ===== src/Shim.antt =====
-- The task service of pkg/shim/service.go. It holds its lock through a method, so a method is one
-- step. The connection to the guest agent is a parameter, as for the client. `exited_at` 0 is the
-- zero time. Requests with a fixed answer (Exec, Checkpoint, Update,
-- ResizePty, CloseIO) are not modelled.
pub mod Tasks
pub mod Outcomes
pub mod Requests
pub mod Exits
use firecracker_shim.Base.{
  ℕ, ◌<◌, ◌%◌, ◌^◌, String, Bool, true, false, Option, none, some, List, [], ◌∷◌, if◌then◌else◌,
  ◌=?◌, string_eq, ltb, lookup, insert, delete, keep_if, map, ◌&&◌, ◌==◌, not,
}
use firecracker_shim.Domain.{
  SandboxRef, Sandbox, VmConfig, DriveConfig, default_vm_config, no_drive,
}
use firecracker_shim.Vm.World.{Outcome, ok, err, nil_dereference, send_on_closed_channel, Error}
use firecracker_shim.Vm.Manager.{StopEnv, destroy_vm, pause_vm, resume_vm}
use firecracker_shim.Vm.Pool.{Pool, deref, AcquireEnv, acquire, ReleaseEnv, release, close}
use firecracker_shim.Guest.Client.{
  Client, Link, Result, good, bad, CallError, ContainerSpec, new_client, connect, create_container,
  start_container, stop_container, remove_container,
}

pub record Process : Type 0 where
  pub id : String
  pub container_id : String
  pub pid : ℕ
  pub exit_status : ℕ
  pub exited_at : ℕ
  pub stdin : String
  pub stdout : String
  pub stderr : String
  pub terminal : Bool

-- With the pool, and the state of the other side of the connection.
pub record Service {ℓ} (S : Type ℓ) : Type ℓ where
  pub bundle : String
  pub pool : Pool
  pub agent_client : Option Client
  pub sandbox : Option SandboxRef
  pub processes : List (String × Process)
  pub guest : S

pub data TaskStatus : Type 0 where
  status_created status_running status_stopped : TaskStatus

pub data TaskError : Type 0 where
  process_not_found : String → TaskError
  acquire_failed : Error → TaskError
  connect_failed create_failed start_failed kill_failed : CallError → TaskError
  no_sandbox context_done : TaskError
  vm_failed : Error → TaskError

-- How a request ends: a response, an error, or a panic of the process.
pub data Reply {ℓ} (A : Type ℓ) : Type ℓ where
  response : A → Reply A
  failure : TaskError → Reply A
  panic : Reply A

-- The ID and the ExecID of a request.
pub record TaskId : Type 0 where
  pub id : String
  pub exec_id : String

pub record StateResponse : Type 0 where
  pub id : String
  pub bundle : String
  pub pid : ℕ
  pub status : TaskStatus
  pub stdin : String
  pub stdout : String
  pub stderr : String
  pub terminal : Bool
  pub exit_status : ℕ
  pub exited_at : ℕ

-- The fields of `CreateTaskRequest` that the code reads; `rootfs` are the sources of the mounts.
pub record CreateRequest : Type 0 where
  pub id : String
  pub bundle : String
  pub rootfs : List String
  pub stdin : String
  pub stdout : String
  pub stderr : String
  pub terminal : Bool

-- What one `Create` meets: the pool's calls, the dialling, and when the context is done.
pub record TaskEnv : Type 0 where
  pub acquire : AcquireEnv
  pub dialled : Bool
  pub context_ends : ℕ → Bool

-- `uint32(n)` of a PID.
abbrev pub uint32 : ℕ → ℕ
uint32 n = n % 2 ^ 32

unfoldable pub process_status : Process → TaskStatus
process_status p =
    if p.exited_at == 0
    then (if ltb 0 p.pid then status_running else status_created)
    else status_stopped

-- `procID` of Start, Delete, Kill and Wait.
unfoldable pub process_id : TaskId → String
process_id r = if r.exec_id =? "" then r.id else r.exec_id

abbrev pub root_config : List String → VmConfig
root_config [] = default_vm_config
root_config (source ∷ _) = record default_vm_config {
  root_drive = record no_drive { drive_id = "rootfs"; path_on_host = source; is_root = true };
}

unfoldable pub container_spec : CreateRequest → ContainerSpec
container_spec r = record {
  id = r.id;
  bundle_path = r.bundle;
  stdin = not (r.stdin =? "");
  stdout = not (r.stdout =? "");
  stderr = not (r.stderr =? "");
  terminal = r.terminal;
}

unfoldable pub init_process : CreateRequest → Process
init_process r = record {
  id = r.id;
  container_id = r.id;
  pid = 0;
  exit_status = 0;
  exited_at = 0;
  stdin = r.stdin;
  stdout = r.stdout;
  stderr = r.stderr;
  terminal = r.terminal;
}

abbrev pub killed : Result (Unit {0}) → Reply (Unit {0})
killed (good _) = response tt
killed (bad e) = failure (kill_failed e)

module _ {ℓ} {S : Type ℓ} where
  unfoldable pub new_service : Pool → S → Service S
  new_service p s = record {
    bundle = "";
    pool = p;
    agent_client = none;
    sandbox = none;
    processes = [];
    guest = s;
  }

  unfoldable pub state_of : String → Option Process → Service S → Reply StateResponse
  unfolding process_status
  state_of key none s = failure (process_not_found key)
  state_of key (some p) s = response (record {
    id = p.id;
    bundle = s.bundle;
    pid = uint32 p.pid;
    status = process_status p;
    stdin = p.stdin;
    stdout = p.stdout;
    stderr = p.stderr;
    terminal = p.terminal;
    exit_status = uint32 p.exit_status;
    exited_at = p.exited_at;
  })

  -- `State` looks up the ExecID alone.
  unfoldable pub state : TaskId → Service S → Reply StateResponse
  unfolding state_of
  state r s = state_of r.exec_id (lookup r.exec_id s.processes) s

  -- The client and the other side after a call.
  abbrev pub after : Client × S → Service S → Service S
  after (c, g) s = record s { agent_client = some c; guest = g }

module _ {ℓ} {S : Type ℓ} (link : Link S) where
  -- `Create` from the answer of `CreateContainer` on.
  unfoldable pub created :
      CreateRequest
      → SandboxRef
      → (Client × S) × Result (Unit {0})
      → Service S
      → Service S × Reply ℕ
  unfolding init_process
  created r box (st, bad e) s = (after st s, failure (create_failed e))
  created r box (st, good _) s = (
    record (after st s) { processes = insert r.id (init_process r) s.processes },
    response (uint32 (deref s.pool box).pid),
  )

  unfoldable pub connected :
      CreateRequest
      → SandboxRef
      → (Client × S) × Result (Unit {0})
      → Service S
      → Service S × Reply ℕ
  unfolding created container_spec
  connected r box (st, bad e) s = (after st s, failure (connect_failed e))
  connected r box (st, good _) s =
      created r box (create_container link (container_spec r) st) (after st s)

  unfoldable pub acquired :
      TaskEnv → CreateRequest → Pool × Outcome SandboxRef → Service S → Service S × Reply ℕ
  unfolding connected
  acquired env r (p, ok box) s =
      let s' = record s { pool = p; sandbox = some box; bundle = r.bundle } in
      connected r box (connect link env.dialled env.context_ends (new_client, s.guest)) s'
  acquired env r (p, err e) s = (record s { pool = p }, failure (acquire_failed e))
  acquired env r (p, nil_dereference) s = (record s { pool = p }, panic)
  acquired env r (p, send_on_closed_channel) s = (record s { pool = p }, panic)

  unfoldable pub create : TaskEnv → CreateRequest → Service S → Service S × Reply ℕ
  unfolding acquired
  create env r s = acquired env r (acquire env.acquire (root_config r.rootfs) s.pool) s

  unfoldable pub set_pid :
      String → Process → (Client × S) × Result ℕ → Service S → Service S × Reply ℕ
  set_pid key p (st, bad e) s = (after st s, failure (start_failed e))
  set_pid key p (st, good n) s = (
    record (after st s) { processes = insert key (record p { pid = n }) s.processes },
    response (uint32 n),
  )

  unfoldable pub start_process :
      String → Option Process → Option Client → Service S → Service S × Reply ℕ
  unfolding set_pid
  start_process key none c s = (s, failure (process_not_found key))
  start_process key (some p) none s = (s, panic)
  start_process key (some p) (some c) s =
      set_pid key p (start_container link p.container_id (c, s.guest)) s

  unfoldable pub start : TaskId → Service S → Service S × Reply ℕ
  unfolding start_process process_id
  start r s = let key = process_id r in start_process key (lookup key s.processes) s.agent_client s

  -- The agent is asked to stop the container, whatever the signal; the timeout is 30 seconds.
  unfoldable pub kill_process :
      String → Option Process → Option Client → Service S → Service S × Reply (Unit {0})
  kill_process key none c s = (s, failure (process_not_found key))
  kill_process key (some p) none s = (s, panic)
  kill_process key (some p) (some c) s =
      let (st, r) = stop_container link p.container_id 30000000000 (c, s.guest) in
      (after st s, killed r)

  unfoldable pub kill : TaskId → Service S → Service S × Reply (Unit {0})
  unfolding kill_process process_id
  kill r s = let key = process_id r in kill_process key (lookup key s.processes) s.agent_client s

  -- The error of `RemoveContainer` is only logged.
  unfoldable pub remove : Option Client → String → Service S → Service S
  remove none id s = s
  remove (some c) id s = after (remove_container link id (c, s.guest)).0 s

  abbrev pub is_panic : Outcome (Unit {0}) → Bool
  is_panic (ok _) = false
  is_panic (err _) = false
  is_panic nil_dereference = true
  is_panic send_on_closed_channel = true

  -- The VM goes back to the pool; an error of `Release` is only logged.
  unfoldable pub release_box : ReleaseEnv → Option SandboxRef → Service S → Service S × Bool
  release_box env none s = (s, false)
  release_box env (some box) s =
      let (p, o) = release env box s.pool in
      (record s { pool = p; sandbox = if is_panic o then some box else none }, is_panic o)

  unfoldable pub delete_process :
      ReleaseEnv → TaskId → Option Process → Service S → Service S × Reply (ℕ × ℕ)
  unfolding remove release_box process_id
  delete_process env r none s = (s, failure (process_not_found (process_id r)))
  delete_process env r (some p) s =
      let s1 = remove s.agent_client p.container_id s in
      let s2 = record s1 { processes = delete (process_id r) s1.processes } in
      let (s3, crash) = if r.exec_id =? "" then release_box env s2.sandbox s2 else (s2, false) in
      (s3, if crash then panic else response (uint32 p.pid, uint32 p.exit_status))

  unfoldable pub delete_task : ReleaseEnv → TaskId → Service S → Service S × Reply (ℕ × ℕ)
  unfolding delete_process
  delete_task env r s = delete_process env r (lookup (process_id r) s.processes) s
