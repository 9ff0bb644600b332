-- ===== src/Domain.antt =====
-- pkg/domain/types.go: sandboxes, containers and the configuration values.
-- A `time.Time` is a number of nanoseconds, and 0 is the zero time. An `int64`, `int` or `uint32`
-- field that the code only stores is a native number. A `*Sandbox` is a `SandboxRef`: an address,
-- with the `ID` of the sandbox beside it, since no code writes that field after `NewSandbox`.
use firecracker_shim.Base.{
  ℕ, String, ◌≡◌, ◌↔◌, Bool, true, false, Option, none, List, [], arith, ◌==◌, Eq, insert, delete,
  lookup, string_eq,
}

-- "fc-%d" of `generateID`, and "fc-snap-%d" of `RestoreFromSnapshot`, by the number printed.
pub data SandboxId : Type 0 where
  fc : ℕ → SandboxId
  fc_snap : ℕ → SandboxId

abbrev pub id_beq : SandboxId → SandboxId → Bool
id_beq (fc a) (fc b) = a == b
id_beq (fc a) (fc_snap b) = false
id_beq (fc_snap a) (fc b) = false
id_beq (fc_snap a) (fc_snap b) = a == b

pub id_beq_iff : (a b : SandboxId) → (id_beq a b ≡ true) ↔ (a ≡ b)
id_beq_iff a b = ground arith

instance abbrev pub id_eq : Eq SandboxId
id_eq = record { beq = id_beq; beq_iff = id_beq_iff }

pub data SandboxState : Type 0 where
  sandbox_unknown sandbox_pending sandbox_ready sandbox_stopped : SandboxState

unfoldable pub sandbox_state_string : SandboxState → String
sandbox_state_string sandbox_unknown = "unknown"
sandbox_state_string sandbox_pending = "pending"
sandbox_state_string sandbox_ready = "ready"
sandbox_state_string sandbox_stopped = "stopped"

abbrev pub is_ready : SandboxState → Bool
is_ready sandbox_ready = true
is_ready _ = false

pub data ContainerState : Type 0 where
  container_unknown container_created container_running container_exited : ContainerState

unfoldable pub container_state_string : ContainerState → String
container_state_string container_unknown = "unknown"
container_state_string container_created = "created"
container_state_string container_running = "running"
container_state_string container_exited = "exited"

-- The fields of a container that the sandbox's methods use.
pub record Container : Type 0 where
  pub id : String
  pub sandbox_id : SandboxId
  pub state : ContainerState
  pub created_at : ℕ

unfoldable pub new_container : String → SandboxId → ℕ → Container
new_container id unset now = record {
  id = id;
  sandbox_id = unset;
  state = container_created;
  created_at = now;
}

-- A path on the host: a text, the directory of a sandbox, a file in that directory, the directory of
-- a snapshot, a file in that one, or `filepath.Dir` of a path.
pub data FilePath : Type 0 where
  text : String → FilePath
  snapshot_dir : String → String → FilePath
  snapshot_file : String → String → String → FilePath
  parent : FilePath → FilePath
  sandbox_dir : String → SandboxId → FilePath
  sandbox_file : String → SandboxId → String → FilePath

pub record DriveConfig : Type 0 where
  pub drive_id : String
  pub path_on_host : String
  pub is_read_only : Bool
  pub is_root : Bool
  pub cache_type : String

pub record CniConfig : Type 0 where
  pub network_name : String
  pub if_name : String
  pub bin_dir : String
  pub conf_dir : String
  pub cache_dir : String

pub record VmConfig : Type 0 where
  pub vcpu_count : ℕ
  pub memory_mb : ℕ
  pub smt_enabled : Bool
  pub kernel_path : String
  pub kernel_args : String
  pub initrd_path : String
  pub root_drive : DriveConfig
  pub network_mode : String
  pub cni_config : Option CniConfig
  pub vsock_enabled : Bool
  pub vsock_cid : ℕ
  pub jailer_enabled : Bool

abbrev pub no_drive : DriveConfig
no_drive = record {
  drive_id = "";
  path_on_host = "";
  is_read_only = false;
  is_root = false;
  cache_type = "";
}

unfoldable pub default_vm_config : VmConfig
default_vm_config = record {
  vcpu_count = 1;
  memory_mb = 128;
  smt_enabled = false;
  kernel_path = "";
  kernel_args = "console=ttyS0 reboot=k panic=1 pci=off quiet";
  initrd_path = "";
  root_drive = no_drive;
  network_mode = "cni";
  cni_config = none;
  vsock_enabled = true;
  vsock_cid = 0;
  jailer_enabled = false;
}

-- A handle of a Firecracker machine (a `*firecracker.Machine` of the SDK), by a number.
abbrev pub Machine : Type 0
Machine = ℕ

pub record Sandbox : Type 0 where
  pub state : SandboxState
  pub vm : Option Machine
  pub vm_config : VmConfig
  pub pid : ℕ
  pub vsock_path : FilePath
  pub vsock_cid : ℕ
  pub agent_conn : Option ℕ
  pub containers : List (String × Container)
  pub created_at : ℕ
  pub started_at : ℕ
  pub finished_at : ℕ
  pub pooled_at : ℕ
  pub from_pool : Bool

pub record SandboxRef : Type 0 where
  pub addr : ℕ
  pub id : SandboxId

-- The configuration that `NewSandbox` leaves at its zero value.
abbrev pub zero_vm_config : VmConfig
zero_vm_config = record {
  vcpu_count = 0;
  memory_mb = 0;
  smt_enabled = false;
  kernel_path = "";
  kernel_args = "";
  initrd_path = "";
  root_drive = no_drive;
  network_mode = "";
  cni_config = none;
  vsock_enabled = false;
  vsock_cid = 0;
  jailer_enabled = false;
}

unfoldable pub new_sandbox : ℕ → Sandbox
new_sandbox now = record {
  state = sandbox_pending;
  vm = none;
  vm_config = zero_vm_config;
  pid = 0;
  vsock_path = text "";
  vsock_cid = 0;
  agent_conn = none;
  containers = [];
  created_at = now;
  started_at = 0;
  finished_at = 0;
  pooled_at = 0;
  from_pool = false;
}

-- `AddContainer` of the sandbox with the given ID.
unfoldable pub add_container : SandboxId → Container → Sandbox → Sandbox
add_container id c s = record s {
  containers = insert c.id (record c { sandbox_id = id }) s.containers;
}

unfoldable pub get_container : String → Sandbox → Option Container
get_container id s = lookup id s.containers

unfoldable pub remove_container : String → Sandbox → Sandbox
remove_container id s = record s { containers = delete id s.containers }
