-- ===== src/Vm/World.antt =====
-- The state that the parts of pkg/vm share: the sandboxes in memory, the manager's fields, and the
-- calls made to Firecracker and to the file system, newest first. What such a call answers is an
-- argument of each operation, so a theorem holds for every answer.
use firecracker_shim.Base.{ℕ, String, Bool, List, ◌∷◌, ◌==◌, if◌then◌else◌}
use firecracker_shim.Domain.{SandboxId, Sandbox, SandboxRef, FilePath, Machine}

pub record ManagerConfig : Type 0 where
  pub firecracker_binary : String
  pub runtime_dir : String
  pub default_kernel_path : String
  pub default_kernel_args : String
  pub jailer_binary : String
  pub enable_jailer : Bool

-- The fields of `firecracker.Config` that the manager and the snapshot manager fill.
pub record MachineConfig : Type 0 where
  pub socket_path : FilePath
  pub kernel_image_path : String
  pub kernel_args : String
  pub vcpu_count : ℕ
  pub mem_size_mib : ℕ
  pub smt : Bool
  pub vsock_path : FilePath
  pub vsock_cid : ℕ
  pub drives : List (String × String × Bool × Bool)

pub data Effect : Type 0 where
  made_dir removed_dir wrote_file : FilePath → Effect
  new_machine : MachineConfig → Effect
  new_restored_machine : MachineConfig → FilePath → FilePath → Bool → Effect
  started shut_down stopped_vmm waited paused resumed : Machine → Effect
  closed_conn : ℕ → Effect

pub record World : Type 0 where
  pub heap : ℕ → Sandbox
  pub next_addr : ℕ
  pub config : ManagerConfig
  pub sandboxes : List (SandboxId × SandboxRef)
  pub cid_counter : ℕ  -- uint32
  pub effects : List Effect

pub data Error : Type 0 where
  create_dir_failed create_machine_failed start_machine_failed no_vm sdk_failed : Error
  warm_failed : ℕ → Error
  snapshots_disabled no_golden_snapshot pause_failed snapshot_failed golden_protected
        remove_files_failed :
      Error

-- What a Go call ends in: a value with a nil error, an error, or a panic.
pub data Outcome {ℓ} (A : Type ℓ) : Type ℓ where
  ok : A → Outcome A
  err : Error → Outcome A
  nil_dereference send_on_closed_channel : Outcome A

abbrev pub log : Effect → World → World
log x w = record w { effects = x ∷ w.effects }

-- A write through a pointer.
abbrev pub write : SandboxRef → Sandbox → World → World
write r s w = record w { heap = λ a. if r.addr == a then s else w.heap a }
