-- ===== src/Vm/Jailer.antt =====
-- pkg/vm/jailer.go: the jails of VMs. A jail is known by its sandbox ID: its root is
-- `<ChrootBaseDir>/firecracker/<id>/root`. Calls outside are recorded, newest first.
pub mod Chroot
pub mod Cgroups
pub mod Mounts
pub mod Lifecycle
pub mod Args
pub mod Prerequisites
use firecracker_shim.Base.{ℕ, ◌==◌, Bool, true, false, Option, none, some, String, List, [], ◌∷◌}
use firecracker_shim.Base.Int.{ℤ, pos, negsuc}
use firecracker_shim.Domain.{SandboxId}

pub record JailerResourceLimits : Type 0 where
  pub max_open_files : ℕ
  pub max_processes : ℕ
  pub max_memory_bytes : ℕ
  pub cpu_weight : ℕ
  pub cpu_quota : ℤ
  pub cpu_period : ℤ

pub record JailerConfig : Type 0 where
  pub enabled : Bool
  pub jailer_binary : String
  pub firecracker_binary : String
  pub chroot_base_dir : String
  pub uid : ℤ
  pub gid : ℤ
  pub numa_node : ℤ
  pub cgroup_version : String
  pub cgroup_parent : String
  pub net_ns : String
  pub daemonize : Bool
  pub seccomp_level : ℤ
  pub resource_limits : JailerResourceLimits

unfoldable pub default_jailer_config : JailerConfig
default_jailer_config = record {
  enabled = false;
  jailer_binary = "/usr/bin/jailer";
  firecracker_binary = "/usr/bin/firecracker";
  chroot_base_dir = "/srv/jailer";
  uid = pos 1000;
  gid = pos 1000;
  numa_node = negsuc 0;
  cgroup_version = "2";
  cgroup_parent = "fc-cri.slice";
  net_ns = "";
  daemonize = true;
  seccomp_level = pos 2;
  resource_limits = record {
    max_open_files = 2048;
    max_processes = 100;
    max_memory_bytes = 0;
    cpu_weight = 100;
    cpu_quota = pos 0;
    cpu_period = pos 100000;
  };
}

-- The places below the root of a jail.
pub data JailFile : Type 0 where
  jail_root dev dev_net run kernel rootfs dev_null dev_zero dev_urandom dev_kvm dev_tun socket :
      JailFile

abbrev pub file_code : JailFile → ℕ
file_code jail_root = 0
file_code dev = 1
file_code dev_net = 2
file_code run = 3
file_code kernel = 4
file_code rootfs = 5
file_code dev_null = 6
file_code dev_zero = 7
file_code dev_urandom = 8
file_code dev_kvm = 9
file_code dev_tun = 10
file_code socket = 11

abbrev pub same_file : JailFile → JailFile → Bool
same_file a b = file_code a == file_code b

-- A path of the host as text, the directory above a jail's root, a place in a jail, the directories
-- of the cgroups by controller (none for version 2), and the files in those.
pub data JailPath : Type 0 where
  host : String → JailPath
  jail_dir : SandboxId → JailPath
  in_jail : SandboxId → JailFile → JailPath
  parent_cgroup : JailPath
  cgroup : Option String → SandboxId → JailPath
  cgroup_file : Option String → SandboxId → String → JailPath

-- What the code writes to a file of a cgroup: numbers in decimal.
pub data CgroupValue : Type 0 where
  limit : ℕ → CgroupValue
  amount : ℤ → CgroupValue
  quota_and_period : ℤ → ℤ → CgroupValue
  controllers : String → CgroupValue

-- A word of a command line; a number stands in decimal, and an ID as it is.
pub data Arg : Type 0 where
  word : String → Arg
  number : ℤ → Arg
  sandbox : SandboxId → Arg

pub data JailEffect : Type 0 where
  made_dir chowned removed created removed_tree : JailPath → JailEffect
  made_node : SandboxId → JailFile → ℕ → ℕ → JailEffect
  mounted : String → SandboxId → JailFile → JailEffect
  unmount_called : SandboxId → JailFile → JailEffect  -- with any answer
  wrote : JailPath → CgroupValue → JailEffect
  ran : String → List Arg → JailEffect
  killed_jailer : ℤ → JailEffect

-- What the calls answer. `stat` says of a source path whether it is there, and a directory.
pub record JailEnv : Type 0 where
  pub mkdir_ok : JailPath → Bool
  pub create_ok : JailPath → Bool
  pub mknod_ok : JailFile → Bool
  pub stat : String → Option Bool
  pub mount_ok : String → JailFile → Bool

pub data MountError : Type 0 where
  source_not_found mkdir_failed create_failed mount_failed : MountError

pub data JailError : Type 0 where
  not_enabled jailer_not_found firecracker_not_found base_dir_failed : JailError
  chroot_failed cgroup_failed jailer_failed : JailError
  kernel_failed rootfs_failed : MountError → JailError
