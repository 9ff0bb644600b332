-- ===== src/Config/Settings.antt =====
-- The records of pkg/config/config.go and `Default`. A `time.Duration` is in nanoseconds, an `int`
-- has 64 bits.
use firecracker_shim.Base.{ℕ, ◌*◌, Bool, true, false, []}
use firecracker_shim.Base.Int.{ℤ, pos}
use firecracker_shim.Base.Text.{Text, codes}

pub record RuntimeConfig : Type 0 where
  pub runtime_dir : Text
  pub firecracker_binary : Text
  pub jailer_binary : Text
  pub enable_jailer : Bool
  pub shutdown_timeout : ℤ
  pub containerd_socket : Text

pub record VmConfig : Type 0 where
  pub kernel_path : Text
  pub kernel_args : Text
  pub initrd_path : Text
  pub default_vcpu_count : ℤ
  pub default_memory_mb : ℤ
  pub min_memory_mb : ℤ
  pub max_memory_mb : ℤ
  pub enable_smt : Bool
  pub base_rootfs_path : Text
  pub vsock_enabled : Bool

pub record PoolConfig : Type 0 where
  pub enabled : Bool
  pub max_size : ℤ
  pub min_size : ℤ
  pub max_idle_time : ℤ
  pub warm_concurrency : ℤ
  pub replenish_interval : ℤ
  pub prewarm_on_start : Bool

pub record NetworkConfig : Type 0 where
  pub network_mode : Text
  pub cni_plugin_dir : Text
  pub cni_conf_dir : Text
  pub cni_cache_dir : Text
  pub default_network_name : Text
  pub default_subnet : Text

pub record ImageConfig : Type 0 where
  pub root_dir : Text
  pub default_block_size_mb : ℤ
  pub use_sparse_files : Bool
  pub cache_enabled : Bool
  pub cache_max_size_mb : ℤ

pub record AgentConfig : Type 0 where
  pub vsock_port : ℕ
  pub connect_timeout : ℤ
  pub dial_retries : ℤ
  pub dial_retry_interval : ℤ
  pub command_timeout : ℤ

pub record MetricsConfig : Type 0 where
  pub enabled : Bool
  pub address : Text
  pub path : Text

pub record LogConfig : Type 0 where
  pub level : Text
  pub format : Text
  pub file : Text

pub record Config : Type 0 where
  pub runtime : RuntimeConfig
  pub vm : VmConfig
  pub pool : PoolConfig
  pub network : NetworkConfig
  pub image : ImageConfig
  pub agent : AgentConfig
  pub metrics : MetricsConfig
  pub log : LogConfig

abbrev second : ℕ
second = 1000000000

unfoldable pub default_config : Config
default_config = record {
  runtime = record {
    runtime_dir = codes "/run/fc-cri";
    firecracker_binary = codes "/usr/bin/firecracker";
    jailer_binary = codes "/usr/bin/jailer";
    enable_jailer = false;
    shutdown_timeout = pos (30 * second);
    containerd_socket = codes "/run/containerd/containerd.sock";
  };
  vm = record {
    kernel_path = codes "/var/lib/fc-cri/vmlinux";
    kernel_args = codes "console=ttyS0 reboot=k panic=1 pci=off quiet";
    initrd_path = [];
    default_vcpu_count = pos 1;
    default_memory_mb = pos 128;
    min_memory_mb = pos 64;
    max_memory_mb = pos 8192;
    enable_smt = false;
    base_rootfs_path = codes "/var/lib/fc-cri/rootfs/base.ext4";
    vsock_enabled = true;
  };
  pool = record {
    enabled = true;
    max_size = pos 10;
    min_size = pos 3;
    max_idle_time = pos (300 * second);
    warm_concurrency = pos 2;
    replenish_interval = pos (10 * second);
    prewarm_on_start = true;
  };
  network = record {
    network_mode = codes "cni";
    cni_plugin_dir = codes "/opt/cni/bin";
    cni_conf_dir = codes "/etc/cni/net.d";
    cni_cache_dir = codes "/var/lib/cni";
    default_network_name = codes "fc-net";
    default_subnet = codes "10.88.0.0/16";
  };
  image = record {
    root_dir = codes "/var/lib/fc-cri/images";
    default_block_size_mb = pos 1024;
    use_sparse_files = true;
    cache_enabled = true;
    cache_max_size_mb = pos 10240;
  };
  agent = record {
    vsock_port = 1024;
    connect_timeout = pos (30 * second);
    dial_retries = pos 30;
    dial_retry_interval = pos 100000000;
    command_timeout = pos (60 * second);
  };
  metrics = record { enabled = true; address = codes ":9090"; path = codes "/metrics" };
  log = record { level = codes "info"; format = codes "text"; file = [] };
}
