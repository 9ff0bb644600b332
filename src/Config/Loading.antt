-- ===== src/Config/Loading.antt =====
-- `LoadFromFile`, `LoadFromEnv`, `Validate` and `ApplyToLogger` of pkg/config/config.go. The file
-- system and the environment are arguments.
use firecracker_shim.Base.{
  ℕ, Bool, not, ◌&&◌, ◌||◌, Option, none, some, if◌then◌else◌, ◌=?◌, String,
}
use firecracker_shim.Base.Int.{ℤ, ltb_ℤ}
use firecracker_shim.Base.Text.{Text, codes, text_eq, is_nil}
use firecracker_shim.Config.Parser.{int_or, duration_or, parse_toml}
use firecracker_shim.Config.Settings.{Config, default_config}

-- What `os.ReadFile` answers.
pub data FileRead : Type 0 where
  not_exist : FileRead
  read_failed : FileRead
  contents : Text → FileRead

-- `os.Getenv`: the empty text for a variable that is not set.
abbrev pub Environment : Type 0
Environment = String → Text

-- A value that is not empty replaces the target, by what it reads as.
abbrev pub text_over : Text → Text → Text
text_over v old = if is_nil v then old else v

abbrev pub bool_over : Text → Bool → Bool
bool_over v old =
    if is_nil v then old else (v =? codes "true") || (v =? codes "1") || (v =? codes "yes")

abbrev pub int_over : Text → ℤ → ℤ
int_over v old = if is_nil v then old else int_or old v

module _ (scaled : ℕ → ℕ → ℕ → ℕ) where
  -- The parser reports no error.
  unfoldable pub load_from_file : FileRead → Option Config
  unfolding parse_toml
  load_from_file not_exist = some default_config
  load_from_file read_failed = none
  load_from_file (contents data_) = some (parse_toml scaled data_ default_config)

  abbrev pub duration_over : Text → ℤ → ℤ
  duration_over v old = if is_nil v then old else duration_or scaled old v

  unfoldable pub load_from_env : Environment → Config → Config
  load_from_env env c = record c {
    runtime = record c.runtime {
      runtime_dir = text_over (env "FC_CRI_RUNTIME_DIR") c.runtime.runtime_dir;
      firecracker_binary = text_over (env "FC_CRI_FIRECRACKER_BINARY") c.runtime.firecracker_binary;
      jailer_binary = text_over (env "FC_CRI_JAILER_BINARY") c.runtime.jailer_binary;
      enable_jailer = bool_over (env "FC_CRI_ENABLE_JAILER") c.runtime.enable_jailer;
      shutdown_timeout = duration_over (env "FC_CRI_SHUTDOWN_TIMEOUT") c.runtime.shutdown_timeout;
    };
    vm = record c.vm {
      kernel_path = text_over (env "FC_CRI_VM_KERNEL_PATH") c.vm.kernel_path;
      kernel_args = text_over (env "FC_CRI_VM_KERNEL_ARGS") c.vm.kernel_args;
      default_vcpu_count = int_over (env "FC_CRI_VM_DEFAULT_VCPU_COUNT") c.vm.default_vcpu_count;
      default_memory_mb = int_over (env "FC_CRI_VM_DEFAULT_MEMORY_MB") c.vm.default_memory_mb;
      min_memory_mb = int_over (env "FC_CRI_VM_MIN_MEMORY_MB") c.vm.min_memory_mb;
      max_memory_mb = int_over (env "FC_CRI_VM_MAX_MEMORY_MB") c.vm.max_memory_mb;
      enable_smt = bool_over (env "FC_CRI_VM_ENABLE_SMT") c.vm.enable_smt;
    };
    pool = record c.pool {
      enabled = bool_over (env "FC_CRI_POOL_ENABLED") c.pool.enabled;
      max_size = int_over (env "FC_CRI_POOL_MAX_SIZE") c.pool.max_size;
      min_size = int_over (env "FC_CRI_POOL_MIN_SIZE") c.pool.min_size;
      max_idle_time = duration_over (env "FC_CRI_POOL_MAX_IDLE_TIME") c.pool.max_idle_time;
      warm_concurrency = int_over (env "FC_CRI_POOL_WARM_CONCURRENCY") c.pool.warm_concurrency;
    };
    network = record c.network {
      network_mode = text_over (env "FC_CRI_NETWORK_MODE") c.network.network_mode;
      cni_plugin_dir = text_over (env "FC_CRI_CNI_PLUGIN_DIR") c.network.cni_plugin_dir;
      cni_conf_dir = text_over (env "FC_CRI_CNI_CONF_DIR") c.network.cni_conf_dir;
      default_subnet = text_over (env "FC_CRI_DEFAULT_SUBNET") c.network.default_subnet;
    };
    image = record c.image {
      root_dir = text_over (env "FC_CRI_IMAGE_ROOT_DIR") c.image.root_dir;
      default_block_size_mb =
          int_over (env "FC_CRI_IMAGE_DEFAULT_BLOCK_SIZE_MB") c.image.default_block_size_mb;
      use_sparse_files = bool_over (env "FC_CRI_IMAGE_USE_SPARSE_FILES") c.image.use_sparse_files;
    };
    metrics = record c.metrics {
      enabled = bool_over (env "FC_CRI_METRICS_ENABLED") c.metrics.enabled;
      address = text_over (env "FC_CRI_METRICS_ADDRESS") c.metrics.address;
    };
    log = record c.log {
      level = text_over (env "FC_CRI_LOG_LEVEL") c.log.level;
      format = text_over (env "FC_CRI_LOG_FORMAT") c.log.format;
    };
  }

-- What `os.MkdirAll` and, behind it, `os.Stat` answer for a path.
pub record FileSystem : Type 0 where
  pub mkdir_ok : Text → Bool
  pub stat_ok : Text → Bool

pub data ConfigError : Type 0 where
  dir_failed binary_not_found kernel_not_found : Text → ConfigError
  memory_limits : ℤ → ℤ → ConfigError
  default_memory : ℤ → ℤ → ℤ → ConfigError
  pool_sizes : ℤ → ℤ → ConfigError
  invalid_network_mode invalid_log_level : Text → ConfigError

abbrev pub valid_mode : Text → Bool
valid_mode m = (m =? codes "cni") || (m =? codes "none")

abbrev pub valid_level : Text → Bool
valid_level l =
    (l =? codes "debug") || (l =? codes "info") || (l =? codes "warn") || (l =? codes "error")

-- `none` is a nil error.
unfoldable pub validate : FileSystem → Config → Option ConfigError
validate fs c =
    if not (fs.mkdir_ok c.runtime.runtime_dir)
    then some (dir_failed c.runtime.runtime_dir)
    else if not (fs.mkdir_ok c.image.root_dir)
    then some (dir_failed c.image.root_dir)
    else if not (fs.stat_ok c.runtime.firecracker_binary)
    then some (binary_not_found c.runtime.firecracker_binary)
    else if not (fs.stat_ok c.vm.kernel_path)
    then some (kernel_not_found c.vm.kernel_path)
    else if ltb_ℤ c.vm.max_memory_mb c.vm.min_memory_mb
    then some (memory_limits c.vm.min_memory_mb c.vm.max_memory_mb)
    else if ltb_ℤ c.vm.default_memory_mb c.vm.min_memory_mb
        || ltb_ℤ c.vm.max_memory_mb c.vm.default_memory_mb
    then some (default_memory c.vm.default_memory_mb c.vm.min_memory_mb c.vm.max_memory_mb)
    else if c.pool.enabled && ltb_ℤ c.pool.max_size c.pool.min_size
    then some (pool_sizes c.pool.min_size c.pool.max_size)
    else if not (valid_mode c.network.network_mode)
    then some (invalid_network_mode c.network.network_mode)
    else if not (valid_level c.log.level)
    then some (invalid_log_level c.log.level)
    else none

-- The logger, as far as `ApplyToLogger` sets it.
pub data Level : Type 0 where
  debug_level info_level warn_level error_level : Level

pub record Logger : Type 0 where
  pub level : Level
  pub json : Bool
  pub output : Option Text

abbrev pub level_of : Text → Level
level_of l =
    if l =? codes "debug"
    then debug_level
    else if l =? codes "info"
    then info_level
    else if l =? codes "warn"
    then warn_level
    else if l =? codes "error"
    then error_level
    else info_level

-- `file_ok` says whether the directory and the file could be opened.
unfoldable pub apply_to_logger : Bool → Config → Logger → Logger
apply_to_logger file_ok c log =
    let set = not (is_nil c.log.file) && file_ok in
    record {
      level = level_of c.log.level;
      json = c.log.format =? codes "json";
      output = if set then some c.log.file else log.output;
    }
