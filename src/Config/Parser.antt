-- ===== src/Config/Parser.antt =====
-- `parseTOML` and `applyConfigValue` of pkg/config/config.go.
use firecracker_shim.Base.{
  ℕ, Bool, ◌&&◌, ◌||◌, Option, none, some, List, [], ◌∷◌, ◌==◌, if◌then◌else◌, ◌=?◌,
}
use firecracker_shim.Base.Int.{ℤ}
use firecracker_shim.Base.Text.{
  Text, codes, text_eq, is_nil, trim, trim_space, split, cut, begins_with, ends_with,
}
use firecracker_shim.Config.Numbers.{parse_int, parse_uint32, parse_duration}
use firecracker_shim.Config.Settings.{
  RuntimeConfig, VmConfig, PoolConfig, NetworkConfig, ImageConfig, AgentConfig, MetricsConfig,
  LogConfig, Config,
}

abbrev is_true : Text → Bool
is_true v = v =? codes "true"

-- `if i, err := parse(value); err == nil { *target = i }`.
abbrev pub keep_unless {ℓ} : {A : Type ℓ} → A → Option A → A
keep_unless old none = old
keep_unless old (some new) = new

abbrev pub int_or : ℤ → Text → ℤ
int_or old v = keep_unless old (parse_int v)

unfoldable pub apply_vm : Text → Text → VmConfig → VmConfig
apply_vm key v c =
    if key =? codes "kernel_path"
    then record c { kernel_path = v }
    else if key =? codes "kernel_args"
    then record c { kernel_args = v }
    else if key =? codes "default_vcpu_count"
    then record c { default_vcpu_count = int_or c.default_vcpu_count v }
    else if key =? codes "default_memory_mb"
    then record c { default_memory_mb = int_or c.default_memory_mb v }
    else if key =? codes "min_memory_mb"
    then record c { min_memory_mb = int_or c.min_memory_mb v }
    else if key =? codes "max_memory_mb"
    then record c { max_memory_mb = int_or c.max_memory_mb v }
    else if key =? codes "enable_smt"
    then record c { enable_smt = is_true v }
    else if key =? codes "base_rootfs_path"
    then record c { base_rootfs_path = v }
    else if key =? codes "vsock_enabled"
    then record c { vsock_enabled = is_true v }
    else c

unfoldable pub apply_network : Text → Text → NetworkConfig → NetworkConfig
apply_network key v c =
    if key =? codes "network_mode"
    then record c { network_mode = v }
    else if key =? codes "cni_plugin_dir"
    then record c { cni_plugin_dir = v }
    else if key =? codes "cni_conf_dir"
    then record c { cni_conf_dir = v }
    else if key =? codes "cni_cache_dir"
    then record c { cni_cache_dir = v }
    else if key =? codes "default_network_name"
    then record c { default_network_name = v }
    else if key =? codes "default_subnet"
    then record c { default_subnet = v }
    else c

unfoldable pub apply_image : Text → Text → ImageConfig → ImageConfig
apply_image key v c =
    if key =? codes "root_dir"
    then record c { root_dir = v }
    else if key =? codes "default_block_size_mb"
    then record c { default_block_size_mb = int_or c.default_block_size_mb v }
    else if key =? codes "use_sparse_files"
    then record c { use_sparse_files = is_true v }
    else if key =? codes "cache_enabled"
    then record c { cache_enabled = is_true v }
    else if key =? codes "cache_max_size_mb"
    then record c { cache_max_size_mb = int_or c.cache_max_size_mb v }
    else c

unfoldable pub apply_metrics : Text → Text → MetricsConfig → MetricsConfig
apply_metrics key v c =
    if key =? codes "enabled"
    then record c { enabled = is_true v }
    else if key =? codes "address"
    then record c { address = v }
    else if key =? codes "path"
    then record c { path = v }
    else c

unfoldable pub apply_log : Text → Text → LogConfig → LogConfig
apply_log key v c =
    if key =? codes "level"
    then record c { level = v }
    else if key =? codes "format"
    then record c { format = v }
    else if key =? codes "file"
    then record c { file = v }
    else c

abbrev pub is_bracket : ℕ → Bool
is_bracket c = c == b'[' || c == b']'

abbrev pub is_quote : ℕ → Bool
is_quote c = c == b'"' || c == b'\''

-- A line without the blanks around it: `continue`, a section, or a key with its value.
pub data Line : Type 0 where
  skipped : Line
  header : Text → Line
  entry : Text → Text → Line

abbrev pub key_value : Option (Text × Text) → Line
key_value none = skipped
key_value (some (k, v)) = entry (trim_space k) (trim is_quote (trim_space v))

unfoldable pub read_line : Text → Line
read_line line =
    if is_nil line || begins_with b'#' line
    then skipped
    else if begins_with b'[' line && ends_with b']' line
    then header (trim is_bracket line)
    else key_value (cut b'=' line)

-- `scaled` is the parameter of `parse_duration`.
module _ (scaled : ℕ → ℕ → ℕ → ℕ) where
  abbrev pub duration_or : ℤ → Text → ℤ
  duration_or old v = keep_unless old (parse_duration scaled v)

  unfoldable pub apply_runtime : Text → Text → RuntimeConfig → RuntimeConfig
  apply_runtime key v c =
      if key =? codes "runtime_dir"
      then record c { runtime_dir = v }
      else if key =? codes "firecracker_binary"
      then record c { firecracker_binary = v }
      else if key =? codes "jailer_binary"
      then record c { jailer_binary = v }
      else if key =? codes "enable_jailer"
      then record c { enable_jailer = is_true v }
      else if key =? codes "shutdown_timeout"
      then record c { shutdown_timeout = duration_or c.shutdown_timeout v }
      else c

  unfoldable pub apply_pool : Text → Text → PoolConfig → PoolConfig
  apply_pool key v c =
      if key =? codes "enabled"
      then record c { enabled = is_true v }
      else if key =? codes "max_size"
      then record c { max_size = int_or c.max_size v }
      else if key =? codes "min_size"
      then record c { min_size = int_or c.min_size v }
      else if key =? codes "max_idle_time"
      then record c { max_idle_time = duration_or c.max_idle_time v }
      else if key =? codes "warm_concurrency"
      then record c { warm_concurrency = int_or c.warm_concurrency v }
      else if key =? codes "replenish_interval"
      then record c { replenish_interval = duration_or c.replenish_interval v }
      else if key =? codes "prewarm_on_start"
      then record c { prewarm_on_start = is_true v }
      else c

  unfoldable pub apply_agent : Text → Text → AgentConfig → AgentConfig
  apply_agent key v c =
      if key =? codes "vsock_port"
      then record c { vsock_port = keep_unless c.vsock_port (parse_uint32 v) }
      else if key =? codes "connect_timeout"
      then record c { connect_timeout = duration_or c.connect_timeout v }
      else if key =? codes "dial_retries"
      then record c { dial_retries = int_or c.dial_retries v }
      else if key =? codes "dial_retry_interval"
      then record c { dial_retry_interval = duration_or c.dial_retry_interval v }
      else if key =? codes "command_timeout"
      then record c { command_timeout = duration_or c.command_timeout v }
      else c

  unfoldable pub apply_config_value : Text → Text → Text → Config → Config
  apply_config_value section key v c =
      if section =? codes "runtime"
      then record c { runtime = apply_runtime key v c.runtime }
      else if section =? codes "vm"
      then record c { vm = apply_vm key v c.vm }
      else if section =? codes "pool"
      then record c { pool = apply_pool key v c.pool }
      else if section =? codes "network"
      then record c { network = apply_network key v c.network }
      else if section =? codes "image"
      then record c { image = apply_image key v c.image }
      else if section =? codes "agent"
      then record c { agent = apply_agent key v c.agent }
      else if section =? codes "metrics"
      then record c { metrics = apply_metrics key v c.metrics }
      else if section =? codes "log"
      then record c { log = apply_log key v c.log }
      else c

  -- One round of the loop, before the rounds of `next`.
  abbrev pub with_line : (Text → Config → Config) → Line → Text → Config → Config
  with_line next skipped section c = next section c
  with_line next (header name) section c = next name c
  with_line next (entry key v) section c = next section (apply_config_value section key v c)

  unfoldable pub parse_lines : List Text → Text → Config → Config
  unfolding read_line
  parse_lines [] section c = c
  parse_lines (l ∷ ls) section c = with_line (parse_lines ls) (read_line (trim_space l)) section c

  unfoldable pub parse_toml : Text → Config → Config
  unfolding parse_lines
  parse_toml data_ c = parse_lines (split b'\n' data_) [] c
