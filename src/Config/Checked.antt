-- ===== src/Config/Checked.antt =====
-- What `Validate` of pkg/config/config.go lets pass.
use firecracker_shim.Base.{◌≡◌, ◌↔◌, ◌⊎◌, true, false, none, arith}
use firecracker_shim.Base.Int.{◌≤ℤ◌}
use firecracker_shim.Base.Text.{text_eq}
use firecracker_shim.Config.Loading.{FileSystem, valid_mode, valid_level, validate}
use firecracker_shim.Config.Settings.{Config}

-- What a valid configuration satisfies.
pub record Valid (fs : FileSystem) (c : Config) : Type 0 where
  pub runtime_dir : fs.mkdir_ok c.runtime.runtime_dir ≡ true
  pub root_dir : fs.mkdir_ok c.image.root_dir ≡ true
  pub binary : fs.stat_ok c.runtime.firecracker_binary ≡ true
  pub kernel : fs.stat_ok c.vm.kernel_path ≡ true
  pub low : c.vm.min_memory_mb ≤ℤ c.vm.default_memory_mb
  pub high : c.vm.default_memory_mb ≤ℤ c.vm.max_memory_mb
  pub sizes : (c.pool.enabled ≡ false) ⊎ (c.pool.min_size ≤ℤ c.pool.max_size)
  pub mode : valid_mode c.network.network_mode ≡ true
  pub level : valid_level c.log.level ≡ true

-- `Validate` accepts exactly the configurations whose directories can be made, whose binary and
-- kernel exist, whose default memory lies between the limits, whose pool, if enabled, has a minimum
-- within its size, and whose network mode and log level are known.
pub validate_iff : (fs : FileSystem) (c : Config) → (validate fs c ≡ none) ↔ Valid fs c
unfolding validate
validate_iff fs c = (
  λ h. record {
    runtime_dir = ground arith;
    root_dir = ground arith;
    binary = ground arith;
    kernel = ground arith;
    low = ground arith;
    high = ground arith;
    sizes = ground arith;
    mode = ground arith;
    level = ground arith;
  },
  λ v. ground (
    arith, v.runtime_dir, v.root_dir, v.binary, v.kernel, v.low, v.high, v.sizes, v.mode, v.level,
  ),
)
