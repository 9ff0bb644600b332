-- ===== src/Image/Fsify.antt =====
-- The converter of pkg/image/fsify.go: what one conversion does, and the cache of converted images.
-- Image.Exclusion models how conversions at the same time share it.
use firecracker_shim.Base.{
  ℕ, Bool, true, false, Option, none, some, List, [], ◌∷◌, if◌then◌else◌, delete, lookup,
}
use firecracker_shim.Base.Int.{ℤ, pos}
use firecracker_shim.Base.Text.{Text, codes, text_eq, is_nil}
use firecracker_shim.Image.Names.{normalize_ref, output_name}
use firecracker_shim.Image.Tools.{
  join, OciConfig, Effects, made_dir, removed, ToolEnv, Result, good, bad, dir_failed,
}

-- `FsifyConfig`.
pub record FsifyConfig : Type 0 where
  pub output_dir : Text
  pub temp_dir : Text
  pub filesystem : Text
  pub size_buffer_mb : ℤ
  pub preallocate : Bool
  pub dual_output : Bool
  pub use_fsify_cli : Bool
  pub fsify_binary : Text
  pub skopeo_path : Text
  pub umoci_path : Text
  pub default_registry : Text
  pub insecure_registries : List Text

-- `DefaultFsifyConfig`.
abbrev pub default_fsify_config : FsifyConfig
default_fsify_config = record {
  output_dir = codes "/var/lib/fc-cri/images/rootfs";
  temp_dir = codes "/var/lib/fc-cri/images/tmp";
  filesystem = codes "ext4";
  size_buffer_mb = pos 50;
  preallocate = false;
  dual_output = false;
  use_fsify_cli = true;
  fsify_binary = codes "/usr/local/bin/fsify";
  skopeo_path = codes "/usr/bin/skopeo";
  umoci_path = codes "/usr/bin/umoci";
  default_registry = codes "docker.io";
  insecure_registries = [];
}

-- `ConvertedImage`. The code never sets a digest.
pub record ConvertedImage : Type 0 where
  pub reference : Text
  pub digest : Text
  pub rootfs_path : Text
  pub squashfs_path : Text
  pub size_bytes : ℤ
  pub fs_type : Text
  pub oci_config : Option OciConfig
  pub converted_at : ℕ

abbrev pub Cache : Type 0
Cache = List (Text × ConvertedImage)

-- `getOutputPath`.
abbrev pub output_path : FsifyConfig → Text → Text
output_path c r = join c.output_dir (output_name r)

-- What stays in the cache that `loadCache` reads: the entries whose file is there. `json` makes the
-- keys differ.
unfoldable pub load_cache : ToolEnv → Option Cache → Cache
load_cache env none = []
load_cache env (some []) = []
load_cache env (some ((r, i) ∷ m)) =
    let rest = load_cache env (some m) in if env.exists i.rootfs_path then (r, i) ∷ rest else rest

-- `NewFsifyConverter`: the configuration as it is kept, and the cache, of which `stored` is on disk.
unfoldable pub new_fsify_converter :
    FsifyConfig → ToolEnv → Option Cache → Effects → Effects × Result (FsifyConfig × Cache)
unfolding load_cache
new_fsify_converter c env stored fx =
    let fallback =
      if c.use_fsify_cli
      then (if env.absent c.fsify_binary then record c { use_fsify_cli = false } else c)
      else c in
    if env.mkdir_ok c.output_dir
    then (if env.mkdir_ok c.temp_dir
        then (
          made_dir c.temp_dir ∷ made_dir c.output_dir ∷ fx,
          good (fallback, load_cache env stored),
        )
        else (made_dir c.output_dir ∷ fx, bad dir_failed))
    else (fx, bad dir_failed)

abbrev delete_cached : Text → Option ConvertedImage → Cache → Effects → Effects × Cache
delete_cached r none m fx = (fx, m)
delete_cached r (some i) m fx =
    let without = removed i.rootfs_path ∷ fx in
    (if is_nil i.squashfs_path then without else removed i.squashfs_path ∷ without, delete r m)

-- `Delete`: the files that are removed, and the cache that is kept and written to disk.
unfoldable pub delete_image : Text → Cache → Effects → Effects × Cache
unfolding lookup delete normalize_ref
delete_image r m fx = delete_cached (normalize_ref r) (lookup (normalize_ref r) m) m fx

-- `List`, whose order is that of a map.
abbrev pub list_images : Cache → List ConvertedImage
list_images [] = []
list_images ((r, i) ∷ m) = i ∷ list_images m
