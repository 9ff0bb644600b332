-- ===== src/Image/Conversion.antt =====
-- One conversion of pkg/image/fsify.go: `convertWithCLI`, `convertNative` and their steps.
use firecracker_shim.Base.{
  Bool, true, false, Option, none, some, List, [], ◌∷◌, ◌++◌, if◌then◌else◌,
}
use firecracker_shim.Base.Int.{ℤ, ◌+ℤ◌, wrap64}
use firecracker_shim.Base.Text.{Text, codes, after_prefix, text_eq, is_nil}
use firecracker_shim.Image.Names.{sanitize_name, output_name}
use firecracker_shim.Image.Tools.{
  join, trim_suffix, text, counted, w, Command, OciConfig, Effects, made_dir, removed_tree, ToolEnv,
  Result, good, bad, run_or, then_, finally, succeed, pull_failed, unpack_failed, dir_failed,
  tool_failed, no_output,
}
use firecracker_shim.Image.Filesystem.{disk_size, create_filesystem_image, create_squashfs}
use firecracker_shim.Image.Fsify.{FsifyConfig, ConvertedImage, output_path}
use firecracker_shim.Image.Oci.{extract_oci_config_from_dir, extract_oci_config, embed_oci_config}

abbrev pub is_some {ℓ} : {A : Type ℓ} → Option A → Bool
is_some none = false
is_some (some a) = true

-- `strings.Contains` of texts.
abbrev pub occurs : Text → Text → Bool
occurs p [] = is_nil p
occurs p (c ∷ s) = let rest = occurs p s in if is_some (after_prefix p (c ∷ s)) then true else rest

abbrev pub any_occurs : List Text → Text → Bool
any_occurs [] s = false
any_occurs (p ∷ ps) s = if occurs p s then true else any_occurs ps s

-- `pullImage`.
unfoldable pub pull_image :
    FsifyConfig → ToolEnv → Text → Text → Effects → Effects × Result (Unit {0})
unfolding after_prefix
pull_image c env r dir fx =
    let source = if occurs (codes "://") r then r else codes "docker://" ++ r in
    let copy = w "copy" ∷ text source ∷ text (codes "oci:" ++ dir ++ codes ":latest") ∷ [] in
    let args =
      if any_occurs c.insecure_registries r then w "--src-tls-verify=false" ∷ copy else copy in
    run_or env (text c.skopeo_path ∷ args) pull_failed fx succeed

-- `unpackImage`.
unfoldable pub unpack_image :
    FsifyConfig → ToolEnv → Text → Text → Effects → Effects × Result (Unit {0})
unpack_image c env oci_dir dir fx =
    run_or env
      (text c.umoci_path
        ∷ w "unpack"
        ∷ w "--image"
        ∷ text (oci_dir ++ codes ":latest")
        ∷ text dir
        ∷ [])
      unpack_failed fx succeed

abbrev pub squashfs_beside : Text → Text
squashfs_beside path = trim_suffix (codes ".img") path ++ codes ".squashfs"

abbrev pub converted : FsifyConfig → ToolEnv → Text → ℤ → Option OciConfig → Text → ConvertedImage
converted c env r size oci squashfs = record {
  reference = r;
  digest = [];
  rootfs_path = output_path c r;
  squashfs_path = squashfs;
  size_bytes = size;
  fs_type = c.filesystem;
  oci_config = oci;
  converted_at = env.now;
}

abbrev pub cli_command : FsifyConfig → Text → Command
cli_command c r =
    text c.fsify_binary
      ∷ w "-o"
      ∷ text (output_path c r)
      ∷ w "-fs"
      ∷ text c.filesystem
      ∷ w "-s"
      ∷ counted [] c.size_buffer_mb
      ∷ (if c.preallocate then w "--preallocate" ∷ [] else [])
    ++ (if c.dual_output then w "--dual-output" ∷ [] else [])
    ++ text r ∷ []

abbrev pub with_config :
    (Option OciConfig → ConvertedImage)
    → Effects × Option OciConfig
    → Effects × Result ConvertedImage
with_config f (fx, o) = (fx, good (f o))

abbrev pub cli_result :
    FsifyConfig → ToolEnv → Text → Option ℤ → Effects → Effects × Result ConvertedImage
cli_result c env r none fx = (fx, bad no_output)
cli_result c env r (some size) fx =
    let beside = squashfs_beside (output_path c r) in
    let squashfs = if c.dual_output then (if env.exists beside then beside else []) else [] in
    with_config (λ o. converted c env r size o squashfs)
      (extract_oci_config env (output_path c r) fx)

-- `convertWithCLI`.
unfoldable pub convert_with_cli :
    FsifyConfig → ToolEnv → Text → Effects → Effects × Result ConvertedImage
unfolding output_name trim_suffix extract_oci_config
convert_with_cli c env r fx =
    run_or env (cli_command c r) tool_failed fx (cli_result c env r (env.size_of (output_path c r)))

-- The last steps of `convertNative`: the squashfs image, whose failure is only logged.
abbrev pub squashfs_result :
    FsifyConfig
    → ToolEnv
    → Text
    → ℤ
    → Option OciConfig
    → Effects × Result (Unit {0})
    → Effects × Result ConvertedImage
squashfs_result c env r size oci (fx, good _) =
    (fx, good (converted c env r size oci (squashfs_beside (output_path c r))))
squashfs_result c env r size oci (fx, bad _) = (fx, good (converted c env r size oci []))

abbrev pub native_result :
    FsifyConfig
    → ToolEnv
    → Text
    → Text
    → Option OciConfig
    → Option ℤ
    → Effects
    → Effects × Result ConvertedImage
native_result c env r dir oci none fx = (fx, bad no_output)
native_result c env r dir oci (some size) fx =
    if c.dual_output
    then squashfs_result c env r size oci
        (create_squashfs env dir (squashfs_beside (output_path c r)) fx)
    else (fx, good (converted c env r size oci []))

abbrev pub sized :
    FsifyConfig
    → ToolEnv
    → Text
    → Text
    → Option OciConfig
    → Effects × ℤ
    → Effects × Result ConvertedImage
sized c env r dir oci (fx, n) =
    then_
      (create_filesystem_image env c.preallocate c.filesystem (output_path c r)
        (wrap64 (n +ℤ c.size_buffer_mb)) dir fx)
      (native_result c env r dir oci (env.size_of (output_path c r)))

abbrev pub unpacked :
    FsifyConfig → ToolEnv → Text → Text → Text → Effects → Effects × Result ConvertedImage
unpacked c env r oci_dir dir fx =
    let oci = extract_oci_config_from_dir env oci_dir in
    sized c env r dir oci (disk_size env dir (embed_oci_config env dir oci fx))

-- `convertNative` up to the deferred removal of its temporary directory.
unfoldable pub convert_in :
    FsifyConfig → ToolEnv → Text → Text → Effects → Effects × Result ConvertedImage
unfolding output_name trim_suffix pull_image unpack_image extract_oci_config_from_dir
    embed_oci_config disk_size create_filesystem_image create_squashfs
convert_in c env r temp fx =
    let oci_dir = join temp (codes "oci") in
    let dir = join temp (codes "rootfs") in
    if env.mkdir_ok temp
    then then_ (pull_image c env r oci_dir (made_dir temp ∷ fx))
        (λ g. then_ (unpack_image c env oci_dir dir g) (unpacked c env r oci_dir dir))
    else (fx, bad dir_failed)

-- `convertNative`. The temporary directory is removed however it ends.
unfoldable pub convert_native :
    FsifyConfig → ToolEnv → Text → Effects → Effects × Result ConvertedImage
unfolding sanitize_name convert_in
convert_native c env r fx =
    let temp = join c.temp_dir (sanitize_name r) in
    finally (λ g. removed_tree temp ∷ g) (convert_in c env r temp fx)

-- The choice in `Convert`.
unfoldable pub run_conversion :
    FsifyConfig → ToolEnv → Text → Effects → Effects × Result ConvertedImage
unfolding convert_with_cli convert_native
run_conversion c env r fx =
    if c.use_fsify_cli then convert_with_cli c env r fx else convert_native c env r fx
