-- ===== src/Image/Oci.antt =====
-- The configuration of an image, read from and written to files: `extractOCIConfigFromDir`,
-- `extractOCIConfig` and `embedOCIConfig` of pkg/image/fsify.go.
use firecracker_shim.Base.{not, true, Option, none, some, List, [], ◌∷◌, ◌++◌, if◌then◌else◌}
use firecracker_shim.Base.Text.{Text, codes, cut, text_eq}
use firecracker_shim.Image.Tools.{
  join, OciConfig, Effects, made_dir, removed_tree, mounted, unmounted, wrote_config, ToolEnv,
}

-- The answer that a file gives, looked up by its digest, `algorithm:hash`.
abbrev blob {ℓ} : {A : Type ℓ} → Text → (Text → Option A) → Option (Text × Text) → Option A
blob oci_dir read none = none
blob oci_dir read (some (algorithm, hash)) =
    read (join (join (join oci_dir (codes "blobs")) algorithm) hash)

abbrev manifest_config : ToolEnv → Text → Option Text → Option OciConfig
manifest_config env oci_dir none = none
manifest_config env oci_dir (some d) = blob oci_dir env.config_of (cut b':' d)

abbrev first_manifest : ToolEnv → Text → Option (List Text) → Option OciConfig
first_manifest env oci_dir none = none
first_manifest env oci_dir (some []) = none
first_manifest env oci_dir (some (d ∷ ds)) =
    manifest_config env oci_dir (blob oci_dir env.manifest_of (cut b':' d))

-- `extractOCIConfigFromDir`.
unfoldable pub extract_oci_config_from_dir : ToolEnv → Text → Option OciConfig
extract_oci_config_from_dir env oci_dir =
    first_manifest env oci_dir (env.index_of (join oci_dir (codes "index.json")))

-- `extractOCIConfig`: the image is mounted, read, and unmounted before its directory is removed.
unfoldable pub extract_oci_config : ToolEnv → Text → Effects → Effects × Option OciConfig
extract_oci_config env path fx =
    let dir = path ++ codes ".extract" in
    if not (env.mkdir_ok dir)
    then (fx, none)
    else if not (env.mount_ok path dir)
    then (removed_tree dir ∷ made_dir dir ∷ fx, none)
    else (
      removed_tree dir ∷ unmounted dir ∷ mounted true path dir ∷ made_dir dir ∷ fx,
      env.config_of (join (join dir (codes "etc")) (codes "fsify-entrypoint")),
    )

-- `embedOCIConfig`, whose error the caller ignores.
unfoldable pub embed_oci_config : ToolEnv → Text → Option OciConfig → Effects → Effects
embed_oci_config env dir none fx = fx
embed_oci_config env dir (some c) fx =
    let inner = join (join dir (codes "rootfs")) (codes "etc") in
    let target = if env.absent inner then join dir (codes "etc") else inner in
    let path = join target (codes "fsify-entrypoint") in
    if env.mkdir_ok target
    then (if env.write_ok path
        then wrote_config path c ∷ made_dir target ∷ fx
        else made_dir target ∷ fx)
    else fx
