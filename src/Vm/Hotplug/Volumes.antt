-- ===== src/Vm/Hotplug/Volumes.antt =====
-- `PrepareVolumes` of pkg/vm/hotplug.go. The files that it makes are recorded, newest first.
use firecracker_shim.Base.{
  ℕ, suc, Bool, true, false, ◌||◌, Option, none, some, List, [], ◌∷◌, ◌++◌, if◌then◌else◌, ◌=?◌,
  ◌==◌,
}
use firecracker_shim.Base.Int.{ℤ, pos, negsuc}
use firecracker_shim.Base.Text.{Text, codes, text_eq}
use firecracker_shim.Domain.{SandboxId}
use firecracker_shim.Metrics.Decimal.{itoa}
use firecracker_shim.Vm.Hotplug.{HostPath, path, volume_image, HotplugConfig}

pub record VolumeSpec : Type 0 where
  pub name : Text
  pub volume_type : Text
  pub source : Text
  pub mount_path : Text
  pub read_only : Bool
  pub size_bytes : ℤ

-- The type of a volume, by the cases of the `switch`.
pub data VolumeType : Type 0 where
  rootfs_volume data_volume empty_dir_volume content_volume unsupported : VolumeType

unfoldable pub volume_type_of : Text → VolumeType
volume_type_of t =
    if t =? codes "rootfs"
    then rootfs_volume
    else if t =? codes "data"
    then data_volume
    else if t =? codes "emptydir"
    then empty_dir_volume
    else if (t =? codes "secret") || (t =? codes "configmap")
    then content_volume
    else unsupported

pub data FileEffect : Type 0 where
  made_volume_dir : SandboxId → FileEffect
  sparse_file : HostPath → ℤ → FileEffect
  removed_volume_dir : SandboxId → FileEffect

pub data VolumeError : Type 0 where
  mkdir_failed create_failed truncate_failed remove_failed : VolumeError
  unsupported_type : Text → VolumeError

-- What the file system answers for one volume.
pub record VolumeEnv : Type 0 where
  pub mkdir_ok : Bool
  pub create_ok : Bool
  pub truncate_ok : Bool

pub data Prepared {ℓ} (A : Type ℓ) : Type ℓ where
  prepared : A → Prepared A
  unprepared : VolumeError → Prepared A

abbrev image_size : ℤ → ℤ
image_size (pos n) = if n == 0 then pos 104857600 else pos n
image_size (negsuc n) = negsuc n

unfoldable pub create_empty_dir_image :
    VolumeEnv → SandboxId → Text → ℤ → List FileEffect → List FileEffect × Prepared HostPath
create_empty_dir_image env id name size fx =
    let fx1 = made_volume_dir id ∷ fx in
    if env.mkdir_ok
    then (if env.create_ok
        then (if env.truncate_ok
            then (
              sparse_file (volume_image id name) (image_size size) ∷ fx1,
              prepared (volume_image id name),
            )
            else (sparse_file (volume_image id name) (pos 0) ∷ fx1, unprepared truncate_failed))
        else (fx1, unprepared create_failed))
    else (fx, unprepared mkdir_failed)

-- It makes the directory, but no image.
unfoldable pub create_config_image :
    VolumeEnv → SandboxId → Text → List FileEffect → List FileEffect × Prepared HostPath
create_config_image env id name fx =
    if env.mkdir_ok
    then (made_volume_dir id ∷ fx, prepared (volume_image id name))
    else (fx, unprepared mkdir_failed)

-- `fmt.Sprintf("vol%d-%s", index, name)`.
abbrev pub printed : Option Text → Text
printed none = []
printed (some ds) = ds

unfoldable pub volume_drive_id : ℕ → Text → Text
volume_drive_id index name = codes "vol" ++ (printed (itoa (pos index)) ++ b'-' ∷ name)

unfoldable pub base_config : ℕ → VolumeSpec → HotplugConfig
unfolding volume_drive_id
base_config index vol = record {
  drive_id = volume_drive_id index vol.name;
  path_on_host = path [];
  is_read_only = vol.read_only;
  is_root_device = false;
  rate_limiter = none;
  cache_type = [];
  mount_point = vol.mount_path;
}

abbrev pub with_image :
    (HostPath → HotplugConfig)
    → List FileEffect × Prepared HostPath
    → List FileEffect × Prepared HotplugConfig
with_image f (fx, prepared p) = (fx, prepared (f p))
with_image f (fx, unprepared e) = (fx, unprepared e)

unfoldable pub prepare_typed :
    VolumeEnv
    → SandboxId
    → VolumeSpec
    → ℕ
    → VolumeType
    → List FileEffect
    → List FileEffect × Prepared HotplugConfig
unfolding base_config create_empty_dir_image create_config_image
prepare_typed env id vol index rootfs_volume fx = (
  fx,
  prepared (record (base_config index vol) {
    drive_id = codes "rootfs";
    path_on_host = path vol.source;
    is_root_device = true;
    cache_type = codes "Unsafe";
  }),
)
prepare_typed env id vol index data_volume fx = (
  fx,
  prepared (record (base_config index vol) {
    path_on_host = path vol.source;
    cache_type = codes "Writeback";
  }),
)
prepare_typed env id vol index empty_dir_volume fx =
    with_image
      (λ p. record (base_config index vol) { path_on_host = p; cache_type = codes "Unsafe" })
      (create_empty_dir_image env id vol.name vol.size_bytes fx)
prepare_typed env id vol index content_volume fx =
    with_image (λ p. record (base_config index vol) { path_on_host = p; is_read_only = true })
      (create_config_image env id vol.name fx)
prepare_typed env id vol index unsupported fx = (fx, unprepared (unsupported_type vol.volume_type))

unfoldable pub prepare_volume :
    VolumeEnv
    → SandboxId
    → VolumeSpec
    → ℕ
    → List FileEffect
    → List FileEffect × Prepared HotplugConfig
unfolding prepare_typed volume_type_of
prepare_volume env id vol index fx =
    prepare_typed env id vol index (volume_type_of vol.volume_type) fx

-- One round of the loop of `PrepareVolumes`, before the rounds of `next`; it ends at the first error.
abbrev pub put_first :
    HotplugConfig
    → List FileEffect × Prepared (List HotplugConfig)
    → List FileEffect × Prepared (List HotplugConfig)
put_first c (fx, prepared cs) = (fx, prepared (c ∷ cs))
put_first c (fx, unprepared e) = (fx, unprepared e)

abbrev pub go_on :
    (List FileEffect → List FileEffect × Prepared (List HotplugConfig))
    → List FileEffect × Prepared HotplugConfig
    → List FileEffect × Prepared (List HotplugConfig)
go_on next (fx, prepared c) = put_first c (next fx)
go_on next (fx, unprepared e) = (fx, unprepared e)

unfoldable pub prepare_from :
    (ℕ → VolumeEnv)
    → SandboxId
    → ℕ
    → List VolumeSpec
    → List FileEffect
    → List FileEffect × Prepared (List HotplugConfig)
unfolding prepare_volume
prepare_from env id i [] fx = (fx, prepared [])
prepare_from env id i (vol ∷ vols) fx =
    go_on (prepare_from env id (suc i) vols) (prepare_volume (env i) id vol i fx)

unfoldable pub prepare_volumes :
    (ℕ → VolumeEnv)
    → SandboxId
    → List VolumeSpec
    → List FileEffect
    → List FileEffect × Prepared (List HotplugConfig)
unfolding prepare_from
prepare_volumes env id vols fx = prepare_from env id 0 vols fx

-- The flag says whether `RemoveAll` succeeds; `none` is a nil error.
unfoldable pub cleanup_volumes :
    Bool → SandboxId → List FileEffect → List FileEffect × Option VolumeError
cleanup_volumes removed id fx =
    if removed then (removed_volume_dir id ∷ fx, none) else (fx, some remove_failed)
