-- ===== src/Image/Rootfs.antt =====
-- The image service of pkg/image/rootfs.go, which pulls images with `ctr` and writes ext4 images.
pub mod Broken
use firecracker_shim.Base.{
  ℕ, Bool, true, false, ◌||◌, ◌==◌, Option, none, some, List, [], ◌∷◌, ◌++◌, map, if◌then◌else◌,
  insert, delete, lookup,
}
use firecracker_shim.Base.Int.{ℤ, pos, ◌+ℤ◌, ltb_ℤ}
use firecracker_shim.Base.Text.{Text, codes, text_eq}
use firecracker_shim.Image.Tools.{
  join, text, counted, w, Word, Command, Effects, ran, made_dir, removed, removed_tree, ToolEnv,
  ImageError, Result, good, bad, run_or, then_, finally, run_anyway, succeed, pull_failed,
  export_failed, size_failed, dir_failed, dd_failed, mkfs_failed, remove_failed,
}
use firecracker_shim.Image.Filesystem.{megabytes, bytes, create_sparse, dd, mkfs, fill_image}

-- `ServiceConfig`.
pub record ServiceConfig : Type 0 where
  pub root_dir : Text
  pub containerd_socket : Text
  pub default_block_size_mb : ℤ
  pub use_sparse_files : Bool

-- `DefaultServiceConfig`.
abbrev pub default_service_config : ServiceConfig
default_service_config = record {
  root_dir = codes "/var/lib/fc-cri/images";
  containerd_socket = codes "/run/containerd/containerd.sock";
  default_block_size_mb = pos 1024;
  use_sparse_files = true;
}

-- `cachedImage`. The code never sets a digest.
pub record CachedImage : Type 0 where
  pub ref : Text
  pub digest : Text
  pub rootfs_path : Text

-- `domain.ImageInfo`, as far as `List` fills it.
pub record ImageInfo : Type 0 where
  pub ref : Text
  pub digest : Text
  pub size : ℤ

pub record ImageService : Type 0 where
  pub config : ServiceConfig
  pub cache : List (Text × CachedImage)

abbrev service_dirs : Text → List Text
service_dirs root =
    root ∷ join root (codes "layers") ∷ join root (codes "rootfs") ∷ join root (codes "tmp") ∷ []

abbrev make_each : ToolEnv → List Text → Effects → Effects × Result (Unit {0})
make_each env [] fx = succeed fx
make_each env (d ∷ ds) fx =
    let rest = make_each env ds (made_dir d ∷ fx) in
    if env.mkdir_ok d then rest else (fx, bad dir_failed)

-- `NewService`.
unfoldable pub new_image_service : ServiceConfig → ToolEnv → Effects → Effects × Result ImageService
new_image_service c env fx =
    then_ (make_each env (service_dirs c.root_dir) fx)
      (λ g. (g, good (record { config = c; cache = [] })))

-- A call of `ctr` at the service's socket.
abbrev pub ctr : ServiceConfig → Command → Command
ctr c words = w "ctr" ∷ w "--address" ∷ text c.containerd_socket ∷ words

-- `pullWithContainerd`.
abbrev pub pull_command : ServiceConfig → Text → Command
pull_command c r = ctr c (w "images" ∷ w "pull" ∷ text r ∷ [])

abbrev safe_name : Text → Text
safe_name r = map (λ ch. if ch == b'/' || ch == b':' then b'_' else ch) r

abbrev pub rootfs_file : ServiceConfig → Text → Text
rootfs_file c r = join (join c.root_dir (codes "rootfs")) (safe_name r ++ codes ".ext4")

abbrev container_id : ToolEnv → Word
container_id env = counted (codes "fc-export-") (pos env.pid)

-- `exportImage`. Whether the snapshot is mounted, and the container deleted, is not looked at.
unfoldable pub export_image :
    ServiceConfig → ToolEnv → Text → Text → Effects → Effects × Result (Unit {0})
export_image c env r dir fx =
    let create = ctr c (w "containers" ∷ w "create" ∷ text r ∷ container_id env ∷ []) in
    let mounts = ctr c (
      w "snapshots"
      ∷ w "--snapshotter"
      ∷ w "overlayfs"
      ∷ w "mounts"
      ∷ text dir
      ∷ container_id env
      ∷ []) in
    let remove = ctr c (w "containers" ∷ w "delete" ∷ container_id env ∷ []) in
    if env.mkdir_ok dir
    then run_or env create export_failed (made_dir dir ∷ fx)
        (λ g. succeed (run_anyway remove (run_anyway mounts g)))
    else (fx, bad dir_failed)

-- The size of the image, in MB: `calculateSize` and the headroom that `convertToBlockDevice` adds.
abbrev rootfs_size : ToolEnv → ℤ → ℤ
rootfs_size env size =
    let n = env.with_headroom (megabytes size +ℤ pos 1) in if ltb_ℤ n (pos 64) then pos 64 else n

-- `createExt4Image`.
unfoldable pub create_ext4_image :
    ServiceConfig → ToolEnv → Text → ℤ → Text → Effects → Effects × Result (Unit {0})
unfolding fill_image
create_ext4_image c env path size_mb content fx =
    then_
      (if c.use_sparse_files
        then create_sparse env path (bytes size_mb) fx
        else run_or env (dd path size_mb) dd_failed fx succeed)
      (λ g. run_or env (mkfs (codes "ext4") path) mkfs_failed g (fill_image env path content false))

abbrev with_size :
    ServiceConfig → ToolEnv → Text → Text → Option ℤ → Effects → Effects × Result (Unit {0})
unfolding create_ext4_image
with_size c env path dir none fx = (fx, bad size_failed)
with_size c env path dir (some size) fx = create_ext4_image c env path (rootfs_size env size) dir fx

-- `convertToBlockDevice`.
unfoldable pub convert_to_block_device :
    ServiceConfig → ToolEnv → Text → Effects → Effects × Result Text
unfolding export_image create_ext4_image
convert_to_block_device c env r fx =
    let path = rootfs_file c r in
    let tmp = join (join c.root_dir (codes "tmp")) (safe_name r) in
    let dir = join tmp (codes "rootfs") in
    if env.exists path
    then (fx, good path)
    else if env.mkdir_ok tmp
    then finally (λ g. removed_tree tmp ∷ g)
        (then_ (export_image c env r dir (made_dir tmp ∷ fx))
          (λ g. then_ (with_size c env path dir env.walked_size g) (λ h. (h, good path))))
    else (fx, bad dir_failed)

unfoldable pub cache_result :
    ImageService → Text → Effects × Result Text → ImageService × (Effects × Result Text)
unfolding insert
cache_result s r (fx, good path) = (
  record s { cache = insert r (record { ref = r; digest = []; rootfs_path = path }) s.cache },
  (fx, good path),
)
cache_result s r (fx, bad e) = (s, (fx, bad e))

unfoldable pub pull_missing :
    ImageService
    → ToolEnv
    → Text
    → Option CachedImage
    → Effects
    → ImageService × (Effects × Result Text)
unfolding convert_to_block_device
pull_missing s env r (some i) fx = (s, (fx, good i.rootfs_path))
pull_missing s env r none fx =
    cache_result s r
      (run_or env (pull_command s.config r) pull_failed fx (convert_to_block_device s.config env r))

-- `Pull`. `GetRootfs` looks the image up in the cache, and otherwise calls `Pull`, which looks again.
unfoldable pub pull :
    ImageService → ToolEnv → Text → Effects → ImageService × (Effects × Result Text)
unfolding lookup
pull s env r fx = pull_missing s env r (lookup r s.cache) fx

abbrev get_missing :
    ImageService
    → ToolEnv
    → Text
    → Option CachedImage
    → Effects
    → ImageService × (Effects × Result Text)
unfolding pull
get_missing s env r (some i) fx = (s, (fx, good i.rootfs_path))
get_missing s env r none fx = pull s env r fx

-- `GetRootfs`.
unfoldable pub get_rootfs :
    ImageService → ToolEnv → Text → Effects → ImageService × (Effects × Result Text)
unfolding lookup pull
get_rootfs s env r fx = get_missing s env r (lookup r s.cache) fx

abbrev remove_found :
    ImageService
    → (Text → Bool)
    → (Text → Bool)
    → Text
    → Option CachedImage
    → Effects
    → ImageService × (Effects × Result (Unit {0}))
unfolding delete
remove_found s removes gone r none fx = (s, succeed fx)
remove_found s removes gone r (some i) fx =
    let fewer = record s { cache = delete r s.cache } in
    if removes i.rootfs_path
    then (fewer, succeed (removed i.rootfs_path ∷ fx))
    else if gone i.rootfs_path
    then (fewer, succeed fx)
    else (s, (fx, bad remove_failed))

-- `Remove`, where a file is removed, or gone already, or stays with an error.
unfoldable pub remove_image :
    ImageService
    → (Text → Bool)
    → (Text → Bool)
    → Text
    → Effects
    → ImageService × (Effects × Result (Unit {0}))
unfolding lookup delete
remove_image s removes gone r fx = remove_found s removes gone r (lookup r s.cache) fx

abbrev info_if : CachedImage → Option ℤ → List ImageInfo → List ImageInfo
info_if i none rest = rest
info_if i (some n) rest = record { ref = i.ref; digest = i.digest; size = n } ∷ rest

-- `List`, whose order is that of a map: an entry whose file is gone is left out.
abbrev pub list_service_images : ToolEnv → List (Text × CachedImage) → List ImageInfo
list_service_images env [] = []
list_service_images env ((r, i) ∷ m) =
    info_if i (env.size_of i.rootfs_path) (list_service_images env m)
