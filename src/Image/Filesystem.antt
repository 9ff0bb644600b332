-- ===== src/Image/Filesystem.antt =====
-- File systems in files: `createFilesystemImage`, `createSquashfs` and `calculateSize` of
-- pkg/image/fsify.go, and the steps they share with pkg/image/rootfs.go.
use firecracker_shim.Base.{◌/◌, ◌*◌, Bool, true, false, not, [], ◌∷◌, ◌++◌, if◌then◌else◌, ◌=?◌}
use firecracker_shim.Base.Int.{ℤ, pos, sub_ℕ, neg_part, pos_part, ◌+ℤ◌, wrap64}
use firecracker_shim.Base.Text.{Text, codes, text_eq}
use firecracker_shim.Image.Tools.{
  join, text, counted, w, Command, Effects, ran, made_dir, created, removed_tree, truncated,
  mounted, unmounted, ToolEnv, Result, bad, run_or, then_, finally, succeed, create_failed,
  truncate_failed, dd_failed, mkfs_failed, mount_dir_failed, mount_failed, copy_failed, tool_failed,
}

-- `size / 1024 / 1024`, which rounds to 0.
abbrev pub megabytes : ℤ → ℤ
megabytes a = sub_ℕ (pos_part a / 1048576) (neg_part a / 1048576)

-- `sizeMB * 1024 * 1024`.
abbrev pub bytes : ℤ → ℤ
bytes a = wrap64 (sub_ℕ (pos_part a * 1048576) (neg_part a * 1048576))

-- `calculateSize` of pkg/image/fsify.go: what `du` counts, or else the sum of the sizes.
unfoldable pub disk_size : ToolEnv → Text → Effects → Effects × ℤ
disk_size env dir fx =
    let du = w "du" ∷ w "-sm" ∷ text dir ∷ [] in
    (ran du ∷ fx, if env.runs du then env.disk_usage else megabytes env.readable_size +ℤ pos 1)

abbrev pub create_sparse : ToolEnv → Text → ℤ → Effects → Effects × Result (Unit {0})
create_sparse env path size fx =
    if env.create_ok path
    then (if env.truncate_ok path
        then succeed (truncated path size ∷ created path ∷ fx)
        else (created path ∷ fx, bad truncate_failed))
    else (fx, bad create_failed)

abbrev pub dd : Text → ℤ → Command
dd path size_mb =
    w "dd"
    ∷ w "if=/dev/zero"
    ∷ text (codes "of=" ++ path)
    ∷ w "bs=1M"
    ∷ counted (codes "count=") size_mb
    ∷ []

-- A file of a given size.
abbrev pub allocate : ToolEnv → Bool → Text → ℤ → Effects → Effects × Result (Unit {0})
allocate env true path size_mb fx =
    let fallocate = w "fallocate" ∷ w "-l" ∷ counted [] (bytes size_mb) ∷ text path ∷ [] in
    if env.runs fallocate
    then succeed (ran fallocate ∷ fx)
    else run_or env (dd path size_mb) dd_failed (ran fallocate ∷ fx) succeed
allocate env false path size_mb fx = create_sparse env path (bytes size_mb) fx

abbrev pub ext4_options : Command
ext4_options = w "-F" ∷ w "-L" ∷ w "rootfs" ∷ w "-O" ∷ w "^metadata_csum,^64bit" ∷ w "-q" ∷ []

abbrev pub mkfs_options : Text → Command
mkfs_options fs =
    if fs =? codes "ext4"
    then ext4_options
    else if fs =? codes "xfs"
    then w "-L" ∷ w "rootfs" ∷ w "-f" ∷ []
    else if fs =? codes "btrfs"
    then w "-L" ∷ w "rootfs" ∷ w "-f" ∷ []
    else w "-F" ∷ w "-L" ∷ w "rootfs" ∷ []

abbrev pub mkfs : Text → Text → Command
mkfs fs path = text (codes "mkfs." ++ fs) ∷ mkfs_options fs ++ text path ∷ []

abbrev pub copy_tree : Text → Text → Command
copy_tree source dir = w "cp" ∷ w "-a" ∷ text (source ++ codes "/.") ∷ text dir ∷ []

abbrev pub synced : Bool → Effects → Effects
synced true fx = ran (w "sync" ∷ []) ∷ fx
synced false fx = fx

abbrev pub copy_into : ToolEnv → Text → Text → Bool → Effects → Effects × Result (Unit {0})
copy_into env source dir sync fx =
    run_or env (copy_tree source dir) copy_failed fx (λ g. succeed (synced sync g))

-- The image is mounted on a directory beside it, and the content copied there. The deferred calls
-- unmount it before the directory is removed, whatever `umount` answers.
unfoldable pub fill_image : ToolEnv → Text → Text → Bool → Effects → Effects × Result (Unit {0})
fill_image env path source sync fx =
    let dir = path ++ codes ".mount" in
    if not (env.mkdir_ok dir)
    then (fx, bad mount_dir_failed)
    else if not (env.mount_ok path dir)
    then (removed_tree dir ∷ made_dir dir ∷ fx, bad mount_failed)
    else finally (λ g. removed_tree dir ∷ unmounted dir ∷ g)
        (copy_into env source dir sync (mounted false path dir ∷ made_dir dir ∷ fx))

-- The root file system in what umoci unpacked: its directory `rootfs`, if there is one.
abbrev pub source_dir : ToolEnv → Text → Text
source_dir env dir =
    if env.absent (join dir (codes "rootfs")) then dir else join dir (codes "rootfs")

-- `createFilesystemImage`.
unfoldable pub create_filesystem_image :
    ToolEnv → Bool → Text → Text → ℤ → Text → Effects → Effects × Result (Unit {0})
unfolding fill_image
create_filesystem_image env preallocate fs path size_mb content fx =
    then_ (allocate env preallocate path size_mb fx) (λ g.
      run_or env (mkfs fs path) mkfs_failed g (fill_image env path (source_dir env content) true))

-- `createSquashfs`.
unfoldable pub create_squashfs : ToolEnv → Text → Text → Effects → Effects × Result (Unit {0})
create_squashfs env content path fx =
    run_or env
      (w "mksquashfs"
        ∷ text (source_dir env content)
        ∷ text path
        ∷ w "-comp"
        ∷ w "zstd"
        ∷ w "-Xcompression-level"
        ∷ w "19"
        ∷ w "-noappend"
        ∷ [])
      tool_failed fx succeed
