-- ===== src/Vm/Jailer/Chroot.antt =====
-- The root directory of a jail, its devices and mounts, and their clean-up, in pkg/vm/jailer.go.
-- The answers of `Chown` and `Unmount` are not looked at.
use firecracker_shim.Base.{
  ℕ, ◌+◌, ◌*◌, Bool, true, false, Option, none, some, String, List, [], ◌∷◌, if◌then◌else◌,
}
use firecracker_shim.Domain.{SandboxId}
use firecracker_shim.Vm.Jailer.{
  JailFile, jail_root, dev, dev_net, run, kernel, rootfs, dev_null, dev_zero, dev_urandom, dev_kvm,
  dev_tun, socket, JailPath, jail_dir, in_jail, JailEffect, made_dir, chowned, removed, created,
  removed_tree, made_node, mounted, unmount_called, JailEnv, MountError, source_not_found,
  mkdir_failed, create_failed, mount_failed, JailError, chroot_failed,
}

abbrev pub Effects : Type 0
Effects = List JailEffect

-- `MkdirAll` of each, up to the first that fails; the flag says that all succeed.
unfoldable pub make_dirs : JailEnv → List JailPath → Effects → Effects × Bool
make_dirs env [] fx = (fx, true)
make_dirs env (d ∷ ds) fx =
    let rest = make_dirs env ds (made_dir d ∷ fx) in if env.mkdir_ok d then rest else (fx, false)

unfoldable pub chown_all : List JailPath → Effects → Effects
chown_all [] fx = fx
chown_all (d ∷ ds) fx = chown_all ds (chowned d ∷ fx)

abbrev pub jail_dirs : SandboxId → List JailPath
jail_dirs id = in_jail id jail_root ∷ in_jail id dev ∷ in_jail id dev_net ∷ in_jail id run ∷ []

abbrev pub chown_after : SandboxId → Effects × Bool → Effects × Option JailError
chown_after id (fx, true) = (chown_all (jail_dirs id) fx, none)
chown_after id (fx, false) = (fx, some chroot_failed)

unfoldable pub setup_chroot_dir : JailEnv → SandboxId → Effects → Effects × Option JailError
unfolding make_dirs chown_all
setup_chroot_dir env id fx = chown_after id (make_dirs env (jail_dirs id) fx)

-- `filepath.Dir` of a place in a jail.
abbrev pub dir_of : JailFile → JailFile
dir_of dev_null = dev
dir_of dev_zero = dev
dir_of dev_urandom = dev
dir_of dev_kvm = dev
dir_of dev_tun = dev_net
dir_of socket = run
dir_of dev_net = dev
dir_of _ = jail_root

unfoldable pub mount_over :
    JailEnv → String → SandboxId → JailFile → Effects → Effects × Option MountError
mount_over env src id f fx =
    if env.mount_ok src f then (mounted src id f ∷ fx, none) else (fx, some mount_failed)

unfoldable pub mount_kind :
    JailEnv → Option Bool → String → SandboxId → JailFile → Effects → Effects × Option MountError
unfolding mount_over
mount_kind env none src id f fx = (fx, some source_not_found)
mount_kind env (some true) src id f fx =
    if env.mkdir_ok (in_jail id f)
    then mount_over env src id f (made_dir (in_jail id f) ∷ fx)
    else (fx, some mkdir_failed)
mount_kind env (some false) src id f fx =
    let fx1 = made_dir (in_jail id (dir_of f)) ∷ fx in
    if env.mkdir_ok (in_jail id (dir_of f))
    then (if env.create_ok (in_jail id f)
        then mount_over env src id f (created (in_jail id f) ∷ fx1)
        else (fx1, some create_failed))
    else (fx, some mkdir_failed)

unfoldable pub bind_mount :
    JailEnv → String → SandboxId → JailFile → Effects → Effects × Option MountError
unfolding mount_kind
bind_mount env src id f fx = mount_kind env (env.stat src) src id f fx

-- A device: its place, its path on the host, `S_IFCHR` with its rights, and major and minor number.
pub record Device : Type 0 where
  pub place : JailFile
  pub source : String
  pub mode : ℕ
  pub major : ℕ
  pub minor : ℕ

abbrev device : JailFile → String → ℕ → ℕ → ℕ → Device
device f src rights major minor = record {
  place = f;
  source = src;
  mode = 8192 + rights;
  major = major;
  minor = minor;
}

-- 438 is 0666 and 432 is 0660.
abbrev pub devices : List Device
devices =
    device dev_null "/dev/null" 438 1 3
    ∷ device dev_zero "/dev/zero" 438 1 5
    ∷ device dev_urandom "/dev/urandom" 438 1 9
    ∷ device dev_kvm "/dev/kvm" 432 10 232
    ∷ device dev_tun "/dev/net/tun" 432 10 200
    ∷ []

-- One round of `setupDevices`: a failed bind mount is only logged.
unfoldable pub setup_device : JailEnv → SandboxId → Device → Effects → Effects
unfolding bind_mount
setup_device env id d fx =
    let fx1 = removed (in_jail id d.place) ∷ fx in
    let fx2 =
      if env.mknod_ok d.place
      then made_node id d.place d.mode (d.major * 256 + d.minor) ∷ fx1
      else (bind_mount env d.source id d.place fx1).0 in
    chowned (in_jail id d.place) ∷ fx2

unfoldable pub setup_each : JailEnv → SandboxId → List Device → Effects → Effects
unfolding setup_device
setup_each env id [] fx = fx
setup_each env id (d ∷ ds) fx = setup_each env id ds (setup_device env id d fx)

-- It never reports an error.
unfoldable pub setup_devices : JailEnv → SandboxId → Effects → Effects
unfolding setup_each
setup_devices env id fx = setup_each env id devices fx

abbrev pub mount_points : List JailFile
mount_points = kernel ∷ rootfs ∷ dev_kvm ∷ dev_tun ∷ dev_null ∷ dev_zero ∷ dev_urandom ∷ []

-- Whether an unmount fails is not looked at: the loop goes on, so only the call is recorded.
unfoldable pub unmount_all : SandboxId → List JailFile → Effects → Effects
unmount_all id [] fx = fx
unmount_all id (f ∷ fs) fx = unmount_all id fs (unmount_called id f ∷ fx)

-- The tree is removed whatever the unmounts answered. The callers do not use the answer of `RemoveAll`.
unfoldable pub cleanup_chroot : SandboxId → Effects → Effects
unfolding unmount_all
cleanup_chroot id fx = removed_tree (jail_dir id) ∷ unmount_all id mount_points fx
