-- ===== src/Vm/Jailer/Lifecycle.antt =====
-- The jailer manager of pkg/vm/jailer.go and the life of a jail. A `*JailedVM` is an address.
pub mod Undo
use firecracker_shim.Base.{
  ℕ, suc, Bool, true, false, not, Option, none, some, String, List, [], ◌∷◌, if◌then◌else◌, ◌=?◌,
  ◌==◌, string_eq, lookup, insert, delete,
}
use firecracker_shim.Base.Int.{ℤ, pos, ltb_ℤ}
use firecracker_shim.Domain.{SandboxId, id_eq, VmConfig}
use firecracker_shim.Vm.Jailer.{
  JailerConfig, JailFile, kernel, rootfs, socket, JailPath, host, in_jail, parent_cgroup,
  JailEffect, made_dir, removed_tree, ran, killed_jailer, JailEnv, MountError, JailError,
  not_enabled, jailer_not_found, firecracker_not_found, base_dir_failed, cgroup_failed,
  jailer_failed, kernel_failed, rootfs_failed,
}
use firecracker_shim.Vm.Jailer.Args.{get_jailer_args}
use firecracker_shim.Vm.Jailer.Cgroups.{setup_cgroup}
use firecracker_shim.Vm.Jailer.Chroot.{
  Effects, setup_chroot_dir, setup_devices, bind_mount, cleanup_chroot,
}

-- `ChrootDir` is the root of the jail of the ID.
pub record JailedVm : Type 0 where
  pub id : SandboxId
  pub socket_path : JailPath
  pub pid : ℤ
  pub cgroup_path : Option JailPath
  pub config : JailerConfig

pub record JailerManager : Type 0 where
  pub config : JailerConfig
  pub heap : ℕ → JailedVm
  pub next_addr : ℕ
  pub jailed_vms : List (SandboxId × ℕ)
  pub effects : Effects

pub data Made {ℓ} (A : Type ℓ) : Type ℓ where
  made : A → Made A
  failed : JailError → Made A

abbrev with_effects : JailerConfig → (ℕ → JailedVm) → Effects → Made JailerManager
with_effects c heap fx =
    made (record { config = c; heap = heap; next_addr = 0; jailed_vms = []; effects = fx })

-- The binaries that are there, and the answer of `MkdirAll`; a failed parent cgroup is only logged.
unfoldable pub new_jailer_manager :
    (String → Bool) → JailEnv → JailerConfig → (ℕ → JailedVm) → Made JailerManager
new_jailer_manager exists env c heap =
    let fx = made_dir (host c.chroot_base_dir) ∷ [] in
    let with_parent = if env.mkdir_ok parent_cgroup then made_dir parent_cgroup ∷ fx else fx in
    if not c.enabled
    then with_effects c heap []
    else if not (exists c.jailer_binary)
    then failed jailer_not_found
    else if not (exists c.firecracker_binary)
    then failed firecracker_not_found
    else if not (env.mkdir_ok (host c.chroot_base_dir))
    then failed base_dir_failed
    else with_effects c heap (if c.cgroup_version =? "2" then with_parent else fx)

-- `if err != nil { return err }`, with the clean-up of the chroot before the return.
abbrev pub or_clean :
    SandboxId
    → Effects × Option JailError
    → (Effects → Effects × Made (Option JailPath))
    → Effects × Made (Option JailPath)
or_clean id (fx, none) next = next fx
or_clean id (fx, some e) next = (cleanup_chroot id fx, failed e)

abbrev pub or_return :
    Effects × Option JailError
    → (Effects → Effects × Made (Option JailPath))
    → Effects × Made (Option JailPath)
or_return (fx, none) next = next fx
or_return (fx, some e) next = (fx, failed e)

abbrev pub as_error :
    (MountError → JailError) → Effects × Option MountError → Effects × Option JailError
as_error f (fx, none) = (fx, none)
as_error f (fx, some e) = (fx, some (f e))

unfoldable pub mount_rootfs : JailEnv → SandboxId → VmConfig → Effects → Effects × Option JailError
unfolding bind_mount
mount_rootfs env id vm fx =
    if vm.root_drive.path_on_host =? ""
    then (fx, none)
    else as_error rootfs_failed (bind_mount env vm.root_drive.path_on_host id rootfs fx)

abbrev pub cgroup_or_clean :
    SandboxId → Effects × Option JailPath → Effects × Made (Option JailPath)
cgroup_or_clean id (fx, none) = (cleanup_chroot id fx, failed cgroup_failed)
cgroup_or_clean id (fx, some p) = (fx, made (some p))

-- `CreateJailedVM` up to the cgroup, from the cgroup, the root file system, and the devices on.
abbrev pub Step : Type 0
Step = Effects → Effects × Made (Option JailPath)

unfoldable pub jail_cgroup : JailEnv → JailerConfig → SandboxId → Step
unfolding setup_cgroup cleanup_chroot
jail_cgroup env c id fx = cgroup_or_clean id (setup_cgroup env c id fx)

unfoldable pub jail_rootfs : JailEnv → JailerConfig → SandboxId → VmConfig → Step
unfolding mount_rootfs jail_cgroup
jail_rootfs env c id vm fx = or_clean id (mount_rootfs env id vm fx) (jail_cgroup env c id)

unfoldable pub jail_devices : JailEnv → JailerConfig → SandboxId → VmConfig → Step
unfolding setup_devices bind_mount jail_rootfs
jail_devices env c id vm fx =
    or_clean id
      (as_error kernel_failed (bind_mount env vm.kernel_path id kernel (setup_devices env id fx)))
      (jail_rootfs env c id vm)

unfoldable pub prepare_jail : JailEnv → JailerConfig → SandboxId → VmConfig → Step
unfolding setup_chroot_dir jail_devices
prepare_jail env c id vm fx = or_return (setup_chroot_dir env id fx) (jail_devices env c id vm)

-- The fields of `firecracker.Config` that `buildJailedConfig` fills; the paths are inside the jail.
pub record JailedConfig : Type 0 where
  pub socket_path : JailPath
  pub kernel_image_path : String
  pub kernel_args : String
  pub drives : List (String × String × Bool × Bool)
  pub vcpu_count : ℕ
  pub mem_size_mib : ℕ
  pub smt : Bool

unfoldable pub build_jailed_config : JailedVm → VmConfig → JailedConfig
build_jailed_config j vm = record {
  socket_path = j.socket_path;
  kernel_image_path = "/kernel";
  kernel_args = vm.kernel_args;
  drives = ("rootfs", "/rootfs.ext4", true, vm.root_drive.is_read_only) ∷ [];
  vcpu_count = vm.vcpu_count;
  mem_size_mib = vm.memory_mb;
  smt = vm.smt_enabled;
}

abbrev pub jailed_vm : JailerConfig → SandboxId → Option JailPath → JailedVm
jailed_vm c id cgroup = record {
  id = id;
  socket_path = in_jail id socket;
  pid = pos 0;
  cgroup_path = cgroup;
  config = c;
}

abbrev pub write_jail : ℕ → JailedVm → JailerManager → JailerManager
write_jail a j jm = record jm { heap = λ b. if a == b then j else jm.heap b }

-- The end of `CreateJailedVM`: the VM is tracked.
unfoldable pub track_jail :
    SandboxId
    → VmConfig
    → Effects × Made (Option JailPath)
    → JailerManager
    → JailerManager × Made (ℕ × JailedConfig)
unfolding build_jailed_config
track_jail id vm (fx, failed e) jm = (record jm { effects = fx }, failed e)
track_jail id vm (fx, made cgroup) jm =
    let j = jailed_vm jm.config id cgroup in
    let jm1 = write_jail jm.next_addr j jm in
    (
      record jm1 {
        next_addr = suc jm.next_addr;
        jailed_vms = insert id jm.next_addr jm.jailed_vms;
        effects = fx;
      },
      made (jm.next_addr, build_jailed_config j vm),
    )

unfoldable pub create_jailed_vm :
    JailEnv → SandboxId → VmConfig → JailerManager → JailerManager × Made (ℕ × JailedConfig)
unfolding prepare_jail track_jail
create_jailed_vm env id vm jm =
    if jm.config.enabled
    then track_jail id vm (prepare_jail env jm.config id vm jm.effects) jm
    else (jm, failed not_enabled)

-- A PID file that was read, with 0 where it holds no number, sets the PID.
abbrev pub read_pid : Option ℤ → ℕ → JailerManager → JailerManager
read_pid none a jm = jm
read_pid (some n) a jm = write_jail a (record (jm.heap a) { pid = n }) jm

unfoldable pub start_jailed_vm :
    Bool → Option ℤ → ℕ → JailerManager → JailerManager × Option JailError
unfolding get_jailer_args
start_jailed_vm ran_ok pid_file a jm =
    let jm1 = record jm {
      effects = ran jm.config.jailer_binary (get_jailer_args jm.config (jm.heap a).id) ∷ jm.effects;
    } in
    if ran_ok then (read_pid pid_file a jm1, none) else (jm1, some jailer_failed)

abbrev pub remove_cgroup : Option JailPath → Effects → Effects
remove_cgroup none fx = fx
remove_cgroup (some p) fx = removed_tree p ∷ fx

unfoldable pub destroy_found : SandboxId → Option ℕ → JailerManager → JailerManager
unfolding cleanup_chroot
destroy_found id none jm = jm
destroy_found id (some a) jm =
    let j = jm.heap a in
    let fx = if ltb_ℤ (pos 0) j.pid then killed_jailer j.pid ∷ jm.effects else jm.effects in
    record jm {
      jailed_vms = delete id jm.jailed_vms;
      effects = cleanup_chroot j.id (remove_cgroup j.cgroup_path fx);
    }

-- It always returns nil.
unfoldable pub destroy_jailed_vm : SandboxId → JailerManager → JailerManager
unfolding destroy_found
destroy_jailed_vm id jm = destroy_found id (lookup id jm.jailed_vms) jm
