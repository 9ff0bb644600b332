-- ===== src/Examples/Jailer.antt =====
-- Jails of pkg/vm/jailer.go.
use firecracker_shim.Base.{◌≡◌, refl, true, false, ◌==◌, not, some, none, [], lookup}
use firecracker_shim.Domain.{fc, id_eq, VmConfig, zero_vm_config}
use firecracker_shim.Vm.Jailer.{JailerConfig, JailEnv, default_jailer_config, file_code}
use firecracker_shim.Vm.Jailer.Lifecycle.{
  JailerManager, jailed_vm, create_jailed_vm, destroy_jailed_vm, build_jailed_config,
}
use firecracker_shim.Vm.Jailer.Mounts.{NoMount, pending}
use firecracker_shim.Vm.Jailer.Lifecycle.Undo.{
  Settled, Cleaned, create_jailed_vm-Settled, create-destroy_jailed_vm,
}

abbrev jails : JailerConfig
unfolding default_jailer_config
jails = record default_jailer_config { enabled = true }

abbrev empty_manager : JailerManager
unfolding default_jailer_config
empty_manager = record {
  config = jails;
  heap = λ a. jailed_vm jails (fc 0) none;
  next_addr = 3;
  jailed_vms = [];
  effects = [];
}

-- All calls succeed; the devices are there.
abbrev quiet_host : JailEnv
quiet_host = record {
  mkdir_ok = λ p. true;
  create_ok = λ p. true;
  mknod_ok = λ f. true;
  stat = λ s. some false;
  mount_ok = λ s f. true;
}

-- The root file system cannot be mounted.
abbrev full_host : JailEnv
full_host = record quiet_host { mount_ok = λ s f. not (file_code f == 5) }

abbrev workload : VmConfig
workload = record zero_vm_config {
  kernel_path = "/boot/vmlinux";
  root_drive = record zero_vm_config.root_drive { path_on_host = "/srv/root.ext4" };
}

create_jailed_vm-Settled_example :
    Settled (fc 1) empty_manager (create_jailed_vm full_host (fc 1) workload empty_manager)
unfolding default_jailer_config pending
create_jailed_vm-Settled_example =
    create_jailed_vm-Settled full_host (fc 1) workload empty_manager (λ f. refl)

create-destroy_jailed_vm_example :
    let after =
      destroy_jailed_vm (fc 1) (create_jailed_vm quiet_host (fc 1) workload empty_manager).0 in
    (lookup (fc 2) after.jailed_vms ≡ lookup (fc 2) empty_manager.jailed_vms)
    × NoMount (fc 1) after.effects
    × Cleaned (fc 1) after.effects
unfolding default_jailer_config pending create_jailed_vm lookup
create-destroy_jailed_vm_example =
    create-destroy_jailed_vm quiet_host (fc 1) workload empty_manager 3
      (build_jailed_config (jailed_vm jails (fc 1) none) workload) (fc 2) (λ f. refl) refl refl
