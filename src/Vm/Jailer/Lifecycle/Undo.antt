-- ===== src/Vm/Jailer/Lifecycle/Undo.antt =====
-- What a failed `CreateJailedVM` and a `DestroyJailedVM` of pkg/vm/jailer.go leave behind.
use firecracker_shim.Base.{
  ℕ, ◌≡◌, refl, sym, ◌∙◌, ap, subst, ◌⊎◌, inl, inr, Bool, true, false, Option, none, some, List,
  ◌∷◌, if◌then◌else◌, if_then, if_else, ◌=?◌, =?-refl, string_eq, nat_eq, lookup, insert, delete,
  lookup-insert, lookup-delete, arith, Bool-cases, choose,
}
use firecracker_shim.Base.Int.{ℤ, pos, ltb_ℤ}
use firecracker_shim.Domain.{SandboxId, id_eq, VmConfig}
use firecracker_shim.Vm.Jailer.{
  JailerConfig, kernel, rootfs, JailPath, jail_dir, removed_tree, killed_jailer, JailEnv,
  MountError, JailError, not_enabled, chroot_failed, cgroup_failed, kernel_failed, rootfs_failed,
}
use firecracker_shim.Vm.Jailer.Cgroups.{setup_cgroup}
use firecracker_shim.Vm.Jailer.Chroot.{
  Effects, setup_chroot_dir, setup_devices, bind_mount, chown_after, make_dirs, jail_dirs,
  cleanup_chroot, unmount_all, mount_points,
}
use firecracker_shim.Vm.Jailer.Lifecycle.{
  JailedConfig, JailerManager, Made, made, failed, or_clean, or_return, as_error, mount_rootfs,
  cgroup_or_clean, build_jailed_config, jail_cgroup, jail_rootfs, jail_devices, prepare_jail,
  track_jail, jailed_vm, create_jailed_vm, remove_cgroup, destroy_found, destroy_jailed_vm,
}
use firecracker_shim.Vm.Jailer.Mounts.{
  pending, NoMount, Confined, pending-setup_chroot_dir, bind_mount-Confined, setup_devices-Confined,
  cleanup_chroot-NoMount, pending-setup_cgroup,
}

-- The last call removed the directory of the jail.
abbrev pub Cleaned : SandboxId → Effects → Type 0
Cleaned id fx = (rest : Effects) × (fx ≡ removed_tree (jail_dir id) ∷ rest)

-- How `CreateJailedVM` leaves the mounts, up to the cgroup.
abbrev Prepared : SandboxId → Effects × Made (Option JailPath) → Type 0
Prepared id (fx, made c) = Confined id fx
Prepared id (fx, failed e) = NoMount id fx × ((e ≡ chroot_failed) ⊎ Cleaned id fx)

module _ (id : SandboxId) where
  cleanup-Prepared :
      (fx : Effects) (e : JailError) → Confined id fx → Prepared id (cleanup_chroot id fx, failed e)
  unfolding cleanup_chroot
  cleanup-Prepared fx e h =
      (cleanup_chroot-NoMount id fx h, inr (unmount_all id mount_points fx, refl))

  or_clean-Prepared :
      (x : Effects × Option JailError) (next : Effects → Effects × Made (Option JailPath))
      → Confined id x.0
      → ((fx : Effects) → Confined id fx → Prepared id (next fx))
      → Prepared id (or_clean id x next)
  or_clean-Prepared (fx, none) next h n = n fx h
  or_clean-Prepared (fx, some e) next h n = cleanup-Prepared fx e h

  as_error-Confined :
      (f : MountError → JailError) (x : Effects × Option MountError)
      → Confined id x.0
      → Confined id (as_error f x).0
  as_error-Confined f (fx, none) h = h
  as_error-Confined f (fx, some e) h = h

  mount_rootfs-Confined :
      (env : JailEnv) (vm : VmConfig) (fx : Effects)
      → Confined id fx
      → Confined id (mount_rootfs env id vm fx).0
  unfolding mount_rootfs
  mount_rootfs-Confined env vm fx h =
      choose (λ (x : Effects × Option JailError). Confined id x.0)
        (vm.root_drive.path_on_host =? "") _ _ h
        (as_error-Confined rootfs_failed _
          (bind_mount-Confined id env vm.root_drive.path_on_host rootfs fx refl h))

  cgroup_or_clean-Prepared :
      (x : Effects × Option JailPath) → Confined id x.0 → Prepared id (cgroup_or_clean id x)
  cgroup_or_clean-Prepared (fx, none) h = cleanup-Prepared fx cgroup_failed h
  cgroup_or_clean-Prepared (fx, some p) h = h

  jail_cgroup-Prepared :
      (env : JailEnv) (c : JailerConfig) (fx : Effects)
      → Confined id fx
      → Prepared id (jail_cgroup env c id fx)
  unfolding jail_cgroup
  jail_cgroup-Prepared env c fx h =
      cgroup_or_clean-Prepared (setup_cgroup env c id fx)
        (λ f n. pending-setup_cgroup id f env c fx ∙ h f n)

  jail_rootfs-Prepared :
      (env : JailEnv) (c : JailerConfig) (vm : VmConfig) (fx : Effects)
      → Confined id fx
      → Prepared id (jail_rootfs env c id vm fx)
  unfolding jail_rootfs
  jail_rootfs-Prepared env c vm fx h =
      or_clean-Prepared (mount_rootfs env id vm fx) (jail_cgroup env c id)
        (mount_rootfs-Confined env vm fx h) (jail_cgroup-Prepared env c)

  jail_devices-Prepared :
      (env : JailEnv) (c : JailerConfig) (vm : VmConfig) (fx : Effects)
      → Confined id fx
      → Prepared id (jail_devices env c id vm fx)
  unfolding jail_devices
  jail_devices-Prepared env c vm fx h =
      let fx1 = setup_devices env id fx in
      let mount = bind_mount env vm.kernel_path id kernel fx1 in
      or_clean-Prepared (as_error kernel_failed mount) (jail_rootfs env c id vm)
        (as_error-Confined kernel_failed mount (
          bind_mount-Confined id env vm.kernel_path kernel fx1 refl
            (setup_devices-Confined id env fx h)))
        (jail_rootfs-Prepared env c vm)

  or_return-Prepared :
      (x : Effects × Option JailError) (next : Effects → Effects × Made (Option JailPath))
      → (x.1 ≡ none) ⊎ (x.1 ≡ some chroot_failed)
      → NoMount id x.0
      → ((fx : Effects) → Confined id fx → Prepared id (next fx))
      → Prepared id (or_return x next)
  or_return-Prepared (fx, none) next c h n = n fx (λ f _. h f)
  or_return-Prepared (fx, some e) next c h n = (h, inl (ground (arith, c)))

  chroot_error :
      (x : Effects × Bool)
      → ((chown_after id x).1 ≡ none) ⊎ ((chown_after id x).1 ≡ some chroot_failed)
  chroot_error (fx, true) = inl refl
  chroot_error (fx, false) = inr refl

  prepare_jail-Prepared :
      (env : JailEnv) (c : JailerConfig) (vm : VmConfig) (fx : Effects)
      → NoMount id fx
      → Prepared id (prepare_jail env c id vm fx)
  unfolding prepare_jail setup_chroot_dir
  prepare_jail-Prepared env c vm fx h =
      or_return-Prepared (setup_chroot_dir env id fx) (jail_devices env c id vm)
        (chroot_error (make_dirs env (jail_dirs id) fx))
        (λ f. pending-setup_chroot_dir id env f fx ∙ h f) (jail_devices-Prepared env c vm)

-- A failure leaves the manager's map as it was and no mount pending; it comes before anything is
-- made, from the directories of the chroot, or with the directory of the jail removed last. A success
-- tracks the jail at its address under the ID.
abbrev pub Settled : SandboxId → JailerManager → JailerManager × Made (ℕ × JailedConfig) → Type 0
Settled id old (jm, failed e) =
    (jm.jailed_vms ≡ old.jailed_vms)
    × (jm.heap ≡ old.heap)
    × NoMount id jm.effects
    × ((e ≡ not_enabled) ⊎ (e ≡ chroot_failed) ⊎ Cleaned id jm.effects)
Settled id old (jm, made (a, config)) =
    (a ≡ old.next_addr)
    × (jm.jailed_vms ≡ insert id a old.jailed_vms)
    × ((jm.heap a).id ≡ id)
    × (config.socket_path ≡ (jm.heap a).socket_path)
    × Confined id jm.effects

track_jail-Settled :
    (id : SandboxId) (vm : VmConfig) (x : Effects × Made (Option JailPath)) (jm : JailerManager)
    → Prepared id x
    → Settled id jm (track_jail id vm x jm)
unfolding track_jail build_jailed_config
track_jail-Settled id vm (fx, failed e) jm h = (refl, refl, h.0, inr h.1)
track_jail-Settled id vm (fx, made c) jm h = (
  refl,
  refl,
  ap (λ j. j.id) (if_then (jailed_vm jm.config id c) _ (=?-refl jm.next_addr)),
  sym (ap (λ j. j.socket_path) (if_then (jailed_vm jm.config id c) _ (=?-refl jm.next_addr))),
  h,
)

-- `CreateJailedVM` for an ID of which no mount is pending settles: when it fails, whichever step
-- fails, the manager's map and memory are as they were and no mount of the jail is pending; unless the
-- jailer is off or the directories of the chroot could not be made, the last call removed the
-- directory of the jail. When it succeeds, the new jail is tracked under the ID with its socket, and
-- nothing but the mount points is mounted in it.
pub create_jailed_vm-Settled :
    (env : JailEnv) (id : SandboxId) (vm : VmConfig) (jm : JailerManager)
    → NoMount id jm.effects
    → Settled id jm (create_jailed_vm env id vm jm)
unfolding create_jailed_vm
create_jailed_vm-Settled env id vm jm h =
    choose (Settled id jm) jm.config.enabled _ _
      (track_jail-Settled id vm (prepare_jail env jm.config id vm jm.effects) jm
        (prepare_jail-Prepared id env jm.config vm jm.effects h))
      (refl, refl, h, inl refl)

remove_cgroup-Confined :
    (id : SandboxId) (p : Option JailPath) (fx : Effects)
    → Confined id fx
    → Confined id (remove_cgroup p fx)
unfolding pending
remove_cgroup-Confined id none fx h f n = h f n
remove_cgroup-Confined id (some p) fx h f n = h f n

killed_jailer-Confined :
    (id : SandboxId) (n : ℤ) (b : Bool) (fx : Effects)
    → Confined id fx
    → Confined id (if b then killed_jailer n ∷ fx else fx)
unfolding pending
killed_jailer-Confined id n true fx h f q = h f q
killed_jailer-Confined id n false fx h f q = h f q

destroy_found_lem :
    (id : SandboxId) (a : ℕ) (jm : JailerManager)
    → (jm.heap a).id ≡ id
    → Confined id jm.effects
    → NoMount id (destroy_found id (some a) jm).effects
      × Cleaned id (destroy_found id (some a) jm).effects
unfolding destroy_found cleanup_chroot
destroy_found_lem id a jm e h =
    let j = jm.heap a in
    let fx = if ltb_ℤ (pos 0) j.pid then killed_jailer j.pid ∷ jm.effects else jm.effects in
    let left : Confined id (remove_cgroup j.cgroup_path fx) =
      remove_cgroup-Confined id j.cgroup_path fx (killed_jailer-Confined id j.pid _ jm.effects h) in
    subst
      (λ i.
        NoMount id (cleanup_chroot i (remove_cgroup j.cgroup_path fx))
        × Cleaned id (cleanup_chroot i (remove_cgroup j.cgroup_path fx)))
      (sym e) (cleanup_chroot-NoMount id _ left, (_, refl))

abbrev pub Undone : SandboxId → SandboxId → JailerManager → JailerManager → Type 0
Undone id k old jm =
    (lookup k jm.jailed_vms ≡ lookup k old.jailed_vms)
    × NoMount id jm.effects
    × Cleaned id jm.effects

lookup-undone :
    (id k : SandboxId) (a : ℕ) (m : List (SandboxId × ℕ))
    → lookup id m ≡ none
    → lookup k (delete id (insert id a m)) ≡ lookup k m
lookup-undone id k a m new = elim (Bool-cases (id =? k)) [
  | inl b ↦
      lookup-delete id k (insert id a m)
      ∙ if_then _ _ b
      ∙ sym new
      ∙ ap (λ i. lookup i m) ((id_eq.beq_iff id k).0 b)
  | inr b ↦
      lookup-delete id k (insert id a m) ∙ if_else _ _ b ∙ lookup-insert id k a m ∙ if_else _ _ b
]

Settled-Undone :
    (id k : SandboxId) (old : JailerManager) (x : JailerManager × Made (ℕ × JailedConfig)) (a : ℕ)
    (config : JailedConfig)
    → lookup id old.jailed_vms ≡ none
    → x.1 ≡ made (a, config)
    → Settled id old x
    → Undone id k old (destroy_jailed_vm id x.0)
unfolding destroy_jailed_vm destroy_found
Settled-Undone id k old (jm, failed e) a config new ok h = ground (arith, ok)
Settled-Undone id k old (jm, made (b, c)) a config new ok
      (addr, tracked, named, at_socket, confined) =
    let found : lookup id jm.jailed_vms ≡ some b =
      ap (lookup id) tracked ∙ lookup-insert id id b old.jailed_vms ∙ if_then _ _ (=?-refl id) in
    let (quiet, cleaned) = destroy_found_lem id b jm named confined in
    let map : lookup k (destroy_found id (some b) jm).jailed_vms ≡ lookup k old.jailed_vms =
      ap (λ m. lookup k (delete id m)) tracked ∙ lookup-undone id k b old.jailed_vms new in
    subst (λ o. Undone id k old (destroy_found id o jm)) (sym found) (map, quiet, cleaned)

-- A jail that `CreateJailedVM` made for an ID that was not tracked, and of which no mount was pending,
-- is undone by `DestroyJailedVM`: the manager tracks what it tracked before, no mount of the jail is
-- pending, and the directory of the jail is removed last.
pub create-destroy_jailed_vm :
    (env : JailEnv) (id : SandboxId) (vm : VmConfig) (jm : JailerManager) (a : ℕ)
    (config : JailedConfig) (k : SandboxId)
    → NoMount id jm.effects
    → lookup id jm.jailed_vms ≡ none
    → (create_jailed_vm env id vm jm).1 ≡ made (a, config)
    → let after = destroy_jailed_vm id (create_jailed_vm env id vm jm).0 in
      (lookup k after.jailed_vms ≡ lookup k jm.jailed_vms)
      × NoMount id after.effects
      × Cleaned id after.effects
create-destroy_jailed_vm env id vm jm a config k quiet new ok =
    Settled-Undone id k jm (create_jailed_vm env id vm jm) a config new ok
      (create_jailed_vm-Settled env id vm jm quiet)
