-- ===== src/Vm/Jailer/Mounts.antt =====
-- Which mounts of a jail no later unmount call covers, through the operations of pkg/vm/jailer.go.
use firecracker_shim.Base.{
  ◌≡◌, refl, ◌∙◌, ap, Bool, true, false, ◌&&◌, ◌||◌, Option, none, some, String, List, [], ◌∷◌,
  if◌then◌else◌, if_then, if_else, ◌=?◌, ltb, =?-refl, arith, Bool-cases, inl, inr, choose,
  string_eq, All,
}
use firecracker_shim.Domain.{SandboxId, id_eq}
use firecracker_shim.Vm.Jailer.{
  JailFile, file_code, same_file, JailPath, made_dir, chowned, removed, mounted, unmount_called,
  JailEnv, JailerConfig, JailerResourceLimits, in_jail, cgroup,
}
use firecracker_shim.Vm.Jailer.Cgroups.{
  limit_v2, setup_cgroup_v2, limit_v1, each_controller, setup_cgroup_v1, setup_cgroup,
  v1_controllers,
}
use firecracker_shim.Vm.Jailer.Chroot.{
  Effects, make_dirs, chown_all, chown_after, jail_dirs, setup_chroot_dir, mount_over, mount_kind,
  bind_mount, Device, devices, setup_device, setup_each, setup_devices, mount_points, unmount_all,
  cleanup_chroot,
}

unfoldable pub pending : SandboxId → JailFile → Effects → Bool
pending id f [] = false
pending id f (mounted src i g ∷ fx) = if (i =? id) && same_file g f then true else pending id f fx
pending id f (unmount_called i g ∷ fx) =
    if (i =? id) && same_file g f then false else pending id f fx
pending id f (_ ∷ fx) = pending id f fx

abbrev pub is_mount_point : JailFile → Bool
is_mount_point f = ltb 3 (file_code f) && ltb (file_code f) 11

-- No mount of the jail is pending; none is but at the mount points.
abbrev pub NoMount : SandboxId → Effects → Type 0
NoMount id fx = (f : JailFile) → pending id f fx ≡ false

abbrev pub Confined : SandboxId → Effects → Type 0
Confined id fx = (f : JailFile) → is_mount_point f ≡ false → pending id f fx ≡ false

module _ (id : SandboxId) where
  pending-make_dirs :
      (env : JailEnv) (f : JailFile) (ds : List JailPath) (fx : Effects)
      → pending id f (make_dirs env ds fx).0 ≡ pending id f fx
  unfolding make_dirs pending
  pending-make_dirs env f [] fx = refl
  pending-make_dirs env f (d ∷ ds) fx = elim (Bool-cases (env.mkdir_ok d)) [
    | inl b ↦
        ap (λ (x : Effects × Bool). pending id f x.0) (if_then _ _ b)
        ∙ pending-make_dirs env f ds (made_dir d ∷ fx)
    | inr b ↦ ap (λ (x : Effects × Bool). pending id f x.0) (if_else _ _ b)
  ]

  pending-chown_all :
      (f : JailFile) (ds : List JailPath) (fx : Effects)
      → pending id f (chown_all ds fx) ≡ pending id f fx
  unfolding chown_all pending
  pending-chown_all f [] fx = refl
  pending-chown_all f (d ∷ ds) fx = pending-chown_all f ds (chowned d ∷ fx)

  pending-chown_after :
      (f : JailFile) (x : Effects × Bool) → pending id f (chown_after id x).0 ≡ pending id f x.0
  pending-chown_after f (fx, true) = pending-chown_all f (jail_dirs id) fx
  pending-chown_after f (fx, false) = refl

  -- Making the directories mounts nothing.
  pub pending-setup_chroot_dir :
      (env : JailEnv) (f : JailFile) (fx : Effects)
      → pending id f (setup_chroot_dir env id fx).0 ≡ pending id f fx
  unfolding setup_chroot_dir
  pending-setup_chroot_dir env f fx =
      pending-chown_after f (make_dirs env (jail_dirs id) fx)
      ∙ pending-make_dirs env f (jail_dirs id) fx

  -- A mount at a mount point leaves the other places alone.
  mount_kind-Confined :
      (env : JailEnv) (o : Option Bool) (src : String) (g : JailFile) (fx : Effects)
      → is_mount_point g ≡ true
      → Confined id fx
      → Confined id (mount_kind env o src id g fx).0
  unfolding mount_kind mount_over pending
  mount_kind-Confined env none src g fx p h f n = h f n
  mount_kind-Confined env (some true) src g fx p h f n = ground (arith, p, n, h f n)
  mount_kind-Confined env (some false) src g fx p h f n = ground (arith, p, n, h f n)

  pub bind_mount-Confined :
      (env : JailEnv) (src : String) (g : JailFile) (fx : Effects)
      → is_mount_point g ≡ true
      → Confined id fx
      → Confined id (bind_mount env src id g fx).0
  unfolding bind_mount
  bind_mount-Confined env src g fx p h = mount_kind-Confined env (env.stat src) src g fx p h

  setup_device-Confined :
      (env : JailEnv) (d : Device) (fx : Effects)
      → is_mount_point d.place ≡ true
      → Confined id fx
      → Confined id (setup_device env id d fx)
  unfolding setup_device pending
  setup_device-Confined env d fx p h f n =
      choose (λ x. pending id f x ≡ false) (env.mknod_ok d.place) _ _ (h f n)
        (bind_mount-Confined env d.source d.place (removed (in_jail id d.place) ∷ fx) p h f n)

  setup_each-Confined :
      (env : JailEnv) (ds : List Device) (fx : Effects)
      → All (λ d. is_mount_point d.place ≡ true) ds
      → Confined id fx
      → Confined id (setup_each env id ds fx)
  unfolding setup_each
  setup_each-Confined env [] fx a h = h
  setup_each-Confined env (d ∷ ds) fx a h =
      setup_each-Confined env ds (setup_device env id d fx) a.1
        (setup_device-Confined env d fx a.0 h)

  pub setup_devices-Confined :
      (env : JailEnv) (fx : Effects) → Confined id fx → Confined id (setup_devices env id fx)
  unfolding setup_devices
  setup_devices-Confined env fx h =
      setup_each-Confined env devices fx (refl, (refl, (refl, (refl, (refl, tt))))) h

  unmount_all_keeps :
      (f : JailFile) (gs : List JailFile) (fx : Effects)
      → pending id f fx ≡ false
      → pending id f (unmount_all id gs fx) ≡ false
  unfolding unmount_all pending
  unmount_all_keeps f [] fx h = h
  unmount_all_keeps f (g ∷ gs) fx h =
      unmount_all_keeps f gs (unmount_called id g ∷ fx) (ground (arith, h))

  abbrev listed : JailFile → List JailFile → Bool
  listed f [] = false
  listed f (g ∷ gs) = same_file g f || listed f gs

  unmount_all_hits :
      (f : JailFile) (gs : List JailFile) (fx : Effects)
      → listed f gs ≡ true
      → pending id f (unmount_all id gs fx) ≡ false
  unfolding unmount_all pending
  unmount_all_hits f [] fx h = ground arith
  unmount_all_hits f (g ∷ gs) fx h = elim (Bool-cases (same_file g f)) [
    | inl b ↦ unmount_all_keeps f gs (unmount_called id g ∷ fx) (ground (arith, b, =?-refl id))
    | inr b ↦ unmount_all_hits f gs (unmount_called id g ∷ fx) (ground (arith, b, h))
  ]

  point-listed : (f : JailFile) → is_mount_point f ≡ true → listed f mount_points ≡ true
  point-listed f h = ground (arith, h)

  -- The clean-up covers every mount point.
  pub cleanup_chroot-NoMount : (fx : Effects) → Confined id fx → NoMount id (cleanup_chroot id fx)
  unfolding cleanup_chroot pending
  cleanup_chroot-NoMount fx h f = elim (Bool-cases (is_mount_point f)) [
    | inl b ↦ unmount_all_hits f mount_points fx (point-listed f b)
    | inr b ↦ unmount_all_keeps f mount_points fx (h f b)
  ]

  pending-limit_v2 :
      (f : JailFile) (l : JailerResourceLimits) (fx : Effects)
      → pending id f (limit_v2 l id fx) ≡ pending id f fx
  unfolding limit_v2 pending
  pending-limit_v2 f l fx = ground arith

  pending-limit_v1 :
      (f : JailFile) (l : JailerResourceLimits) (ctrl : String) (fx : Effects)
      → pending id f (limit_v1 l id ctrl fx) ≡ pending id f fx
  unfolding limit_v1 pending
  pending-limit_v1 f l ctrl fx = ground arith

  pending-each_controller :
      (f : JailFile) (env : JailEnv) (l : JailerResourceLimits) (cs : List String) (fx : Effects)
      → pending id f (each_controller env l id cs fx) ≡ pending id f fx
  unfolding each_controller pending
  pending-each_controller f env l [] fx = refl
  pending-each_controller f env l (ctrl ∷ cs) fx =
      pending-each_controller f env l cs _
      ∙ choose (λ x. pending id f x ≡ pending id f fx) (env.mkdir_ok (cgroup (some ctrl) id)) _ _
          (pending-limit_v1 f l ctrl (made_dir (cgroup (some ctrl) id) ∷ fx)) refl

  pending-setup_cgroup_v2 :
      (f : JailFile) (env : JailEnv) (c : JailerConfig) (fx : Effects)
      → pending id f (setup_cgroup_v2 env c id fx).0 ≡ pending id f fx
  unfolding setup_cgroup_v2 pending
  pending-setup_cgroup_v2 f env c fx =
      choose (λ (x : Effects × Option JailPath). pending id f x.0 ≡ pending id f fx)
        (env.mkdir_ok (cgroup none id)) _ _
        (pending-limit_v2 f c.resource_limits (made_dir (cgroup none id) ∷ fx)) refl

  -- The cgroup mounts nothing.
  pub pending-setup_cgroup :
      (f : JailFile) (env : JailEnv) (c : JailerConfig) (fx : Effects)
      → pending id f (setup_cgroup env c id fx).0 ≡ pending id f fx
  unfolding setup_cgroup setup_cgroup_v1
  pending-setup_cgroup f env c fx =
      choose (λ (x : Effects × Option JailPath). pending id f x.0 ≡ pending id f fx)
        (c.cgroup_version =? "2") _ _ (pending-setup_cgroup_v2 f env c fx)
        (pending-each_controller f env c.resource_limits v1_controllers fx)
