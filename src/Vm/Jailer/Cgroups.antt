-- ===== src/Vm/Jailer/Cgroups.antt =====
-- The cgroup of a jail, in pkg/vm/jailer.go. The answers of `WriteFile` are not looked at.
use firecracker_shim.Base.{
  Bool, ◌&&◌, Option, none, some, String, List, [], ◌∷◌, ltb, if◌then◌else◌, ◌=?◌, string_eq,
}
use firecracker_shim.Base.Int.{pos, ltb_ℤ}
use firecracker_shim.Domain.{SandboxId}
use firecracker_shim.Vm.Jailer.{
  JailerConfig, JailerResourceLimits, JailPath, cgroup, cgroup_file, CgroupValue, limit, amount,
  quota_and_period, controllers, made_dir, wrote, JailEnv,
}
use firecracker_shim.Vm.Jailer.Chroot.{Effects}

abbrev wrote_if : Bool → Option String → SandboxId → String → CgroupValue → Effects → Effects
wrote_if b ctrl id file v fx = if b then wrote (cgroup_file ctrl id file) v ∷ fx else fx

unfoldable pub limit_v2 : JailerResourceLimits → SandboxId → Effects → Effects
limit_v2 l id fx =
    let fx1 = wrote_if (ltb 0 l.cpu_weight) none id "cpu.weight" (limit l.cpu_weight) fx in
    let fx2 =
      wrote_if (ltb_ℤ (pos 0) l.cpu_quota && ltb_ℤ (pos 0) l.cpu_period) none id "cpu.max"
        (quota_and_period l.cpu_quota l.cpu_period) fx1 in
    let fx3 =
      wrote_if (ltb 0 l.max_memory_bytes) none id "memory.max" (limit l.max_memory_bytes) fx2 in
    wrote (cgroup_file none id "cgroup.subtree_control") (controllers "+cpu +memory +io") ∷ fx3

-- The answer is the path of the cgroup, or an error.
unfoldable pub setup_cgroup_v2 :
    JailEnv → JailerConfig → SandboxId → Effects → Effects × Option JailPath
unfolding limit_v2
setup_cgroup_v2 env c id fx =
    if env.mkdir_ok (cgroup none id)
    then (limit_v2 c.resource_limits id (made_dir (cgroup none id) ∷ fx), some (cgroup none id))
    else (fx, none)

-- The files of one controller of version 1.
unfoldable pub limit_v1 : JailerResourceLimits → SandboxId → String → Effects → Effects
limit_v1 l id ctrl fx =
    if ctrl =? "cpu"
    then wrote_if (ltb_ℤ (pos 0) l.cpu_period) (some ctrl) id "cpu.cfs_period_us"
        (amount l.cpu_period)
        (wrote_if (ltb_ℤ (pos 0) l.cpu_quota) (some ctrl) id "cpu.cfs_quota_us" (amount l.cpu_quota)
          fx)
    else if ctrl =? "memory"
    then wrote_if (ltb 0 l.max_memory_bytes) (some ctrl) id "memory.limit_in_bytes"
        (limit l.max_memory_bytes) fx
    else if ctrl =? "pids"
    then wrote_if (ltb 0 l.max_processes) (some ctrl) id "pids.max" (limit l.max_processes) fx
    else fx

-- A controller whose directory cannot be made is passed over.
unfoldable pub each_controller :
    JailEnv → JailerResourceLimits → SandboxId → List String → Effects → Effects
unfolding limit_v1
each_controller env l id [] fx = fx
each_controller env l id (ctrl ∷ cs) fx = each_controller env l id cs (
    if env.mkdir_ok (cgroup (some ctrl) id)
    then limit_v1 l id ctrl (made_dir (cgroup (some ctrl) id) ∷ fx)
    else fx)

abbrev pub v1_controllers : List String
v1_controllers = "cpu" ∷ "memory" ∷ "devices" ∷ "pids" ∷ []

unfoldable pub setup_cgroup_v1 :
    JailEnv → JailerConfig → SandboxId → Effects → Effects × Option JailPath
unfolding each_controller
setup_cgroup_v1 env c id fx =
    (each_controller env c.resource_limits id v1_controllers fx, some (cgroup (some "cpu") id))

unfoldable pub setup_cgroup :
    JailEnv → JailerConfig → SandboxId → Effects → Effects × Option JailPath
unfolding setup_cgroup_v1 setup_cgroup_v2
setup_cgroup env c id fx =
    if c.cgroup_version =? "2" then setup_cgroup_v2 env c id fx else setup_cgroup_v1 env c id fx
