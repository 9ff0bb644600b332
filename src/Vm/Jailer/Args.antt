-- ===== src/Vm/Jailer/Args.antt =====
-- `GetJailerArgs` of pkg/vm/jailer.go. It does not use the VM's configuration.
use firecracker_shim.Base.{Bool, not, List, [], ◌∷◌, ◌++◌, if◌then◌else◌, ◌=?◌, string_eq}
use firecracker_shim.Base.Int.{pos, ltb_ℤ, leb_ℤ}
use firecracker_shim.Domain.{SandboxId}
use firecracker_shim.Vm.Jailer.{JailerConfig, Arg, word, number, sandbox}

-- `append(args, ...)` under a condition.
abbrev pub args_if : Bool → List Arg → List Arg
args_if b args = if b then args else []

unfoldable pub jailer_options : JailerConfig → SandboxId → List Arg
jailer_options c id =
    word "--id"
    ∷ sandbox id
    ∷ word "--exec-file"
    ∷ word c.firecracker_binary
    ∷ word "--uid"
    ∷ number c.uid
    ∷ word "--gid"
    ∷ number c.gid
    ∷ word "--chroot-base-dir"
    ∷ word c.chroot_base_dir
    ∷ (args_if (leb_ℤ (pos 0) c.numa_node) (word "--numa-node" ∷ number c.numa_node ∷ [])
        ++ (args_if (c.cgroup_version =? "2") (word "--cgroup-version" ∷ word "2" ∷ [])
            ++ (args_if (not (c.cgroup_parent =? ""))
                  (word "--parent-cgroup" ∷ word c.cgroup_parent ∷ [])
                ++ (args_if (not (c.net_ns =? "")) (word "--netns" ∷ word c.net_ns ∷ [])
                    ++ args_if c.daemonize (word "--daemonize" ∷ [])))))

unfoldable pub firecracker_options : JailerConfig → List Arg
firecracker_options c =
    word "--api-sock"
    ∷ word "/run/firecracker.socket"
    ∷ args_if (ltb_ℤ (pos 0) c.seccomp_level) (word "--seccomp-level" ∷ number c.seccomp_level ∷ [])

unfoldable pub get_jailer_args : JailerConfig → SandboxId → List Arg
unfolding jailer_options firecracker_options
get_jailer_args c id = jailer_options c id ++ word "--" ∷ firecracker_options c
