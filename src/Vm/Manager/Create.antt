-- ===== src/Vm/Manager/Create.antt =====
-- What `CreateVM` of pkg/vm/manager.go does on each of its branches.
use firecracker_shim.Base.{
  ℕ, suc, ◌+◌, ◌%◌, ◌^◌, String, [], ◌=?◌, =?-refl, =?-ne, string_eq, if_then, if_else, ap, sym,
  subst, ◌∙◌, ◌≢◌, ==_iff, ◌==◌, if◌then◌else◌, ◌≡◌, refl, ◌⊎◌, inl, inr, Bool, true, false, Option,
  none, some, ◌∷◌, arith, insert,
}
use firecracker_shim.Domain.{
  Sandbox, SandboxId, sandbox_ready, fc, id_eq, sandbox_dir, Machine, VmConfig, SandboxRef,
}
use firecracker_shim.Vm.World.{
  ManagerConfig, MachineConfig, made_dir, new_machine, started, World, Error, create_dir_failed,
  create_machine_failed, start_machine_failed, Outcome, ok, err,
}
use firecracker_shim.Vm.Manager.{
  CreateEnv, with_defaults, machine_config, root_drives, ready_sandbox, create_vm, next_cid,
}

-- What callers rely on: a new entry for the new ID, or an error and the map as it was.
abbrev pub CreateResult : CreateEnv → World → World × Outcome SandboxRef → Type 0
CreateResult env w (w', o) =
    ((r : SandboxRef) × (o ≡ ok r)
      × (r.id ≡ fc env.unix_nano)
      × (w'.sandboxes ≡ insert r.id r w.sandboxes))
    ⊎ ((e : Error) × (o ≡ err e) × (w'.sandboxes ≡ w.sandboxes))

pub create_vm-CreateResult :
    (env : CreateEnv) (c : VmConfig) (w : World) → CreateResult env w (create_vm env c w)
unfolding create_vm
create_vm-CreateResult env c w = go env.mkdir_ok env.machine env.start_ok refl refl refl
  where
    go :
        (d : Bool) (m : Option Machine) (s : Bool)
        → env.mkdir_ok ≡ d
        → env.machine ≡ m
        → env.start_ok ≡ s
        → CreateResult env w (create_vm env c w)
    go false m s d e f = inr (create_dir_failed, ground arith, ground arith)
    go true none s d e f = inr (create_machine_failed, ground arith, ground arith)
    go true (some m) false d e f = inr (start_machine_failed, ground arith, ground arith)
    go true (some m) true d e f =
        inl (record { addr = w.next_addr; id = fc env.unix_nano }, ground arith, refl, ground arith)

abbrev pub created_ref : CreateEnv → World → SandboxRef
created_ref env w = record { addr = w.next_addr; id = fc env.unix_nano }

-- All that a successful `CreateVM` writes.
pub create_vm_lem :
    (env : CreateEnv) (c : VmConfig) (w : World) (m : Machine) (a : ℕ)
    → env.mkdir_ok ≡ true
    → env.machine ≡ some m
    → env.start_ok ≡ true
    → let r = created_ref env w in
      let w' = (create_vm env c w).0 in
      let dir = w.config.runtime_dir in
      let full = with_defaults w.config c in
      ((create_vm env c w).1 ≡ ok r)
      × (w'.sandboxes ≡ insert r.id r w.sandboxes)
      × (w'.heap a ≡ (
          if w.next_addr == a then ready_sandbox env dir r.id w.cid_counter m full else w.heap a))
      × (w'.next_addr ≡ suc w.next_addr)
      × (w'.cid_counter ≡ (next_cid w).cid_counter)
      × (w'.effects
          ≡ started m
            ∷ new_machine (machine_config dir r.id w.cid_counter full)
            ∷ made_dir (sandbox_dir dir r.id)
            ∷ w.effects)
unfolding create_vm
create_vm_lem env c w m a d e s =
    (ground arith, ground arith, ground arith, ground arith, ground arith, ground arith)

-- A setting that was left empty takes the default; one that was given stays.
abbrev pub Filled : String → String → String → Type 0
Filled given default chosen = (given ≡ "" → chosen ≡ default) × (given ≢ "" → chosen ≡ given)

filled : (given default : String) → Filled given default (if given =? "" then default else given)
filled given default = (
  λ e. if_then _ _ (ap (λ g. g =? "") e ∙ =?-refl {K = String} ""),
  λ n. if_else _ _ (=?-ne {K = String} given "" n),
)

-- The sandbox and the machine that was built for it agree: the kernel with the defaults filled in,
-- the CID that was due, the socket, the size of the machine, and a drive if there is a root drive.
pub record Matching (d : ManagerConfig) (c : VmConfig) (cid : ℕ) (s : Sandbox) (mc : MachineConfig)
    : Type 0 where
  pub kernel : Filled c.kernel_path d.default_kernel_path s.vm_config.kernel_path
  pub args : Filled c.kernel_args d.default_kernel_args s.vm_config.kernel_args
  pub same_kernel : mc.kernel_image_path ≡ s.vm_config.kernel_path
  pub same_args : mc.kernel_args ≡ s.vm_config.kernel_args
  pub vcpus : (mc.vcpu_count ≡ c.vcpu_count) × (s.vm_config.vcpu_count ≡ c.vcpu_count)
  pub memory : (mc.mem_size_mib ≡ c.memory_mb) × (s.vm_config.memory_mb ≡ c.memory_mb)
  pub cids : (s.vsock_cid ≡ cid) × (mc.vsock_cid ≡ cid)
  pub vsock : mc.vsock_path ≡ s.vsock_path
  pub no_drive : c.root_drive.path_on_host ≡ "" → mc.drives ≡ []
  pub one_drive :
      c.root_drive.path_on_host ≢ ""
      → (id : String) × (root : Bool) × (read_only : Bool) × (mc.drives
          ≡ (id, c.root_drive.path_on_host, root, read_only) ∷ [])

matching :
    (env : CreateEnv) (dir : String) (id : SandboxId) (cid : ℕ) (m : Machine) (d : ManagerConfig)
    (c : VmConfig)
    → Matching d c cid
        (ready_sandbox env dir id cid m (with_defaults d c))
        (machine_config dir id cid (with_defaults d c))
unfolding ready_sandbox with_defaults machine_config root_drives
matching env dir id cid m d c = record {
  kernel = filled c.kernel_path d.default_kernel_path;
  args = filled c.kernel_args d.default_kernel_args;
  same_kernel = refl;
  same_args = refl;
  vcpus = (refl, refl);
  memory = (refl, refl);
  cids = (refl, refl);
  vsock = refl;
  no_drive = λ e. if_then _ _ (ap (λ g. g =? "") e ∙ =?-refl {K = String} "");
  one_drive = λ n. (_, _, _, if_else _ _ (=?-ne {K = String} c.root_drive.path_on_host "" n));
}

-- When the directory is made and the machine is built and started, `CreateVM` returns a reference
-- to a new address under the new ID, tracked by the manager. The sandbox there is in the state
-- "ready" with its machine and the PID of its process, it agrees with the machine that was built, in
-- which the defaults are filled in and which has the CID that the counter held; every other address
-- is as it was; and the calls made outside are the three, of which the directory is the first and the
-- start the last.
pub create_vm_ok :
    (env : CreateEnv) (c : VmConfig) (w : World) (m : Machine) (a : ℕ)
    → env.mkdir_ok ≡ true
    → env.machine ≡ some m
    → env.start_ok ≡ true
    → let r = created_ref env w in
      let w' = (create_vm env c w).0 in
      let s = w'.heap w.next_addr in
      ((create_vm env c w).1 ≡ ok r)
      × (w'.sandboxes ≡ insert r.id r w.sandboxes)
      × (s.state ≡ sandbox_ready)
      × (s.vm ≡ some m)
      × (s.pid ≡ env.machine_pid)
      × ((mc : MachineConfig) × Matching w.config c w.cid_counter s mc
          × (w'.effects
              ≡ started m
                ∷ new_machine mc
                ∷ made_dir (sandbox_dir w.config.runtime_dir r.id)
                ∷ w.effects))
      × (a ≢ w.next_addr → w'.heap a ≡ w.heap a)
      × (w'.next_addr ≡ suc w.next_addr)
      × (w'.cid_counter ≡ (w.cid_counter + 1) % 2 ^ 32)
unfolding ready_sandbox
create_vm_ok env c w m a d e f =
    let dir = w.config.runtime_dir in
    let full = with_defaults w.config c in
    let built = machine_config dir (fc env.unix_nano) w.cid_counter full in
    let (result, entry, _, addr, cid, effects) = create_vm_lem env c w m a d e f in
    let (_, _, at, _, _, _) = create_vm_lem env c w m w.next_addr d e f in
    let there : (create_vm env c w).0.heap w.next_addr
        ≡ ready_sandbox env dir (fc env.unix_nano) w.cid_counter m full =
      at ∙ if_then _ _ ((==_iff w.next_addr w.next_addr).1 refl) in
    (
      result,
      entry,
      ap (λ s. s.state) there,
      ap (λ s. s.vm) there,
      ap (λ s. s.pid) there,
      (
        built,
        subst (λ s. Matching w.config c w.cid_counter s built) (sym there)
            (matching env dir (fc env.unix_nano) w.cid_counter m w.config c),
        effects,
      ),
      λ n. ground (arith, ==_iff w.next_addr a, n, (create_vm_lem env c w m a d e f).2),
      addr,
      cid,
    )

-- When one of the three calls fails, `CreateVM` returns the error of the first that fails, and
-- neither the manager's map nor any sandbox in memory changes; a CID is used up all the same.
pub create_vm_failed :
    (env : CreateEnv) (c : VmConfig) (w : World)
    → (env.mkdir_ok ≡ false) ⊎ (env.machine ≡ none) ⊎ (env.start_ok ≡ false)
    → let (w', o) = create_vm env c w in
      (((env.mkdir_ok ≡ false) × (o ≡ err create_dir_failed))
        ⊎ ((env.mkdir_ok ≡ true) × (env.machine ≡ none) × (o ≡ err create_machine_failed))
        ⊎ ((m : Machine) × (env.mkdir_ok ≡ true)
            × (env.machine ≡ some m)
            × (env.start_ok ≡ false)
            × (o ≡ err start_machine_failed)))
      × (w'.sandboxes ≡ w.sandboxes)
      × (w'.heap ≡ w.heap)
      × (w'.cid_counter ≡ (next_cid w).cid_counter)
unfolding create_vm
create_vm_failed env c w h = ground arith
