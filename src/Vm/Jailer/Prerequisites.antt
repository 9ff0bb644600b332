-- ===== src/Vm/Jailer/Prerequisites.antt =====
-- `CheckJailerPrerequisites` of pkg/vm/jailer.go.
use firecracker_shim.Base.{
  ◌≡◌, ◌↔◌, ◌⊎◌, Bool, true, false, not, ◌&&◌, ◌||◌, String, List, [], ◌∷◌, ◌++◌, if◌then◌else◌,
  ◌=?◌, string_eq, arith,
}
use firecracker_shim.Base.Int.{ℤ, pos, ltb_ℤ, ◌≤ℤ◌}
use firecracker_shim.Vm.Jailer.{JailerConfig}

pub data Missing : Type 0 where
  jailer_missing firecracker_missing : String → Missing
  kvm_missing cgroups_missing : Missing
  invalid_uid : ℤ → Missing

abbrev pub add_if : Bool → Missing → List Missing → List Missing
add_if b m ms = if b then ms ++ m ∷ [] else ms

-- The whole list is reported if it is not empty. The argument says which files are there.
unfoldable pub check_jailer_prerequisites : (String → Bool) → JailerConfig → List Missing
check_jailer_prerequisites exists c =
    let m1 = add_if (not (exists c.jailer_binary)) (jailer_missing c.jailer_binary) [] in
    let m2 =
      add_if (not (exists c.firecracker_binary)) (firecracker_missing c.firecracker_binary) m1 in
    let m3 = add_if (not (exists "/dev/kvm")) kvm_missing m2 in
    let m4 = add_if (ltb_ℤ c.uid (pos 0) || ltb_ℤ (pos 65534) c.uid) (invalid_uid c.uid) m3 in
    add_if (c.cgroup_version =? "2" && not (exists "/sys/fs/cgroup/cgroup.controllers"))
      cgroups_missing m4

-- What a system that is ready has.
pub record Ready (exists : String → Bool) (c : JailerConfig) : Type 0 where
  pub jailer : exists c.jailer_binary ≡ true
  pub firecracker : exists c.firecracker_binary ≡ true
  pub kvm : exists "/dev/kvm" ≡ true
  pub uid_low : pos 0 ≤ℤ c.uid
  pub uid_high : c.uid ≤ℤ pos 65534
  pub cgroups :
      ((c.cgroup_version =? "2") ≡ false) ⊎ (exists "/sys/fs/cgroup/cgroup.controllers" ≡ true)

-- `CheckJailerPrerequisites` reports nothing exactly when the binaries and `/dev/kvm` are there, the
-- UID lies between 0 and 65534, and cgroups of version 2 are mounted if they are asked for.
pub check_jailer_prerequisites_iff :
    (exists : String → Bool) (c : JailerConfig)
    → (check_jailer_prerequisites exists c ≡ []) ↔ Ready exists c
unfolding check_jailer_prerequisites
check_jailer_prerequisites_iff exists c = (
  λ h. record {
    jailer = ground arith;
    firecracker = ground arith;
    kvm = ground arith;
    uid_low = ground arith;
    uid_high = ground arith;
    cgroups = ground arith;
  },
  λ r. ground (arith, r.jailer, r.firecracker, r.kvm, r.uid_low, r.uid_high, r.cgroups),
)
