-- ===== src/Examples/Manager.antt =====
-- Runs of the manager of pkg/vm/manager.go.
use firecracker_shim.Base.{
  ◌≢◌, ◌%◌, ◌^◌, ℕ, suc, ◌+◌, ◌≡◌, refl, true, false, none, some, ◌∷◌, if◌then◌else◌, insert, ◌=?◌,
}
use firecracker_shim.Domain.{
  sandbox_ready, fc, id_eq, SandboxRef, new_sandbox, default_vm_config, sandbox_dir,
  sandbox_stopped,
}
use firecracker_shim.Vm.World.{
  MachineConfig, World, ok, started, new_machine, made_dir, removed_dir,
}
use firecracker_shim.Vm.Manager.{
  default_manager_config, new_manager, CreateEnv, StopEnv, create_vm, destroy_vm, get_sandbox,
}
use firecracker_shim.Vm.Manager.Create.{Matching, created_ref, create_vm_ok}
use firecracker_shim.Vm.Manager.Destroy.{closing, stopping, destroy_vm_ready}

abbrev pub booted : World
booted = new_manager default_manager_config (λ a. new_sandbox 0)

-- All calls succeed, at a given time.
abbrev pub at_time : ℕ → CreateEnv
at_time t = record {
  unix_nano = t;
  created = t;
  mkdir_ok = true;
  machine = some 7;
  start_ok = true;
  machine_pid = 41;
  start_time = t + 1;
}

abbrev pub slow_stop : StopEnv
slow_stop = record { shutdown_ok = false; finish_time = 90 }

abbrev pub broken : CreateEnv
broken = record (at_time 5) { start_ok = false }

-- One sandbox, and then two.
abbrev pub one : World
one = (create_vm (at_time 10) default_vm_config booted).0

abbrev pub two : World
two = (create_vm (at_time 20) default_vm_config one).0

abbrev pub ref_10 : SandboxRef
ref_10 = record { addr = 0; id = fc 10 }

abbrev pub ref_20 : SandboxRef
ref_20 = record { addr = 1; id = fc 20 }

create_vm_ok_example :
    let w' = (create_vm (at_time 10) default_vm_config booted).0 in
    let r = created_ref (at_time 10) booted in
    let s = w'.heap booted.next_addr in
    ((create_vm (at_time 10) default_vm_config booted).1 ≡ ok r)
    × (w'.sandboxes ≡ insert r.id r booted.sandboxes)
    × (s.state ≡ sandbox_ready)
    × (s.vm ≡ some 7)
    × (s.pid ≡ (at_time 10).machine_pid)
    × ((mc : MachineConfig) × Matching booted.config default_vm_config booted.cid_counter s mc
        × (w'.effects
            ≡ started 7
              ∷ new_machine mc
              ∷ made_dir (sandbox_dir booted.config.runtime_dir r.id)
              ∷ booted.effects))
    × (5 ≢ booted.next_addr → w'.heap 5 ≡ booted.heap 5)
    × (w'.next_addr ≡ suc booted.next_addr)
    × (w'.cid_counter ≡ (booted.cid_counter + 1) % 2 ^ 32)
create_vm_ok_example = create_vm_ok (at_time 10) default_vm_config booted 7 5 refl refl refl

destroy_vm_ready_example :
    let w' = destroy_vm slow_stop ref_20 two in
    (w'.effects
      ≡ removed_dir (sandbox_dir two.config.runtime_dir (fc 20))
        ∷ closing (two.heap 1).agent_conn (stopping false 7 two.effects))
    × ((w'.heap 1).state ≡ sandbox_stopped)
    × (get_sandbox (fc 10) w' ≡ (if fc 20 =? fc 10 then none else get_sandbox (fc 10) two))
unfolding create_vm new_manager
destroy_vm_ready_example = destroy_vm_ready slow_stop ref_20 7 two (fc 10) refl refl
