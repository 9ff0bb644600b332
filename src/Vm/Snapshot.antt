-- ===== src/Vm/Snapshot.antt =====
-- pkg/vm/snapshot.go: the snapshot manager. It shares the memory, the CIDs and the map of sandboxes
-- with the manager. A `*Snapshot` is never written once it is built, so a value stands for it.
pub mod Cache
pub mod Pooled
use firecracker_shim.Base.{
  ℕ, suc, ◌+◌, ◌%◌, ◌^◌, ◌<◌, Bool, true, false, not, ◌&&◌, Option, none, some, String, List, [],
  ◌∷◌, length, ltb, leb, if◌then◌else◌, ◌=?◌, string_eq, lookup, insert, delete, map,
}
use firecracker_shim.Base.Int.{ℤ, pos, wrap64}
use firecracker_shim.Domain.{
  SandboxId, fc_snap, id_eq, FilePath, text, snapshot_dir, snapshot_file, parent, sandbox_dir,
  sandbox_file, sandbox_ready, VmConfig, default_vm_config, Machine, Sandbox, SandboxRef,
  new_sandbox,
}
use firecracker_shim.Vm.Manager.{CreateEnv, StopEnv, create_vm, destroy_vm, next_cid, track}
use firecracker_shim.Vm.World.{
  MachineConfig, Effect, made_dir, removed_dir, wrote_file, new_restored_machine, started, paused,
  resumed, World, Error, create_dir_failed, create_machine_failed, start_machine_failed, no_vm,
  snapshots_disabled, no_golden_snapshot, pause_failed, snapshot_failed, golden_protected,
  remove_files_failed, Outcome, ok, err, nil_dereference, send_on_closed_channel, log,
}

pub record SnapshotConfig : Type 0 where
  pub enabled : Bool
  pub cache_dir : String
  pub max_cached : ℤ
  pub golden_snapshot_name : String
  pub golden_vm_config : VmConfig
  pub snapshot_type : String
  pub memory_backend : String
  pub compress_memory : Bool

unfoldable pub default_snapshot_config : SnapshotConfig
default_snapshot_config = record {
  enabled = false;
  cache_dir = "/var/lib/fc-cri/snapshots";
  max_cached = pos 10;
  golden_snapshot_name = "golden-base";
  golden_vm_config = default_vm_config;
  snapshot_type = "Full";
  memory_backend = "File";
  compress_memory = false;
}

-- `source_sandbox` is the one entry of the metadata.
pub record Snapshot : Type 0 where
  pub name : String
  pub memory_path : FilePath
  pub state_path : FilePath
  pub vm_config : VmConfig
  pub version : String
  pub created_at : ℕ
  pub size_bytes : ℤ
  pub source_sandbox : Option SandboxId
  pub is_golden : Bool

pub record SnapshotManager : Type 0 where
  pub config : SnapshotConfig
  pub snapshots : List (String × Snapshot)
  pub golden : Option Snapshot

-- What `loadSnapshots` meets at an entry of the cache directory: the decoded metadata, if the file
-- could be read and decoded, and whether the two files exist.
pub record CacheEntry : Type 0 where
  pub is_dir : Bool
  pub metadata : Option Snapshot
  pub memory_exists : Bool
  pub state_exists : Bool

unfoldable pub load_entry :
    CacheEntry → Option Snapshot → List (String × Snapshot) → List (String × Snapshot)
load_entry e none m = m
load_entry e (some snap) m =
    if e.is_dir && e.memory_exists && e.state_exists then insert snap.name snap m else m

unfoldable pub load_snapshots :
    List CacheEntry → List (String × Snapshot) → List (String × Snapshot)
unfolding load_entry
load_snapshots [] m = m
load_snapshots (e ∷ es) m = load_snapshots es (load_entry e e.metadata m)

-- `NewSnapshotManager`; the entries of the cache directory are none if it cannot be read.
unfoldable pub new_snapshot_manager :
    Bool → List CacheEntry → SnapshotConfig → Outcome SnapshotManager
unfolding load_snapshots
new_snapshot_manager mkdir_ok entries c =
    let loaded = load_snapshots entries [] in
    if not c.enabled
    then ok (record { config = c; snapshots = []; golden = none })
    else if mkdir_ok
    then ok
        (record { config = c; snapshots = loaded; golden = lookup c.golden_snapshot_name loaded })
    else err create_dir_failed

-- What the calls of one `CreateSnapshot` answer. A failed write of the metadata is only logged.
pub record SnapshotEnv : Type 0 where
  pub mkdir_ok : Bool
  pub pause_ok : Bool
  pub memory_size : ℕ
  pub state_size : ℕ
  pub now : ℕ

-- A placeholder in the code: it calls nothing and returns nil.
abbrev pub create_snapshot_via_api : Machine → FilePath → FilePath → Bool
create_snapshot_via_api m memory state = true

unfoldable pub taken : SnapshotEnv → SandboxRef → VmConfig → String → Bool → String → Snapshot
taken env r c name golden dir = record {
  name = name;
  memory_path = snapshot_file dir name "memory";
  state_path = snapshot_file dir name "state";
  vm_config = c;
  version = "1.0";
  created_at = env.now;
  size_bytes = wrap64 (pos (env.memory_size + env.state_size));
  source_sandbox = some r.id;
  is_golden = golden;
}

abbrev pub State : Type 0
State = SnapshotManager × World

-- `CreateSnapshot` on a machine, from the pause on.
unfoldable pub snapshot_machine :
    SnapshotEnv → SandboxRef → Machine → String → Bool → State → State × Outcome Snapshot
unfolding taken
snapshot_machine env r m name golden (sm, w) =
    let dir = sm.config.cache_dir in
    let snap = taken env r (w.heap r.addr).vm_config name golden dir in
    let w1 = log (paused m) w in
    if not env.pause_ok
    then ((sm, w1), err pause_failed)
    else if create_snapshot_via_api m snap.memory_path snap.state_path
    then (
      (
        record sm { snapshots = insert name snap sm.snapshots },
        log (resumed m) (log (wrote_file (snapshot_file dir name "metadata.json")) w1),
      ),
      ok snap,
    )
    else ((sm, log (resumed m) w1), err snapshot_failed)

unfoldable pub snapshot_of :
    SnapshotEnv → SandboxRef → Option Machine → String → Bool → State → State × Outcome Snapshot
unfolding snapshot_machine
snapshot_of env r none name golden st = (st, err no_vm)
snapshot_of env r (some m) name golden (sm, w) =
    if env.mkdir_ok
    then snapshot_machine env r m name golden
        (sm, log (made_dir (snapshot_dir sm.config.cache_dir name)) w)
    else ((sm, w), err create_dir_failed)

unfoldable pub create_snapshot :
    SnapshotEnv → SandboxRef → String → Bool → State → State × Outcome Snapshot
unfolding snapshot_of
create_snapshot env r name golden (sm, w) =
    if sm.config.enabled
    then snapshot_of env r (w.heap r.addr).vm name golden (sm, w)
    else ((sm, w), err snapshots_disabled)

-- The end of `CreateGoldenSnapshot`: the VM is destroyed in both cases.
unfoldable pub keep_golden :
    StopEnv → SandboxRef → State × Outcome Snapshot → State × Outcome Snapshot
keep_golden env r ((sm, w), ok snap) =
    ((record sm { golden = some snap }, destroy_vm env r w), ok snap)
keep_golden env r ((sm, w), err e) = ((sm, destroy_vm env r w), err e)
keep_golden env r (st, nil_dereference) = (st, nil_dereference)
keep_golden env r (st, send_on_closed_channel) = (st, send_on_closed_channel)

unfoldable pub golden_from :
    SnapshotEnv → StopEnv → SnapshotManager → World × Outcome SandboxRef → State × Outcome Snapshot
unfolding keep_golden create_snapshot
golden_from env stop sm (w, ok r) =
    keep_golden stop r (create_snapshot env r sm.config.golden_snapshot_name true (sm, w))
golden_from env stop sm (w, err e) = ((sm, w), err e)
golden_from env stop sm (w, nil_dereference) = ((sm, w), nil_dereference)
golden_from env stop sm (w, send_on_closed_channel) = ((sm, w), send_on_closed_channel)

unfoldable pub create_golden_snapshot :
    CreateEnv → SnapshotEnv → StopEnv → State → State × Outcome Snapshot
unfolding golden_from
create_golden_snapshot create env stop (sm, w) =
    if sm.config.enabled
    then golden_from env stop sm (create_vm create sm.config.golden_vm_config w)
    else ((sm, w), err snapshots_disabled)

unfoldable pub restore_config : String → SandboxId → ℕ → Snapshot → MachineConfig
restore_config dir id cid snap = record {
  socket_path = sandbox_file dir id "firecracker.sock";
  kernel_image_path = snap.vm_config.kernel_path;
  kernel_args = "";
  vcpu_count = snap.vm_config.vcpu_count;
  mem_size_mib = snap.vm_config.memory_mb;
  smt = snap.vm_config.smt_enabled;
  vsock_path = sandbox_file dir id "vsock.sock";
  vsock_cid = cid;
  drives = [];
}

unfoldable pub restored_sandbox : CreateEnv → String → SandboxId → ℕ → Machine → Snapshot → Sandbox
restored_sandbox env dir id cid m snap = record (new_sandbox env.created) {
  vm = some m;
  vm_config = snap.vm_config;
  vsock_path = sandbox_file dir id "vsock.sock";
  vsock_cid = cid;
  pid = env.machine_pid;
  state = sandbox_ready;
  started_at = env.start_time;
  from_pool = true;
}

-- `RestoreFromSnapshot` from `firecracker.NewMachine` on.
unfoldable pub restore_machine :
    CreateEnv
    → Effect
    → SandboxId
    → ℕ
    → Snapshot
    → Option Machine
    → World
    → World × Outcome SandboxRef
unfolding restored_sandbox
restore_machine env made id cid snap none w = (log made w, err create_machine_failed)
restore_machine env made id cid snap (some m) w =
    if env.start_ok
    then track id (restored_sandbox env w.config.runtime_dir id cid m snap)
        (log (started m) (log made w))
    else (log made w, err start_machine_failed)

unfoldable pub restore_from_snapshot :
    CreateEnv → Snapshot → SnapshotManager → World → World × Outcome SandboxRef
unfolding restore_machine restore_config
restore_from_snapshot env snap sm w =
    let id = fc_snap env.unix_nano in
    let dir = w.config.runtime_dir in
    let made =
      new_restored_machine (restore_config dir id w.cid_counter snap) snap.memory_path
        snap.state_path (sm.config.snapshot_type =? "Diff") in
    let w1 = next_cid (log (made_dir (sandbox_dir dir id)) w) in
    if not sm.config.enabled
    then (w, err snapshots_disabled)
    else if env.mkdir_ok
    then restore_machine env made id w.cid_counter snap env.machine w1
    else (w, err create_dir_failed)

unfoldable pub restore_golden :
    CreateEnv → Option Snapshot → SnapshotManager → World → World × Outcome SandboxRef
unfolding restore_from_snapshot
restore_golden env none sm w = (w, err no_golden_snapshot)
restore_golden env (some snap) sm w = restore_from_snapshot env snap sm w

unfoldable pub restore_from_golden :
    CreateEnv → SnapshotManager → World → World × Outcome SandboxRef
unfolding restore_golden
restore_from_golden env sm w = restore_golden env sm.golden sm w
