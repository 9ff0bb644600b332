-- ===== src/Vm/Hotplug.antt =====
-- pkg/vm/hotplug.go: the drives that are attached to running VMs, and the volumes prepared for them.
-- Texts are code points. The calls of the Firecracker API are placeholders in the code that return
-- nil; so they do here.
pub mod Volumes
pub mod Drives
pub mod DriveIds
use firecracker_shim.Base.{
  ℕ, Bool, true, false, not, Option, none, some, List, [], ◌∷◌, ◌++◌, if◌then◌else◌, ◌=?◌, lookup,
  insert, delete,
}
use firecracker_shim.Base.Text.{Text, text_eq, is_nil}
use firecracker_shim.Base.Int.{ℤ, pos}
use firecracker_shim.Domain.{SandboxId, id_eq, Machine, SandboxRef}
use firecracker_shim.Vm.World.{World}

-- A path: a text, or `/run/fc-cri/volumes/<sandbox>/<name>.ext4`.
pub data HostPath : Type 0 where
  path : Text → HostPath
  volume_image : SandboxId → Text → HostPath

pub record AttachedDrive : Type 0 where
  pub drive_id : Text
  pub path_on_host : HostPath
  pub mount_point : Text
  pub is_read_only : Bool
  pub attached_at : ℕ

pub record DriveRateLimiter : Type 0 where
  pub bandwidth_bytes_per_sec : ℤ
  pub bandwidth_burst_bytes : ℤ
  pub ops_per_sec : ℤ
  pub ops_burst : ℤ

pub record HotplugConfig : Type 0 where
  pub drive_id : Text
  pub path_on_host : HostPath
  pub is_read_only : Bool
  pub is_root_device : Bool
  pub rate_limiter : Option DriveRateLimiter
  pub cache_type : Text
  pub mount_point : Text

pub record HotplugManager : Type 0 where
  pub attached_drives : List (SandboxId × List AttachedDrive)

unfoldable pub new_hotplug_manager : HotplugManager
new_hotplug_manager = record { attached_drives = [] }

pub data HotplugError : Type 0 where
  sandbox_has_no_vm path_missing api_failed : HotplugError

-- The body of the request that the code builds for the API.
pub record TokenBucket : Type 0 where
  pub size : ℤ
  pub refill_time : ℤ
  pub one_time_burst : ℤ

pub record Drive : Type 0 where
  pub drive_id : Text
  pub path_on_host : HostPath
  pub is_read_only : Bool
  pub is_root_device : Bool
  pub cache_type : Option Text
  pub rate_limiter : Option (TokenBucket × TokenBucket)

abbrev limits : Option DriveRateLimiter → Option (TokenBucket × TokenBucket)
limits none = none
limits (some l) = some (
  record {
    size = l.bandwidth_burst_bytes;
    refill_time = pos 1000;
    one_time_burst = l.bandwidth_bytes_per_sec;
  },
  record { size = l.ops_burst; refill_time = pos 1000; one_time_burst = l.ops_per_sec },
)

unfoldable pub drive_of : HotplugConfig → Drive
drive_of c = record {
  drive_id = c.drive_id;
  path_on_host = c.path_on_host;
  is_read_only = c.is_read_only;
  is_root_device = c.is_root_device;
  cache_type = if is_nil c.cache_type then none else some c.cache_type;
  rate_limiter = limits c.rate_limiter;
}

-- `attachDriveViaAPI` and `patchDriveViaAPI`.
abbrev pub attach_drive_via_api : Option Machine → Drive → Bool
attach_drive_via_api none d = false
attach_drive_via_api (some m) d = true

abbrev pub patch_drive_via_api : Option Machine → Text → HostPath → Bool
patch_drive_via_api none d p = false
patch_drive_via_api (some m) d p = true

-- `m[key]` of a map of slices: nil for a missing key.
abbrev pub drives_of : Option (List AttachedDrive) → List AttachedDrive
drives_of none = []
drives_of (some ds) = ds

abbrev pub set_drives : SandboxId → List AttachedDrive → HotplugManager → HotplugManager
set_drives id ds h = record h { attached_drives = insert id ds h.attached_drives }

unfoldable pub get_attached_drives : SandboxId → HotplugManager → List AttachedDrive
get_attached_drives id h = drives_of (lookup id h.attached_drives)

abbrev pub vm_of : SandboxRef → World → Option Machine
vm_of r w = (w.heap r.addr).vm

abbrev pub has_no_vm : Option Machine → Bool
has_no_vm none = true
has_no_vm (some m) = false

abbrev pub attached : ℕ → HotplugConfig → AttachedDrive
attached now c = record {
  drive_id = c.drive_id;
  path_on_host = c.path_on_host;
  mount_point = c.mount_point;
  is_read_only = c.is_read_only;
  attached_at = now;
}

-- `exists` is the answer of `os.Stat`. `none` is a nil error.
unfoldable pub attach_drive :
    Bool
    → ℕ
    → SandboxRef
    → HotplugConfig
    → World
    → HotplugManager
    → HotplugManager × Option HotplugError
unfolding get_attached_drives drive_of
attach_drive exists now r c w h =
    if has_no_vm (vm_of r w)
    then (h, some sandbox_has_no_vm)
    else if not exists
    then (h, some path_missing)
    else if attach_drive_via_api (vm_of r w) (drive_of c)
    then (set_drives r.id (get_attached_drives r.id h ++ attached now c ∷ []) h, none)
    else (h, some api_failed)

abbrev pub behind : AttachedDrive → Option (List AttachedDrive) → Option (List AttachedDrive)
behind d none = none
behind d (some ds) = some (d ∷ ds)

-- The first drive with the ID goes; the map is written only when there is one.
unfoldable pub remove_drive : Text → List AttachedDrive → Option (List AttachedDrive)
remove_drive id [] = none
remove_drive id (d ∷ ds) =
    let rest = remove_drive id ds in if d.drive_id =? id then some ds else behind d rest

abbrev pub write_drives : SandboxId → Option (List AttachedDrive) → HotplugManager → HotplugManager
write_drives id none h = h
write_drives id (some ds) h = set_drives id ds h

unfoldable pub detach_drive :
    SandboxRef → Text → World → HotplugManager → HotplugManager × Option HotplugError
unfolding remove_drive get_attached_drives
detach_drive r id w h =
    if has_no_vm (vm_of r w)
    then (h, some sandbox_has_no_vm)
    else (write_drives r.id (remove_drive id (get_attached_drives r.id h)) h, none)

-- Its loop only writes to the log.
unfoldable pub detach_all_drives :
    SandboxRef → HotplugManager → HotplugManager × Option HotplugError
detach_all_drives r h = (record h { attached_drives = delete r.id h.attached_drives }, none)

-- `h.attachedDrives[id][i].PathOnHost = newPath` for the first drive with the ID.
unfoldable pub repath : Text → HostPath → List AttachedDrive → Option (List AttachedDrive)
repath id new [] = none
repath id new (d ∷ ds) =
    let rest = repath id new ds in
    if d.drive_id =? id then some (record d { path_on_host = new } ∷ ds) else behind d rest

unfoldable pub update_drive_path :
    Bool
    → SandboxRef
    → Text
    → HostPath
    → World
    → HotplugManager
    → HotplugManager × Option HotplugError
unfolding repath get_attached_drives
update_drive_path exists r id new w h =
    if has_no_vm (vm_of r w)
    then (h, some sandbox_has_no_vm)
    else if not exists
    then (h, some path_missing)
    else if patch_drive_via_api (vm_of r w) id new
    then (write_drives r.id (repath id new (get_attached_drives r.id h)) h, none)
    else (h, some api_failed)
