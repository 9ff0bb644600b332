-- ===== src/Examples/Hotplug.antt =====
-- Drives and volumes of pkg/vm/hotplug.go.
use firecracker_shim.Base.{
  ℕ, ◌≡◌, refl, arith, true, false, none, List, [], ◌∷◌, ◌++◌, map, insert, lookup,
}
use firecracker_shim.Base.Text.{Text, codes}
use firecracker_shim.Base.Int.{pos}
use firecracker_shim.Domain.{SandboxId, fc}
use firecracker_shim.Examples.Manager.{two, ref_10}
use firecracker_shim.Metrics.Decimal.{itoa}
use firecracker_shim.Vm.Manager.{create_vm, new_manager}
use firecracker_shim.Vm.Hotplug.{
  HostPath, path, volume_image, HotplugConfig, HotplugManager, new_hotplug_manager,
  get_attached_drives, attached, attach_drive, detach_drive,
}
use firecracker_shim.Vm.Hotplug.Drives.{attach-detach}
use firecracker_shim.Vm.Hotplug.DriveIds.{Distinct, prepared_ids-Distinct}
use firecracker_shim.Vm.Hotplug.Volumes.{
  volume_type_of, create_empty_dir_image, volume_drive_id, VolumeSpec, VolumeEnv, prepare_volumes,
}

abbrev disk : Text → HotplugConfig
disk id = record {
  drive_id = id;
  path_on_host = path (codes "/srv/disk.ext4");
  is_read_only = false;
  is_root_device = false;
  rate_limiter = none;
  cache_type = codes "Writeback";
  mount_point = codes "/data";
}

-- The first sandbox has one drive.
abbrev one_drive : HotplugManager
one_drive = (attach_drive true 5 ref_10 (disk (codes "vol0-a")) two new_hotplug_manager).0

attach-detach_example :
    let c = disk (codes "vol1-b") in
    let (h1, e1) = attach_drive true 6 ref_10 c two one_drive in
    let (h2, e2) = detach_drive ref_10 (codes "vol1-b") two h1 in
    (e1 ≡ none)
    × (get_attached_drives (fc 10) h1 ≡ get_attached_drives (fc 10) one_drive ++ attached 6 c ∷ [])
    × (e2 ≡ none)
    × ((j : SandboxId) → get_attached_drives j h2 ≡ get_attached_drives j one_drive)
unfolding attach_drive get_attached_drives new_hotplug_manager create_vm new_manager insert lookup
attach-detach_example =
    attach-detach 6 ref_10 (disk (codes "vol1-b")) two one_drive 7 refl (refl, tt)

abbrev new_path : HostPath
new_path = path (codes "/srv/other.ext4")

-- Two volumes of the same name.
abbrev volume : Text → VolumeSpec
volume kind = record {
  name = codes "cache";
  volume_type = kind;
  source = codes "/srv/cache.ext4";
  mount_path = codes "/cache";
  read_only = false;
  size_bytes = pos 0;
}

abbrev volumes : List VolumeSpec
volumes = volume (codes "data") ∷ volume (codes "emptydir") ∷ []

abbrev all_ok : ℕ → VolumeEnv
all_ok i = record { mkdir_ok = true; create_ok = true; truncate_ok = true }

abbrev drives : List HotplugConfig
drives =
    record (disk (codes "vol0-cache")) {
      path_on_host = path (codes "/srv/cache.ext4");
      mount_point = codes "/cache";
    }
    ∷ record (disk (codes "vol1-cache")) {
      path_on_host = volume_image (fc 10) (codes "cache");
      cache_type = codes "Unsafe";
      mount_point = codes "/cache";
    }
    ∷ []

prepared_ids-Distinct_example : Distinct (map (λ c. c.drive_id) drives)
unfolding prepare_volumes volume_type_of volume_drive_id itoa create_empty_dir_image
prepared_ids-Distinct_example =
    prepared_ids-Distinct all_ok (fc 10) volumes [] drives
      (λ e. ground (arith, e), (λ e. ground (arith, e), tt)) (omega arith) refl
