-- ===== src/Vm/Hotplug/DriveIds.antt =====
-- The drive IDs that `PrepareVolumes` of pkg/vm/hotplug.go gives to volumes.
use mathlib.Core.Option.{some-injective}
use firecracker_shim.Base.{
  ℕ, suc, ◌+◌, ◌≤◌, ◌<◌, ◌^◌, ◌≡◌, ◌≢◌, refl, sym, ◌∙◌, ap, subst, Option, none, some, List, [],
  ◌∷◌, ◌++◌, ◌==◌, length, map, All, arith,
}
use firecracker_shim.Base.Int.{ℤ, pos, pos_part}
use firecracker_shim.Base.Text.{Text, cut}
use firecracker_shim.Config.Trimming.{Free, cut-at}
use firecracker_shim.Domain.{SandboxId}
use firecracker_shim.Metrics.Decimal.{read_int, IsDigit, itoa-digits}
use firecracker_shim.Vm.Hotplug.{HostPath, HotplugConfig}
use firecracker_shim.Vm.Hotplug.Volumes.{
  VolumeSpec, VolumeType, rootfs_volume, data_volume, empty_dir_volume, content_volume, unsupported,
  volume_type_of, FileEffect, VolumeEnv, Prepared, prepared, unprepared, printed, volume_drive_id,
  base_config, with_image, put_first, go_on, prepare_typed, prepare_volume, prepare_from,
  prepare_volumes, create_empty_dir_image, create_config_image,
}

-- What a reader of `vol<index>-<name>` takes for the index.
abbrev index_before : Option (Text × Text) → Option ℤ
index_before none = none
index_before (some (ds, name)) = some (read_int ds)

abbrev read_index : Text → Option ℤ
read_index [] = none
read_index (v ∷ []) = none
read_index (v ∷ o ∷ []) = none
read_index (v ∷ o ∷ l ∷ rest) = index_before (cut b'-' rest)

digits-Free : (r : Text) → All IsDigit r → Free (λ c. c == b'-') r
digits-Free [] a = tt
digits-Free (c ∷ cs) a = (ground (arith, a.0), digits-Free cs a.1)

read_index-drive_id :
    (i : ℕ) (name : Text) → i < 2 ^ 63 → read_index (volume_drive_id i name) ≡ some (pos i)
unfolding volume_drive_id
read_index-drive_id i name h =
    let (r, e, digits, v) = itoa-digits i h in
    ap (λ o. index_before (cut b'-' (printed o ++ b'-' ∷ name))) e
    ∙ ap index_before (cut-at r name b'-' (digits-Free r digits))
    ∙ ap some v

-- The configurations from an index on carry the volumes' indices.
abbrev Numbered : ℕ → List HotplugConfig → Type 0
Numbered i [] = Unit
Numbered i (c ∷ cs) = (read_index c.drive_id ≡ some (pos i)) × Numbered (suc i) cs

abbrev pub Distinct : List Text → Type 0
Distinct [] = Unit
Distinct (x ∷ xs) = All (λ y. x ≢ y) xs × Distinct xs

-- A configuration that comes out for any other type than `rootfs` has the drive ID of its volume.
abbrev Named : ℕ → Text → Prepared HotplugConfig → Type 0
Named i name (prepared c) = c.drive_id ≡ volume_drive_id i name
Named i name (unprepared e) = Unit

image-Named :
    (i : ℕ) (name : Text) (f : HostPath → HotplugConfig) (o : List FileEffect × Prepared HostPath)
    → ((p : HostPath) → (f p).drive_id ≡ volume_drive_id i name)
    → Named i name (with_image f o).1
image-Named i name f (fx, prepared p) h = h p
image-Named i name f (fx, unprepared e) h = tt

typed-Named :
    (env : VolumeEnv) (id : SandboxId) (vol : VolumeSpec) (i : ℕ) (t : VolumeType)
    (fx : List FileEffect)
    → t ≢ rootfs_volume
    → Named i vol.name (prepare_typed env id vol i t fx).1
unfolding prepare_typed base_config
typed-Named env id vol i rootfs_volume fx h = absurd (h refl)
typed-Named env id vol i data_volume fx h = refl
typed-Named env id vol i empty_dir_volume fx h =
    image-Named i vol.name _ (create_empty_dir_image env id vol.name vol.size_bytes fx) (λ p. refl)
typed-Named env id vol i content_volume fx h =
    image-Named i vol.name _ (create_config_image env id vol.name fx) (λ p. refl)
typed-Named env id vol i unsupported fx h = tt

abbrev DrivesNumbered : ℕ → Prepared (List HotplugConfig) → Type 0
DrivesNumbered i (prepared cs) = Numbered i cs
DrivesNumbered i (unprepared e) = Unit

abbrev pub NoRootfs : List VolumeSpec → Type 0
NoRootfs vols = All (λ v. volume_type_of v.volume_type ≢ rootfs_volume) vols

put_first-Numbered :
    (i : ℕ) (c : HotplugConfig) (o : List FileEffect × Prepared (List HotplugConfig))
    → read_index c.drive_id ≡ some (pos i)
    → DrivesNumbered (suc i) o.1
    → DrivesNumbered i (put_first c o).1
put_first-Numbered i c (fx, prepared cs) e h = (e, h)
put_first-Numbered i c (fx, unprepared x) e h = tt

go_on-Numbered :
    (i : ℕ) (name : Text) (next : List FileEffect → List FileEffect × Prepared (List HotplugConfig))
    (o : List FileEffect × Prepared HotplugConfig)
    → i < 2 ^ 63
    → Named i name o.1
    → ((fx : List FileEffect) → DrivesNumbered (suc i) (next fx).1)
    → DrivesNumbered i (go_on next o).1
go_on-Numbered i name next (fx, prepared c) l e h =
    put_first-Numbered i c (next fx) (ap read_index e ∙ read_index-drive_id i name l) (h fx)
go_on-Numbered i name next (fx, unprepared x) l e h = tt

prepare_from-Numbered :
    (env : ℕ → VolumeEnv) (id : SandboxId) (i : ℕ) (vols : List VolumeSpec) (fx : List FileEffect)
    → NoRootfs vols
    → i + length vols ≤ 2 ^ 63
    → DrivesNumbered i (prepare_from env id i vols fx).1
unfolding prepare_from prepare_volume
prepare_from-Numbered env id i [] fx a h = tt
prepare_from-Numbered env id i (vol ∷ vols) fx a h =
    let l : suc (i + length vols) ≤ 2 ^ 63 = omega (arith, h) in
    go_on-Numbered i vol.name (prepare_from env id (suc i) vols)
      (prepare_volume (env i) id vol i fx) (omega (arith, h))
      (typed-Named (env i) id vol i (volume_type_of vol.volume_type) fx a.0)
      (λ fx1. prepare_from-Numbered env id (suc i) vols fx1 a.1 (omega (arith, l)))

-- A later index is another ID.
later :
    (x : Text) (i j : ℕ) (cs : List HotplugConfig)
    → read_index x ≡ some (pos i)
    → i < j
    → Numbered j cs
    → All (λ y. x ≢ y) (map (λ c. c.drive_id) cs)
later x i j [] e h n = tt
later x i j (c ∷ cs) e h n = (
  λ same.
      let off : i ≡ j = ap pos_part (some-injective _ _ (sym e ∙ ap read_index same ∙ n.0)) in
      omega (arith, h, off),
  later x i (suc j) cs e (omega (arith, h)) n.1,
)

Numbered-Distinct :
    (i : ℕ) (cs : List HotplugConfig) → Numbered i cs → Distinct (map (λ c. c.drive_id) cs)
Numbered-Distinct i [] n = tt
Numbered-Distinct i (c ∷ cs) n =
    (later c.drive_id i (suc i) cs n.0 (omega arith) n.1, Numbered-Distinct (suc i) cs n.1)

-- The drives that are prepared for volumes none of which is a root file system, and of which there
-- are at most 2 ^ 63, have different drive IDs, whatever the names of the volumes.
pub prepared_ids-Distinct :
    (env : ℕ → VolumeEnv) (id : SandboxId) (vols : List VolumeSpec) (fx : List FileEffect)
    (cs : List HotplugConfig)
    → NoRootfs vols
    → length vols ≤ 2 ^ 63
    → (prepare_volumes env id vols fx).1 ≡ prepared cs
    → Distinct (map (λ c. c.drive_id) cs)
unfolding prepare_volumes
prepared_ids-Distinct env id vols fx cs a h e =
    Numbered-Distinct 0 cs
      (subst (DrivesNumbered 0) e (prepare_from-Numbered env id 0 vols fx a (omega (arith, h))))
