-- ===== src/Vm/Hotplug/Drives.antt =====
-- The list of attached drives of each sandbox, through the calls of pkg/vm/hotplug.go.
use firecracker_shim.Base.{
  ℕ, ◌≡◌, ◌≢◌, refl, ◌∙◌, ap, inl, inr, Bool, true, false, Option, none, some, List, [], ◌∷◌, ◌++◌,
  if◌then◌else◌, if_then, if_else, ◌=?◌, =?-refl, =?-ne, lookup-insert, lookup-delete, All, arith,
  Bool-cases,
}
use firecracker_shim.Base.Text.{Text, text_eq}
use firecracker_shim.Domain.{SandboxId, id_eq, Machine, SandboxRef}
use firecracker_shim.Vm.Hotplug.{
  HostPath, AttachedDrive, HotplugConfig, HotplugManager, drives_of, behind, set_drives,
  get_attached_drives, vm_of, attached, drive_of, attach_drive, attach_drive_via_api, remove_drive,
  write_drives, detach_drive, detach_all_drives, repath, update_drive_path, has_no_vm,
}
use firecracker_shim.Vm.World.{World}

drives-set :
    (j id : SandboxId) (ds : List AttachedDrive) (h : HotplugManager)
    → get_attached_drives j (set_drives id ds h) ≡ (if id =? j then ds else get_attached_drives j h)
unfolding get_attached_drives
drives-set j id ds h = let e = lookup-insert id j ds h.attached_drives in ground (arith, e)

drives-set_other :
    (j id : SandboxId) (ds : List AttachedDrive) (h : HotplugManager)
    → id ≢ j
    → get_attached_drives j (set_drives id ds h) ≡ get_attached_drives j h
drives-set_other j id ds h n = drives-set j id ds h ∙ if_else _ _ (=?-ne id j n)

abbrev Unnamed : Text → List AttachedDrive → Type 0
Unnamed id ds = All (λ d. (d.drive_id =? id) ≡ false) ds

remove_drive-last :
    (id : Text) (ds : List AttachedDrive) (d : AttachedDrive)
    → Unnamed id ds
    → d.drive_id ≡ id
    → remove_drive id (ds ++ d ∷ []) ≡ some ds
unfolding remove_drive
remove_drive-last id [] d a e = if_then _ _ (ap (λ k. k =? id) e ∙ =?-refl id)
remove_drive-last id (x ∷ ds) d a e =
    if_else _ _ a.0 ∙ ap (behind x) (remove_drive-last id ds d a.1 e)

has_vm : (o : Option Machine) (m : Machine) → o ≡ some m → has_no_vm o ≡ false
has_vm o m e = ap has_no_vm e

attach_ok :
    (now : ℕ) (r : SandboxRef) (c : HotplugConfig) (w : World) (h : HotplugManager) (m : Machine)
    → vm_of r w ≡ some m
    → attach_drive true now r c w h
      ≡ (set_drives r.id (get_attached_drives r.id h ++ attached now c ∷ []) h, none)
unfolding attach_drive
attach_ok now r c w h m e =
    if_else _ _ (has_vm _ m e) ∙ if_then _ _ (ap (λ o. attach_drive_via_api o (drive_of c)) e)

detach_ok :
    (r : SandboxRef) (id : Text) (w : World) (h : HotplugManager) (m : Machine)
    (ds : List AttachedDrive)
    → vm_of r w ≡ some m
    → remove_drive id (get_attached_drives r.id h) ≡ some ds
    → detach_drive r id w h ≡ (set_drives r.id ds h, none)
unfolding detach_drive
detach_ok r id w h m ds e f = if_else _ _ (has_vm _ m e) ∙ ap (λ o. (write_drives r.id o h, none)) f

drives-set_same :
    (id : SandboxId) (ds : List AttachedDrive) (h : HotplugManager)
    → get_attached_drives id (set_drives id ds h) ≡ ds
drives-set_same id ds h = drives-set id id ds h ∙ if_then _ _ (=?-refl id)

-- Writing the drives that a sandbox had, over others, restores them for every sandbox.
drives-restore :
    (j id : SandboxId) (ds : List AttachedDrive) (h : HotplugManager)
    → get_attached_drives j (set_drives id (get_attached_drives id h) (set_drives id ds h))
      ≡ get_attached_drives j h
drives-restore j id ds h = elim (Bool-cases (id =? j)) [
  | inl b ↦
      drives-set j id _ _
      ∙ if_then _ _ b
      ∙ ap (λ i. get_attached_drives i h) ((id_eq.beq_iff id j).0 b)
  | inr b ↦ drives-set j id _ _ ∙ if_else _ _ b ∙ drives-set j id ds h ∙ if_else _ _ b
]

drives-write_other :
    (j id : SandboxId) (o : Option (List AttachedDrive)) (h : HotplugManager)
    → id ≢ j
    → get_attached_drives j (write_drives id o h) ≡ get_attached_drives j h
drives-write_other j id none h n = refl
drives-write_other j id (some ds) h n = drives-set_other j id ds h n

-- On a sandbox with a VM, where the image exists and no attached drive has the ID of the new one,
-- an attachment succeeds and puts the drive behind the others of that sandbox, and detaching its ID
-- succeeds and gives every sandbox the drives that it had before.
pub attach-detach :
    (now : ℕ) (r : SandboxRef) (c : HotplugConfig) (w : World) (h : HotplugManager) (m : Machine)
    → vm_of r w ≡ some m
    → Unnamed c.drive_id (get_attached_drives r.id h)
    → let (h1, e1) = attach_drive true now r c w h in
      let (h2, e2) = detach_drive r c.drive_id w h1 in
      (e1 ≡ none)
      × (get_attached_drives r.id h1 ≡ get_attached_drives r.id h ++ attached now c ∷ [])
      × (e2 ≡ none)
      × ((j : SandboxId) → get_attached_drives j h2 ≡ get_attached_drives j h)
attach-detach now r c w h m e fresh =
    let old = get_attached_drives r.id h in
    let grown = old ++ attached now c ∷ [] in
    let a = attach_ok now r c w h m e in
    let there = drives-set_same r.id grown h in
    let d = detach_ok r c.drive_id w (set_drives r.id grown h) m old e (
      ap (remove_drive c.drive_id) there
      ∙ remove_drive-last c.drive_id old (attached now c) fresh refl) in
    let both = ap (λ p. detach_drive r c.drive_id w p.0) a ∙ d in
    (
      ap (λ p. p.1) a,
      ap (λ p. get_attached_drives r.id p.0) a ∙ there,
      ap (λ p. p.1) both,
      λ j. ap (λ p. get_attached_drives j p.0) both ∙ drives-restore j r.id grown h,
    )

-- The calls on one sandbox leave the drives of every other sandbox as they are, whatever they answer.
pub calls_isolated :
    (exists : Bool) (now : ℕ) (r : SandboxRef) (c : HotplugConfig) (id : Text) (new : HostPath)
    (w : World) (h : HotplugManager) (j : SandboxId)
    → r.id ≢ j
    → (get_attached_drives j (attach_drive exists now r c w h).0 ≡ get_attached_drives j h)
      × (get_attached_drives j (detach_drive r id w h).0 ≡ get_attached_drives j h)
      × (get_attached_drives j (update_drive_path exists r id new w h).0 ≡ get_attached_drives j h)
      × (get_attached_drives j (detach_all_drives r h).0 ≡ get_attached_drives j h)
unfolding attach_drive detach_drive update_drive_path detach_all_drives get_attached_drives
calls_isolated exists now r c id new w h j n = (
  ground (arith, drives-set_other j r.id (get_attached_drives r.id h ++ attached now c ∷ []) h n),
  ground (arith, drives-write_other j r.id (remove_drive id (get_attached_drives r.id h)) h n),
  ground (arith, drives-write_other j r.id (repath id new (get_attached_drives r.id h)) h n),
  ap drives_of (lookup-delete r.id j h.attached_drives ∙ if_else _ _ (=?-ne r.id j n)),
)
