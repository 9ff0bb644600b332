-- ===== src/Vm/Manager/CidInv.antt =====
-- What holds of the vsock CIDs of the manager of pkg/vm/manager.go, through each of its calls.
use firecracker_shim.Base.{
  ℕ, suc, ◌+◌, ◌^◌, ◌≤◌, ◌<◌, ◌≡◌, ◌⊎◌, inl, inr, true, false, none, some, List, [], ◌∷◌, subst,
  sym, arith, insert, delete, Bool, Bool-cases, Option-cases,
}
use firecracker_shim.Domain.{SandboxId, id_eq, Sandbox, SandboxRef, VmConfig, Machine}
use firecracker_shim.Vm.World.{World, ManagerConfig}
use firecracker_shim.Vm.Manager.Create.{created_ref, create_vm_lem, create_vm_failed}
use firecracker_shim.Vm.Manager.{
  CreateEnv, StopEnv, create_vm, destroy_vm, stop_vm, pause_vm, resume_vm, new_manager,
}

abbrev pub cid_of : (ℕ → Sandbox) → SandboxRef → ℕ
cid_of heap r = (heap r.addr).vsock_cid

-- The CIDs fall along the map, newest first, from below `n` to at least 3; each address was handed
-- out before `a`.
abbrev pub Falling : ℕ → ℕ → (ℕ → Sandbox) → List (SandboxId × SandboxRef) → Type 0
Falling n a heap [] = Unit {0}
Falling n a heap ((k, r) ∷ m) =
    (cid_of heap r < n) × (3 ≤ cid_of heap r) × (r.addr < a) × Falling (cid_of heap r) a heap m

pub record CidInv (w : World) : Type 0 where
  pub falling : Falling w.cid_counter w.next_addr w.heap w.sandboxes
  pub low : 3 ≤ w.cid_counter

pub Falling-mono :
    {n n' a a' : ℕ} (heap : ℕ → Sandbox) (m : List (SandboxId × SandboxRef))
    → n ≤ n'
    → a ≤ a'
    → Falling n a heap m
    → Falling n' a' heap m
Falling-mono heap [] h k f = tt
Falling-mono heap ((i, r) ∷ m) h k f =
    (omega arith, omega arith, omega arith, Falling-mono heap m (omega arith) k f.3)

pub Falling-delete :
    (k : SandboxId) (n a : ℕ) (heap : ℕ → Sandbox) (m : List (SandboxId × SandboxRef))
    → Falling n a heap m
    → Falling n a heap (delete k m)
unfolding delete
Falling-delete k n a heap [] f = tt
Falling-delete k n a heap ((i, r) ∷ m) f = ground (
  arith,
  Falling-delete k (cid_of heap r) a heap m f.3,
  Falling-mono {n = cid_of heap r} {n' = n} {a = a} {a' = a} heap (delete k m),
)

-- A write that keeps every CID.
pub Falling-write :
    (n a : ℕ) (heap heap' : ℕ → Sandbox) (m : List (SandboxId × SandboxRef))
    → ((b : ℕ) → b < a → (heap' b).vsock_cid ≡ (heap b).vsock_cid)
    → Falling n a heap m
    → Falling n a heap' m
Falling-write n a heap heap' [] h f = tt
Falling-write n a heap heap' ((i, r) ∷ m) h f =
    let e = h r.addr f.2 in
    (
      omega arith,
      omega arith,
      omega arith,
      subst (λ c. Falling c a heap' m) (sym e) (Falling-write (cid_of heap r) a heap heap' m h f.3),
    )

pub new_manager-CidInv : (c : ManagerConfig) (heap : ℕ → Sandbox) → CidInv (new_manager c heap)
unfolding new_manager
new_manager-CidInv c heap = record { falling = tt; low = omega arith }

heap-stop_vm :
    (env : StopEnv) (r : SandboxRef) (w : World) (b : ℕ)
    → ((stop_vm env r w).0.heap b).vsock_cid ≡ (w.heap b).vsock_cid
unfolding stop_vm
heap-stop_vm env r w b = ground arith

stop_vm_keeps :
    (env : StopEnv) (r : SandboxRef) (w : World)
    → ((stop_vm env r w).0.sandboxes ≡ w.sandboxes)
      × ((stop_vm env r w).0.next_addr ≡ w.next_addr)
      × ((stop_vm env r w).0.cid_counter ≡ w.cid_counter)
unfolding stop_vm
stop_vm_keeps env r w = ground arith

heap-destroy_vm :
    (env : StopEnv) (r : SandboxRef) (w : World) (b : ℕ)
    → ((destroy_vm env r w).heap b).vsock_cid ≡ (w.heap b).vsock_cid
unfolding destroy_vm
heap-destroy_vm env r w b = ground arith

destroy_vm_keeps :
    (env : StopEnv) (r : SandboxRef) (w : World)
    → ((destroy_vm env r w).sandboxes ≡ delete r.id w.sandboxes)
      × ((destroy_vm env r w).next_addr ≡ w.next_addr)
      × ((destroy_vm env r w).cid_counter ≡ w.cid_counter)
unfolding destroy_vm
destroy_vm_keeps env r w = ground arith

pub machine_call_keeps :
    (answer : Bool) (r : SandboxRef) (w : World)
    → (CidInv w → CidInv (pause_vm answer r w).0) × (CidInv w → CidInv (resume_vm answer r w).0)
unfolding pause_vm resume_vm
machine_call_keeps answer r w = (λ v. ground arith, λ v. ground arith)

pub stop_vm-CidInv :
    (env : StopEnv) (r : SandboxRef) {w : World} → CidInv w → CidInv (stop_vm env r w).0
stop_vm-CidInv env r {w} v =
    let (s, a, c) = stop_vm_keeps env r w in
    record {
      falling =
          rw (s, a, c)
            (Falling-write _ _ w.heap _ w.sandboxes (λ b _. heap-stop_vm env r w b) v.falling);
      low = rw c v.low;
    }

pub destroy_vm-CidInv :
    (env : StopEnv) (r : SandboxRef) {w : World} → CidInv w → CidInv (destroy_vm env r w)
destroy_vm-CidInv env r {w} v =
    let (s, a, c) = destroy_vm_keeps env r w in
    record {
      falling =
          rw (s, a, c)
            (Falling-write _ _ w.heap _ (delete r.id w.sandboxes) (λ b _. heap-destroy_vm env r w b)
              (Falling-delete r.id _ _ w.heap w.sandboxes v.falling));
      low = rw c v.low;
    }

new_cid :
    (env : CreateEnv) (c : VmConfig) (w : World) (m : Machine)
    → env.mkdir_ok ≡ true
    → env.machine ≡ some m
    → env.start_ok ≡ true
    → cid_of (create_vm env c w).0.heap (created_ref env w) ≡ w.cid_counter
unfolding create_vm
new_cid env c w m d e s = ground arith

old_cid :
    (env : CreateEnv) (c : VmConfig) (w : World) (m : Machine)
    → env.mkdir_ok ≡ true
    → env.machine ≡ some m
    → env.start_ok ≡ true
    → (b : ℕ) → b < w.next_addr
    → ((create_vm env c w).0.heap b).vsock_cid ≡ (w.heap b).vsock_cid
unfolding create_vm
old_cid env c w m d e s b h = ground arith

-- The new entry stands in front, and the older ones keep their CIDs.
created-CidInv :
    (env : CreateEnv) (c : VmConfig) (w : World) (m : Machine)
    → w.cid_counter + 1 < 2 ^ 32
    → env.mkdir_ok ≡ true
    → env.machine ≡ some m
    → env.start_ok ≡ true
    → CidInv w
    → CidInv (create_vm env c w).0
unfolding insert
created-CidInv env c w m small d e s v =
    let w' = (create_vm env c w).0 in
    let r = created_ref env w in
    let facts = λ (a : ℕ). create_vm_lem env c w m a d e s in
    let (_, tracked, _, addr, counter, _) = facts w.next_addr in
    let cid : w'.cid_counter ≡ suc w.cid_counter = omega arith in
    let new : cid_of w'.heap r ≡ w.cid_counter = new_cid env c w m d e s in
    let old : Falling w.cid_counter (suc w.next_addr) w'.heap (delete r.id w.sandboxes) =
      Falling-mono w'.heap _ (omega arith) (omega arith) (
        Falling-write _ w.next_addr w.heap w'.heap _ (old_cid env c w m d e s)
          (Falling-delete r.id _ _ w.heap w.sandboxes v.falling)) in
    let front : Falling (suc w.cid_counter) (suc w.next_addr) w'.heap (insert r.id r w.sandboxes) =
      (
        omega arith,
        omega arith,
        omega arith,
        subst (λ n. Falling n (suc w.next_addr) w'.heap (delete r.id w.sandboxes)) (sym new) old,
      ) in
    record { falling = rw (tracked, cid, addr) front; low = omega arith }

create_vm_failed-CidInv :
    (env : CreateEnv) (c : VmConfig) (w : World)
    → w.cid_counter + 1 < 2 ^ 32
    → (env.mkdir_ok ≡ false) ⊎ (env.machine ≡ none) ⊎ (env.start_ok ≡ false)
    → CidInv w
    → CidInv (create_vm env c w).0
unfolding create_vm
create_vm_failed-CidInv env c w small h v =
    let (_, tracked, heap, counter) = create_vm_failed env c w h in
    let cid : (create_vm env c w).0.cid_counter ≡ suc w.cid_counter = omega arith in
    let addr : (create_vm env c w).0.next_addr ≡ w.next_addr = ground arith in
    record {
      falling =
          rw (tracked, heap, cid, addr)
            (Falling-mono w.heap w.sandboxes (omega arith) (omega arith) v.falling);
      low = omega arith;
    }

pub create_vm-CidInv :
    (env : CreateEnv) (c : VmConfig) {w : World}
    → w.cid_counter + 1 < 2 ^ 32
    → CidInv w
    → CidInv (create_vm env c w).0
create_vm-CidInv env c {w} small v = elim (Bool-cases env.mkdir_ok) [
  | inr d ↦ create_vm_failed-CidInv env c w small (inl d) v
  | inl d ↦ elim (Option-cases env.machine) [
    | inl e ↦ create_vm_failed-CidInv env c w small (inr (inl e)) v
    | inr (m, e) ↦ elim (Bool-cases env.start_ok) [
      | inr s ↦ create_vm_failed-CidInv env c w small (inr (inr s)) v
      | inl s ↦ created-CidInv env c w m small d e s v
    ]
  ]
]
