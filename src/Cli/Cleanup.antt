-- ===== src/Cli/Cleanup.antt =====
-- What a clean-up of cmd/fcctl/main.go may kill.
use firecracker_shim.Base.{
  ℕ, Bool, true, false, ◌&&◌, ◌||◌, not, Option, none, some, List, [], ◌∷◌, if◌then◌else◌, ◌=?◌,
  ◌≡◌, refl, arith, All, choose, ap, Bool-cases, inl, inr, subst, sym, if_then, if_else,
}
use firecracker_shim.Base.Int.{ℤ, pos, ltb_ℤ}
use firecracker_shim.Base.Text.{Text, codes, text_eq}
use firecracker_shim.Cli.{
  SandboxInfo, VmState, Host, CliEffect, CliError, killed_process, removed_dir, with_state,
  with_pid, with_process, with_time, is_dry_run, confirmed, sorted_infos, no_info, has_prefix,
  infos, get_sandbox_info, discover_sandboxes, is_orphan, orphans, clean_each, clean_found,
  cmd_cleanup,
}

-- Neither the process of an orphan that is found, nor one that a clean-up killed, is alive.
abbrev pub Gone : Host → SandboxInfo → Type 0
Gone h i =
    is_orphan i ≡ true → (ltb_ℤ (pos 0) i.pid && h.finds i.pid) ≡ true → h.alive i.pid ≡ false

abbrev pub Killed : Host → CliEffect → Type 0
Killed h (killed_process n) = h.alive n ≡ false
Killed h (removed_dir d) = Unit {0}

running-Gone :
    (h : Host) (i : SandboxInfo) (known alive unknown : Bool)
    → (i.state =? codes "dead") ≡ false
    → (ltb_ℤ (pos 0) i.pid && h.finds i.pid) ≡ known
    → h.alive i.pid ≡ alive
    → (i.state =? codes "unknown") ≡ unknown
    → Gone h (
        if not known
        then i
        else if not alive
        then record i { state = codes "dead" }
        else if unknown
        then record i { state = codes "running" }
        else i)
running-Gone h i false alive unknown s k a u o f = ground (arith, f, k)
running-Gone h i true false unknown s k a u o f = a
running-Gone h i true true true s k a u o f = ground (arith, o)
running-Gone h i true true false s k a u o f = ground (arith, o, s, u)

with_process-Gone :
    (h : Host) (i : SandboxInfo) → (i.state =? codes "dead") ≡ false → Gone h (with_process h i)
with_process-Gone h i s = running-Gone h i _ _ _ s refl refl refl

with_time-Gone : (h : Host) (t : Option ℕ) (i : SandboxInfo) → Gone h i → Gone h (with_time t i)
with_time-Gone h none i g = g
with_time-Gone h (some t) i g = g

-- The API does not call a machine that it answers for dead.
abbrev pub Answers : Option VmState → Type 0
Answers none = Unit {0}
Answers (some s) = (s.state =? codes "dead") ≡ false

with_pid-state : (n : Option ℤ) (i : SandboxInfo) → (with_pid n i).state ≡ i.state
with_pid-state none i = refl
with_pid-state (some n) i = refl

info-Gone :
    (h : Host) (api : Option VmState) (n : Option ℤ) (t : Option ℕ) (i : SandboxInfo)
    → (i.state =? codes "dead") ≡ false
    → Answers api
    → Gone h (with_time t (with_process h (with_pid n (with_state api i))))
info-Gone h none none t i e a = with_time-Gone h t _ (with_process-Gone h i e)
info-Gone h none (some n) t i e a =
    with_time-Gone h t _ (with_process-Gone h (record i { pid = n }) e)
info-Gone h (some s) none t i e a =
    with_time-Gone h t _ (with_process-Gone h (with_state (some s) i) a)
info-Gone h (some s) (some n) t i e a =
    with_time-Gone h t _ (with_process-Gone h (with_pid (some n) (with_state (some s) i)) a)

get_sandbox_info-Gone :
    (h : Host) (id : Text) → Answers (h.vm_state id) → Gone h (get_sandbox_info h id)
unfolding get_sandbox_info
get_sandbox_info-Gone h id a =
    info-Gone h (if h.has_socket id then h.vm_state id else none) (h.pid_file id) (h.modified id)
      (no_info id (h.has_socket id)) refl (choose Answers (h.has_socket id) _ _ a tt)

infos-Gone :
    (h : Host) (names : List (Text × Bool))
    → ((id : Text) → Answers (h.vm_state id))
    → All (Gone h) (infos h names)
infos-Gone h [] a = tt
infos-Gone h ((name, d) ∷ rest) a =
    choose (All (Gone h)) (d && has_prefix (codes "fc-") name) _ _
      (get_sandbox_info-Gone h name (a name), infos-Gone h rest a) (infos-Gone h rest a)

clean_one :
    (h : Host) (i : SandboxInfo) (fx : List CliEffect)
    → Gone h i
    → is_orphan i ≡ true
    → All (Killed h) fx
    → All (Killed h) (
        removed_dir i.id
        ∷ (if ltb_ℤ (pos 0) i.pid && h.finds i.pid then killed_process i.pid ∷ fx else fx))
clean_one h i fx g o k = elim (Bool-cases (ltb_ℤ (pos 0) i.pid && h.finds i.pid)) [
  | inl f ↦ (tt, subst (All (Killed h)) (sym (if_then (killed_process i.pid ∷ fx) fx f)) (g o f, k))
  | inr f ↦ (tt, subst (All (Killed h)) (sym (if_else (killed_process i.pid ∷ fx) fx f)) k)
]

clean_orphans :
    (h : Host) (is : List SandboxInfo) (fx : List CliEffect)
    → All (Gone h) is
    → All (Killed h) fx
    → All (Killed h) (clean_each h (orphans is) fx)
unfolding orphans clean_each
clean_orphans h [] fx g k = k
clean_orphans h (i ∷ is) fx g k = elim (Bool-cases (is_orphan i)) [
  | inl o ↦
      subst (λ x. All (Killed h) (clean_each h x fx)) (sym (if_then _ _ o))
        (clean_orphans h is _ g.1 (clean_one h i fx g.0 o k))
  | inr o ↦
      subst (λ x. All (Killed h) (clean_each h x fx)) (sym (if_else _ _ o))
        (clean_orphans h is fx g.1 k)
]

-- Sorting puts nothing into a list that was not there.
abbrev pub Keeps : (List SandboxInfo → List SandboxInfo) → Type 1
Keeps sort = (P : SandboxInfo → Type 0) (is : List SandboxInfo) → All P is → All P (sort is)

found_spares :
    (h : Host) (args : List Text) (answer : Text) (is : List SandboxInfo)
    → All (Gone h) is
    → All (Killed h) (clean_found h args answer (some is) []).0
unfolding clean_found
found_spares h args answer is g =
    choose (λ (x : List CliEffect × Option CliError). All (Killed h) x.0)
      (is_dry_run args || not (confirmed answer)) _ _ tt (clean_orphans h is [] g tt)

sorted_spares :
    (h : Host) (args : List Text) (answer : Text) (names : Option (List (Text × Bool)))
    → ((id : Text) → Answers (h.vm_state id))
    → Keeps h.sort
    → All (Killed h) (clean_found h args answer (sorted_infos h names) []).0
unfolding clean_found orphans clean_each
sorted_spares h args answer (some names) a k =
    found_spares h args answer (h.sort (infos h names))
      (k (Gone h) (infos h names) (infos-Gone h names a))
sorted_spares h args answer none a k = elim (Bool-cases h.no_run_dir) [
  | inl b ↦
      subst (λ x. All (Killed h) (clean_found h args answer x []).0) (sym (if_then _ _ b))
        (found_spares h args answer [] tt)
  | inr b ↦ subst (λ x. All (Killed h) (clean_found h args answer x []).0) (sym (if_else _ _ b)) tt
]

aborts :
    (h : Host) (args : List Text) (answer : Text) (found : Option (List SandboxInfo))
    → (is_dry_run args || not (confirmed answer)) ≡ true
    → (clean_found h args answer found []).0 ≡ []
unfolding clean_found
aborts h args answer none e = refl
aborts h args answer (some is) e =
    ap (λ (x : List CliEffect × Option CliError). x.0) (if_then _ _ e)

-- However many sandboxes there are, `fcctl cleanup` kills no process that a signal reaches, as long
-- as the API calls no machine dead and the sort adds nothing to the list; and it kills and removes
-- nothing on a dry run or without a `y`.
pub cmd_cleanup_spares :
    (h : Host) (args : List Text) (answer : Text)
    → ((id : Text) → Answers (h.vm_state id))
    → Keeps h.sort
    → All (Killed h) (cmd_cleanup h args answer []).0
      × ((is_dry_run args || not (confirmed answer)) ≡ true → (cmd_cleanup h args answer []).0 ≡ [])
unfolding cmd_cleanup discover_sandboxes
cmd_cleanup_spares h args answer a k =
    (sorted_spares h args answer h.entries a k, aborts h args answer (sorted_infos h h.entries))
