-- ===== src/Cli.antt =====
-- cmd/fcctl/main.go: how the command line tool finds sandboxes, kills them and cleans up.
pub mod Cleanup
use firecracker_shim.Base.{
  ℕ, Bool, true, false, ◌&&◌, ◌||◌, not, Option, none, some, List, [], ◌∷◌, ◌++◌, if◌then◌else◌,
  ◌=?◌,
}
use firecracker_shim.Base.Int.{ℤ, pos, ltb_ℤ}
use firecracker_shim.Base.Text.{Text, codes, text_eq, after_prefix, is_nil}

-- `SandboxInfo`, without the uptime, which is printed only.
pub record SandboxInfo : Type 0 where
  pub id : Text
  pub state : Text
  pub pid : ℤ
  pub vcpus : ℤ
  pub memory_mb : ℤ
  pub socket_ok : Bool
  pub created_at : ℕ

-- `VMState`.
pub record VmState : Type 0 where
  pub state : Text
  pub vcpus : ℤ
  pub memory_mb : ℤ

-- What the system answers about the sandbox of an ID, and about a process.
pub record Host : Type 0 where
  pub entries : Option (List (Text × Bool))  -- the names in the run directory, with `IsDir`
  pub no_run_dir : Bool  -- the error is that it does not exist
  pub has_socket : Text → Bool
  pub vm_state : Text → Option VmState  -- the answer of the API at the socket
  pub pid_file : Text → Option ℤ  -- the number in the file, 0 where there is none
  pub finds : ℤ → Bool  -- `os.FindProcess`
  pub alive : ℤ → Bool  -- signal 0 can be sent
  pub modified : Text → Option ℕ
  pub kill_ok : ℤ → Bool
  pub sort : List SandboxInfo → List SandboxInfo  -- `sort.Slice`, the newest first

-- Calls of `Kill` and of `RemoveAll`, whatever they answer, newest first in a list.
pub data CliEffect : Type 0 where
  killed_process : ℤ → CliEffect
  removed_dir : Text → CliEffect

pub data CliError : Type 0 where
  usage unreadable sandbox_not_found process_not_found kill_failed : CliError

abbrev pub no_info : Text → Bool → SandboxInfo
no_info id socket_ok = record {
  id = id;
  state = codes "unknown";
  pid = pos 0;
  vcpus = pos 0;
  memory_mb = pos 0;
  socket_ok = socket_ok;
  created_at = 0;
}

abbrev pub with_state : Option VmState → SandboxInfo → SandboxInfo
with_state none i = i
with_state (some s) i = record i { state = s.state; vcpus = s.vcpus; memory_mb = s.memory_mb }

abbrev pub with_pid : Option ℤ → SandboxInfo → SandboxInfo
with_pid none i = i
with_pid (some n) i = record i { pid = n }

-- A process that is there makes an unknown state `running`, and one that is not makes any `dead`.
abbrev pub with_process : Host → SandboxInfo → SandboxInfo
with_process h i =
    if not (ltb_ℤ (pos 0) i.pid && h.finds i.pid)
    then i
    else if not (h.alive i.pid)
    then record i { state = codes "dead" }
    else if i.state =? codes "unknown"
    then record i { state = codes "running" }
    else i

abbrev pub with_time : Option ℕ → SandboxInfo → SandboxInfo
with_time none i = i
with_time (some t) i = record i { created_at = t }

-- `getSandboxInfo`.
unfoldable pub get_sandbox_info : Host → Text → SandboxInfo
get_sandbox_info h id =
    let socket = h.has_socket id in
    let api = if socket then h.vm_state id else none in
    with_time (h.modified id)
      (with_process h (with_pid (h.pid_file id) (with_state api (no_info id socket))))

abbrev pub is_none {ℓ} : {A : Type ℓ} → Option A → Bool
is_none none = true
is_none (some a) = false

abbrev pub has_prefix : Text → Text → Bool
has_prefix p s = not (is_none (after_prefix p s))

abbrev pub infos : Host → List (Text × Bool) → List SandboxInfo
infos h [] = []
infos h ((name, is_dir) ∷ rest) =
    let others = infos h rest in
    if is_dir && has_prefix (codes "fc-") name then get_sandbox_info h name ∷ others else others

abbrev pub sorted_infos : Host → Option (List (Text × Bool)) → Option (List SandboxInfo)
sorted_infos h none = if h.no_run_dir then some [] else none
sorted_infos h (some names) = some (h.sort (infos h names))

-- `discoverSandboxes`; `none` is its error.
unfoldable pub discover_sandboxes : Host → Option (List SandboxInfo)
discover_sandboxes h = sorted_infos h h.entries

-- `cmdKill`, for a sandbox whose directory is there or not.
unfoldable pub cmd_kill :
    Host → Bool → List Text → List CliEffect → List CliEffect × Option CliError
cmd_kill h there [] fx = (fx, some usage)
cmd_kill h there (id ∷ args) fx =
    let i = get_sandbox_info h id in
    if not there
    then (fx, some sandbox_not_found)
    else if not (ltb_ℤ (pos 0) i.pid)
    then (fx, none)
    else if not (h.finds i.pid)
    then (fx, some process_not_found)
    else (killed_process i.pid ∷ fx, if h.kill_ok i.pid then none else some kill_failed)

abbrev pub is_orphan : SandboxInfo → Bool
is_orphan i = i.state =? codes "dead" || i.state =? codes "unknown"

-- The sandboxes that `cmdCleanup` lists.
unfoldable pub orphans : List SandboxInfo → List SandboxInfo
orphans [] = []
orphans (i ∷ is) = let rest = orphans is in if is_orphan i then i ∷ rest else rest

-- The loop that cleans up: the errors of the two calls are printed or dropped.
unfoldable pub clean_each : Host → List SandboxInfo → List CliEffect → List CliEffect
clean_each h [] fx = fx
clean_each h (i ∷ is) fx =
    let killed = if ltb_ℤ (pos 0) i.pid && h.finds i.pid then killed_process i.pid ∷ fx else fx in
    clean_each h is (removed_dir i.id ∷ killed)

abbrev pub is_dry_run : List Text → Bool
is_dry_run [] = false
is_dry_run (a ∷ args) =
    let rest = is_dry_run args in a =? codes "--dry-run" || a =? codes "-n" || rest

abbrev pub confirmed : Text → Bool
confirmed answer = answer =? codes "y" || answer =? codes "Y"

abbrev pub clean_found :
    Host
    → List Text
    → Text
    → Option (List SandboxInfo)
    → List CliEffect
    → List CliEffect × Option CliError
unfolding orphans clean_each
clean_found h args answer none fx = (fx, some unreadable)
clean_found h args answer (some found) fx =
    if is_dry_run args || not (confirmed answer)
    then (fx, none)
    else (clean_each h (orphans found) fx, none)

-- `cmdCleanup`, with what the user types at the question. Where there is no orphan it asks nothing.
unfoldable pub cmd_cleanup :
    Host → List Text → Text → List CliEffect → List CliEffect × Option CliError
unfolding discover_sandboxes clean_found
cmd_cleanup h args answer fx = clean_found h args answer (discover_sandboxes h) fx
