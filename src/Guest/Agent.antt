-- ===== src/Guest/Agent.antt =====
-- The guest agent of cmd/fc-agent/main.go. A request is handled as one step; what `runc`, the clock
-- and the file system answer is an argument. The commands run are recorded, newest first.
pub mod Lifecycle
use firecracker_shim.Base.{
  ℕ, ◌≡◌, String, Bool, Option, none, some, List, [], ◌∷◌, ◌++◌, if◌then◌else◌, ◌=?◌, string_eq,
  ◌==◌, lookup, insert, delete, ◌||◌, true, false, ◌*◌, ◌<◌,
}
use firecracker_shim.Guest.Protocol.{
  Value, Params, Request, Answer, status, pid, exec, usage, Fault, id_required,
  id_and_command_required, method_not_found, dir_failed, runc_create_failed, runc_start_failed,
  pid_unreadable, pid_unparsable, exec_failed, already_exists, not_found, Response, string_param,
  number_param, words_param,
}

pub record Container : Type 0 where
  pub id : String
  pub bundle : String
  pub pid : ℕ
  pub status : String
  pub created : ℕ

pub data Command : Type 0 where
  make_dir remove_dir : String → Command
  runc_create : String → String → Command
  runc_start runc_state runc_delete : String → Command
  runc_kill : String → String → Command
  runc_exec : String → List String → ℕ → Command

pub record Agent : Type 0 where
  pub containers : List (String × Container)
  pub commands : List Command

pub data PidFile : Type 0 where
  unreadable unparsable : PidFile
  holds : ℕ → PidFile

-- How a command ran: to an exit code with its outputs, or not at all.
pub data Ran : Type 0 where
  exited : ℕ → String → String → Ran
  not_run : Ran

-- `polls` are the states that `runc state` reports before the deadline of a stop: the clock and the
-- requested time decide how many there are.
pub record GuestEnv : Type 0 where
  pub now : ℕ
  pub mkdir_ok : Bool
  pub create_ok : Bool
  pub start_ok : Bool
  pub pid_file : PidFile
  pub polls : List String
  pub ran : Ran
  pub cpu_usage : ℕ
  pub memory_usage : ℕ

-- What a handler returns: a result or an error.
pub data Handled : Type 0 where
  done : Answer → Handled
  fault : Fault → Handled

abbrev pub run : Command → Agent → Agent
run x a = record a { commands = x ∷ a.commands }

unfoldable pub new_agent : Agent
new_agent = record { containers = []; commands = [] }

-- `createContainer` for an ID that is not taken.
unfoldable pub create_new : GuestEnv → String → String → Agent → Agent × Handled
create_new env id bundle a =
    let a1 = run (make_dir id) a in
    let a2 = run (runc_create id bundle) a1 in
    let c : Container = record {
      id = id;
      bundle = bundle;
      pid = 0;
      status = "created";
      created = env.now;
    } in
    if env.mkdir_ok
    then (if env.create_ok
        then (record a2 { containers = insert id c a2.containers }, done (status "created"))
        else (a2, fault runc_create_failed))
    else (a1, fault dir_failed)

abbrev pub is_some {ℓ} : {A : Type ℓ} → Option A → Bool
is_some none = false
is_some (some _) = true

unfoldable pub create_container : GuestEnv → Params → Agent → Agent × Handled
unfolding create_new string_param
create_container env ps a =
    let id = string_param "id" ps in
    if id =? ""
    then (a, fault id_required)
    else if is_some (lookup id a.containers)
    then (a, fault (already_exists id))
    else create_new env id (string_param "bundle" ps) a

-- `startContainer` from the reading of the pid file on. The container is the one in the map.
unfoldable pub started : PidFile → String → Container → Agent → Agent × Handled
started unreadable id c a = (a, fault pid_unreadable)
started unparsable id c a = (a, fault pid_unparsable)
started (holds n) id c a = (
  record a { containers = insert id (record c { pid = n; status = "running" }) a.containers },
  done (pid n),
)

unfoldable pub start_found : GuestEnv → String → Option Container → Agent → Agent × Handled
unfolding started
start_found env id none a = (a, fault (not_found id))
start_found env id (some c) a =
    let a' = run (runc_start id) a in
    if env.start_ok then started env.pid_file id c a' else (a', fault runc_start_failed)

unfoldable pub start_container : GuestEnv → Params → Agent → Agent × Handled
unfolding start_found string_param
start_container env ps a =
    let id = string_param "id" ps in
    if id =? "" then (a, fault id_required) else start_found env id (lookup id a.containers) a

-- The wait loop of a stop: it asks for the state until that is "stopped" or the time is up.
unfoldable pub await_stop : String → List String → Agent → Agent
await_stop id [] a = a
await_stop id (seen ∷ rest) a =
    let a' = run (runc_state id) a in
    let later = await_stop id rest a' in if seen =? "stopped" then a' else later

abbrev pub mark_stopped : String → Option Container → Agent → Agent
mark_stopped id none a = a
mark_stopped id (some c) a = record a {
  containers = insert id (record c { status = "stopped" }) a.containers;
}

unfoldable pub stop_container : GuestEnv → Params → Agent → Agent × Handled
unfolding await_stop string_param
stop_container env ps a =
    let id = string_param "id" ps in
    let a1 = await_stop id env.polls (run (runc_kill id "SIGTERM") a) in
    let a2 = run (runc_kill id "SIGKILL") a1 in
    if id =? ""
    then (a, fault id_required)
    else (mark_stopped id (lookup id a2.containers) a2, done (status "stopped"))

unfoldable pub remove_container : GuestEnv → Params → Agent → Agent × Handled
unfolding string_param
remove_container env ps a =
    let id = string_param "id" ps in
    let a' = run (remove_dir id) (run (runc_delete id) a) in
    if id =? ""
    then (a, fault id_required)
    else (record a' { containers = delete id a'.containers }, done (status "removed"))

abbrev is_empty : List String → Bool
is_empty [] = true
is_empty (_ ∷ _) = false

abbrev pub exec_answer : Ran → Handled
exec_answer (exited code out errors) = done (exec code out errors)
exec_answer not_run = fault exec_failed

unfoldable pub exec_sync : GuestEnv → Params → Agent → Agent × Handled
unfolding string_param words_param number_param
exec_sync env ps a =
    let id = string_param "id" ps in
    let cmd = words_param "cmd" ps in
    let timeout = number_param "timeout" ps in
    if (id =? "") || is_empty cmd
    then (a, fault id_and_command_required)
    else (run (runc_exec id cmd (if timeout == 0 then 30 else timeout)) a, exec_answer env.ran)

unfoldable pub get_stats : GuestEnv → Params → Agent → Agent × Handled
unfolding string_param
get_stats env ps a =
    if string_param "id" ps =? ""
    then (a, fault id_required)
    else (a, done (usage env.cpu_usage env.memory_usage))

-- The cases of the `switch` of `handleRequest`.
pub data Method : Type 0 where
  ping_method create_method start_method stop_method remove_method : Method
  exec_method stats_method unknown_method : Method

unfoldable pub method_of : String → Method
method_of m =
    if m =? "ping"
    then ping_method
    else if m =? "create_container"
    then create_method
    else if m =? "start_container"
    then start_method
    else if m =? "stop_container"
    then stop_method
    else if m =? "remove_container"
    then remove_method
    else if m =? "exec_sync"
    then exec_method
    else if m =? "get_stats"
    then stats_method
    else unknown_method

unfoldable pub dispatch : GuestEnv → Method → Params → Agent → Agent × Handled
unfolding create_container start_container stop_container remove_container exec_sync get_stats
dispatch env ping_method ps a = (a, done (status "ok"))
dispatch env create_method ps a = create_container env ps a
dispatch env start_method ps a = start_container env ps a
dispatch env stop_method ps a = stop_container env ps a
dispatch env remove_method ps a = remove_container env ps a
dispatch env exec_method ps a = exec_sync env ps a
dispatch env stats_method ps a = get_stats env ps a
dispatch env unknown_method ps a = (a, fault method_not_found)

abbrev pub respond : ℕ → Handled → Response
respond n (done x) = record { id = n; result = some x; error = none }
respond n (fault e) = record { id = n; result = none; error = some e }

unfoldable pub handle_request : GuestEnv → Request → Agent → Agent × Response
unfolding dispatch method_of
handle_request env req a =
    let (a', h) = dispatch env (method_of req.method) req.params a in (a', respond req.id h)
