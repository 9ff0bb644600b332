-- ===== src/Examples/Shim.antt =====
-- Runs of the task service.
use firecracker_shim.Base.{
  ne_of_test, ◌⊎◌, ◌≡◌, refl, ◌≢◌, true, false, none, some, [], ◌∷◌, lookup, string_eq,
  if◌then◌else◌, ◌=?◌,
}
use firecracker_shim.Guest.Agent.{handle_request, Agent, new_agent}
use firecracker_shim.Guest.Client.{
  connect, new_client, create_container, Client, stop_container, start_container,
}
use firecracker_shim.Guest.Client.Remote.{agent_link}
use firecracker_shim.Shim.{
  killed, set_pid, init_process, Service, failure, response, panic, delete_task, TaskId,
  CreateRequest, TaskEnv, Process, StateResponse, status_stopped, context_done, process_not_found,
  new_service, create, start, kill, state, process_id,
}
use firecracker_shim.Shim.Requests.{wait, pause}
use firecracker_shim.Shim.Exits.{exit_unseen, no_request, then_request, task, pauses}
use firecracker_shim.Shim.Tasks.{here, next, creates, starts, start_kill_never_panic}
use firecracker_shim.Shim.Outcomes.{state_misses_init, delete_releases}
use firecracker_shim.Examples.Pool.{call, fresh, busy, back, vm_10}
use firecracker_shim.Vm.Pool.{release, acquire, new_pool}
use firecracker_shim.Vm.Manager.{create_vm, new_manager}
use firecracker_shim.Examples.Guest.{guest}

abbrev idle : Service Agent
idle = new_service fresh new_agent

abbrev request : CreateRequest
request = record {
  id = "web";
  bundle = "/bundle";
  rootfs = "/images/web" ∷ [];
  stdin = "";
  stdout = "/out";
  stderr = "";
  terminal = false;
}

abbrev task_env : TaskEnv
task_env = record { acquire = call 10; dialled = true; context_ends = λ i. false }

abbrev web_task : TaskId
web_task = record { id = "web"; exec_id = "" }

abbrev ready : Service Agent
ready = (create (agent_link guest) task_env request idle).0

abbrev serving : Service Agent
serving = (start (agent_link guest) web_task ready).0

start_kill_never_panic_example :
    ((start (agent_link guest) web_task serving).1 ≢ panic)
    × ((kill (agent_link guest) web_task serving).1 ≢ panic)
start_kill_never_panic_example =
    start_kill_never_panic (agent_link guest) fresh new_agent web_task
      (next (next here (creates task_env request idle)) (starts web_task ready))

abbrev web_process : Process
web_process = record {
  id = "web";
  container_id = "web";
  pid = 12;
  exit_status = 0;
  exited_at = 0;
  stdin = "";
  stdout = "";
  stderr = "";
  terminal = false;
}

abbrev one_task : Service Agent
one_task = record idle { processes = ("web", web_process) ∷ [] }

state_misses_init_example :
    let s' = (create (agent_link guest) task_env request idle).0 in
    let t : TaskId = record { id = "web"; exec_id = "" } in
    (state t s' ≡ failure (process_not_found ""))
    × ((x : StateResponse) × (state (record { id = "web"; exec_id = "web" }) s' ≡ response x)
        × (x.id ≡ "web"))
    × (wait t s' ≡ failure context_done)
    × ((c : Client) × (s'.agent_client ≡ some c)
        × ((kill (agent_link guest) t s').1
            ≡ killed (stop_container (agent_link guest) "web" 30000000000 (c, s'.guest)).1)
        × (start (agent_link guest) t s'
            ≡ set_pid
                (agent_link guest)
                "web"
                (init_process request)
                (start_container (agent_link guest) "web" (c, s'.guest))
                s'))
unfolding lookup create new_service acquire new_pool create_vm connect handle_request new_client
    create_container new_agent new_manager
state_misses_init_example =
    state_misses_init (agent_link guest) task_env request idle 41 (ne_of_test "web" "" refl) refl
      refl

abbrev working : Service Agent
working = record one_task { pool = busy; sandbox = some vm_10 }

delete_releases_example :
    let (s', o) = delete_task (agent_link guest) back web_task working in
    (o ≡ response (12, 0))
    × (s'.pool ≡ (release back vm_10 busy).0)
    × (s'.sandbox ≡ none)
    × (lookup "web" s'.processes
        ≡ (if web_task.id =? "web" then none else lookup "web" working.processes))
unfolding lookup release acquire create_vm new_manager new_pool
delete_releases_example =
    delete_releases (agent_link guest) back web_task web_process vm_10 working "web" refl refl refl
      refl

abbrev told_stopped : StateResponse
told_stopped = record {
  id = "web";
  bundle = "";
  pid = 0;
  status = status_stopped;
  stdin = "";
  stdout = "";
  stderr = "";
  terminal = false;
  exit_status = 0;
  exited_at = 0;
}

-- A task is created and started, and the VM is paused.
abbrev halted : Service Agent
halted = (pause true serving).0

exit_unseen_example :
    ((wait web_task halted ≡ failure (process_not_found "web"))
      ⊎ (wait web_task halted ≡ failure context_done))
    × (state web_task halted ≢ response told_stopped)
unfolding process_id
exit_unseen_example = exit_unseen (agent_link guest) fresh new_agent web_task told_stopped (
    then_request
      (then_request (then_request no_request (task (creates task_env request idle)))
        (task (starts web_task ready)))
      (pauses true serving))
