-- ===== src/Examples/Guest.antt =====
-- Runs of the guest agent and of its client.
use firecracker_shim.Base.{
  ◌+◌, ◌%◌, ◌^◌, ◌≡◌, refl, ◌⊎◌, String, true, false, none, some, [], ◌∷◌, if◌then◌else◌, ◌=?◌,
  string_eq, lookup, ne_of_test,
}
use firecracker_shim.Guest.Protocol.{str, status, string_param, Request, Response, Answer, Fault}
use firecracker_shim.Guest.Agent.{
  Agent, GuestEnv, holds, exited, new_agent, handle_request, method_of,
}
use firecracker_shim.Guest.Agent.Lifecycle.{Moves, handle_request-Moves, handle_request_frame}
use firecracker_shim.Guest.Client.{
  Client, ContainerSpec, call, create_container, start_container, good,
}
use firecracker_shim.Guest.Client.Remote.{agent_link, call_matches, create_start_runs}

abbrev pub guest : GuestEnv
guest = record {
  now = 100;
  mkdir_ok = true;
  create_ok = true;
  start_ok = true;
  pid_file = holds 12;
  polls = "running" ∷ "stopped" ∷ [];
  ran = exited 0 "out" "";
  cpu_usage = 5;
  memory_usage = 6;
}

abbrev web : ContainerSpec
web = record {
  id = "web";
  bundle_path = "/bundle";
  stdin = false;
  stdout = true;
  stderr = true;
  terminal = false;
}

abbrev online : Client
online = record { connected = true; request_id = 4 }

abbrev ask : String → Request
ask method = record { id = 9; method = method; params = ("id", str "web") ∷ [] }

abbrev with_web : Agent
with_web = (handle_request guest (ask "create_container") new_agent).0

handle_request-Moves_example :
    let (a', resp) = handle_request guest (ask "stop_container") with_web in
    Moves "web"
      (method_of "stop_container")
      resp.result
      (lookup "web" with_web.containers)
      (lookup "web" a'.containers)
unfolding string_param lookup
handle_request-Moves_example = handle_request-Moves guest (ask "stop_container") with_web

handle_request_frame_example :
    let (a', resp) = handle_request guest (ask "remove_container") with_web in
    (lookup "db" a'.containers ≡ lookup "db" with_web.containers)
    × (resp.id ≡ 9)
    × (((x : Answer) × (resp.result ≡ some x) × (resp.error ≡ none))
        ⊎ ((e : Fault) × (resp.result ≡ none) × (resp.error ≡ some e)))
unfolding string_param lookup
handle_request_frame_example =
    handle_request_frame guest (ask "remove_container") with_web "db" (ne_of_test "web" "db" refl)

abbrev r_5 : Response
r_5 = record { id = 5; result = some (status "ok"); error = none }

call_matches_example :
    let n = (call (agent_link guest) "ping" [] (online, new_agent)).0.0.request_id in
    (r_5.id ≡ n) × (r_5.id ≡ (4 + 1) % 2 ^ 64)
unfolding call handle_request
call_matches_example = call_matches (agent_link guest) "ping" [] online new_agent r_5 refl

create_start_runs_example :
    let (st, r) = create_container (agent_link guest) web (online, new_agent) in
    let (st', r') = start_container (agent_link guest) "web" st in
    (r ≡ good tt)
    × (r' ≡ good 12)
    × (lookup "web" st'.1.containers ≡ (
        if web.id =? "web"
        then some
            (record { id = "web"; bundle = "/bundle"; pid = 12; status = "running"; created = 100 })
        else lookup "web" new_agent.containers))
unfolding new_agent lookup
create_start_runs_example =
    create_start_runs guest web online new_agent 12 "web" refl (ne_of_test "web" "" refl) refl refl
      refl refl refl
