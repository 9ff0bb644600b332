-- ===== src/Shim/Outcomes.antt =====
-- What State and Delete of pkg/shim/service.go answer, and what Delete does with the VM.
use firecracker_shim.Base.{
  ℕ, arith, insert, ◌≢◌, =?-refl, =?-ne, if_else, lookup-insert, ◌≡◌, refl, ◌∙◌, ap, String, Bool,
  true, false, Option, none, some, if◌then◌else◌, if_then, ◌=?◌, string_eq, lookup, delete,
  lookup-delete,
}
use firecracker_shim.Domain.{SandboxRef}
use firecracker_shim.Vm.World.{Outcome, ok, err, nil_dereference, send_on_closed_channel}
use firecracker_shim.Vm.Pool.{Pool, ReleaseEnv, release, acquire}
use firecracker_shim.Guest.Client.{
  Client, Link, Result, good, bad, create_container, connect, new_client, stop_container,
}
use firecracker_shim.Guest.Client.{start_container}
use firecracker_shim.Shim.Requests.{wait, wait_for}
use firecracker_shim.Shim.{
  TaskEnv, CreateRequest, Reply, init_process, created, connected, acquired, create, after,
  container_spec, StateResponse, context_done, root_config, kill, kill_process, killed, start,
  start_process, set_pid, Process, Service, response, failure, panic, TaskId, process_not_found,
  state, state_of, delete_task, delete_process, remove, release_box, process_id, uint32,
}

module _ {ℓ} {S : Type ℓ} (link : Link S) where
  pool-remove :
      (o : Option Client) (id : String) (s : Service S)
      → (((remove link o id s).pool ≡ s.pool) × ((remove link o id s).sandbox ≡ s.sandbox))
        × ((remove link o id s).processes ≡ s.processes)
  unfolding remove
  pool-remove none id s = ((refl, refl), refl)
  pool-remove (some c) id s = ((refl, refl), refl)

  released :
      (env : ReleaseEnv) (box : SandboxRef) (s : Service S) (p : Pool) (o : Option SandboxRef)
      → o ≡ some box
      → s.pool ≡ p
      → (release env box p).1 ≡ ok tt
      → release_box link env o s
        ≡ (record s { pool = (release env box p).0; sandbox = none }, false)
  unfolding release_box
  released env box s p o e same fine = rw (e, same, fine) refl

  -- Delete of an init process answers with its PID and exit status, removes it and no other process,
  -- and gives the VM of the service back to the pool, so that the service has none any more; if the
  -- pool takes the VM without a panic.
  pub delete_releases :
      (env : ReleaseEnv) (r : TaskId) (p : Process) (box : SandboxRef) (s : Service S) (k : String)
      → r.exec_id ≡ ""
      → lookup r.id s.processes ≡ some p
      → s.sandbox ≡ some box
      → (release env box s.pool).1 ≡ ok tt
      → let (s', o) = delete_task link env r s in
        (o ≡ response (uint32 p.pid, uint32 p.exit_status))
        × (s'.pool ≡ (release env box s.pool).0)
        × (s'.sandbox ≡ none)
        × (lookup k s'.processes ≡ (if r.id =? k then none else lookup k s.processes))
  unfolding delete_task process_id
  delete_releases env r p box s k init known here fine =
      let key = process_id r in
      let is_init : (r.exec_id =? "") ≡ true = ap (λ e. e =? "") init in
      let keyed : key ≡ r.id = if_then _ _ is_init in
      let s1 = remove link s.agent_client p.container_id s in
      let s2 : Service S = record s1 { processes = delete key s1.processes } in
      let kept = pool-remove s.agent_client p.container_id s in
      let found : lookup key s.processes ≡ some p = ap (λ q. lookup q s.processes) keyed ∙ known in
      let back =
        if_then (release_box link env s2.sandbox s2) (s2, false) is_init
        ∙ released env box s2 s.pool s2.sandbox (kept.0.1 ∙ here) kept.0.0 fine in
      let whole : delete_task link env r s ≡ (
        record s2 { pool = (release env box s.pool).0; sandbox = none },
        response (uint32 p.pid, uint32 p.exit_status),
      ) =
        ap (λ o. delete_process link env r o s) found
        ∙ ap
            (λ (x : Service S × Bool).
              (x.0, if x.1 then panic else response (uint32 p.pid, uint32 p.exit_status)))
            back in
      (
        ap (λ x. x.1) whole,
        ap (λ x. x.0.pool) whole,
        ap (λ x. x.0.sandbox) whole,
        ap (λ x. lookup k x.0.processes) whole
            ∙ ap (λ m. lookup k (delete key m)) kept.1
            ∙ lookup-delete key k s.processes
            ∙ ap (λ j. if j =? k then none else lookup k s.processes) keyed,
      )

module _ {ℓ} {S : Type ℓ} (link : Link S) (r : CreateRequest) where
  -- A task was created: its process is known under its ID, and there is a client.
  abbrev Tracked : Service S → Service S × Reply ℕ → Type 0
  Tracked s (s', o) =
      (n : ℕ)
      → o ≡ response n
      → (s'.processes ≡ insert r.id (init_process r) s.processes)
        × ((c : Client) × (s'.agent_client ≡ some c))

  created-Tracked :
      (box : SandboxRef) (x : (Client × S) × Result (Unit {0})) (s : Service S)
      → Tracked s (created link r box x s)
  unfolding created
  created-Tracked box (st, bad e) s = λ n h. ground (arith, h)
  created-Tracked box ((c, g), good u) s = λ n h. (refl, (c, refl))

  connected-Tracked :
      (box : SandboxRef) (x : (Client × S) × Result (Unit {0})) (s : Service S)
      → Tracked s (connected link r box x s)
  unfolding connected
  connected-Tracked box (st, bad e) s = λ n h. ground (arith, h)
  connected-Tracked box (st, good u) s =
      created-Tracked box (create_container link (container_spec r) st) (after st s)

  acquired-Tracked :
      (env : TaskEnv) (x : Pool × Outcome SandboxRef) (s : Service S)
      → Tracked s (acquired link env r x s)
  unfolding acquired
  acquired-Tracked env (p, ok box) s =
      connected-Tracked box (connect link env.dialled env.context_ends (new_client, s.guest))
        (record s { pool = p; sandbox = some box; bundle = r.bundle })
  acquired-Tracked env (p, err e) s = λ n h. ground (arith, h)
  acquired-Tracked env (p, nil_dereference) s = λ n h. ground (arith, h)
  acquired-Tracked env (p, send_on_closed_channel) s = λ n h. ground (arith, h)

  create-Tracked : (env : TaskEnv) (s : Service S) → Tracked s (create link env r s)
  unfolding create
  create-Tracked env s = acquired-Tracked env (acquire env.acquire (root_config r.rootfs) s.pool) s

module _ {ℓ} {S : Type ℓ} (link : Link S) where
  kill-known :
      (t : TaskId) (p : Process) (c : Client) (s : Service S)
      → lookup (process_id t) s.processes ≡ some p
      → s.agent_client ≡ some c
      → (kill link t s).1 ≡ killed (stop_container link p.container_id 30000000000 (c, s.guest)).1
  unfolding kill kill_process
  kill-known t p c s known here = rw (known, here) refl

  start-known :
      (t : TaskId) (p : Process) (c : Client) (s : Service S)
      → lookup (process_id t) s.processes ≡ some p
      → s.agent_client ≡ some c
      → start link t s
        ≡ set_pid link (process_id t) p (start_container link p.container_id (c, s.guest)) s
  unfolding start start_process
  start-known t p c s known here = rw (known, here) refl

  -- When Create of a task has succeeded, under an ID that is not empty, in a service in which no
  -- process has the empty ID: Wait, Kill and Start of the task, with its ID and no ExecID, find its
  -- process, as Wait waits until the context is done, Kill answers what the agent answers to a stop of
  -- that container, and Start with what the agent answers to its start; but State of the same task
  -- reports that there is no process, and finds it only when the ExecID is the ID.
  pub state_misses_init :
      (env : TaskEnv) (r : CreateRequest) (s : Service S) (n : ℕ)
      → r.id ≢ ""
      → lookup "" s.processes ≡ none
      → (create link env r s).1 ≡ response n
      → let s' = (create link env r s).0 in
        let t : TaskId = record { id = r.id; exec_id = "" } in
        (state t s' ≡ failure (process_not_found ""))
        × ((x : StateResponse) × (state (record { id = r.id; exec_id = r.id }) s' ≡ response x)
            × (x.id ≡ r.id))
        × (wait t s' ≡ failure context_done)
        × ((c : Client) × (s'.agent_client ≡ some c)
            × ((kill link t s').1 ≡ killed (stop_container link r.id 30000000000 (c, s'.guest)).1)
            × (start link t s'
                ≡ set_pid link r.id (init_process r) (start_container link r.id (c, s'.guest)) s'))
  unfolding state wait init_process process_id
  state_misses_init env r s n named free fine =
      let s' = (create link env r s).0 in
      let t : TaskId = record { id = r.id; exec_id = "" } in
      let (map, (c, here)) = create-Tracked link r env s n fine in
      let keyed : process_id t ≡ r.id =
        if_then {b = ◌=?◌ {A = String} "" ""} r.id "" (=?-refl {K = String} "") in
      let known : lookup r.id s'.processes ≡ some (init_process r) =
        ap (lookup r.id) map
        ∙ lookup-insert r.id r.id (init_process r) s.processes
        ∙ if_then _ _ (=?-refl r.id) in
      let empty : lookup "" s'.processes ≡ none =
        ap (lookup "") map
        ∙ lookup-insert r.id "" (init_process r) s.processes
        ∙ if_else _ _ (=?-ne r.id "" named)
        ∙ free in
      let found : lookup (process_id t) s'.processes ≡ some (init_process r) =
        ap (λ k. lookup k s'.processes) keyed ∙ known in
      (
        ap (λ o. state_of "" o s') empty,
        (_, ap (λ o. state_of r.id o s') known, refl),
        ap (wait_for (process_id t)) found,
        (
          c,
          here,
          kill-known t (init_process r) c s' found here,
          start-known t (init_process r) c s' found here
              ∙ ap
                  (λ k.
                    set_pid link k (init_process r) (start_container link r.id (c, s'.guest)) s')
                  keyed,
        ),
      )
