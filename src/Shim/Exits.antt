-- ===== src/Shim/Exits.antt =====
-- The exit of a task, as the requests of pkg/shim/service.go tell of it.
use firecracker_shim.Base.{
  choose, ℕ, ◌≡◌, ◌≢◌, refl, sym, ap, subst, ◌⊎◌, inl, inr, String, Bool, false, Option, none, some,
  List, [], ◌∷◌, ◌=?◌, string_eq, lookup, insert, delete, All, arith,
}
use firecracker_shim.Domain.{SandboxRef}
use firecracker_shim.Vm.World.{Outcome, ok, err, nil_dereference, send_on_closed_channel}
use firecracker_shim.Vm.Manager.{StopEnv}
use firecracker_shim.Vm.Pool.{Pool, ReleaseEnv, acquire}
use firecracker_shim.Guest.Client.{
  Client, Link, Result, good, bad, start_container, create_container, connect, new_client,
}
use firecracker_shim.Shim.{
  Process, Service, Reply, response, failure, panic, TaskId, TaskStatus, status_created,
  status_stopped, StateResponse, CreateRequest, TaskEnv, process_not_found, context_done,
  new_service, state, state_of, process_status, create, created, connected, acquired, start,
  start_process, set_pid, kill, kill_process, delete_task, delete_process, remove, release_box,
  process_id, container_spec, init_process, root_config, after,
}
use firecracker_shim.Shim.Requests.{
  wait, wait_for, pause, pause_box, resume, resume_box, shutdown, cleanup_box, cleanup_shim,
}
use firecracker_shim.Shim.Tasks.{Step, creates, starts, kills, deletes}

abbrev Unexited : Process → Type 0
Unexited p = p.exited_at ≡ 0

abbrev Running : List (String × Process) → Type 0
Running m = All (λ e. Unexited e.1) m

abbrev Holds : Option Process → Type 0
Holds none = Unit
Holds (some p) = Unexited p

lookup-Holds : (k : String) (m : List (String × Process)) → Running m → Holds (lookup k m)
unfolding lookup
lookup-Holds k [] a = tt
lookup-Holds k ((j, p) ∷ m) a =
    choose Holds (j =? k) (some p) (lookup k m) a.0 (lookup-Holds k m a.1)

delete-Running : (k : String) (m : List (String × Process)) → Running m → Running (delete k m)
unfolding delete
delete-Running k [] a = tt
delete-Running k ((j, p) ∷ m) a =
    choose Running (j =? k) (delete k m) ((j, p) ∷ delete k m) (delete-Running k m a.1)
      (a.0, delete-Running k m a.1)

insert-Running :
    (k : String) (p : Process) (m : List (String × Process))
    → Unexited p
    → Running m
    → Running (insert k p m)
unfolding insert
insert-Running k p m h a = (h, delete-Running k m a)

abbrev told : Reply StateResponse → TaskStatus
told (response x) = x.status
told (failure e) = status_created
told panic = status_created

created-ne-stopped : status_created ≢ status_stopped
created-ne-stopped e = ground (arith, e)

process_status-Unexited : (p : Process) → Unexited p → process_status p ≢ status_stopped
unfolding process_status
process_status-Unexited p h = λ e. ground (arith, h, e)

module _ {ℓ} {S : Type ℓ} (link : Link S) where
  created-Running :
      (r : CreateRequest) (box : SandboxRef) (x : (Client × S) × Result (Unit {0})) (s : Service S)
      → Running s.processes
      → Running (created link r box x s).0.processes
  unfolding created init_process
  created-Running r box (st, bad e) s h = h
  created-Running r box (st, good _) s h = insert-Running r.id (init_process r) s.processes refl h

  connected-Running :
      (r : CreateRequest) (box : SandboxRef) (x : (Client × S) × Result (Unit {0})) (s : Service S)
      → Running s.processes
      → Running (connected link r box x s).0.processes
  unfolding connected
  connected-Running r box (st, bad e) s h = h
  connected-Running r box (st, good _) s h =
      created-Running r box (create_container link (container_spec r) st) (after st s) h

  acquired-Running :
      (env : TaskEnv) (r : CreateRequest) (x : Pool × Outcome SandboxRef) (s : Service S)
      → Running s.processes
      → Running (acquired link env r x s).0.processes
  unfolding acquired
  acquired-Running env r (p, ok box) s h =
      connected-Running r box (connect link env.dialled env.context_ends (new_client, s.guest)) _ h
  acquired-Running env r (p, err e) s h = h
  acquired-Running env r (p, nil_dereference) s h = h
  acquired-Running env r (p, send_on_closed_channel) s h = h

  set_pid-Running :
      (key : String) (p : Process) (x : (Client × S) × Result ℕ) (s : Service S)
      → Unexited p
      → Running s.processes
      → Running (set_pid link key p x s).0.processes
  unfolding set_pid
  set_pid-Running key p (st, bad e) s q h = h
  set_pid-Running key p (st, good n) s q h =
      insert-Running key (record p { pid = n }) s.processes q h

  start_process-Running :
      (key : String) (o : Option Process) (c : Option Client) (s : Service S)
      → Holds o
      → Running s.processes
      → Running (start_process link key o c s).0.processes
  unfolding start_process
  start_process-Running key none c s q h = h
  start_process-Running key (some p) none s q h = h
  start_process-Running key (some p) (some c) s q h =
      set_pid-Running key p (start_container link p.container_id (c, s.guest)) s q h

  kill_process-Running :
      (key : String) (o : Option Process) (c : Option Client) (s : Service S)
      → Running s.processes
      → Running (kill_process link key o c s).0.processes
  unfolding kill_process
  kill_process-Running key none c s h = h
  kill_process-Running key (some p) none s h = h
  kill_process-Running key (some p) (some c) s h = h

  processes-remove :
      (o : Option Client) (id : String) (s : Service S)
      → (remove link o id s).processes ≡ s.processes
  unfolding remove
  processes-remove none id s = refl
  processes-remove (some c) id s = refl

  processes-release :
      (env : ReleaseEnv) (o : Option SandboxRef) (s : Service S)
      → (release_box link env o s).0.processes ≡ s.processes
  unfolding release_box
  processes-release env none s = refl
  processes-release env (some box) s = refl

  delete_process-Running :
      (env : ReleaseEnv) (r : TaskId) (o : Option Process) (s : Service S)
      → Running s.processes
      → Running (delete_process link env r o s).0.processes
  unfolding delete_process
  delete_process-Running env r none s h = h
  delete_process-Running env r (some p) s h =
      let s1 = remove link s.agent_client p.container_id s in
      let s2 : Service S = record s1 { processes = delete (process_id r) s1.processes } in
      let left : Running s2.processes =
        delete-Running (process_id r) s1.processes
          (subst Running (sym (processes-remove s.agent_client p.container_id s)) h) in
      choose (λ (x : Service S × Bool). Running x.0.processes) (r.exec_id =? "")
        (release_box link env s2.sandbox s2) (s2, false)
        (subst Running (sym (processes-release env s2.sandbox s2)) left) left

  Step-Running : {s t : Service S} → Step link s t → Running s.processes → Running t.processes
  unfolding create start kill delete_task
  Step-Running (creates env r s) h =
      acquired-Running env r (acquire env.acquire (root_config r.rootfs) s.pool) s h
  Step-Running (starts r s) h =
      start_process-Running (process_id r) (lookup (process_id r) s.processes) s.agent_client s
        (lookup-Holds (process_id r) s.processes h) h
  Step-Running (kills r s) h =
      kill_process-Running (process_id r) (lookup (process_id r) s.processes) s.agent_client s h
  Step-Running (deletes env r s) h =
      delete_process-Running env r (lookup (process_id r) s.processes) s h

  -- Every request that changes the service.
  pub data AnyStep : Service S → Service S → Type ℓ where
    task : {s t : Service S} → Step link s t → AnyStep s t
    pauses : (answer : Bool) (s : Service S) → AnyStep s (pause answer s).0
    resumes : (answer : Bool) (s : Service S) → AnyStep s (resume answer s).0
    shuts_down : (env : SandboxRef → StopEnv) (s : Service S) → AnyStep s (shutdown env s)
    cleans_up : (env : StopEnv) (s : Service S) → AnyStep s (cleanup_shim env s)

  pub data Run (s : Service S) : Service S → Type ℓ where
    no_request : Run s s
    then_request : {t u : Service S} → Run s t → AnyStep t u → Run s u

  processes-pause :
      (answer : Bool) (o : Option SandboxRef) (s : Service S)
      → ((pause_box answer o s).0.processes ≡ s.processes)
        × ((resume_box answer o s).0.processes ≡ s.processes)
  unfolding pause_box resume_box
  processes-pause answer none s = (refl, refl)
  processes-pause answer (some box) s = (refl, refl)

  processes-cleanup :
      (env : StopEnv) (o : Option SandboxRef) (s : Service S)
      → (cleanup_box env o s).processes ≡ s.processes
  unfolding cleanup_box
  processes-cleanup env none s = refl
  processes-cleanup env (some box) s = refl

  AnyStep-Running : {s t : Service S} → AnyStep s t → Running s.processes → Running t.processes
  unfolding pause resume shutdown cleanup_shim
  AnyStep-Running (task u) h = Step-Running u h
  AnyStep-Running (pauses answer s) h = subst Running (sym (processes-pause answer s.sandbox s).0) h
  AnyStep-Running (resumes answer s) h =
      subst Running (sym (processes-pause answer s.sandbox s).1) h
  AnyStep-Running (shuts_down env s) h = h
  AnyStep-Running (cleans_up env s) h = subst Running (sym (processes-cleanup env s.sandbox s)) h

  Run-Running : {s t : Service S} → Run s t → Running s.processes → Running t.processes
  Run-Running no_request h = h
  Run-Running (then_request r u) h = AnyStep-Running u (Run-Running r h)

  wait_for-Unexited :
      (key : String) (o : Option Process)
      → Holds o
      → (wait_for key o ≡ failure (process_not_found key)) ⊎ (wait_for key o ≡ failure context_done)
  unfolding wait_for
  wait_for-Unexited key none h = inl refl
  wait_for-Unexited key (some p) h = inr (ground (arith, h))

  state_of-Unexited :
      (key : String) (o : Option Process) (s : Service S) (x : StateResponse)
      → Holds o
      → state_of key o s ≢ response (record x { status = status_stopped })
  unfolding state_of
  state_of-Unexited key none s x h = λ e. created-ne-stopped (ap told e)
  state_of-Unexited key (some p) s x h = λ e. process_status-Unexited p h (ap told e)

  -- No request of a run on a new service, whatever the pool and the agent answer, records the exit of
  -- a process: Wait finds no process or ends with its context only, and State never says that a
  -- process has stopped.
  pub exit_unseen :
      {s : Service S} (p : Pool) (g : S) (r : TaskId) (x : StateResponse)
      → Run (new_service p g) s
      → ((wait r s ≡ failure (process_not_found (process_id r)))
          ⊎ (wait r s ≡ failure context_done))
        × (state r s ≢ response (record x { status = status_stopped }))
  unfolding wait state new_service
  exit_unseen {s} p g r x run =
      let running : Running s.processes = Run-Running run tt in
      (
        wait_for-Unexited (process_id r) _ (lookup-Holds (process_id r) s.processes running),
        state_of-Unexited r.exec_id _ s x (lookup-Holds r.exec_id s.processes running),
      )
