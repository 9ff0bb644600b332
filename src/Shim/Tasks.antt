-- ===== src/Shim/Tasks.antt =====
-- The life of a task in pkg/shim/service.go.
use firecracker_shim.Base.{
  choose, ℕ, ◌≡◌, refl, ap, ◌≢◌, ◌⊎◌, inl, inr, String, Bool, false, Option, none, some, [], ◌=?◌,
  string_eq, lookup, delete, arith,
}
use firecracker_shim.Domain.{SandboxRef}
use firecracker_shim.Vm.World.{Outcome, ok, err, nil_dereference, send_on_closed_channel}
use firecracker_shim.Vm.Pool.{Pool, ReleaseEnv, acquire}
use firecracker_shim.Guest.Client.{
  Client, Link, Result, good, bad, start_container, create_container, connect, new_client,
  stop_container,
}
use firecracker_shim.Shim.{
  Process, Service, panic, TaskId, CreateRequest, TaskEnv, killed, new_service, create, created,
  connected, acquired, start, start_process, set_pid, kill, kill_process, delete_task,
  delete_process, remove, release_box, process_id, container_spec, root_config, after,
}

module _ {ℓ} {S : Type ℓ} where
  -- Where a process is known, there is a client to reach the agent with.
  abbrev pub Attached : Service S → Type 0
  Attached s = (s.processes ≡ []) ⊎ ((c : Client) × (s.agent_client ≡ some c))

module _ {ℓ} {S : Type ℓ} (link : Link S) where
  created-Attached :
      (r : CreateRequest) (box : SandboxRef) (x : (Client × S) × Result (Unit {0})) (s : Service S)
      → Attached (created link r box x s).0
  unfolding created
  created-Attached r box (st, bad e) s = inr (st.0, refl)
  created-Attached r box (st, good _) s = inr (st.0, refl)

  connected-Attached :
      (r : CreateRequest) (box : SandboxRef) (x : (Client × S) × Result (Unit {0})) (s : Service S)
      → Attached (connected link r box x s).0
  unfolding connected
  connected-Attached r box (st, bad e) s = inr (st.0, refl)
  connected-Attached r box (st, good _) s =
      created-Attached r box (create_container link (container_spec r) st) (after st s)

  acquired-Attached :
      (env : TaskEnv) (r : CreateRequest) (x : Pool × Outcome SandboxRef) (s : Service S)
      → Attached s
      → Attached (acquired link env r x s).0
  unfolding acquired
  acquired-Attached env r (p, ok box) s h =
      connected-Attached r box (connect link env.dialled env.context_ends (new_client, s.guest)) _
  acquired-Attached env r (p, err e) s h = h
  acquired-Attached env r (p, nil_dereference) s h = h
  acquired-Attached env r (p, send_on_closed_channel) s h = h

  set_pid-Attached :
      (key : String) (p : Process) (x : (Client × S) × Result ℕ) (s : Service S)
      → Attached (set_pid link key p x s).0
  unfolding set_pid
  set_pid-Attached key p (st, bad e) s = inr (st.0, refl)
  set_pid-Attached key p (st, good n) s = inr (st.0, refl)

  start_process-Attached :
      (key : String) (o : Option Process) (c : Option Client) (s : Service S)
      → Attached s
      → Attached (start_process link key o c s).0
  unfolding start_process
  start_process-Attached key none c s h = h
  start_process-Attached key (some p) none s h = h
  start_process-Attached key (some p) (some c) s h =
      set_pid-Attached key p (start_container link p.container_id (c, s.guest)) s

  kill_process-Attached :
      (key : String) (o : Option Process) (c : Option Client) (s : Service S)
      → Attached s
      → Attached (kill_process link key o c s).0
  unfolding kill_process
  kill_process-Attached key none c s h = h
  kill_process-Attached key (some p) none s h = h
  kill_process-Attached key (some p) (some c) s h = inr (_, refl)

  release_box-Attached :
      (env : ReleaseEnv) (o : Option SandboxRef) (s : Service S)
      → Attached s
      → Attached (release_box link env o s).0
  unfolding release_box
  release_box-Attached env none s h = h
  release_box-Attached env (some box) s h = h

  -- A process is removed from the map, and the client stays.
  cleared-Attached :
      (key id : String) (o : Option Client) (s : Service S)
      → s.agent_client ≡ o
      → Attached s
      → Attached
          (record (remove link o id s) { processes = delete key (remove link o id s).processes })
  unfolding remove delete
  cleared-Attached key id none s e (inl h) = inl (ap (delete key) h)
  cleared-Attached key id none s e (inr h) = inr h
  cleared-Attached key id (some c) s e h = inr (_, refl)

  delete_process-Attached :
      (env : ReleaseEnv) (r : TaskId) (o : Option Process) (s : Service S)
      → Attached s
      → Attached (delete_process link env r o s).0
  unfolding delete_process
  delete_process-Attached env r none s h = h
  delete_process-Attached env r (some p) s h =
      let s1 = remove link s.agent_client p.container_id s in
      let s2 : Service S = record s1 { processes = delete (process_id r) s1.processes } in
      let h2 : Attached s2 =
        cleared-Attached (process_id r) p.container_id s.agent_client s refl h in
      choose (λ (x : Service S × Bool). Attached x.0) (r.exec_id =? "")
        (release_box link env s2.sandbox s2) (s2, false) (release_box-Attached env s2.sandbox s2 h2)
        h2

  -- The requests that change the service, in any order.
  pub data Step : Service S → Service S → Type ℓ where
    creates : (env : TaskEnv) (r : CreateRequest) (s : Service S) → Step s (create link env r s).0
    starts : (r : TaskId) (s : Service S) → Step s (start link r s).0
    kills : (r : TaskId) (s : Service S) → Step s (kill link r s).0
    deletes : (env : ReleaseEnv) (r : TaskId) (s : Service S) → Step s (delete_task link env r s).0

  pub data Reach (s : Service S) : Service S → Type ℓ where
    here : Reach s s
    next : {t u : Service S} → Reach s t → Step t u → Reach s u

  Step-Attached : {s t : Service S} → Step s t → Attached s → Attached t
  unfolding create start kill delete_task
  Step-Attached (creates env r s) h =
      acquired-Attached env r (acquire env.acquire (root_config r.rootfs) s.pool) s h
  Step-Attached (starts r s) h =
      start_process-Attached (process_id r) (lookup (process_id r) s.processes) s.agent_client s h
  Step-Attached (kills r s) h =
      kill_process-Attached (process_id r) (lookup (process_id r) s.processes) s.agent_client s h
  Step-Attached (deletes env r s) h =
      delete_process-Attached env r (lookup (process_id r) s.processes) s h

  Reach-Attached : {s t : Service S} → Reach s t → Attached s → Attached t
  Reach-Attached here h = h
  Reach-Attached (next r u) h = Step-Attached u (Reach-Attached r h)

  set_pid-fine :
      (key : String) (p : Process) (x : (Client × S) × Result ℕ) (s : Service S)
      → (set_pid link key p x s).1 ≢ panic
  unfolding set_pid
  set_pid-fine key p (st, bad e) s = λ h. ground arith
  set_pid-fine key p (st, good n) s = λ h. ground arith

  start_process-fine :
      (key : String) (o : Option Process) (c : Option Client) (s : Service S)
      → (o ≡ none) ⊎ ((d : Client) × (c ≡ some d))
      → (start_process link key o c s).1 ≢ panic
  unfolding start_process
  start_process-fine key none c s h = λ q. ground arith
  start_process-fine key (some p) none s h = λ q. ground arith
  start_process-fine key (some p) (some c) s h =
      set_pid-fine key p (start_container link p.container_id (c, s.guest)) s

  killed-fine : (r : Result (Unit {0})) → killed r ≢ panic
  killed-fine (good _) = λ h. ground arith
  killed-fine (bad e) = λ h. ground arith

  kill_process-fine :
      (key : String) (o : Option Process) (c : Option Client) (s : Service S)
      → (o ≡ none) ⊎ ((d : Client) × (c ≡ some d))
      → (kill_process link key o c s).1 ≢ panic
  unfolding kill_process
  kill_process-fine key none c s h = λ q. ground arith
  kill_process-fine key (some p) none s h = λ q. ground arith
  kill_process-fine key (some p) (some c) s h =
      killed-fine (stop_container link p.container_id 30000000000 (c, s.guest)).1

  known_or_Attached :
      (key : String) (s : Service S)
      → Attached s
      → (lookup key s.processes ≡ none) ⊎ ((d : Client) × (s.agent_client ≡ some d))
  unfolding lookup
  known_or_Attached key s (inl h) = inl (ap (lookup key) h)
  known_or_Attached key s (inr h) = inr h

  -- After any run of Create, Start, Kill and Delete on a new service, whatever the pool and the agent
  -- answer, Start and Kill do not panic: where they find a process there is a client for the agent.
  pub start_kill_never_panic :
      {s : Service S} (p : Pool) (g : S) (r : TaskId)
      → Reach (new_service p g) s
      → ((start link r s).1 ≢ panic) × ((kill link r s).1 ≢ panic)
  unfolding start kill new_service
  start_kill_never_panic {s} p g r run =
      let safe = known_or_Attached (process_id r) s (Reach-Attached run (inl refl)) in
      (
        start_process-fine (process_id r) _ s.agent_client s safe,
        kill_process-fine (process_id r) _ s.agent_client s safe,
      )
