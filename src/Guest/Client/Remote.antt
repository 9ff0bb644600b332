-- ===== src/Guest/Client/Remote.antt =====
-- The client of pkg/agent/client.go, over any connection and over one to the agent of cmd/fc-agent.
use firecracker_shim.Base.{
  ℕ, ◌+◌, ◌%◌, ◌^◌, ◌≡◌, ◌≢◌, sym, ◌∙◌, ap, inl, inr, String, Bool, true, false, Bool-cases, none,
  some, List, ◌∷◌, if◌then◌else◌, if_then, if_else, ◌=?◌, nat_eq, string_eq, =?-refl, =?-ne, lookup,
  insert, lookup-insert, arith,
}
use firecracker_shim.Guest.Protocol.{Params, Response, status, pid}
use firecracker_shim.Guest.Agent.{
  Agent, Container, GuestEnv, holds, handle_request, runc_create, make_dir, runc_start, Command,
  Handled, done, fault, respond, dispatch, method_of, create_method, start_method, is_some, started,
  start_found, run,
}
use firecracker_shim.Guest.Agent.Lifecycle.{fresh, insert-same}
use firecracker_shim.Guest.Client.{
  Client, Reply, send_error, read_error, got, Link, check_reply, call, Result, good, bad,
  ContainerSpec, create_container, start_container, connect, spec_params, id_params, acknowledged,
  started_pid, CallError, not_connected,
}

check_reply-good : (n : ℕ) (reply : Reply) (r : Response) → check_reply n reply ≡ good r → r.id ≡ n
unfolding check_reply
check_reply-good n send_error r e = ground arith
check_reply-good n read_error r e = ground arith
check_reply-good n (got resp) r e = ground (arith, nat_eq.beq_iff resp.id n)

bad-ne-good : (e : CallError) (r : Response) → bad e ≢ good r
bad-ne-good e r h = ground arith

-- Over any connection, a call that returns a response returns one that carries the ID of this very
-- request, which is the ID after the client's last one (modulo 2^64).
pub call_matches {ℓ} :
    {S : Type ℓ} (link : Link S) (method : String) (ps : Params) (c : Client) (s : S) (r : Response)
    → (call link method ps (c, s)).1 ≡ good r
    → (r.id ≡ (call link method ps (c, s)).0.0.request_id) × (r.id ≡ (c.request_id + 1) % 2 ^ 64)
unfolding call
call_matches link method ps c s r e =
    let n = (c.request_id + 1) % 2 ^ 64 in
    let (s', reply) = link (record { id = n; method = method; params = ps }) s in
    elim (Bool-cases c.connected) [
      | inl b ↦
          let whole : call link method ps (c, s)
              ≡ ((record c { request_id = n }, s'), check_reply n reply) =
            if_then _ _ b in
          let same = check_reply-good n reply r (sym (ap (λ q. q.1) whole) ∙ e) in
          (same ∙ sym (ap (λ q. q.0.0.request_id) whole), same)
      | inr b ↦
          let whole : call link method ps (c, s) ≡ ((c, s), bad not_connected) = if_else _ _ b in
          absurd (bad-ne-good _ _ (sym (ap (λ q. q.1) whole) ∙ e))
    ]

-- The agent at the other end of a connection that loses nothing.
abbrev pub agent_link : GuestEnv → Link Agent
agent_link env req a = let (a', resp) = handle_request env req a in (a', got resp)

-- A client that connects to a living agent is ready after one ping, unless the context is done
-- before it; the agent's containers are as they were.
pub connect_ready :
    (env : GuestEnv) (stop : ℕ → Bool) (a : Agent) (c : Client)
    → stop 29 ≡ false
    → connect (agent_link env) true stop (c, a)
      ≡ ((record { connected = true; request_id = (c.request_id + 1) % 2 ^ 64 }, a), good tt)
unfolding connect handle_request
connect_ready env stop a c h = ground (arith, h)

respond-matches : (n : ℕ) (h : Handled) → check_reply n (got (respond n h)) ≡ good (respond n h)
unfolding check_reply
respond-matches n (done x) = if_then _ _ (=?-refl n)
respond-matches n (fault e) = if_then _ _ (=?-refl n)

-- What the two calls leave behind, each on its own.
abbrev ran_create : ContainerSpec → Agent → List Command
ran_create spec a = runc_create spec.id spec.bundle_path ∷ make_dir spec.id ∷ a.commands

-- A call on a connection whose other side answers under the request's ID.
call_answers :
    (env : GuestEnv) (method : String) (ps : Params) (c : Client) (a b : Agent) (h : Handled)
    → c.connected ≡ true
    → dispatch env (method_of method) ps a ≡ (b, h)
    → let n = (c.request_id + 1) % 2 ^ 64 in
      call (agent_link env) method ps (c, a)
      ≡ ((record c { request_id = n }, b), good (respond n h))
unfolding call handle_request
call_answers env method ps c a b h con e =
    let n = (c.request_id + 1) % 2 ^ 64 in
    if_then _ _ con
    ∙ ap
        (λ (q : Agent × Handled).
          ((record c { request_id = n }, q.0), check_reply n (got (respond n q.1))))
        e
    ∙ ap (λ (r : Result Response). ((record c { request_id = n }, b), r)) (respond-matches n h)

agent_creates :
    (env : GuestEnv) (spec : ContainerSpec) (a : Agent)
    → spec.id ≢ ""
    → lookup spec.id a.containers ≡ none
    → env.mkdir_ok ≡ true
    → env.create_ok ≡ true
    → dispatch env create_method (spec_params spec) a ≡ (
      record {
        containers = insert spec.id (fresh env spec.id spec.bundle_path) a.containers;
        commands = ran_create spec a;
      },
      done (status "created"),
    )
unfolding dispatch lookup
agent_creates env spec a ne free d o =
    if_else _ _ (=?-ne spec.id "" ne)
    ∙ if_else _ _ (ap is_some free)
    ∙ if_then _ _ d
    ∙ if_then _ _ o

agent_starts :
    (env : GuestEnv) (id : String) (a : Agent) (x : Container) (n : ℕ)
    → id ≢ ""
    → lookup id a.containers ≡ some x
    → env.start_ok ≡ true
    → env.pid_file ≡ holds n
    → dispatch env start_method (id_params id) a ≡ (
      record {
        containers = insert id (record x { pid = n; status = "running" }) a.containers;
        commands = runc_start id ∷ a.commands;
      },
      done (pid n),
    )
unfolding dispatch lookup
agent_starts env id a x n ne found s f =
    if_else _ _ (=?-ne id "" ne)
    ∙ ap (λ o. start_found env id o a) found
    ∙ if_then _ _ s
    ∙ ap (λ file. started file id x (run (runc_start id) a)) f

insert-shadowed :
    (id k : String) (x y : Container) (m : List (String × Container))
    → (if id =? k then some x else lookup k (insert id y m))
      ≡ (if id =? k then some x else lookup k m)
insert-shadowed id k x y m = ground (arith, lookup-insert id k y m)

-- `CreateContainer` and then `StartContainer` of a new ID, when `runc` and the files do their part:
-- both succeed, the second returns the PID of the pid file, and the agent holds the container as
-- running with that PID, and every other container as before.
pub create_start_runs :
    (env : GuestEnv) (spec : ContainerSpec) (c : Client) (a : Agent) (n : ℕ) (k : String)
    → c.connected ≡ true
    → spec.id ≢ ""
    → lookup spec.id a.containers ≡ none
    → env.mkdir_ok ≡ true
    → env.create_ok ≡ true
    → env.start_ok ≡ true
    → env.pid_file ≡ holds n
    → let (st, r) = create_container (agent_link env) spec (c, a) in
      let (st', r') = start_container (agent_link env) spec.id st in
      (r ≡ good tt)
      × (r' ≡ good n)
      × (lookup k st'.1.containers ≡ (
          if spec.id =? k
          then some (record {
            id = spec.id;
            bundle = spec.bundle_path;
            pid = n;
            status = "running";
            created = env.now;
          })
          else lookup k a.containers))
unfolding create_container start_container handle_request
create_start_runs env spec c a n k con ne free d o s f =
    let id = spec.id in
    let box = fresh env id spec.bundle_path in
    let running : Container = record box { pid = n; status = "running" } in
    let c1 : Client = record c { request_id = (c.request_id + 1) % 2 ^ 64 } in
    let a1 : Agent = record {
      containers = insert id box a.containers;
      commands = ran_create spec a;
    } in
    let c2 : Client = record c { request_id = (c1.request_id + 1) % 2 ^ 64 } in
    let a2 : Agent = record {
      containers = insert id running a1.containers;
      commands = runc_start id ∷ a1.commands;
    } in
    let first =
      call_answers env "create_container" (spec_params spec) c a _ _ con
        (agent_creates env spec a ne free d o) in
    let there = insert-same id box a.containers in
    let second =
      call_answers env "start_container" (id_params id) c1 a1 _ _ con
        (agent_starts env id a1 box n ne there s f) in
    let both : start_container (agent_link env) id (create_container (agent_link env) spec (c, a)).0
        ≡ start_container (agent_link env) id (c1, a1) =
      ap (λ (q : (Client × Agent) × Result Response). start_container (agent_link env) id q.0)
        first in
    let last : start_container (agent_link env) id (c1, a1) ≡ ((c2, a2), good n) =
      ap (λ (q : (Client × Agent) × Result Response). (q.0, started_pid q.1)) second in
    (
      ap (λ (q : (Client × Agent) × Result Response). acknowledged q.1) first,
      ap (λ (q : (Client × Agent) × Result ℕ). q.1) (both ∙ last),
      ap (λ (q : (Client × Agent) × Result ℕ). lookup k q.0.1.containers) (both ∙ last)
          ∙ lookup-insert id k running a1.containers
          ∙ insert-shadowed id k running box a.containers,
    )
