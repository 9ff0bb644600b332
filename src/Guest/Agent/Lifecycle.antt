-- ===== src/Guest/Agent/Lifecycle.antt =====
-- The containers of the guest agent of cmd/fc-agent/main.go as state machines.
use firecracker_shim.Base.{
  ℕ, ◌≡◌, refl, sym, ◌∙◌, ap, subst, ◌≢◌, ◌⊎◌, inl, inr, String, Bool, true, false, Bool-cases,
  Option, none, some, List, [], ◌∷◌, if◌then◌else◌, if_then, if_else, ◌=?◌, string_eq, =?-refl,
  =?-ne, lookup, insert, delete, lookup-insert, lookup-delete, arith, choose,
}
use firecracker_shim.Guest.Protocol.{
  Params, Request, Answer, status, pid, Fault, not_found, pid_unreadable, pid_unparsable,
  runc_start_failed, string_param, already_exists, id_required,
}
use firecracker_shim.Guest.Agent.{
  Container, Agent, GuestEnv, Handled, done, fault, run, await_stop, Method, ping_method,
  create_method, start_method, stop_method, remove_method, exec_method, stats_method,
  unknown_method, method_of, dispatch, handle_request, mark_stopped, is_some, respond, runc_kill,
  create_new, Ran, exited, not_run, exec_answer, started, start_found, runc_state, runc_start,
  PidFile, unreadable, unparsable, holds,
}

-- What a request does to the container that it names, by its method and its result: `none` is an
-- error.
pub data Moves (id : String)
    : Method → Option Answer → Option Container → Option Container → Type 0 where
  fails : (m : Method) (o : Option Container) → Moves id m none o o
  pings : (x : Answer) (o : Option Container) → Moves id ping_method (some x) o o
  executes : (x : Answer) (o : Option Container) → Moves id exec_method (some x) o o
  reports : (x : Answer) (o : Option Container) → Moves id stats_method (some x) o o
  creates :
      (c : Container)
      → c.id ≡ id
      → c.status ≡ "created"
      → c.pid ≡ 0
      → Moves id create_method (some (status "created")) none (some c)
  starts :
      (c : Container) (n : ℕ)
      → Moves id start_method
          (some (pid n))
          (some c)
          (some (record c { pid = n; status = "running" }))
  stops :
      (c : Container)
      → Moves id stop_method
          (some (status "stopped"))
          (some c)
          (some (record c { status = "stopped" }))
  stops_none : Moves id stop_method (some (status "stopped")) none none
  removes : (o : Option Container) → Moves id remove_method (some (status "removed")) o none

abbrev result_of : Handled → Option Answer
result_of (done x) = some x
result_of (fault e) = none

-- What a handler returns has moved the container from what it was.
abbrev Moved : String → Method → Option Container → Agent × Handled → Type 0
Moved id m o (a, h) = Moves id m (result_of h) o (lookup id a.containers)

-- A fault that leaves the map as it was.
faulty :
    (id : String) (m : Method) (o : Option Container) (a : Agent) (e : Fault)
    → lookup id a.containers ≡ o
    → Moved id m o (a, fault e)
faulty id m o a e h = subst (Moves id m none o) (sym h) (fails m o)

containers-await_stop :
    (id : String) (polls : List String) (a : Agent)
    → (await_stop id polls a).containers ≡ a.containers
unfolding await_stop
containers-await_stop id [] a = refl
containers-await_stop id (p ∷ ps) a =
    ground (arith, containers-await_stop id ps (run (runc_state id) a))

pub insert-other :
    (id k : String) (c : Container) (m : List (String × Container))
    → id ≢ k
    → lookup k (insert id c m) ≡ lookup k m
insert-other id k c m h = lookup-insert id k c m ∙ if_else _ _ (=?-ne id k h)

delete-other :
    (id k : String) (m : List (String × Container)) → id ≢ k → lookup k (delete id m) ≡ lookup k m
delete-other id k m h = lookup-delete id k m ∙ if_else _ _ (=?-ne id k h)

pub insert-same :
    (id : String) (c : Container) (m : List (String × Container))
    → lookup id (insert id c m) ≡ some c
insert-same id c m = lookup-insert id id c m ∙ if_then _ _ (=?-refl id)

delete-same : (id : String) (m : List (String × Container)) → lookup id (delete id m) ≡ none
delete-same id m = lookup-delete id id m ∙ if_then _ _ (=?-refl id)

-- What a creation puts into the map.
abbrev pub fresh : GuestEnv → String → String → Container
fresh env id bundle = record {
  id = id;
  bundle = bundle;
  pid = 0;
  status = "created";
  created = env.now;
}

create_new-other :
    (env : GuestEnv) (id bundle k : String) (a : Agent)
    → id ≢ k
    → lookup k (create_new env id bundle a).0.containers ≡ lookup k a.containers
unfolding create_new
create_new-other env id bundle k a h =
    ground (arith, insert-other id k (fresh env id bundle) a.containers h)

create_new-same :
    (env : GuestEnv) (id bundle : String) (a : Agent)
    → lookup id a.containers ≡ none
    → Moved id create_method none (create_new env id bundle a)
unfolding create_new
create_new-same env id bundle a e = elim (Bool-cases env.mkdir_ok) [
  | inl d ↦ elim (Bool-cases env.create_ok) [
    | inl o ↦
        rw (d, o, insert-same id (fresh env id bundle) a.containers)
          (creates (fresh env id bundle) refl refl refl)
    | inr o ↦ rw (d, o, e) (fails _ _)
  ]
  | inr d ↦ rw (d, e) (fails _ _)
]

started-other :
    (f : PidFile) (id k : String) (c : Container) (a : Agent)
    → id ≢ k
    → lookup k (started f id c a).0.containers ≡ lookup k a.containers
unfolding started
started-other unreadable id k c a h = refl
started-other unparsable id k c a h = refl
started-other (holds n) id k c a h =
    insert-other id k (record c { pid = n; status = "running" }) a.containers h

started-same :
    (f : PidFile) (id : String) (c : Container) (a : Agent)
    → lookup id a.containers ≡ some c
    → Moved id start_method (some c) (started f id c a)
unfolding started
started-same unreadable id c a e = faulty id start_method (some c) a pid_unreadable e
started-same unparsable id c a e = faulty id start_method (some c) a pid_unparsable e
started-same (holds n) id c a e =
    rw (insert-same id (record c { pid = n; status = "running" }) a.containers) (starts c n)

start_found-other :
    (env : GuestEnv) (id k : String) (o : Option Container) (a : Agent)
    → id ≢ k
    → lookup k (start_found env id o a).0.containers ≡ lookup k a.containers
unfolding start_found
start_found-other env id k none a h = refl
start_found-other env id k (some c) a h =
    ground (arith, started-other env.pid_file id k c (run (runc_start id) a) h)

start_found-same :
    (env : GuestEnv) (id : String) (o : Option Container) (a : Agent)
    → lookup id a.containers ≡ o
    → Moved id start_method o (start_found env id o a)
unfolding start_found
start_found-same env id none a e = faulty id start_method none a (not_found id) e
start_found-same env id (some c) a e =
    choose (Moved id start_method (some c)) env.start_ok _ _
      (started-same env.pid_file id c (run (runc_start id) a) e)
      (faulty id start_method (some c) (run (runc_start id) a) runc_start_failed e)

mark_stopped-other :
    (id k : String) (o : Option Container) (a : Agent)
    → id ≢ k
    → lookup k (mark_stopped id o a).containers ≡ lookup k a.containers
mark_stopped-other id k none a h = refl
mark_stopped-other id k (some c) a h =
    insert-other id k (record c { status = "stopped" }) a.containers h

mark_stopped-same :
    (id : String) (o : Option Container) (a : Agent)
    → lookup id a.containers ≡ o
    → Moved id stop_method o (mark_stopped id o a, done (status "stopped"))
mark_stopped-same id none a e =
    subst (Moves id stop_method (some (status "stopped")) none) (sym e) stops_none
mark_stopped-same id (some c) a e =
    rw (insert-same id (record c { status = "stopped" }) a.containers) (stops c)

choose-other :
    (k : String) (o : Option Container) (b : Bool) (x y : Agent × Handled)
    → lookup k x.0.containers ≡ o
    → lookup k y.0.containers ≡ o
    → lookup k (if b then x else y).0.containers ≡ o
choose-other k o true x y p q = p
choose-other k o false x y p q = q

create_free-Moves :
    (env : GuestEnv) (id bundle : String) (o : Option Container) (a : Agent)
    → lookup id a.containers ≡ o
    → Moved id create_method o
        (if is_some o then (a, fault (already_exists id)) else create_new env id bundle a)
create_free-Moves env id bundle none a e = create_new-same env id bundle a e
create_free-Moves env id bundle (some c) a e =
    faulty id create_method (some c) a (already_exists id) e

exec_answered :
    (id : String) (o : Option Container) (r : Ran)
    → Moves id exec_method (result_of (exec_answer r)) o o
exec_answered id o (exited code out errors) = executes _ o
exec_answered id o not_run = fails _ o

-- The container that is named, by the case of the `switch`.
dispatch-Moves :
    (env : GuestEnv) (m : Method) (ps : Params) (a : Agent)
    → Moved
        (string_param "id" ps)
        m
        (lookup (string_param "id" ps) a.containers)
        (dispatch env m ps a)
unfolding dispatch
dispatch-Moves env ping_method ps a = pings _ _
dispatch-Moves env create_method ps a =
    let id = string_param "id" ps in
    choose (Moved id create_method (lookup id a.containers)) (id =? "") _ _ (fails _ _)
      (create_free-Moves env id (string_param "bundle" ps) _ a refl)
dispatch-Moves env start_method ps a =
    let id = string_param "id" ps in
    choose (Moved id start_method (lookup id a.containers)) (id =? "") _ _ (fails _ _)
      (start_found-same env id _ a refl)
dispatch-Moves env stop_method ps a =
    let id = string_param "id" ps in
    let a1 = await_stop id env.polls (run (runc_kill id "SIGTERM") a) in
    let a2 = run (runc_kill id "SIGKILL") a1 in
    let same = containers-await_stop id env.polls (run (runc_kill id "SIGTERM") a) in
    choose (Moved id stop_method (lookup id a.containers)) (id =? "") _ _ (fails _ _) (
      subst
        (λ m.
          Moved id stop_method (lookup id m)
            (mark_stopped id (lookup id a2.containers) a2, done (status "stopped")))
        same (mark_stopped-same id _ a2 refl))
dispatch-Moves env remove_method ps a =
    let id = string_param "id" ps in
    choose (Moved id remove_method (lookup id a.containers)) (id =? "") _ _ (fails _ _) (
      subst (Moves id remove_method (some (status "removed")) (lookup id a.containers))
        (sym (delete-same id a.containers)) (removes _))
dispatch-Moves env exec_method ps a =
    let id = string_param "id" ps in
    choose (Moved id exec_method (lookup id a.containers)) _ _ _ (fails _ _)
      (exec_answered id (lookup id a.containers) env.ran)
dispatch-Moves env stats_method ps a =
    let id = string_param "id" ps in
    choose (Moved id stats_method (lookup id a.containers)) (id =? "") _ _ (fails _ _) (reports _ _)
dispatch-Moves env unknown_method ps a = fails _ _

dispatch-other :
    (env : GuestEnv) (m : Method) (ps : Params) (a : Agent) (k : String)
    → string_param "id" ps ≢ k
    → lookup k (dispatch env m ps a).0.containers ≡ lookup k a.containers
unfolding dispatch
dispatch-other env ping_method ps a k h = refl
dispatch-other env create_method ps a k h =
    let id = string_param "id" ps in
    let taken = is_some (lookup id a.containers) in
    let made = create_new env id (string_param "bundle" ps) a in
    let kept : Agent × Handled = (a, fault (already_exists id)) in
    choose-other k _ (id =? "") (a, fault id_required) (if taken then kept else made) refl
      (choose-other k _ taken kept made refl
        (create_new-other env id (string_param "bundle" ps) k a h))
dispatch-other env start_method ps a k h =
    choose-other k _ _ _ _ refl (start_found-other env _ k _ a h)
dispatch-other env stop_method ps a k h =
    let id = string_param "id" ps in
    let a1 = await_stop id env.polls (run (runc_kill id "SIGTERM") a) in
    choose-other k _ _ _ _ refl (
      mark_stopped-other id k _ (run (runc_kill id "SIGKILL") a1) h
      ∙ ap (lookup k) (containers-await_stop id env.polls (run (runc_kill id "SIGTERM") a)))
dispatch-other env remove_method ps a k h =
    choose-other k _ _ _ _ refl (delete-other _ k a.containers h)
dispatch-other env exec_method ps a k h = choose-other k _ _ _ _ refl refl
dispatch-other env stats_method ps a k h = choose-other k _ _ _ _ refl refl
dispatch-other env unknown_method ps a k h = refl

respond_one :
    (n : ℕ) (h : Handled)
    → ((respond n h).id ≡ n)
      × (((x : Answer) × ((respond n h).result ≡ some x) × ((respond n h).error ≡ none))
          ⊎ ((e : Fault) × ((respond n h).result ≡ none) × ((respond n h).error ≡ some e)))
respond_one n (done x) = (refl, inl (x, refl, refl))
respond_one n (fault e) = (refl, inr (e, refl, refl))

respond-result : (n : ℕ) (h : Handled) → (respond n h).result ≡ result_of h
respond-result n (done x) = refl
respond-result n (fault e) = refl

-- Every request, of a known or an unknown method and whatever the commands answer, by its response:
-- a creation that succeeds makes a container in the state "created" where there was none; a start
-- that answers with a PID makes a known container "running" with that PID; a stop that succeeds makes
-- the container "stopped", if there is one; a removal that succeeds takes it away; and every other
-- request, every one that is answered with an error, and every one of an unknown method, which always
-- is, leaves the container alone.
pub handle_request-Moves :
    (env : GuestEnv) (req : Request) (a : Agent)
    → let id = string_param "id" req.params in
      let (a', resp) = handle_request env req a in
      Moves id (method_of req.method) resp.result (lookup id a.containers) (lookup id a'.containers)
unfolding handle_request
handle_request-Moves env req a =
    let id = string_param "id" req.params in
    let (a', h) = dispatch env (method_of req.method) req.params a in
    subst
      (λ x. Moves id (method_of req.method) x (lookup id a.containers) (lookup id a'.containers))
      (sym (respond-result req.id h)) (dispatch-Moves env (method_of req.method) req.params a)

-- A request leaves every container alone but the one that it names, and it is answered under its own
-- ID with either a result or an error, never both and never neither.
pub handle_request_frame :
    (env : GuestEnv) (req : Request) (a : Agent) (k : String)
    → string_param "id" req.params ≢ k
    → let (a', resp) = handle_request env req a in
      (lookup k a'.containers ≡ lookup k a.containers)
      × (resp.id ≡ req.id)
      × (((x : Answer) × (resp.result ≡ some x) × (resp.error ≡ none))
          ⊎ ((e : Fault) × (resp.result ≡ none) × (resp.error ≡ some e)))
unfolding handle_request
handle_request_frame env req a k h =
    let (same, one) = respond_one req.id (dispatch env (method_of req.method) req.params a).1 in
    (dispatch-other env (method_of req.method) req.params a k h, same, one)
