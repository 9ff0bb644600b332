-- ===== src/Guest/Client.antt =====
-- The client of pkg/agent/client.go. The connection is a parameter: what comes back for a request,
-- with the state of the other side. A call holds the client's lock, so it is one step.
pub mod Remote
use firecracker_shim.Base.{
  ℕ, zero, suc, ◌+◌, ◌%◌, ◌^◌, ◌/◌, String, Bool, true, false, Option, none, some, List, [], ◌∷◌,
  if◌then◌else◌, ◌=?◌, nat_eq,
}
use firecracker_shim.Guest.Protocol.{
  Value, str, num, flag, words, Params, Request, Response, Answer, status, pid, exec, usage, Fault,
}

pub record Client : Type 0 where
  pub connected : Bool  -- `conn != nil`
  pub request_id : ℕ  -- uint64

pub data Reply : Type 0 where
  send_error read_error : Reply
  got : Response → Reply

abbrev pub Link {ℓ} : Type ℓ → Type ℓ
Link S = Request → S → S × Reply

pub data CallError : Type 0 where
  not_connected send_failed read_failed invalid_format not_ready cancelled dial_failed : CallError
  id_mismatch : ℕ → ℕ → CallError
  refused : Fault → CallError

pub data Result {ℓ} (A : Type ℓ) : Type ℓ where
  good : A → Result A
  bad : CallError → Result A

unfoldable pub new_client : Client
new_client = record { connected = false; request_id = 0 }

-- The checks behind the encoding of a request.
unfoldable pub check_reply : ℕ → Reply → Result Response
check_reply n send_error = bad send_failed
check_reply n read_error = bad read_failed
check_reply n (got resp) = if resp.id =? n then good resp else bad (id_mismatch n resp.id)

module _ {ℓ} {S : Type ℓ} where
  -- The state of the client and of the other side.
  unfoldable pub call : Link S → String → Params → Client × S → (Client × S) × Result Response
  unfolding check_reply
  call link method ps (c, s) =
      let n = (c.request_id + 1) % 2 ^ 64 in
      let (s', reply) = link (record { id = n; method = method; params = ps }) s in
      if c.connected
      then ((record c { request_id = n }, s'), check_reply n reply)
      else ((c, s), bad not_connected)

-- `resp.Error != nil`, and no result is looked at.
abbrev pub check_error : Option Fault → Result (Unit {0})
check_error none = good tt
check_error (some e) = bad (refused e)

unfoldable pub acknowledged : Result Response → Result (Unit {0})
acknowledged (bad e) = bad e
acknowledged (good resp) = check_error resp.error

-- `pid, _ := result["pid"].(float64)` of a result that is a map.
abbrev pub pid_of : Option Answer → Result ℕ
pid_of none = bad invalid_format
pid_of (some (pid n)) = good n
pid_of (some _) = good 0

abbrev pub pid_unless : Option Fault → Option Answer → Result ℕ
pid_unless none x = pid_of x
pid_unless (some e) x = bad (refused e)

unfoldable pub started_pid : Result Response → Result ℕ
started_pid (bad e) = bad e
started_pid (good resp) = pid_unless resp.error resp.result

-- The fields of `domain.ContainerSpec`.
pub record ContainerSpec : Type 0 where
  pub id : String
  pub bundle_path : String
  pub stdin : Bool
  pub stdout : Bool
  pub stderr : Bool
  pub terminal : Bool

abbrev pub id_params : String → Params
id_params id = ("id", str id) ∷ []

abbrev pub spec_params : ContainerSpec → Params
spec_params spec =
    ("id", str spec.id)
    ∷ ("bundle", str spec.bundle_path)
    ∷ ("stdin", flag spec.stdin)
    ∷ ("stdout", flag spec.stdout)
    ∷ ("stderr", flag spec.stderr)
    ∷ ("terminal", flag spec.terminal)
    ∷ []

-- A timeout in nanoseconds, `int(timeout.Seconds())`.
abbrev pub seconds : ℕ → ℕ
seconds timeout = timeout / 1000000000

module _ {ℓ} {S : Type ℓ} (link : Link S) where
  unfoldable pub create_container : ContainerSpec → Client × S → (Client × S) × Result (Unit {0})
  unfolding call acknowledged
  create_container spec st =
      let (st', r) = call link "create_container" (spec_params spec) st in (st', acknowledged r)

  unfoldable pub start_container : String → Client × S → (Client × S) × Result ℕ
  unfolding call started_pid
  start_container id st =
      let (st', r) = call link "start_container" (id_params id) st in (st', started_pid r)

  unfoldable pub stop_container : String → ℕ → Client × S → (Client × S) × Result (Unit {0})
  unfolding call acknowledged
  stop_container id timeout st =
      let ps = ("id", str id) ∷ ("timeout", num (seconds timeout)) ∷ [] in
      let (st', r) = call link "stop_container" ps st in (st', acknowledged r)

  unfoldable pub remove_container : String → Client × S → (Client × S) × Result (Unit {0})
  unfolding call acknowledged
  remove_container id st =
      let (st', r) = call link "remove_container" (id_params id) st in (st', acknowledged r)

  -- `waitForReady` with the rounds left; `stop` says in which round the context is done.
  unfoldable pub wait_for_ready : (ℕ → Bool) → ℕ → Client × S → (Client × S) × Result (Unit {0})
  unfolding call acknowledged
  wait_for_ready stop zero st = (st, bad not_ready)
  wait_for_ready stop (suc n) st =
      let (st', r) = call link "ping" [] st in
      let again = wait_for_ready stop n st' in
      if stop n
      then (st, bad cancelled)
      else elim (acknowledged r) [ good _ ↦ (st', good tt) | bad _ ↦ again ]

  -- `dialled` says whether one of the two ways to dial worked. A failed wait closes the connection,
  -- but `conn` keeps it.
  unfoldable pub connect : Bool → (ℕ → Bool) → Client × S → (Client × S) × Result (Unit {0})
  unfolding wait_for_ready
  connect dialled stop (c, s) =
      let ready = wait_for_ready stop 30 (record c { connected = true }, s) in
      if dialled then ready else ((c, s), bad dial_failed)
