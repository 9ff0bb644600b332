-- ===== src/Guest/Protocol.antt =====
-- The messages between the client of pkg/agent/client.go and the agent of cmd/fc-agent/main.go, as
-- they stand after `encoding/json` has decoded them. Error texts are data with the same arguments.
use firecracker_shim.Base.{ℕ, String, Bool, Option, some, List, [], string_eq, lookup}

-- A JSON value of a parameter.
pub data Value : Type 0 where
  str : String → Value
  num : ℕ → Value
  flag : Bool → Value
  words : List String → Value

abbrev pub Params : Type 0
Params = List (String × Value)

pub record Request : Type 0 where
  pub id : ℕ  -- uint64
  pub method : String
  pub params : Params

-- The result of a handler: `{"status": …}`, `{"pid": …}`, and the two that report numbers.
pub data Answer : Type 0 where
  status : String → Answer
  pid : ℕ → Answer
  exec : ℕ → String → String → Answer
  usage : ℕ → ℕ → Answer

pub data Fault : Type 0 where
  id_required id_and_command_required method_not_found dir_failed runc_create_failed
        runc_start_failed :
      Fault
  pid_unreadable pid_unparsable exec_failed : Fault
  already_exists not_found : String → Fault

pub record Response : Type 0 where
  pub id : ℕ
  pub result : Option Answer
  pub error : Option Fault

-- `s, _ := params[key].(string)`, and the same for a number and a list.
abbrev string_of : Option Value → String
string_of (some (str s)) = s
string_of _ = ""

abbrev number_of : Option Value → ℕ
number_of (some (num n)) = n
number_of _ = 0

abbrev words_of : Option Value → List String
words_of (some (words ws)) = ws
words_of _ = []

unfoldable pub string_param : String → Params → String
string_param key ps = string_of (lookup key ps)

unfoldable pub number_param : String → Params → ℕ
number_param key ps = number_of (lookup key ps)

unfoldable pub words_param : String → Params → List String
words_param key ps = words_of (lookup key ps)
