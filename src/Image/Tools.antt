-- ===== src/Image/Tools.antt =====
-- The calls that pkg/image makes outside: external programs and the file system, whose answers are
-- the fields of an environment. The paths of directories have no slash at their end.
use mathlib.Core.List.{reverse}
use firecracker_shim.Base.{ℕ, Bool, Option, String, List, ◌∷◌, ◌++◌, if◌then◌else◌}
use firecracker_shim.Base.Int.{ℤ}
use firecracker_shim.Base.Text.{Text, codes, trim_prefix}

-- `filepath.Join(dir, name)`.
abbrev pub join : Text → Text → Text
join dir name = dir ++ b'/' ∷ name

-- `strings.TrimSuffix`.
unfoldable pub trim_suffix : Text → Text → Text
unfolding trim_prefix
trim_suffix p s = reverse (trim_prefix (reverse p) (reverse s))

-- A word of a command line: a text, or a number in decimal behind a text.
pub data Word : Type 0 where
  text : Text → Word
  counted : Text → ℤ → Word

abbrev pub w : String → Word
w s = text (codes s)

abbrev pub Command : Type 0
Command = List Word

-- `OCIImageConfig`.
pub record OciConfig : Type 0 where
  pub entrypoint : List Text
  pub cmd : List Text
  pub env : List Text
  pub working_dir : Text
  pub user : Text
  pub labels : List (Text × Text)
  pub exposed_ports : List Text

pub data ImageEffect : Type 0 where
  ran : Command → ImageEffect
  made_dir created removed removed_tree : Text → ImageEffect
  truncated : Text → ℤ → ImageEffect
  mounted : Bool → Text → Text → ImageEffect  -- read-only or not, an image, and a directory
  unmounted : Text → ImageEffect  -- `umount` was called, whatever it answered
  wrote_config : Text → OciConfig → ImageEffect

-- Newest first.
abbrev pub Effects : Type 0
Effects = List ImageEffect

-- What the calls answer in one conversion.
pub record ToolEnv : Type 0 where
  pub runs : Command → Bool  -- the program ends without an error
  pub mkdir_ok : Text → Bool
  pub mount_ok : Text → Text → Bool  -- `mount -o loop` of an image on a directory
  pub create_ok : Text → Bool
  pub truncate_ok : Text → Bool
  pub exists : Text → Bool  -- `os.Stat` gives no error
  pub absent : Text → Bool  -- its error says that there is no such file
  pub size_of : Text → Option ℤ  -- the size of a file after the tools ran
  pub disk_usage : ℤ  -- the number in what `du` prints, 0 where there is none
  pub readable_size : ℤ  -- the sum of the sizes of the files that can be read
  pub walked_size : Option ℤ  -- the same sum, where no file gives an error
  pub with_headroom : ℤ → ℤ  -- `int64(float64(n) * 1.2)`
  pub write_ok : Text → Bool
  -- What the file at a path holds, where it can be read and decoded.
  pub index_of : Text → Option (List Text)  -- the digests of the manifests
  pub manifest_of : Text → Option Text  -- the digest of the configuration
  pub config_of : Text → Option OciConfig
  pub pid : ℕ
  pub now : ℕ

pub data ImageError : Type 0 where
  pull_failed unpack_failed export_failed size_failed dir_failed : ImageError
  create_failed truncate_failed dd_failed mkfs_failed mount_dir_failed mount_failed copy_failed :
      ImageError
  tool_failed no_output conversion_failed cancelled remove_failed : ImageError

pub data Result {ℓ} (A : Type ℓ) : Type ℓ where
  good : A → Result A
  bad : ImageError → Result A

-- `cmd.Run`, and what follows only if it succeeds.
abbrev pub run_or {ℓ} :
    {A : Type ℓ}
    → ToolEnv
    → Command
    → ImageError
    → Effects
    → (Effects → Effects × Result A)
    → Effects × Result A
run_or env c e fx next = if env.runs c then next (ran c ∷ fx) else (ran c ∷ fx, bad e)

-- `if err != nil { return err }` after a call that changes files only.
abbrev pub then_ {ℓ} :
    {A : Type ℓ} → Effects × Result (Unit {0}) → (Effects → Effects × Result A) → Effects × Result A
then_ (fx, good _) next = next fx
then_ (fx, bad e) next = (fx, bad e)

-- A deferred call.
abbrev pub finally {ℓ} : {A : Type ℓ} → (Effects → Effects) → Effects × A → Effects × A
finally f (fx, r) = (f fx, r)

-- A call whose failure nobody looks at.
abbrev pub run_anyway : Command → Effects → Effects
run_anyway c fx = ran c ∷ fx

abbrev pub succeed : Effects → Effects × Result (Unit {0})
succeed fx = (fx, good tt)
