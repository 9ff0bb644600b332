-- ===== src/Config/Layers.antt =====
-- The layers of a configuration in pkg/config/config.go: defaults, file and environment.
use mathlib.Core.Option.{none-ne-some, some-injective}
use firecracker_shim.Base.{ℕ, ◌≡◌, subst, Option, some, [], ◌∷◌, arith}
use firecracker_shim.Config.Numerals.{Spells}
use firecracker_shim.Base.Int.{ℤ}
use firecracker_shim.Base.Text.{Text}
use firecracker_shim.Config.Bounds.{Fits, int_or-Fits, NumbersFit, parse_toml-Fits}
use firecracker_shim.Config.Loading.{
  Environment, FileRead, not_exist, read_failed, contents, int_over, load_from_file, load_from_env,
}
use firecracker_shim.Config.Settings.{Config, default_config}

int_over-Fits : (v : Text) (old : ℤ) → Fits old → Fits (int_over v old)
int_over-Fits [] old f = f
int_over-Fits (c ∷ cs) old f = int_or-Fits old (c ∷ cs) f

default-Fits : NumbersFit default_config
unfolding default_config
default-Fits = ground arith

from_file-Fits :
    (scaled : ℕ → ℕ → ℕ → ℕ) (file : FileRead) (c : Config)
    → load_from_file scaled file ≡ some c
    → NumbersFit c
unfolding load_from_file
from_file-Fits scaled not_exist c e = subst NumbersFit (some-injective _ _ e) default-Fits
from_file-Fits scaled read_failed c e = absurd (none-ne-some _ e)
from_file-Fits scaled (contents t) c e =
    subst NumbersFit (some-injective _ _ e) (parse_toml-Fits scaled t default_config default-Fits)

-- Whatever the file holds and the environment sets, the numbers of the VM and of the pool fit an int64.
loaded-Fits :
    (scaled : ℕ → ℕ → ℕ → ℕ) (file : FileRead) (env : Environment) (c : Config)
    → load_from_file scaled file ≡ some c
    → NumbersFit (load_from_env scaled env c)
unfolding load_from_env
loaded-Fits scaled file env c e =
    let f = from_file-Fits scaled file c e in
    (
      (
        (
          int_over-Fits (env "FC_CRI_VM_DEFAULT_VCPU_COUNT") _ f.0.0.0,
          int_over-Fits (env "FC_CRI_VM_DEFAULT_MEMORY_MB") _ f.0.0.1,
        ),
        (
          int_over-Fits (env "FC_CRI_VM_MIN_MEMORY_MB") _ f.0.1.0,
          int_over-Fits (env "FC_CRI_VM_MAX_MEMORY_MB") _ f.0.1.1,
        ),
      ),
      (
        (
          int_over-Fits (env "FC_CRI_POOL_MAX_SIZE") _ f.1.0.0,
          int_over-Fits (env "FC_CRI_POOL_MIN_SIZE") _ f.1.0.1,
        ),
        int_over-Fits (env "FC_CRI_POOL_WARM_CONCURRENCY") _ f.1.1,
      ),
    )

-- A variable that spells a number gives it; any other leaves the number of the layer below.
abbrev pub Layered : Text → ℤ → ℤ → Type 0
Layered v old new = ((i : ℤ) → Spells v i → new ≡ i) × (((i : ℤ) → ¬ Spells v i) → new ≡ old)
