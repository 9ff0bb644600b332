-- ===== src/Config/Bounds.antt =====
-- The numbers that a file can put into a configuration of pkg/config/config.go.
use mathlib.Core.Option.{none-ne-some}
use firecracker_shim.Base.{
  choose, ℕ, ◌+◌, ◌^◌, ◌≤◌, ◌<◌, ◌≡◌, refl, sym, ◌∙◌, if_then, if_else, ◌==◌, inl, inr, Option,
  none, some, List, [], ◌∷◌, ◌=?◌, arith, Bool-cases, Option-cases, subst,
}
use firecracker_shim.Base.Int.{ℤ, pos_part, neg_part}
use firecracker_shim.Base.Text.{Text, codes, text_eq, split, trim_space}
use firecracker_shim.Config.Settings.{Config, VmConfig, PoolConfig}
use firecracker_shim.Config.Parser.{
  int_or, keep_unless, apply_vm, apply_pool, apply_config_value, Line, skipped, header, entry,
  read_line, with_line, parse_lines, parse_toml,
}
use firecracker_shim.Config.Numbers.{parse_int, parse_below, digits_value, within, plus, minus}

within_lt : (bound n : ℕ) (o : Option ℕ) → within bound o ≡ some n → n < bound
within_lt bound n none h = ground arith
within_lt bound n (some m) h = ground arith

parse_below_lt : (bound n : ℕ) (s : Text) → parse_below bound s ≡ some n → n < bound
unfolding parse_below
parse_below_lt bound n [] h = ground arith
parse_below_lt bound n (c ∷ cs) h = within_lt bound n (digits_value 0 (c ∷ cs)) h

plus-fits :
    (o : Option ℕ) (i : ℤ)
    → ((n : ℕ) → o ≡ some n → n < 2 ^ 63)
    → plus o ≡ some i
    → (pos_part i < 2 ^ 63) × (neg_part i ≤ 2 ^ 63)
plus-fits none i f h = absurd (none-ne-some _ h)
plus-fits (some n) i f h = let small = f n refl in ground (arith, small)

minus-fits :
    (o : Option ℕ) (i : ℤ)
    → ((n : ℕ) → o ≡ some n → n < 2 ^ 63 + 1)
    → minus o ≡ some i
    → (pos_part i < 2 ^ 63) × (neg_part i ≤ 2 ^ 63)
minus-fits none i f h = absurd (none-ne-some _ h)
minus-fits (some n) i f h = let small = f n refl in ground (arith, small)

-- A text that reads as an integer gives one that fits an int64.
parse_int_fits :
    (s : Text) (i : ℤ) → parse_int s ≡ some i → (pos_part i < 2 ^ 63) × (neg_part i ≤ 2 ^ 63)
unfolding parse_int
parse_int_fits [] i h = absurd (none-ne-some _ h)
parse_int_fits (c ∷ cs) i h = elim (Bool-cases (c == b'-')) [
  | inl b ↦
      minus-fits (parse_below (2 ^ 63 + 1) cs) i (λ n. parse_below_lt (2 ^ 63 + 1) n cs)
        (sym (if_then _ _ b) ∙ h)
  | inr b ↦ elim (Bool-cases (c == b'+')) [
    | inl d ↦
        plus-fits (parse_below (2 ^ 63) cs) i (λ n. parse_below_lt (2 ^ 63) n cs)
          (sym (if_else _ _ b ∙ if_then _ _ d) ∙ h)
    | inr d ↦
        plus-fits (parse_below (2 ^ 63) (c ∷ cs)) i (λ n. parse_below_lt (2 ^ 63) n (c ∷ cs))
          (sym (if_else _ _ b ∙ if_else _ _ d) ∙ h)
  ]
]

-- The numbers of the pool and of the VM that a file can set fit an int64.
abbrev pub Fits : ℤ → Type 0
Fits i = (pos_part i < 2 ^ 63) × (neg_part i ≤ 2 ^ 63)

pub int_or-Fits : (old : ℤ) (v : Text) → Fits old → Fits (int_or old v)
int_or-Fits old v f = elim (Option-cases (parse_int v)) [
  | inl e ↦ subst (λ o. Fits (keep_unless old o)) (sym e) f
  | inr (i, e) ↦ subst (λ o. Fits (keep_unless old o)) (sym e) (parse_int_fits v i e)
]

abbrev pub VmFits : VmConfig → Type 0
VmFits c =
    (Fits c.default_vcpu_count × Fits c.default_memory_mb)
    × (Fits c.min_memory_mb × Fits c.max_memory_mb)

abbrev pub PoolFits : PoolConfig → Type 0
PoolFits c = (Fits c.max_size × Fits c.min_size) × Fits c.warm_concurrency

abbrev pub NumbersFit : Config → Type 0
NumbersFit c = VmFits c.vm × PoolFits c.pool

apply_vm-Fits : (key v : Text) (c : VmConfig) → VmFits c → VmFits (apply_vm key v c)
unfolding apply_vm
apply_vm-Fits key v c f = choose VmFits (key =? codes "kernel_path") _ _ f (
    choose VmFits (key =? codes "kernel_args") _ _ f (
      choose VmFits (key =? codes "default_vcpu_count") _ _ ((int_or-Fits _ v f.0.0, f.0.1), f.1)
        (choose VmFits (key =? codes "default_memory_mb") _ _ ((f.0.0, int_or-Fits _ v f.0.1), f.1)
          (choose VmFits (key =? codes "min_memory_mb") _ _ (f.0, (int_or-Fits _ v f.1.0, f.1.1))
            (choose VmFits (key =? codes "max_memory_mb") _ _ (f.0, (f.1.0, int_or-Fits _ v f.1.1))
              (choose VmFits (key =? codes "enable_smt") _ _ f (
                choose VmFits (key =? codes "base_rootfs_path") _ _ f
                  (choose VmFits (key =? codes "vsock_enabled") _ _ f f))))))))

apply_pool-Fits :
    (scaled : ℕ → ℕ → ℕ → ℕ) (key v : Text) (c : PoolConfig)
    → PoolFits c
    → PoolFits (apply_pool scaled key v c)
unfolding apply_pool
apply_pool-Fits scaled key v c f = choose PoolFits (key =? codes "enabled") _ _ f (
    choose PoolFits (key =? codes "max_size") _ _ ((int_or-Fits _ v f.0.0, f.0.1), f.1)
      (choose PoolFits (key =? codes "min_size") _ _ ((f.0.0, int_or-Fits _ v f.0.1), f.1)
        (choose PoolFits (key =? codes "max_idle_time") _ _ f (
          choose PoolFits (key =? codes "warm_concurrency") _ _ (f.0, int_or-Fits _ v f.1)
            (choose PoolFits (key =? codes "replenish_interval") _ _ f
              (choose PoolFits (key =? codes "prewarm_on_start") _ _ f f))))))

apply-Fits :
    (scaled : ℕ → ℕ → ℕ → ℕ) (name key v : Text) (c : Config)
    → NumbersFit c
    → NumbersFit (apply_config_value scaled name key v c)
unfolding apply_config_value
apply-Fits scaled name key v c f = choose NumbersFit (name =? codes "runtime") _ _ f (
    choose NumbersFit (name =? codes "vm") _ _ (apply_vm-Fits key v c.vm f.0, f.1)
      (choose NumbersFit (name =? codes "pool") _ _ (f.0, apply_pool-Fits scaled key v c.pool f.1)
        (choose NumbersFit (name =? codes "network") _ _ f (
          choose NumbersFit (name =? codes "image") _ _ f (
            choose NumbersFit (name =? codes "agent") _ _ f (
              choose NumbersFit (name =? codes "metrics") _ _ f
                (choose NumbersFit (name =? codes "log") _ _ f f)))))))

with_line-Fits :
    (scaled : ℕ → ℕ → ℕ → ℕ) (next : Text → Config → Config)
    → ((name : Text) (c : Config) → NumbersFit c → NumbersFit (next name c))
    → (l : Line) (name : Text) (c : Config) → NumbersFit c
    → NumbersFit (with_line scaled next l name c)
with_line-Fits scaled next h skipped name c f = h name c f
with_line-Fits scaled next h (header new) name c f = h new c f
with_line-Fits scaled next h (entry key v) name c f =
    h name (apply_config_value scaled name key v c) (apply-Fits scaled name key v c f)

parse_lines-Fits :
    (scaled : ℕ → ℕ → ℕ → ℕ) (ls : List Text) (name : Text) (c : Config)
    → NumbersFit c
    → NumbersFit (parse_lines scaled ls name c)
unfolding parse_lines
parse_lines-Fits scaled [] name c f = f
parse_lines-Fits scaled (l ∷ ls) name c f =
    with_line-Fits scaled (parse_lines scaled ls) (parse_lines-Fits scaled ls)
      (read_line (trim_space l)) name c f

-- Whatever text a configuration file holds, reading it over a configuration whose VM and pool
-- numbers fit an int64 gives one whose VM and pool numbers fit an int64: numbers that do not fit or
-- do not parse leave the old ones.
pub parse_toml-Fits :
    (scaled : ℕ → ℕ → ℕ → ℕ) (source : Text) (c : Config)
    → NumbersFit c
    → NumbersFit (parse_toml scaled source c)
unfolding parse_toml
parse_toml-Fits scaled source c f = parse_lines-Fits scaled (split b'\n' source) [] c f
