-- ===== src/Examples/Config.antt =====
-- Configurations of pkg/config/config.go.
use firecracker_shim.Base.{
  if◌then◌else◌, ◌=?◌, string_eq, ℕ, arith, Bool, not, ◌&&◌, ◌*◌, ◌/◌, ◌^◌, ◌≡◌, refl, ◌↔◌, true,
  none, List, [], ◌∷◌, All,
}
use firecracker_shim.Base.Text.{Text, codes, is_space}
use firecracker_shim.Config.Checked.{Valid, validate_iff}
use firecracker_shim.Config.Loading.{FileSystem, Environment, validate}
use firecracker_shim.Config.Parser.{is_bracket, is_quote, parse_toml}
use firecracker_shim.Config.RoundTrip.{
  Item, empty, comment, section, setting, Writable, is_newline, not_in_key, render, apply_items,
  parse_toml-render,
}
use firecracker_shim.Config.Trimming.{Free}
use firecracker_shim.Config.Settings.{Config, default_config}

-- The product of a fraction, where no precision is lost.
abbrev exact : ℕ → ℕ → ℕ → ℕ
exact f digits unit_ = f * unit_ / 10 ^ digits

-- Each setting with its key by the first code point and the rest.
abbrev sample : List Item
sample =
    comment (codes " limits")
    ∷ section (codes "vm")
    ∷ setting b'm' (codes "ax_memory_mb") (codes "512")
    ∷ empty
    ∷ section (codes "pool")
    ∷ setting b'm' (codes "ax_idle_time") (codes "1.5s")
    ∷ setting b'e' (codes "nabled") (codes "false")
    ∷ []

abbrev all_there : FileSystem
all_there = record { mkdir_ok = λ p. true; stat_ok = λ p. true }

abbrev too_large : Text
too_large = codes "[pool]\nmax_size = 99999999999999999999\n"

abbrev unset : Environment
unset key = []

abbrev file_config : Config
file_config = parse_toml exact too_large default_config

-- A test for the texts of the sample.
abbrev passes_none : (ℕ → Bool) → Text → Bool
passes_none p [] = true
passes_none p (c ∷ cs) = not (p c) && passes_none p cs

free : (p : ℕ → Bool) (t : Text) → passes_none p t ≡ true → Free p t
free p [] h = tt
free p (c ∷ cs) h = (ground (arith, h), free p cs (ground (arith, h)))

abbrev all_writable : List Item → Bool
all_writable [] = true
all_writable (empty ∷ is) = all_writable is
all_writable (comment t ∷ is) = passes_none is_newline t && all_writable is
all_writable (section name ∷ is) =
    (passes_none is_newline name && passes_none is_bracket name) && all_writable is
all_writable (setting k key v ∷ is) =
    (passes_none not_in_key (k ∷ key) && passes_none is_newline v && passes_none is_quote v)
    && all_writable is

both : (a b : Bool) → (a && b) ≡ true → (a ≡ true) × (b ≡ true)
both a b h = (ground arith, ground arith)

writable : (is : List Item) → all_writable is ≡ true → All Writable is
writable [] h = tt
writable (empty ∷ is) h = (tt, writable is h)
writable (comment t ∷ is) h =
    let (here, rest) = both _ _ h in (free is_newline t here, writable is rest)
writable (section name ∷ is) h =
    let (here, rest) = both (passes_none is_newline name && passes_none is_bracket name) _ h in
    let (a, b) = both (passes_none is_newline name) _ here in
    ((free is_newline name a, free is_bracket name b), writable is rest)
writable (setting k key v ∷ is) h =
    let (here, rest) =
      both (passes_none not_in_key (k ∷ key) && passes_none is_newline v && passes_none is_quote v)
        _ h in
    let (ab, c) = both (passes_none not_in_key (k ∷ key) && passes_none is_newline v) _ here in
    let (a, b) = both (passes_none not_in_key (k ∷ key)) _ ab in
    ((free not_in_key (k ∷ key) a, free is_newline v b, free is_quote v c), writable is rest)

sample-Writable : All Writable sample
unfolding is_space
sample-Writable = writable sample refl

parse_toml-render_example :
    parse_toml exact (render sample) default_config ≡ apply_items exact sample [] default_config
parse_toml-render_example = parse_toml-render exact sample default_config sample-Writable

validate_iff_example : (validate all_there default_config ≡ none) ↔ Valid all_there default_config
validate_iff_example = validate_iff all_there default_config

-- One variable holds a number, another one a number that is too large.
abbrev some_set : Environment
some_set name =
    if name =? "FC_CRI_VM_DEFAULT_VCPU_COUNT"
    then codes "+4"
    else if name =? "FC_CRI_POOL_MAX_SIZE"
    then codes "9223372036854775808"
    else []
