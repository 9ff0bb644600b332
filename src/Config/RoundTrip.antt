-- ===== src/Config/RoundTrip.antt =====
-- A configuration file that is written item by item, and what `parseTOML` makes of it.
use mathlib.Core.List.{append_assoc}
use firecracker_shim.Base.{
  ℕ, ◌≡◌, refl, sym, ◌∙◌, ap, Bool, false, ◌||◌, ◌&&◌, some, List, [], ◌∷◌, ◌++◌, All, ◌==◌,
  if_then, if_else, arith,
}
use firecracker_shim.Base.Text.{Text, trim_right, trim, trim_space, split, cut, ends_with, is_space}
use firecracker_shim.Config.Parser.{
  is_bracket, is_quote, Line, skipped, header, entry, key_value, read_line, parse_lines, with_line,
  parse_toml, apply_config_value,
}
use firecracker_shim.Config.Settings.{Config}
use firecracker_shim.Config.Trimming.{
  Free, split-line, cut-at, trim_left-keep, trim_right-drop, trim-inner, trim-solid,
  trim_right-keep, trim_left-drop, ends_with-last,
}

-- The items of a file: an empty line, `#…`, `[name]`, and `key = "value"`.
pub data Item : Type 0 where
  empty : Item
  comment : Text → Item
  section : Text → Item
  setting : ℕ → Text → Text → Item  -- the key by its first code point and the rest

abbrev pub line_of : Item → Text
line_of empty = []
line_of (comment t) = b'#' ∷ t
line_of (section name) = b'[' ∷ (name ++ b']' ∷ [])
line_of (setting k key v) = (k ∷ key) ++ 32 ∷ b'=' ∷ 32 ∷ b'"' ∷ (v ++ b'"' ∷ [])

abbrev pub render : List Item → Text
render [] = []
render (i ∷ is) = line_of i ++ b'\n' ∷ render is

-- What a section name, a key and a value may hold.
abbrev pub is_newline : ℕ → Bool
is_newline c = c == b'\n'

abbrev pub not_in_key : ℕ → Bool
not_in_key c = is_space c || c == b'=' || c == b'#' || c == b'['

abbrev pub Writable : Item → Type 0
Writable empty = Unit
Writable (comment t) = Free is_newline t
Writable (section name) = Free is_newline name × Free is_bracket name
Writable (setting k key v) = Free not_in_key (k ∷ key) × Free is_newline v × Free is_quote v

-- The meaning of the items: each setting goes to the section that was named last.
unfoldable pub apply_items : (ℕ → ℕ → ℕ → ℕ) → List Item → Text → Config → Config
apply_items scaled [] name c = c
apply_items scaled (empty ∷ is) name c = apply_items scaled is name c
apply_items scaled (comment t ∷ is) name c = apply_items scaled is name c
apply_items scaled (section new ∷ is) name c = apply_items scaled is new c
apply_items scaled (setting k key v ∷ is) name c =
    apply_items scaled is name (apply_config_value scaled name (k ∷ key) v c)

abbrev line : Item → Line
line empty = skipped
line (comment t) = skipped
line (section name) = header name
line (setting k key v) = entry (k ∷ key) v

Free-append : (p : ℕ → Bool) (l m : Text) → Free p l → Free p m → Free p (l ++ m)
Free-append p [] m f g = g
Free-append p (c ∷ cs) m f g = (f.0, Free-append p cs m f.1 g)

Free-mono :
    (p q : ℕ → Bool) (l : Text) → ((c : ℕ) → p c ≡ false → q c ≡ false) → Free p l → Free q l
Free-mono p q [] h f = tt
Free-mono p q (c ∷ cs) h f = (h c f.0, Free-mono p q cs h f.1)

key-space : (c : ℕ) → not_in_key c ≡ false → is_space c ≡ false
key-space c h = ground arith

key-newline : (c : ℕ) → not_in_key c ≡ false → is_newline c ≡ false
unfolding is_space
key-newline c h = ground arith

key-equals : (c : ℕ) → not_in_key c ≡ false → (c == b'=') ≡ false
key-equals c h = ground arith

-- No line holds a newline.
line_of-Free : (i : Item) → Writable i → Free is_newline (line_of i)
line_of-Free empty w = tt
line_of-Free (comment t) w = (refl, w)
line_of-Free (section name) w = (refl, Free-append is_newline name _ w.0 (refl, tt))
line_of-Free (setting k key v) w =
    Free-append is_newline (k ∷ key) _ (Free-mono not_in_key is_newline (k ∷ key) key-newline w.0)
      (refl, (refl, (refl, (refl, Free-append is_newline v _ w.1 (refl, tt)))))

key-hash : (c : ℕ) → not_in_key c ≡ false → (c == b'#') ≡ false
key-hash c h = ground arith

key-bracket : (c : ℕ) → not_in_key c ≡ false → (c == b'[') ≡ false
key-bracket c h = ground arith

-- Each line reads as its item.
read_line-section :
    (name : Text)
    → Free is_bracket name
    → read_line (trim_space (b'[' ∷ (name ++ b']' ∷ []))) ≡ header name
unfolding trim_space read_line
read_line-section name f =
    ap read_line (trim-solid is_space name b'[' b']' refl refl)
    ∙ if_then _ _ (ends_with-last b']' b'[' name)
    ∙ ap header (trim-inner is_bracket name b'[' b']' f refl refl)

read_line-comment : (t : Text) → read_line (trim_space (b'#' ∷ t)) ≡ skipped
unfolding trim_space read_line
read_line-comment t = refl

key-trimmed :
    (k : ℕ) (key : Text) → Free not_in_key (k ∷ key) → trim_space ((k ∷ key) ++ 32 ∷ []) ≡ k ∷ key
unfolding trim_space
key-trimmed k key f =
    ap (trim_right is_space) (trim_left-keep is_space k (key ++ 32 ∷ []) (key-space k f.0))
    ∙ trim_right-drop is_space (k ∷ key) 32 (Free-mono not_in_key is_space (k ∷ key) key-space f)
        refl

value-trimmed :
    (v : Text) → Free is_quote v → trim is_quote (trim_space (32 ∷ b'"' ∷ (v ++ b'"' ∷ []))) ≡ v
unfolding trim_space
value-trimmed v f =
    ap (trim is_quote) (
      ap (trim_right is_space) (
        trim_left-drop is_space 32 (b'"' ∷ (v ++ b'"' ∷ [])) refl
        ∙ trim_left-keep is_space b'"' (v ++ b'"' ∷ []) refl)
      ∙ trim_right-keep is_space (b'"' ∷ v) b'"' refl)
    ∙ trim-inner is_quote v b'"' b'"' f refl refl

-- What stands behind the equals sign.
abbrev right_side : Text → Text
right_side v = 32 ∷ b'"' ∷ (v ++ b'"' ∷ [])

setting-trimmed :
    (k : ℕ) (key v : Text)
    → Free not_in_key (k ∷ key)
    → trim_space (line_of (setting k key v)) ≡ line_of (setting k key v)
unfolding trim_space
setting-trimmed k key v f =
    let shape : line_of (setting k key v) ≡ k ∷ ((key ++ 32 ∷ b'=' ∷ 32 ∷ b'"' ∷ v) ++ b'"' ∷ []) =
      ap (◌∷◌ k) (sym (append_assoc key (32 ∷ b'=' ∷ 32 ∷ b'"' ∷ v) (b'"' ∷ []))) in
    ap trim_space shape
    ∙ trim-solid is_space (key ++ 32 ∷ b'=' ∷ 32 ∷ b'"' ∷ v) k b'"' (key-space k f.0) refl
    ∙ sym shape

setting-cut :
    (k : ℕ) (key v : Text)
    → Free not_in_key (k ∷ key)
    → cut b'=' (line_of (setting k key v)) ≡ some ((k ∷ key) ++ 32 ∷ [], right_side v)
setting-cut k key v f =
    ap (cut b'=') (sym (append_assoc (k ∷ key) (32 ∷ []) (b'=' ∷ right_side v)))
    ∙ cut-at ((k ∷ key) ++ 32 ∷ []) (right_side v) b'=' (
        Free-append (λ c. c == b'=') (k ∷ key) (32 ∷ [])
          (Free-mono not_in_key (λ c. c == b'=') (k ∷ key) key-equals f) (refl, tt))

read_line-setting :
    (k : ℕ) (key v : Text)
    → Writable (setting k key v)
    → read_line (trim_space (line_of (setting k key v))) ≡ entry (k ∷ key) v
unfolding read_line
read_line-setting k key v w =
    ap read_line (setting-trimmed k key v w.0)
    ∙ if_else _ _ (key-hash k w.0.0)
    ∙ if_else _ _ (ap (λ b. b && ends_with b']' (line_of (setting k key v))) (key-bracket k w.0.0))
    ∙ ap key_value (setting-cut k key v w.0)
    ∙ ap (λ t. entry t (trim is_quote (trim_space (right_side v)))) (key-trimmed k key w.0)
    ∙ ap (entry (k ∷ key)) (value-trimmed v w.2)

read_line-line : (i : Item) → Writable i → read_line (trim_space (line_of i)) ≡ line i
unfolding trim_space read_line
read_line-line empty w = refl
read_line-line (comment t) w = read_line-comment t
read_line-line (section name) w = read_line-section name w.1
read_line-line (setting k key v) w = read_line-setting k key v w

parse_lines-nil :
    (scaled : ℕ → ℕ → ℕ → ℕ) (name : Text) (c : Config)
    → parse_lines scaled (split b'\n' []) name c ≡ c
unfolding parse_lines split trim_space
parse_lines-nil scaled name c = refl

parse_lines-cons :
    (scaled : ℕ → ℕ → ℕ → ℕ) (i : Item) (is : List Item) (name : Text) (c : Config)
    → Writable i
    → parse_lines scaled (split b'\n' (render (i ∷ is))) name c
      ≡ with_line scaled (parse_lines scaled (split b'\n' (render is))) (line i) name c
unfolding parse_lines
parse_lines-cons scaled i is name c w =
    let rest = split b'\n' (render is) in
    ap (λ ls. parse_lines scaled ls name c)
      (split-line (line_of i) (render is) b'\n' (line_of-Free i w))
    ∙ ap (λ l. with_line scaled (parse_lines scaled rest) l name c) (read_line-line i w)

parse_lines-items :
    (scaled : ℕ → ℕ → ℕ → ℕ) (is : List Item) (name : Text) (c : Config)
    → All Writable is
    → parse_lines scaled (split b'\n' (render is)) name c ≡ apply_items scaled is name c
unfolding apply_items
parse_lines-items scaled [] name c w = parse_lines-nil scaled name c
parse_lines-items scaled (empty ∷ is) name c w =
    parse_lines-cons scaled empty is name c w.0 ∙ parse_lines-items scaled is name c w.1
parse_lines-items scaled (comment t ∷ is) name c w =
    parse_lines-cons scaled (comment t) is name c w.0 ∙ parse_lines-items scaled is name c w.1
parse_lines-items scaled (section new ∷ is) name c w =
    parse_lines-cons scaled (section new) is name c w.0 ∙ parse_lines-items scaled is new c w.1
parse_lines-items scaled (setting k key v ∷ is) name c w =
    parse_lines-cons scaled (setting k key v) is name c w.0
    ∙ parse_lines-items scaled is name (apply_config_value scaled name (k ∷ key) v c) w.1

-- A file of empty lines, comments, section headers and settings `key = "value"`, in which comments,
-- section names, keys and values hold no newline, section names no bracket, keys no space, `=`, `#`
-- or `[`, and values no quotation mark, is read as it is meant: each setting is applied, in order, to
-- the section whose header came last before it, and the other lines change nothing.
pub parse_toml-render :
    (scaled : ℕ → ℕ → ℕ → ℕ) (is : List Item) (c : Config)
    → All Writable is
    → parse_toml scaled (render is) c ≡ apply_items scaled is [] c
unfolding parse_toml
parse_toml-render scaled is c w = parse_lines-items scaled is [] c w
